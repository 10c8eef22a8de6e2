-- ===== src/Launcher/Main/Joins.antt =====
-- How `main` of src/launcher.cpp ends, by its command line and by how its threads end.
use arq_benchmark.Base.{
  ℕ, suc, ◌-◌, ◌≤◌, ◌≡◌, ◌⊎◌, inl, inr, refl, ap, ◌∙◌, subst, arith, Bool, true, false, not, ◌&&◌,
  ◌||◌, Option, none, some, is_some, if◌then◌else◌, returns, ◌>>=◌,
}
use arq_benchmark.Util.Logging
use arq_benchmark.Util.Logging.{Logger}
use arq_benchmark.Util.Os.{value, raised, terminated, Exception}
use arq_benchmark.Launcher.Config.{LauncherConfig, Parse, parsed, help, failed}
use arq_benchmark.Launcher.Options.{Variables}
use arq_benchmark.Launcher.Main.{
  Threads, End, join_loop, Run, exits, thread_throws, waits, ends_process, after_joins, run_threads,
  finish, generate_configuration, main, success, failure,
}

abbrev pub all_joined : Threads
all_joined = record { tx_joinable = false; rx_joinable = false; tx_joined = true; rx_joined = true }

-- A thread that is started, if the flag is true: it is not or it returns, an exception leaves it, or it
-- goes on for ever.
abbrev pub Returned : Bool → End → Type 0
Returned is_started end = (is_started ≡ false) ⊎ (end ≡ some (value tt))

abbrev pub Threw : Bool → End → Type 0
Threw is_started end =
    (is_started ≡ true) × (((e : Exception) × (end ≡ some (raised e))) ⊎ (end ≡ some terminated))

abbrev pub GoesOn : Bool → End → Type 0
GoesOn is_started end = (is_started ≡ true) × (end ≡ none)

abbrev goes_on : Bool → End → Bool
goes_on is_started end = is_started && not (is_some end)

thread-cases :
    (s : Bool) (a : End)
    → (Returned s a × ((s && ends_process a) ≡ false) × (goes_on s a ≡ false))
      ⊎ ((Threw s a × ((s && ends_process a) ≡ true))
          ⊎ (GoesOn s a × ((s && ends_process a) ≡ false) × (goes_on s a ≡ true)))
thread-cases false a = inl (inl refl, refl, refl)
thread-cases true none = inr (inr ((refl, refl), refl, refl))
thread-cases true (some (value tt)) = inl (inr refl, refl, refl)
thread-cases true (some (raised e)) = inr (inl ((refl, inl (e, refl)), refl))
thread-cases true (some terminated) = inr (inl ((refl, inr refl), refl))

Threw-ends_process : (s : Bool) (a : End) → Threw s a → (s && ends_process a) ≡ true
Threw-ends_process s a (on, inl (e, q)) = rw (on, q) refl
Threw-ends_process s a (on, inr q) = rw (on, q) refl

-- Two rounds are enough for the loop.
join_loop-joins :
    (a b : End) (s c : Bool) (n : ℕ)
    → join_loop a b
        (suc (suc n))
        (record { tx_joinable = s; rx_joinable = c; tx_joined = not s; rx_joined = not c })
      ≡ returns (if goes_on s a || goes_on c b then none else some all_joined)
unfolding join_loop
join_loop-joins a b false false n = refl
join_loop-joins a none false true n = refl
join_loop-joins a (some r) false true n = refl
join_loop-joins none b true c n = refl
join_loop-joins (some r) b true false n = refl
join_loop-joins (some r) none true true n = refl
join_loop-joins (some r) (some r') true true n = refl

module _ (tx rx : LauncherConfig → End) (config : LauncherConfig) (logger : Logger) where
  -- What becomes of `main` by how the threads end.
  abbrev pub EndsAs : Run → Type 0
  EndsAs run =
      (Returned (is_some config.server) (tx config)
        × Returned (is_some config.client) (rx config)
        × (run ≡ exits success (some (all_joined, Logging.enable_timestamps logger))))
      ⊎ (((Threw (is_some config.server) (tx config) ⊎ Threw (is_some config.client) (rx config))
            × (run ≡ thread_throws))
          ⊎ ((¬ Threw (is_some config.server) (tx config))
              × (¬ Threw (is_some config.client) (rx config))
              × (GoesOn (is_some config.server) (tx config)
                  ⊎ GoesOn (is_some config.client) (rx config))
              × (run ≡ waits)))

  not-Threw :
      (is_started : Bool) (end : End)
      → (is_started && ends_process end) ≡ false
      → ¬ Threw is_started end
  not-Threw is_started end e t = cc (e, Threw-ends_process is_started end t)

  run_threads-EndsAs :
      (n : ℕ)
      → (run : Run) × (run_threads
            (tx config)
            (rx config)
            (suc (suc n))
            config
            (Logging.enable_timestamps logger)
          ≡ returns run)
        × EndsAs run
  unfolding run_threads
  run_threads-EndsAs n =
      let s = is_some config.server in
      let c = is_some config.client in
      let a = tx config in
      let b = rx config in
      let l = Logging.enable_timestamps logger in
      let joins : run_threads a b (suc (suc n)) config l ≡ (
          if (s && ends_process a) || (c && ends_process b)
          then returns thread_throws
          else returns
              (after_joins l (if goes_on s a || goes_on c b then none else some all_joined))) =
        ap
          (λ j.
            if (s && ends_process a) || (c && ends_process b)
            then returns thread_throws
            else (j >>= λ t. returns (after_joins l t)))
          (join_loop-joins a b s c n) in
      elim (thread-cases s a) [
        | inl (r, x, g) ↦ elim (thread-cases c b) [
          | inl (r', y, h) ↦ (_, joins ∙ rw (x, y, g, h) refl, inl (r, r', refl))
          | inr (inl (t, y)) ↦ (_, joins ∙ rw (x, y) refl, inr (inl (inr t, refl)))
          | inr (inr (go, y, h)) ↦ (
            _,
            joins ∙ rw (x, y, g, h) refl,
            inr (inr (not-Threw s a x, not-Threw c b y, inr go, refl)),
          )
        ]
        | inr (inl (t, x)) ↦ (_, joins ∙ rw x refl, inr (inl (inl t, refl)))
        | inr (inr (go, x, g)) ↦ elim (thread-cases c b) [
          | inl (r', y, h) ↦ (
            _,
            joins ∙ rw (x, y, g) refl,
            inr (inr (not-Threw s a x, not-Threw c b y, inl go, refl)),
          )
          | inr (inl (t, y)) ↦ (_, joins ∙ rw (x, y) refl, inr (inl (inr t, refl)))
          | inr (inr (go', y, h)) ↦ (
            _,
            joins ∙ rw (x, y, g) refl,
            inr (inr (not-Threw s a x, not-Threw c b y, inl go, refl)),
          )
        ]
      ]

-- Whatever the command line is, and however the two threads end. Where it gives no configuration, since
-- the parser throws, or help is asked for, or an option is not accepted, `main` exits with a failure.
-- Where it gives one, timestamps are switched on, and `main` exits with success, with all threads
-- joined, if each thread that it starts returns; the process ends by an exception, if one leaves a
-- thread that is started; and `main` waits for ever, if a thread that is started goes on for ever and
-- none throws. The loop has fuel for two rounds or more.
pub main_outcome :
    (tx rx : LauncherConfig → End) (fuel : ℕ) (vm : Option Variables) (logger : Logger)
    → 2 ≤ fuel
    → (((config : LauncherConfig × Logger) → ¬ (generate_configuration vm logger ≡ parsed config))
        × (main tx rx fuel vm logger ≡ returns (exits failure none)))
      ⊎ ((config : LauncherConfig × Logger) × (run : Run) × (generate_configuration vm logger
            ≡ parsed config)
          × (main tx rx fuel vm logger ≡ returns run)
          × EndsAs tx rx config.0 config.1 run)
unfolding main finish
main_outcome tx rx fuel vm logger enough = at (generate_configuration vm logger)
  where
    enough_rounds :
        (config : LauncherConfig) (l : Logger)
        → (run : Run) × (run_threads
              (tx config)
              (rx config)
              fuel
              config
              (Logging.enable_timestamps l)
            ≡ returns run)
          × EndsAs tx rx config l run
    enough_rounds config l =
        let more : suc (suc (fuel - 2)) ≡ fuel = omega arith in
        let (run, e, ends) = run_threads-EndsAs tx rx config l (fuel - 2) in
        (
          run,
          subst
              (λ m.
                run_threads (tx config) (rx config) m config (Logging.enable_timestamps l)
                ≡ returns run)
              more e,
          ends,
        )

    at :
        (p : Parse (LauncherConfig × Logger))
        → (((config : LauncherConfig × Logger) → ¬ (p ≡ parsed config))
            × (finish tx rx fuel p ≡ returns (exits failure none)))
          ⊎ ((config : LauncherConfig × Logger) × (run : Run) × (p ≡ parsed config)
              × (finish tx rx fuel p ≡ returns run)
              × EndsAs tx rx config.0 config.1 run)
    at (parsed (config, l)) =
        let (run, e, ends) = enough_rounds config l in inr ((config, l), run, refl, e, ends)
    at (help message) = inl (λ config e. cc e, refl)
    at failed = inl (λ config e. cc e, refl)
