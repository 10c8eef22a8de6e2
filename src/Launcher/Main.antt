-- ===== src/Launcher/Main.antt =====
-- src/launcher.cpp: the description of the options that is given to Boost, and `main` with its two
-- threads. How a thread ends is an argument, as it is the result of `startTransmitter` or of
-- `startReceiver` on the configuration: in the end it returns, or an exception leaves it, or, with
-- `none`, it goes on for ever. That the system can start a thread is taken for granted.
pub mod Joins
use arq_benchmark.Base.{
  ℕ, zero, suc, ◌-◌, ◌≤◌, ◌≡◌, ◌⊎◌, inl, inr, refl, ap, ◌∙◌, subst, arith, Bool, true, false, not,
  ◌&&◌, ◌||◌, List, map, Option, none, some, String, is_some, if◌then◌else◌, Outcome, returns,
  out_of_fuel, ◌>>=◌,
}
use arq_benchmark.Util.Logging
use arq_benchmark.Util.Logging.{Logger}
use arq_benchmark.Util.Os.{Result, value, raised, terminated, Exception}
use arq_benchmark.Launcher.Config.{LauncherConfig, Parse, parsed, help, failed}
use arq_benchmark.Launcher.Options.{
  OptionValue, no_value, number, text, program_option_data, Variables, parse_options,
}

-- What an option is added as: by its name and help text, with the type and the default of its value.
pub data Description : Type 0 where
  flag : String → String → Description
  number_option : String → ℕ → String → Description
  text_option : String → String → String → Description

-- The variant has no fourth alternative.
abbrev pub describe : String → OptionValue → String → Description
describe name no_value help_text = flag name help_text
describe name (number n) help_text = number_option name n help_text
describe name (text s) help_text = text_option name s help_text

abbrev pub generate_options_description : List Description
generate_options_description =
    map (λ option. describe option.name option.default_value option.help_text) program_option_data

-- Whether the two threads are joinable, and the flags of the loop.
pub record Threads : Type 0 where
  pub tx_joinable : Bool
  pub rx_joinable : Bool
  pub tx_joined : Bool
  pub rx_joined : Bool

abbrev pub started : LauncherConfig → Threads
started config = record {
  tx_joinable = is_some config.server;
  rx_joinable = is_some config.client;
  tx_joined = not (is_some config.server);
  rx_joined = not (is_some config.client);
}

-- How a thread ends, if it does.
abbrev pub End : Type 0
End = Option (Result (Unit {0}))

-- A join waits for the thread, which is not joinable any more then. It does not come back where the
-- thread goes on.
abbrev pub join_tx : End → Threads → Option Threads
join_tx tx t =
    let joined = record t { tx_joinable = false; tx_joined = true } in
    if t.tx_joinable then elim tx [ none ↦ none | some r ↦ some joined ] else some t

abbrev pub join_rx : End → Threads → Option Threads
join_rx rx t =
    let joined = record t { rx_joinable = false; rx_joined = true } in
    if t.rx_joinable then elim rx [ none ↦ none | some r ↦ some joined ] else some t

-- `none` where a join does not come back.
unfoldable pub join_loop : End → End → ℕ → Threads → Outcome (Option Threads)
join_loop tx rx zero t = out_of_fuel
join_loop tx rx (suc fuel) t =
    if t.tx_joined && t.rx_joined then returns (some t) else elim (join_tx tx t) [
      | none ↦ returns none
      | some t' ↦ elim (join_rx rx t') [ none ↦ returns none | some t'' ↦ join_loop tx rx fuel t'' ]
    ]

-- EXIT_SUCCESS and EXIT_FAILURE.
pub data ExitCode : Type 0 where
  success failure : ExitCode

-- How `main` ends: it returns, with the threads and the logger, an exception that leaves a thread ends
-- the process, or a join does not come back.
pub data Run : Type 0 where
  exits : ExitCode → Option (Threads × Logger) → Run
  thread_throws waits : Run

-- `std::terminate` is called where a thread is left by an exception.
abbrev pub ends_process : End → Bool
ends_process none = false
ends_process (some (value u)) = false
ends_process (some (raised e)) = true
ends_process (some terminated) = true

-- What is left of `main` when its joins came back, or did not.
abbrev pub after_joins : Logger → Option Threads → Run
after_joins logger none = waits
after_joins logger (some t) = exits success (some (t, logger))

-- What `main` does when the threads are started. It joins each of them, so an exception in one comes
-- before its end, wherever it waits.
pub run_threads : End → End → ℕ → LauncherConfig → Logger → Outcome Run
unfolding join_loop
run_threads tx rx fuel config logger =
    let joins = join_loop tx rx fuel (started config) in
    if (is_some config.server && ends_process tx) || (is_some config.client && ends_process rx)
    then returns thread_throws
    else (joins >>= λ t. returns (after_joins logger t))

-- `generateConfiguration`: there are no variables where Boost's parser throws, and `main` catches
-- every exception.
pub generate_configuration : Option Variables → Logger → Parse (LauncherConfig × Logger)
generate_configuration none logger = failed
generate_configuration (some vm) logger = parse_options vm logger

module _ (tx rx : LauncherConfig → End) (fuel : ℕ) where
  -- What `main` does with the configuration.
  pub finish : Parse (LauncherConfig × Logger) → Outcome Run
  unfolding run_threads
  finish (parsed (config, logger)) =
      run_threads (tx config) (rx config) fuel config (Logging.enable_timestamps logger)
  finish (help message) = returns (exits failure none)
  finish failed = returns (exits failure none)

  unfoldable pub main : Option Variables → Logger → Outcome Run
  unfolding finish generate_configuration
  main vm logger = finish (generate_configuration vm logger)
