-- ===== src/Util/Endpoint/Retry.antt =====
-- The attempts of `connectRetry`, against what the operating system answers to each call.
use native.Mathlib.Nat.{suc-mul, zero-mul}
use arq_benchmark.Base.{
  ℕ, zero, suc, ◌+◌, ◌*◌, ◌<◌, ◌≡◌, ◌⊎◌, inl, inr, refl, ap, ◌∙◌, Bool, true, false, List, [], ◌∷◌,
  ◌++◌, Option, none, some, String, arith,
}
use arq_benchmark.Util.Os.{
  SocketType, tcp, udp, sctp, unspec, SockType, sock_stream, sock_dgram, AddrInfo, Os, Process,
  Result, value, raised, terminated, socket_type_2_sock_type, socket_type_2_preferred_protocol,
}
use arq_benchmark.Util.Socket
use arq_benchmark.Util.Socket.{Socket}
use arq_benchmark.Util.Endpoint.{Endpoint, attempt_connect, retry, retried, connect_retry}

module _ {W : Type 0} (os : Os W) where
  module _ (sock : Socket) where
    -- The system refuses a connection to each of the addresses in turn; its state is the second one
    -- then.
    abbrev pub RefusesEach : List AddrInfo → W → W → Type 0
    RefusesEach [] w w' = w ≡ w'
    RefusesEach (ai ∷ infos) w w' =
        ((os.connect sock.socket_id ai.ai_addr w).0 ≡ false)
        × RefusesEach infos (os.connect sock.socket_id ai.ai_addr w).1 w'

    -- It refuses those before one of the addresses, and connects to that one.
    abbrev pub ConnectsFirst : List AddrInfo → W → W → Type 0
    ConnectsFirst infos w w' =
        (before after : List AddrInfo) × (ai : AddrInfo) × (v : W) × (infos ≡ before ++ ai ∷ after)
        × RefusesEach before w v
        × ((os.connect sock.socket_id ai.ai_addr v).0 ≡ true)
        × ((os.connect sock.socket_id ai.ai_addr v).1 ≡ w')

    -- It refuses all of the addresses, so many times.
    abbrev pub RefusesTimes : List AddrInfo → ℕ → W → W → Type 0
    RefusesTimes infos zero w w' = w ≡ w'
    RefusesTimes infos (suc times) w w' =
        (v : W) × RefusesEach infos w v × RefusesTimes infos times v w'

    -- An attempt, with its answer.
    abbrev Attempted : List AddrInfo → Process W → Bool × Process W → Type 0
    Attempted infos p (true, q) =
        ConnectsFirst infos p.world q.world × (q.slept ≡ p.slept) × (q.descriptors ≡ p.descriptors)
    Attempted infos p (false, q) =
        RefusesEach infos p.world q.world × (q.slept ≡ p.slept) × (q.descriptors ≡ p.descriptors)

    attempt_connect-Attempted :
        (infos : List AddrInfo) (p : Process W)
        → Attempted infos p (attempt_connect os sock infos p)
    unfolding attempt_connect Socket.connect
    attempt_connect-Attempted [] p = (refl, refl, refl)
    attempt_connect-Attempted (ai ∷ infos) p =
        next (Socket.connect os sock ai p).0 refl (attempt_connect-Attempted infos r)
      where
        r : Process W
        r = (Socket.connect os sock ai p).1

        later :
            (x : Bool × Process W)
            → (Socket.connect os sock ai p).0 ≡ false
            → Attempted infos r x
            → Attempted (ai ∷ infos) p x
        later (true, q) refused ((before, after, one, v, split, each, done, last), slept, same) = (
          (ai ∷ before, after, one, v, ap (◌∷◌ ai) split, (refused, each), done, last),
          slept,
          same,
        )
        later (false, q) refused (each, slept, same) = ((refused, each), slept, same)

        next :
            (done : Bool)
            → (Socket.connect os sock ai p).0 ≡ done
            → Attempted infos r (attempt_connect os sock infos r)
            → Attempted (ai ∷ infos) p (elim done as (λ d. Bool × Process W) [
              | true ↦ (true, r)
              | false ↦ attempt_connect os sock infos r
            ])
        next true e more = (([], infos, ai, p.world, refl, refl, e, refl), refl, refl)
        next false e more = later (attempt_connect os sock infos r) e more

    -- The attempts from here on: the last of them connects, or none does, and there is a sleep for each
    -- that fails.
    abbrev Retried : List AddrInfo → ℕ → ℕ → Process W → Bool × Process W → Type 0
    Retried infos max_attempts cooldown p (true, q) =
        (failed : ℕ) × (v : W) × (failed < max_attempts)
        × RefusesTimes infos failed p.world v
        × ConnectsFirst infos v q.world
        × (q.slept ≡ p.slept + failed * cooldown)
        × (q.descriptors ≡ p.descriptors)
    Retried infos max_attempts cooldown p (false, q) =
        RefusesTimes infos max_attempts p.world q.world
        × (q.slept ≡ p.slept + max_attempts * cooldown)
        × (q.descriptors ≡ p.descriptors)

    retry-Retried :
        (infos : List AddrInfo) (max_attempts cooldown : ℕ) (p : Process W)
        → Retried infos max_attempts cooldown p (retry os sock infos max_attempts cooldown p)
    unfolding retry
    retry-Retried infos zero cooldown p = (refl, omega (arith, zero-mul cooldown), refl)
    retry-Retried infos (suc attempts) cooldown p =
        next (attempt_connect os sock infos p) (attempt_connect-Attempted infos p)
          (retry-Retried infos attempts cooldown)
      where
        again :
            (q : Process W) (x : Bool × Process W)
            → Attempted infos p (false, q)
            → Retried infos attempts cooldown (record q { slept = q.slept + cooldown }) x
            → Retried infos (suc attempts) cooldown p x
        again q (true, q') (each, slept, open_) (failed, v, fewer, times, first, h, same) = (
          suc failed,
          v,
          omega arith,
          (q.world, each, times),
          first,
          omega (arith, h, slept, suc-mul failed cooldown),
          same ∙ open_,
        )
        again q (false, q') (each, slept, open_) (times, h, same) = (
          (q.world, each, times),
          omega (arith, h, slept, suc-mul attempts cooldown),
          same ∙ open_,
        )

        next :
            (x : Bool × Process W)
            → Attempted infos p x
            → ((q : Process W)
                → Retried infos attempts cooldown q (retry os sock infos attempts cooldown q))
            → Retried infos (suc attempts) cooldown p (elim x.0 as (λ d. Bool × Process W) [
              | true ↦ (true, x.1)
              | false ↦
                  retry os sock infos attempts cooldown
                    (record x.1 { slept = x.1.slept + cooldown })
            ])
        next (true, q) (first, slept, same) more =
            (0, p.world, omega arith, refl, first, omega (arith, slept, zero-mul cooldown), same)
        next (false, q) h more = again q _ h (more (record q { slept = q.slept + cooldown }))

  -- The answer to the lookup of a name, which leaves the system in this state.
  abbrev pub Finds : String → String → SocketType → W → Option (List AddrInfo) → W → Type 0
  Finds host service type w out v =
      (socktype : SockType) × (socket_type_2_sock_type type ≡ value socktype)
      × (os.getaddrinfo host service socktype (socket_type_2_preferred_protocol type) w ≡ (out, v))

  -- What `connectRetry` leaves, against the answers of the system.
  abbrev pub Retries :
      Socket → String → String → SocketType → ℕ → ℕ → Process W → Result Bool × Process W → Type 0
  Retries sock host service type max_attempts cooldown p (value true, q) =
      (infos : List AddrInfo) × (failed : ℕ) × (u v : W) × (failed < max_attempts)
      × Finds host service type p.world (some infos) u
      × RefusesTimes sock infos failed u v
      × ConnectsFirst sock infos v q.world
      × (q.slept ≡ p.slept + failed * cooldown)
      × (q.descriptors ≡ p.descriptors)
  Retries sock host service type max_attempts cooldown p (value false, q) =
      (infos : List AddrInfo) × (u : W) × Finds host service type p.world (some infos) u
      × RefusesTimes sock infos max_attempts u q.world
      × (q.slept ≡ p.slept + max_attempts * cooldown)
      × (q.descriptors ≡ p.descriptors)
  Retries sock host service type max_attempts cooldown p (raised e, q) = ⊥
  Retries sock host service type max_attempts cooldown p (terminated, q) =
      ((type ≡ unspec) ⊎ Finds host service type p.world none q.world)
      × (q.slept ≡ p.slept)
      × (q.descriptors ≡ p.descriptors)

  module _ (sock : Socket) (host service : String) (type : SocketType) (max_attempts cooldown : ℕ)
      (p : Process W) where
    retried-Retries :
        (socktype : SockType) (x : Option (List AddrInfo) × W)
        → socket_type_2_sock_type type ≡ value socktype
        → os.getaddrinfo host service socktype (socket_type_2_preferred_protocol type) p.world ≡ x
        → Retries sock host service type max_attempts cooldown p (
            retried os sock max_attempts cooldown (Socket.found os (x.0, record p { world = x.1 })))
    retried-Retries socktype (none, w) kind e = (inr (socktype, kind, e), refl, refl)
    retried-Retries socktype (some infos, w) kind e =
        answered (retry os sock infos max_attempts cooldown (record p { world = w }))
          (retry-Retried sock infos max_attempts cooldown (record p { world = w }))
      where
        answered :
            (x : Bool × Process W)
            → Retried sock infos max_attempts cooldown (record p { world = w }) x
            → Retries sock host service type max_attempts cooldown p (value x.0, x.1)
        answered (true, q) (failed, v, fewer, times, first, slept, same) =
            (infos, failed, w, v, fewer, (socktype, kind, e), times, first, slept, same)
        answered (false, q) (times, slept, same) =
            (infos, w, (socktype, kind, e), times, slept, same)

  -- `connectRetry` answers as the system does. It is true where, of the addresses that were found, all
  -- were refused in some number of attempts below the maximum, with a sleep after each, and in the next
  -- attempt the first that was not refused was connected to; it is false where all were refused in
  -- every attempt, with a sleep after each. The process ends where the lookup fails, or has no kind of
  -- socket, before any sleep. No descriptor is opened or closed.
  pub connect_retry-Retries :
      (e : Endpoint) (host service : String) (type : SocketType) (max_attempts cooldown : ℕ)
      (p : Process W)
      → Retries e.socket host service type max_attempts cooldown p
          (connect_retry os e host service type max_attempts cooldown p)
  unfolding connect_retry Socket.address_info
  connect_retry-Retries e host service unspec max_attempts cooldown p = (inl refl, refl, refl)
  connect_retry-Retries e host service tcp max_attempts cooldown p =
      retried-Retries e.socket host service tcp max_attempts cooldown p sock_stream _ refl refl
  connect_retry-Retries e host service udp max_attempts cooldown p =
      retried-Retries e.socket host service udp max_attempts cooldown p sock_dgram _ refl refl
  connect_retry-Retries e host service sctp max_attempts cooldown p =
      retried-Retries e.socket host service sctp max_attempts cooldown p sock_stream _ refl refl
