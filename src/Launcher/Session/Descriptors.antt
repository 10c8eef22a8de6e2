-- ===== src/Launcher/Session/Descriptors.antt =====
-- The descriptors that `startTransmitter` and `startReceiver` leave.
use arq_benchmark.Base.{
  ℕ, ◌≡◌, refl, subst, ◌∙◌, Bool, true, false, List, [], ◌∷◌, Option, none, some, returns, ◌>>=◌,
  Bool-cases, inl, inr,
}
use arq_benchmark.Util.Os.{sctp, Os, Process, Result, value, raised, terminated}
use arq_benchmark.Common.ConversationId.Fresh.{get_new_id-first}
use arq_benchmark.Util.Socket
use arq_benchmark.Util.Socket.{Socket}
use arq_benchmark.Util.Endpoint
use arq_benchmark.Util.Endpoint.{Endpoint}
use arq_benchmark.Util.Endpoint.Keeps.{Keeps, send_to-Keeps, connect_retry-Keeps}
use arq_benchmark.Util.Endpoint.Descriptors.{Accounted, new-Accounted, closed-opened}
use arq_benchmark.Launcher.Config.{ArqProtocol, AddressNames, LauncherConfig}
use arq_benchmark.Launcher.Start.{
  open_transmitter_channel, open_receiver_channel, prepare_transmitter_channel,
  prepare_receiver_channel, channel_send, channel_receive, is_dummy_sctp, ensure, channel_type,
  connected,
}
use arq_benchmark.Launcher.Session.{
  Call, sends, receives, make_calls, left, with_channel, start_transmitter, start_receiver,
  share_conversation_id,
}

module _ {W : Type 0} (os : Os W) where
  -- No descriptor is open that was not, unless the process has ended.
  abbrev pub Closes : List ℕ → Result (Unit {0}) × Process W → Type 0
  Closes ds (value u, q) = q.descriptors ≡ ds
  Closes ds (raised x, q) = q.descriptors ≡ ds
  Closes ds (terminated, q) = Unit

  -- The call ends with no exception, in a result or with the process.
  abbrev IsQuiet : List ℕ → Result (Unit {0}) × Process W → Type 0
  IsQuiet ds (value u, q) = q.descriptors ≡ ds
  IsQuiet ds (raised x, q) = ⊥
  IsQuiet ds (terminated, q) = Unit

  -- An endpoint with the one new descriptor, an exception and none, or the end of the process.
  abbrev Opened : List ℕ → Result Endpoint × Process W → Type 0
  Opened ds (value e, q) = (fd : ℕ) × (e.socket.socket_id ≡ some fd) × (q.descriptors ≡ fd ∷ ds)
  Opened ds (raised x, q) = q.descriptors ≡ ds
  Opened ds (terminated, q) = Unit

  destroy-last :
      (e : Endpoint) (q : Process W) (fd : ℕ) (ds : List ℕ)
      → e.socket.socket_id ≡ some fd
      → q.descriptors ≡ fd ∷ ds
      → (Endpoint.destroy os e q).descriptors ≡ ds
  unfolding Endpoint.destroy Socket.destroy
  destroy-last e q fd ds id h = at e.socket.socket_id id
    where
      at :
          (o : Option ℕ)
          → o ≡ some fd
          → (Socket.destroy os (record { socket_id = o }) q).descriptors ≡ ds
      at none n = absurd (cc n)
      at (some x) n = let same : x ≡ fd = cc n in rw (same, h) (closed-opened fd ds)

  channel_send-Keeps :
      (protocol : ArqProtocol) (destination : AddressNames) (e : Endpoint) (buffer : List ℕ)
      (p : Process W)
      → Keeps os p.descriptors (channel_send os protocol destination e buffer p)
  unfolding channel_send Endpoint.send Socket.send
  channel_send-Keeps protocol destination e buffer p = elim (Bool-cases (is_dummy_sctp protocol)) [
    | inl connected ↦ rw connected refl
    | inr datagrams ↦
        rw datagrams (send_to-Keeps os e buffer destination.host_name destination.service_name p)
  ]

  channel_receive-Keeps :
      (protocol : ArqProtocol) (e : Endpoint) (buffer : List ℕ) (p : Process W)
      → Keeps os p.descriptors (channel_receive os protocol e buffer p)
  unfolding channel_receive Endpoint.recv Endpoint.recv_from Socket.recv Socket.recv_from
  channel_receive-Keeps protocol e buffer p = elim (Bool-cases (is_dummy_sctp protocol)) [
    | inl connected ↦ rw connected refl
    | inr datagrams ↦ rw datagrams refl
  ]

  make_calls-IsQuiet :
      (protocol : ArqProtocol) (destination : AddressNames) (e : Endpoint) (calls : List Call)
      (p : Process W)
      → IsQuiet p.descriptors (make_calls os protocol destination e calls p)
  unfolding make_calls
  make_calls-IsQuiet protocol destination e [] p = refl
  make_calls-IsQuiet protocol destination e (receives buffer ∷ calls) p =
      let q = (channel_receive os protocol e buffer p).1 in
      subst (λ ds. IsQuiet ds (make_calls os protocol destination e calls q))
        (channel_receive-Keeps protocol e buffer p)
        (make_calls-IsQuiet protocol destination e calls q)
  make_calls-IsQuiet protocol destination e (sends buffer ∷ calls) p =
      subst (λ ds. IsQuiet ds (make_calls os protocol destination e (sends buffer ∷ calls) p))
        (channel_send-Keeps protocol destination e buffer p)
        (next (make_calls-IsQuiet protocol destination e calls)
          (channel_send os protocol destination e buffer p))
    where
      next :
          ((q : Process W) → IsQuiet q.descriptors (make_calls os protocol destination e calls q))
          → (x : Result (Option ℕ) × Process W)
          → IsQuiet x.1.descriptors (elim x.0 as (λ r. Result (Unit {0}) × Process W) [
            | value n ↦ make_calls os protocol destination e calls x.1
            | raised y ↦ (terminated, x.1)
            | terminated ↦ (terminated, x.1)
          ])
      next more (value n, q) = more q
      next more (raised y, q) = tt
      next more (terminated, q) = tt

  left-Closes :
      (e : Endpoint) (fd : ℕ) (ds : List ℕ) (x : Result (Unit {0}) × Process W)
      → e.socket.socket_id ≡ some fd
      → IsQuiet (fd ∷ ds) x
      → Closes ds (left os e x)
  left-Closes e fd ds (value u, q) id h = destroy-last e q fd ds id h
  left-Closes e fd ds (raised y, q) id h = absurd h
  left-Closes e fd ds (terminated, q) id h = tt

  with_channel-Closes :
      (protocol : ArqProtocol) (destination : AddressNames) (calls : List Call) (ds : List ℕ)
      (x : Result Endpoint × Process W)
      → Opened ds x
      → Closes ds (with_channel os protocol destination calls x)
  unfolding with_channel
  with_channel-Closes protocol destination calls ds (value e, q) (fd, id, h) =
      left-Closes e fd ds (make_calls os protocol destination e calls q) id (
        subst (λ l. IsQuiet l (make_calls os protocol destination e calls q)) h
          (make_calls-IsQuiet protocol destination e calls q))
  with_channel-Closes protocol destination calls ds (raised y, q) h = h
  with_channel-Closes protocol destination calls ds (terminated, q) h = tt

  -- An endpoint that is kept, or destroyed where a call gave false.
  ensure-Opened :
      (e : Endpoint) (fd : ℕ) (ds : List ℕ) (x : Bool × Process W)
      → e.socket.socket_id ≡ some fd
      → x.1.descriptors ≡ fd ∷ ds
      → Opened ds (ensure os e x)
  ensure-Opened e fd ds (true, q) id h = (fd, id, h)
  ensure-Opened e fd ds (false, q) id h = destroy-last e q fd ds id h

  connected-Opened :
      (e : Endpoint) (fd : ℕ) (ds : List ℕ) (x : Result Bool × Process W)
      → e.socket.socket_id ≡ some fd
      → x.1.descriptors ≡ fd ∷ ds
      → Opened ds (connected os e x)
  connected-Opened e fd ds (value done, q) id h = (fd, id, h)
  connected-Opened e fd ds (raised y, q) id h = destroy-last e q fd ds id h
  connected-Opened e fd ds (terminated, q) id h = tt

  prepare_transmitter_channel-Opened :
      (config : LauncherConfig) (ds : List ℕ) (x : Result Endpoint × Process W)
      → is_dummy_sctp config.common.arq_protocol ≡ false
      → Accounted os ds x
      → Opened ds (prepare_transmitter_channel os config x)
  unfolding prepare_transmitter_channel Endpoint.set_recv_timeout Socket.set_recv_timeout
  prepare_transmitter_channel-Opened config ds (value e, q) arq (fd, id, h) =
      rw arq (ensure-Opened e fd ds _ id h)
  prepare_transmitter_channel-Opened config ds (raised y, q) arq h = h
  prepare_transmitter_channel-Opened config ds (terminated, q) arq h = absurd h

  prepare_receiver_channel-Opened :
      (config : LauncherConfig) (ds : List ℕ) (x : Result Endpoint × Process W)
      → Accounted os ds x
      → Opened ds (prepare_receiver_channel os config x)
  unfolding prepare_receiver_channel Endpoint.set_recv_timeout Socket.set_recv_timeout
  prepare_receiver_channel-Opened config ds (value e, q) (fd, id, h) =
      elim (Bool-cases (is_dummy_sctp config.common.arq_protocol)) [
        | inl connects ↦ rw connects (
            connected-Opened e fd ds _ id (
              connect_retry-Keeps os e config.common.server_names.host_name
                config.common.server_names.service_name sctp 20 500 q
              ∙ h))
        | inr datagrams ↦ rw datagrams (ensure-Opened e fd ds _ id h)
      ]
  prepare_receiver_channel-Opened config ds (raised y, q) h = h
  prepare_receiver_channel-Opened config ds (terminated, q) h = absurd h

  -- Whatever the operating system answers, and whatever calls the threads make of the channel: with an
  -- ARQ protocol `startTransmitter` is given the conversation ID 1, and it and `startReceiver` leave no
  -- descriptor open that was not, whether they return or throw.
  pub sessions-Closes :
      (config : LauncherConfig) (calls : List Call) (p : Process W)
      → is_dummy_sctp config.common.arq_protocol ≡ false
      → (r : Result (Unit {0}) × Process W) × (start_transmitter os config calls p ≡ returns (1, r))
        × Closes p.descriptors r
        × Closes p.descriptors (start_receiver os config calls p).1
  unfolding start_transmitter start_receiver open_transmitter_channel open_receiver_channel
      share_conversation_id
  sessions-Closes config calls p arq =
      let kind = channel_type config.common.arq_protocol in
      let server = config.common.server_names in
      let client = config.common.client_names in
      (
        _,
        rw (get_new_id-first, ◌>>=◌) refl,
        with_channel-Closes config.common.arq_protocol client calls p.descriptors _ (
            prepare_transmitter_channel-Opened config p.descriptors _ arq
              (new-Accounted os server.host_name server.service_name kind p)),
        with_channel-Closes config.common.arq_protocol server calls p.descriptors _ (
            prepare_receiver_channel-Opened config p.descriptors _
              (new-Accounted os client.host_name client.service_name kind p)),
      )
