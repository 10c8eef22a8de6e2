-- ===== src/Util/Endpoint.antt =====
-- src/util/endpoint.{hpp,cpp}. The member `socket_` is the whole state of an endpoint. A `noexcept`
-- function ends the process where the address lookup that it makes throws.
pub mod Descriptors
pub mod Retry
pub mod Keeps
use arq_benchmark.Base.{
  ℕ, zero, suc, ◌+◌, Bool, true, false, List, [], ◌∷◌, Option, none, some, String,
}
use arq_benchmark.Util.Os.{
  SocketType, udp, AddrInfo, Os, Process, Result, value, raised, terminated, Exception,
  socket_exception, endpoint_exception,
}
use arq_benchmark.Util.Socket
use arq_benchmark.Util.Socket.{Socket, move_assign}

pub record Endpoint : Type 0 where
  pub socket : Socket

module _ {W : Type 0} (os : Os W) where
  unfoldable pub from_type : SocketType → Process W → Result Endpoint × Process W
  from_type type p =
      let (r, q) = Socket.from_type os type p in
      elim r [
        | value sock ↦ (value (record { socket = sock }), q)
        | raised e ↦ (raised e, q)
        | terminated ↦ (terminated, q)
      ]

  -- The handler takes a `SocketException` only.
  abbrev pub caught : Exception → Result (Option Socket)
  caught socket_exception = value none
  caught e = raised e

  -- What is done with what `bind` gave for a socket; the socket is destroyed where the body is left
  -- without a move.
  abbrev pub bound : Socket → Result Bool × Process W → Result (Option Socket) × Process W
  bound sock (value true, p) =
      let (target, left) = move_assign Socket.new sock in
      (value (some target), Socket.destroy os left p)
  bound sock (value false, p) = (value none, Socket.destroy os sock p)
  bound sock (raised e, p) = (caught e, Socket.destroy os sock p)
  bound sock (terminated, p) = (terminated, p)

  abbrev pub made : AddrInfo → Result Socket × Process W → Result (Option Socket) × Process W
  made ai (value sock, p) = bound sock (Socket.bind os sock ai p)
  made ai (raised e, p) = (caught e, p)
  made ai (terminated, p) = (terminated, p)

  -- The body of the loop of the constructor: the socket that was bound, `none` for the next entry.
  pub try_address : AddrInfo → Process W → Result (Option Socket) × Process W
  try_address ai p = made ai (Socket.from_address os ai p)

  -- The loop of the constructor.
  pub bind_first : List AddrInfo → Process W → Result Endpoint × Process W
  bind_first [] p = (raised endpoint_exception, p)
  bind_first (ai ∷ infos) p =
      let (r, q) = try_address ai p in
      elim r [
        | value (some sock) ↦ (value (record { socket = sock }), q)
        | value none ↦ bind_first infos q
        | raised e ↦ (raised e, q)
        | terminated ↦ (terminated, q)
      ]

  -- What the constructor does with the addresses that were found.
  abbrev pub resolved : Result (List AddrInfo) × Process W → Result Endpoint × Process W
  resolved (value infos, p) = bind_first infos p
  resolved (raised e, p) = (raised e, p)
  resolved (terminated, p) = (terminated, p)

  -- `Endpoint(host, service, type)`
  unfoldable pub new : String → String → SocketType → Process W → Result Endpoint × Process W
  new host service type p = resolved (Socket.address_info os host service type p)

  unfoldable pub destroy : Endpoint → Process W → Process W
  destroy e p = Socket.destroy os e.socket p

  unfoldable pub listen : Endpoint → ℕ → Process W → Bool × Process W
  listen e backlog p = Socket.listen os e.socket backlog p

  pub attempt_connect : Socket → List AddrInfo → Process W → Bool × Process W
  attempt_connect sock [] p = (false, p)
  attempt_connect sock (ai ∷ infos) p =
      let (done, q) = Socket.connect os sock ai p in
      elim done [ true ↦ (true, q) | false ↦ attempt_connect sock infos q ]

  unfoldable pub connect :
      Endpoint → String → String → SocketType → Process W → Result Bool × Process W
  unfolding attempt_connect
  connect e host service type p =
      let (infos, q) = Socket.address_info os host service type p in
      elim infos [
        | value ais ↦ let (done, q') = attempt_connect e.socket ais q in (value done, q')
        | raised _ ↦ (terminated, q)
        | terminated ↦ (terminated, q)
      ]

  -- The loop of `connectRetry`, over the attempts that are left.
  pub retry : Socket → List AddrInfo → ℕ → ℕ → Process W → Bool × Process W
  unfolding attempt_connect
  retry sock infos zero cooldown p = (false, p)
  retry sock infos (suc attempts) cooldown p =
      let (done, q) = attempt_connect sock infos p in
      elim done [
        | true ↦ (true, q)
        | false ↦ retry sock infos attempts cooldown (record q { slept = q.slept + cooldown })
      ]

  -- What `connectRetry` does with the addresses that were found.
  abbrev pub retried : Socket → ℕ → ℕ → Result (List AddrInfo) × Process W → Result Bool × Process W
  retried sock max_attempts cooldown (value infos, p) =
      let (done, q) = retry sock infos max_attempts cooldown p in (value done, q)
  retried sock max_attempts cooldown (raised _, p) = (terminated, p)
  retried sock max_attempts cooldown (terminated, p) = (terminated, p)

  unfoldable pub connect_retry :
      Endpoint → String → String → SocketType → ℕ → ℕ → Process W → Result Bool × Process W
  connect_retry e host service type max_attempts cooldown p =
      retried e.socket max_attempts cooldown (Socket.address_info os host service type p)

  -- What is done with an accepted socket.
  abbrev pub replaced :
      Endpoint → Result (Option Socket) × Process W → Result (Bool × Endpoint) × Process W
  replaced e (value (some accepted), p) =
      let (target, left) = move_assign e.socket accepted in
      (value (true, record { socket = target }), Socket.destroy os left p)
  replaced e (value none, p) = (value (false, e), p)
  replaced e (raised x, p) = (raised x, p)
  replaced e (terminated, p) = (terminated, p)

  -- Gives back whether a connection was accepted, and the endpoint.
  unfoldable pub accept :
      Endpoint → Option String → Process W → Result (Bool × Endpoint) × Process W
  accept e expected_host p = replaced e (Socket.accept os e.socket expected_host p)

  unfoldable pub set_recv_timeout : Endpoint → ℕ → ℕ → Process W → Bool × Process W
  set_recv_timeout e seconds microseconds p =
      Socket.set_recv_timeout os e.socket seconds microseconds p

  unfoldable pub send : Endpoint → List ℕ → Process W → Option ℕ × Process W
  send e buffer p = Socket.send os e.socket buffer p

  unfoldable pub recv : Endpoint → List ℕ → Process W → (Option ℕ × List ℕ) × Process W
  recv e buffer p = Socket.recv os e.socket buffer p

  -- The first entry to which the bytes can be sent.
  pub send_first : Endpoint → List ℕ → List AddrInfo → Process W → Option ℕ × Process W
  send_first e buffer [] p = (none, p)
  send_first e buffer (ai ∷ infos) p =
      let (ret, q) = Socket.send_to os e.socket buffer ai p in
      elim ret [ some n ↦ (some n, q) | none ↦ send_first e buffer infos q ]

  unfoldable pub send_to :
      Endpoint → List ℕ → String → String → Process W → Result (Option ℕ) × Process W
  unfolding send_first
  send_to e buffer destination_host destination_service p =
      let (infos, q) = Socket.address_info os destination_host destination_service udp p in
      elim infos [
        | value ais ↦ let (ret, q') = send_first e buffer ais q in (value ret, q')
        | raised _ ↦ (terminated, q)
        | terminated ↦ (terminated, q)
      ]

  unfoldable pub recv_from : Endpoint → List ℕ → Process W → (Option ℕ × List ℕ) × Process W
  recv_from e buffer p = Socket.recv_from os e.socket buffer p
