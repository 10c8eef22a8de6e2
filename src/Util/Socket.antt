-- ===== src/Util/Socket.antt =====
-- src/util/socket.{hpp,cpp} and src/util/address_info.{hpp,cpp}. A function of a class that changes
-- its object gives the object back.
use arq_benchmark.Base.{
  ℕ, Bool, true, false, List, Option, none, some, length, if◌then◌else◌, String, str_eq,
}
use arq_benchmark.Common.Host.{memcpy}
use arq_benchmark.Util.Os.{
  SocketType, AddrInfo, SockAddr, inet, inet6, unknown_family, SocketId, Os, Process, Result, value,
  raised, terminated, Family, SockType, Protocol, af_unspec, socket_exception, addr_info_exception,
  bad_optional_access, socket_type_2_sock_type, socket_type_2_preferred_protocol, opened, closed,
}

pub record Socket : Type 0 where
  pub socket_id : SocketId

-- `Socket()`
abbrev pub new : Socket
new = record { socket_id = none }

-- `std::exchange(other.socketID_, SOCKET_ERROR)`: the socket that is made, and what is left.
abbrev pub move : Socket → Socket × Socket
move other = (record { socket_id = other.socket_id }, new)

-- `operator=(Socket&&)`: the descriptor that the target had is overwritten.
abbrev pub move_assign : Socket → Socket → Socket × Socket
move_assign target other = (record target { socket_id = other.socket_id }, new)

module _ {W : Type 0} (os : Os W) where
  -- A call that the state of the system takes part in.
  abbrev pub call : {A : Type 0} → (W → A × W) → Process W → A × Process W
  call f p = let (a, w) = f p.world in (a, record p { world = w })

  -- `::socket`, which opens a descriptor if it gives one.
  abbrev pub open_socket : Family → SockType → Protocol → Process W → SocketId × Process W
  open_socket family socktype protocol p =
      let (id, q) = call (os.socket family socktype protocol) p in
      (id, record q { descriptors = opened id q.descriptors })

  -- A constructor that was given a descriptor, or SOCKET_ERROR.
  abbrev pub made : SocketId × Process W → Result Socket × Process W
  made (none, p) = (raised socket_exception, p)
  made (some fd, p) = (value (record { socket_id = some fd }), p)

  -- `Socket(SocketType)`
  unfoldable pub from_type : SocketType → Process W → Result Socket × Process W
  from_type type p = elim (socket_type_2_sock_type type) [
    | value socktype ↦
        made (open_socket af_unspec socktype (socket_type_2_preferred_protocol type) p)
    | raised e ↦ (raised e, p)
    | terminated ↦ (terminated, p)
  ]

  -- `Socket(const addrinfo&)`
  unfoldable pub from_address : AddrInfo → Process W → Result Socket × Process W
  from_address ai p = made (open_socket ai.ai_family ai.ai_socktype ai.ai_protocol p)

  -- `~Socket()`
  unfoldable pub destroy : Socket → Process W → Process W
  destroy sock p = elim sock.socket_id [
    | none ↦ p
    | some fd ↦ record p { world = os.close fd p.world; descriptors = closed fd p.descriptors }
  ]

  unfoldable pub bind : Socket → AddrInfo → Process W → Result Bool × Process W
  bind sock ai p =
      let (done, q) = call (os.set_reuse_addr sock.socket_id) p in
      elim done [
        | false ↦ (raised socket_exception, q)
        | true ↦ let (bound, q') = call (os.bind sock.socket_id ai.ai_addr) q in (value bound, q')
      ]

  unfoldable pub listen : Socket → ℕ → Process W → Bool × Process W
  listen sock backlog p = call (os.listen sock.socket_id backlog) p

  unfoldable pub connect : Socket → AddrInfo → Process W → Bool × Process W
  connect sock ai p = call (os.connect sock.socket_id ai.ai_addr) p

  unfoldable pub sockaddr_2_str : SockAddr → Option String
  sockaddr_2_str (inet a) = some (os.inet_ntop (inet a))
  sockaddr_2_str (inet6 a) = some (os.inet_ntop (inet6 a))
  sockaddr_2_str unknown_family = none

  -- The check of the peer. In the text that is logged for another host, the `value()` of its address
  -- is taken.
  unfoldable pub check_host : Option String → String → SocketId → Result (Option Socket)
  check_host none expected new_id = raised bad_optional_access
  check_host (some connecting) expected new_id =
      if str_eq connecting expected
      then value (some (record { socket_id = new_id }))
      else value none

  unfoldable pub accept : Socket → Option String → Process W → Result (Option Socket) × Process W
  unfolding check_host sockaddr_2_str
  accept sock expected_host p =
      let ((new_id, their_addr), q) = call (os.accept sock.socket_id) p in
      let after = record q { descriptors = opened new_id q.descriptors } in
      elim expected_host [
        | none ↦ (value (some (record { socket_id = new_id })), after)
        | some expected ↦ (check_host (sockaddr_2_str their_addr) expected new_id, after)
      ]

  unfoldable pub set_recv_timeout : Socket → ℕ → ℕ → Process W → Bool × Process W
  set_recv_timeout sock seconds microseconds p =
      call (os.set_recv_timeout sock.socket_id seconds microseconds) p

  unfoldable pub send : Socket → List ℕ → Process W → Option ℕ × Process W
  send sock buffer p = call (os.send sock.socket_id buffer) p

  unfoldable pub send_to : Socket → List ℕ → AddrInfo → Process W → Option ℕ × Process W
  send_to sock buffer ai p = call (os.sendto sock.socket_id buffer ai.ai_addr) p

  -- The count of the bytes that were received, and the buffer with them at its start.
  abbrev pub filled : List ℕ → Option (List ℕ) → Option ℕ × List ℕ
  filled buffer none = (none, buffer)
  filled buffer (some received) = (some (length received), memcpy 0 received buffer)

  unfoldable pub recv : Socket → List ℕ → Process W → (Option ℕ × List ℕ) × Process W
  recv sock buffer p =
      let (received, q) = call (os.recv sock.socket_id (length buffer)) p in
      (filled buffer received, q)

  unfoldable pub recv_from : Socket → List ℕ → Process W → (Option ℕ × List ℕ) × Process W
  recv_from sock buffer p =
      let (received, q) = call (os.recvfrom sock.socket_id (length buffer)) p in
      (filled buffer received, q)

  -- What is made of the answer to a lookup.
  abbrev pub found : Option (List AddrInfo) × Process W → Result (List AddrInfo) × Process W
  found (none, p) = (raised addr_info_exception, p)
  found (some infos, p) = (value infos, p)

  -- `AddressInfo`: the list that its iterator walks.
  unfoldable pub address_info :
      String → String → SocketType → Process W → Result (List AddrInfo) × Process W
  address_info host service type p = elim (socket_type_2_sock_type type) [
    | raised e ↦ (raised e, p)
    | terminated ↦ (terminated, p)
    | value socktype ↦
        let (out, q) =
          call (os.getaddrinfo host service socktype (socket_type_2_preferred_protocol type)) p in
        found (out, q)
  ]
