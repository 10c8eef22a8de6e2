-- ===== src/Util/Os.antt =====
-- What src/util/socket.cpp and src/util/address_info.cpp ask of the operating system, and the state
-- that a process keeps with it. The system is a parameter `Os W` over its state `W`.
-- src/util/network_common.hpp: the kinds of socket.
use arq_benchmark.Base.{ℕ, Bool, List, [], ◌∷◌, Option, none, some, ◌==◌, if◌then◌else◌, String}

pub data SocketType : Type 0 where
  unspec tcp udp sctp : SocketType

-- The constants of <sys/socket.h> and <netinet/in.h> that are used.
pub data SockType : Type 0 where
  sock_stream sock_dgram : SockType

pub data Protocol : Type 0 where
  ipproto_ip ipproto_tcp ipproto_udp ipproto_sctp : Protocol

pub data Family : Type 0 where
  af_unspec : Family
  -- Another family, by its number.
  af : ℕ → Family

-- An `addrinfo`; the linked list of them is a list. The address is the bytes behind `ai_addr`.
pub record AddrInfo : Type 0 where
  pub ai_family : Family
  pub ai_socktype : SockType
  pub ai_protocol : Protocol
  pub ai_addr : List ℕ

-- A `sockaddr_storage`, of which the code reads the family and the address.
pub data SockAddr : Type 0 where
  inet : ℕ → SockAddr
  inet6 : List ℕ → SockAddr
  unknown_family : SockAddr

-- A `SocketID`: `none` is SOCKET_ERROR.
abbrev pub SocketId : Type 0
SocketId = Option ℕ

-- The calls. A descriptor, a count or a list is `none` where the call gives an error.
pub record Os (W : Type 0) : Type 0 where
  pub getaddrinfo : String → String → SockType → Protocol → W → Option (List AddrInfo) × W
  pub socket : Family → SockType → Protocol → W → SocketId × W
  pub set_reuse_addr : SocketId → W → Bool × W
  pub set_recv_timeout : SocketId → ℕ → ℕ → W → Bool × W
  pub bind : SocketId → List ℕ → W → Bool × W
  pub listen : SocketId → ℕ → W → Bool × W
  pub connect : SocketId → List ℕ → W → Bool × W
  -- With what then stands in the storage for the address of the peer.
  pub accept : SocketId → W → (SocketId × SockAddr) × W
  pub close : ℕ → W → W
  pub send : SocketId → List ℕ → W → Option ℕ × W
  pub sendto : SocketId → List ℕ → List ℕ → W → Option ℕ × W
  -- With the bytes that are received, at most as many as there is room for.
  pub recv : SocketId → ℕ → W → Option (List ℕ) × W
  pub recvfrom : SocketId → ℕ → W → Option (List ℕ) × W
  -- The text of an address, by `inet_ntop`.
  pub inet_ntop : SockAddr → String

-- The state of the system, the descriptors that `socket` and `accept` gave and that were not closed,
-- and the time slept, in milliseconds.
pub record Process (W : Type 0) : Type 0 where
  pub world : W
  pub descriptors : List ℕ
  pub slept : ℕ

pub data Exception : Type 0 where
  socket_exception endpoint_exception addr_info_exception : Exception
  invalid_argument bad_optional_access runtime_error : Exception

-- A call returns, throws, or ends the process, as an exception that leaves a `noexcept` function does.
pub data Result {ℓ} (A : Type ℓ) : Type ℓ where
  value : A → Result A
  raised : Exception → Result A
  terminated : Result A

-- `socketType2SockType`
abbrev pub socket_type_2_sock_type : SocketType → Result SockType
socket_type_2_sock_type tcp = value sock_stream
socket_type_2_sock_type udp = value sock_dgram
socket_type_2_sock_type sctp = value sock_stream
socket_type_2_sock_type unspec = raised invalid_argument

-- `socketType2PreferredProtocol`
abbrev pub socket_type_2_preferred_protocol : SocketType → Protocol
socket_type_2_preferred_protocol tcp = ipproto_tcp
socket_type_2_preferred_protocol udp = ipproto_udp
socket_type_2_preferred_protocol sctp = ipproto_sctp
socket_type_2_preferred_protocol unspec = ipproto_ip

-- A descriptor is opened, if there is one, or closed.
abbrev pub opened : SocketId → List ℕ → List ℕ
opened none descriptors = descriptors
opened (some fd) descriptors = fd ∷ descriptors

abbrev pub closed : ℕ → List ℕ → List ℕ
closed fd [] = []
closed fd (d ∷ descriptors) =
    let rest = closed fd descriptors in if d == fd then descriptors else d ∷ rest
