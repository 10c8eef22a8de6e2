-- ===== src/Util/Endpoint/Descriptors.antt =====
-- The descriptors that an endpoint opens, and those that it closes.
use arq_benchmark.Base.{
  ℕ, ◌≡◌, refl, ap, subst, ◌∙◌, Bool, true, false, List, [], ◌∷◌, Option, none, some, String, inl,
  inr, Bool-cases, ==_refl, str_eq,
}
use arq_benchmark.Util.Os.{
  SocketType, sock_stream, sock_dgram, ipproto_tcp, ipproto_udp, ipproto_sctp, tcp, udp, sctp,
  unspec, AddrInfo, Os, Process, SocketId, Result, value, raised, terminated, closed, opened,
  socket_exception, endpoint_exception, addr_info_exception, invalid_argument, bad_optional_access,
  runtime_error,
}
use arq_benchmark.Util.Socket
use arq_benchmark.Util.Socket.{Socket}
use arq_benchmark.Util.Endpoint.{
  Endpoint, new, accept, destroy, bind_first, try_address, bound, made, resolved, replaced,
}

pub closed-opened : (fd : ℕ) (descriptors : List ℕ) → closed fd (fd ∷ descriptors) ≡ descriptors
closed-opened fd descriptors = rw (==_refl fd)

module _ {W : Type 0} (os : Os W) where
  -- A result of the loop's body: a bound socket with a new descriptor, or nothing new.
  abbrev Handled : List ℕ → Result (Option Socket) × Process W → Type 0
  Handled ds (value (some sock), q) =
      (fd : ℕ) × (sock.socket_id ≡ some fd) × (q.descriptors ≡ fd ∷ ds)
  Handled ds (value none, q) = q.descriptors ≡ ds
  Handled ds (raised e, q) = ⊥
  Handled ds (terminated, q) = ⊥

  -- What `bind` can give.
  abbrev Bound : List ℕ → Result Bool × Process W → Type 0
  Bound ds (value done, q) = q.descriptors ≡ ds
  Bound ds (raised e, q) = (e ≡ socket_exception) × (q.descriptors ≡ ds)
  Bound ds (terminated, q) = ⊥

  bind-Bound :
      (sock : Socket) (ai : AddrInfo) (p : Process W)
      → Bound p.descriptors (Socket.bind os sock ai p)
  unfolding Socket.bind
  bind-Bound sock ai p = at (os.set_reuse_addr sock.socket_id p.world).0
    where
      at :
          (done : Bool)
          → Bound p.descriptors (elim done [
            | false ↦ (
              raised socket_exception,
              record p { world = (os.set_reuse_addr sock.socket_id p.world).1 },
            )
            | true ↦ (
              value
                  (os.bind sock.socket_id ai.ai_addr
                    (os.set_reuse_addr sock.socket_id p.world).1).0,
              record p {
                world =
                    (os.bind sock.socket_id ai.ai_addr
                      (os.set_reuse_addr sock.socket_id p.world).1).1;
              },
            )
          ])
      at true = refl
      at false = (refl, refl)

  bound-Handled :
      (fd : ℕ) (ds : List ℕ) (r : Result Bool × Process W)
      → Bound (fd ∷ ds) r
      → Handled ds (bound os (record { socket_id = some fd }) r)
  unfolding Socket.destroy
  bound-Handled fd ds (value true, q) h = (fd, refl, h)
  bound-Handled fd ds (value false, q) h = ap (closed fd) h ∙ closed-opened fd ds
  bound-Handled fd ds (raised socket_exception, q) h = ap (closed fd) h.1 ∙ closed-opened fd ds
  bound-Handled fd ds (raised endpoint_exception, q) h = cc (h.0)
  bound-Handled fd ds (raised addr_info_exception, q) h = cc (h.0)
  bound-Handled fd ds (raised invalid_argument, q) h = cc (h.0)
  bound-Handled fd ds (raised bad_optional_access, q) h = cc (h.0)
  bound-Handled fd ds (raised runtime_error, q) h = cc (h.0)
  bound-Handled fd ds (terminated, q) h = absurd h

  made-Handled :
      (ai : AddrInfo) (ds : List ℕ) (x : SocketId × Process W)
      → x.1.descriptors ≡ opened x.0 ds
      → Handled ds (made os ai (Socket.made os x))
  made-Handled ai ds (none, q) h = h
  made-Handled ai ds (some fd, q) h = bound-Handled fd ds _ (
      subst (λ l. Bound l (Socket.bind os (record { socket_id = some fd }) ai q)) h
        (bind-Bound (record { socket_id = some fd }) ai q))

  try_address-Handled :
      (ai : AddrInfo) (p : Process W) → Handled p.descriptors (try_address os ai p)
  unfolding try_address Socket.from_address
  try_address-Handled ai p =
      made-Handled ai p.descriptors
        (Socket.open_socket os ai.ai_family ai.ai_socktype ai.ai_protocol p) refl

  -- What a constructor leaves: an endpoint with the one new descriptor, or an exception and none.
  abbrev pub Accounted : List ℕ → Result Endpoint × Process W → Type 0
  Accounted ds (value e, q) = (fd : ℕ) × (e.socket.socket_id ≡ some fd) × (q.descriptors ≡ fd ∷ ds)
  Accounted ds (raised e, q) = q.descriptors ≡ ds
  Accounted ds (terminated, q) = ⊥

  bind_first-Accounted :
      (infos : List AddrInfo) (p : Process W) → Accounted p.descriptors (bind_first os infos p)
  unfolding bind_first
  bind_first-Accounted [] p = refl
  bind_first-Accounted (ai ∷ infos) p =
      next (bind_first-Accounted infos) (try_address os ai p) (try_address-Handled ai p)
    where
      next :
          ((q : Process W) → Accounted q.descriptors (bind_first os infos q))
          → (x : Result (Option Socket) × Process W) → Handled p.descriptors x
          → Accounted p.descriptors (elim x.0 as (λ r. Result Endpoint × Process W) [
            | value (some sock) ↦ (value (record { socket = sock }), x.1)
            | value none ↦ bind_first os infos x.1
            | raised e ↦ (raised e, x.1)
            | terminated ↦ (terminated, x.1)
          ])
      next more (value (some sock), q) h = h
      next more (value none, q) h = subst (λ l. Accounted l (bind_first os infos q)) h (more q)
      next more (raised e, q) h = absurd h
      next more (terminated, q) h = absurd h

  resolved-Accounted :
      (x : Option (List AddrInfo) × Process W)
      → Accounted x.1.descriptors (resolved os (Socket.found os x))
  resolved-Accounted (none, q) = refl
  resolved-Accounted (some infos, q) = bind_first-Accounted infos q

  -- The constructor leaves an endpoint whose socket is the one descriptor that is new, or throws and
  -- leaves no new descriptor, however many addresses it tried; it does not end the process.
  pub new-Accounted :
      (host service : String) (type : SocketType) (p : Process W)
      → Accounted p.descriptors (new os host service type p)
  unfolding new Socket.address_info
  new-Accounted host service unspec p = refl
  new-Accounted host service tcp p =
      resolved-Accounted (Socket.call os (os.getaddrinfo host service sock_stream ipproto_tcp) p)
  new-Accounted host service udp p =
      resolved-Accounted (Socket.call os (os.getaddrinfo host service sock_dgram ipproto_udp) p)
  new-Accounted host service sctp p =
      resolved-Accounted (Socket.call os (os.getaddrinfo host service sock_stream ipproto_sctp) p)

  -- What `accept` leaves of an endpoint `e`, where the system gave the descriptor `id`.
  abbrev pub AcceptLeaves :
      List ℕ → Endpoint → SocketId → Result (Bool × Endpoint) × Process W → Type 0
  AcceptLeaves ds e id (value (true, e'), q) =
      (e'.socket.socket_id ≡ id)
      × (q.descriptors ≡ opened id ds)
      × ((destroy os e' q).descriptors ≡ ds)
  AcceptLeaves ds e id (value (false, e'), q) = (e' ≡ e) × (q.descriptors ≡ opened id ds)
  AcceptLeaves ds e id (raised x, q) = (x ≡ bad_optional_access) × (q.descriptors ≡ opened id ds)
  AcceptLeaves ds e id (terminated, q) = ⊥

  destroy-opened :
      (id : SocketId) (ds : List ℕ) (q : Process W)
      → q.descriptors ≡ opened id ds
      → (Socket.destroy os (record { socket_id = id }) q).descriptors ≡ ds
  unfolding Socket.destroy
  destroy-opened none ds q h = h
  destroy-opened (some fd) ds q h = ap (closed fd) h ∙ closed-opened fd ds

  -- What the check of the peer can give.
  abbrev Checked : SocketId → Result (Option Socket) → Type 0
  Checked id (value (some sock)) = sock ≡ record { socket_id = id }
  Checked id (value none) = Unit {0}
  Checked id (raised x) = x ≡ bad_optional_access
  Checked id terminated = ⊥

  check_host-Checked :
      (connecting : Option String) (expected : String) (id : SocketId)
      → Checked id (Socket.check_host os connecting expected id)
  unfolding Socket.check_host
  check_host-Checked none expected id = refl
  check_host-Checked (some connecting) expected id =
      elim (Bool-cases (str_eq connecting expected)) [
        | inl same ↦ rw same refl
        | inr other ↦ rw other tt
      ]

  replaced-AcceptLeaves :
      (e : Endpoint) (ds : List ℕ) (id : SocketId) (r : Result (Option Socket)) (q : Process W)
      → Checked id r
      → q.descriptors ≡ opened id ds
      → AcceptLeaves ds e id (replaced os e (r, q))
  unfolding destroy Socket.destroy
  replaced-AcceptLeaves e ds id (value (some sock)) q c h =
      (ap (λ s. s.socket_id) c, h, rw c (destroy-opened id ds q h))
  replaced-AcceptLeaves e ds id (value none) q c h = (refl, h)
  replaced-AcceptLeaves e ds id (raised x) q c h = (c, h)
  replaced-AcceptLeaves e ds id terminated q c h = absurd c

  -- Of an endpoint that accepts a connection nothing is closed: the descriptor that it had before
  -- stays open when the endpoint is destroyed. The descriptor of a connection that is refused stays
  -- open too.
  pub accept_leaks :
      (e : Endpoint) (expected_host : Option String) (p : Process W)
      → AcceptLeaves p.descriptors e
          (os.accept e.socket.socket_id p.world).0.0
          (accept os e expected_host p)
  unfolding accept Socket.accept
  accept_leaks e none p = replaced-AcceptLeaves e p.descriptors _ (value (some _)) _ refl refl
  accept_leaks e (some expected) p =
      replaced-AcceptLeaves e p.descriptors _ _ _ (check_host-Checked _ expected _) refl
