-- ===== src/Util/Endpoint/Keeps.antt =====
-- Calls of an endpoint that open and close no descriptor.
use arq_benchmark.Base.{
  ℕ, zero, suc, ◌+◌, ◌≡◌, refl, ◌∙◌, Bool, true, false, List, [], ◌∷◌, Option, none, some, String,
}
use arq_benchmark.Util.Os.{
  SocketType, sock_stream, sock_dgram, ipproto_tcp, ipproto_udp, ipproto_sctp, tcp, udp, sctp,
  unspec, AddrInfo, Os, Process, Result, value, raised, terminated,
}
use arq_benchmark.Util.Socket
use arq_benchmark.Util.Socket.{Socket}
use arq_benchmark.Util.Endpoint.{
  Endpoint, send_first, send_to, attempt_connect, retry, connect_retry, retried,
}

module _ {W : Type 0} (os : Os W) where
  -- The descriptors after a call are these.
  abbrev pub Keeps : {A : Type 0} → List ℕ → A × Process W → Type 0
  Keeps ds x = x.1.descriptors ≡ ds

  found-Keeps : (x : Option (List AddrInfo) × Process W) → Keeps x.1.descriptors (Socket.found os x)
  found-Keeps (none, q) = refl
  found-Keeps (some infos, q) = refl

  pub address_info-Keeps :
      (host service : String) (type : SocketType) (p : Process W)
      → Keeps p.descriptors (Socket.address_info os host service type p)
  unfolding Socket.address_info
  address_info-Keeps host service unspec p = refl
  address_info-Keeps host service tcp p =
      found-Keeps (Socket.call os (os.getaddrinfo host service sock_stream ipproto_tcp) p)
  address_info-Keeps host service udp p =
      found-Keeps (Socket.call os (os.getaddrinfo host service sock_dgram ipproto_udp) p)
  address_info-Keeps host service sctp p =
      found-Keeps (Socket.call os (os.getaddrinfo host service sock_stream ipproto_sctp) p)

  send_first-Keeps :
      (e : Endpoint) (buffer : List ℕ) (infos : List AddrInfo) (p : Process W)
      → Keeps p.descriptors (send_first os e buffer infos p)
  unfolding send_first Socket.send_to
  send_first-Keeps e buffer [] p = refl
  send_first-Keeps e buffer (ai ∷ infos) p =
      next (os.sendto e.socket.socket_id buffer ai.ai_addr p.world).0
        (send_first-Keeps e buffer infos (Socket.send_to os e.socket buffer ai p).1)
    where
      next :
          (ret : Option ℕ)
          → Keeps p.descriptors
              (send_first os e buffer infos (Socket.send_to os e.socket buffer ai p).1)
          → Keeps p.descriptors (elim ret as (λ o. Option ℕ × Process W) [
            | some n ↦ (some n, (Socket.send_to os e.socket buffer ai p).1)
            | none ↦ send_first os e buffer infos (Socket.send_to os e.socket buffer ai p).1
          ])
      next (some n) k = refl
      next none k = k

  sent-Keeps :
      (e : Endpoint) (buffer : List ℕ) (x : Result (List AddrInfo) × Process W)
      → Keeps x.1.descriptors (elim x.0 as (λ r. Result (Option ℕ) × Process W) [
        | value ais ↦ (value (send_first os e buffer ais x.1).0, (send_first os e buffer ais x.1).1)
        | raised _ ↦ (terminated, x.1)
        | terminated ↦ (terminated, x.1)
      ])
  sent-Keeps e buffer (value ais, q) = send_first-Keeps e buffer ais q
  sent-Keeps e buffer (raised x, q) = refl
  sent-Keeps e buffer (terminated, q) = refl

  pub send_to-Keeps :
      (e : Endpoint) (buffer : List ℕ) (host service : String) (p : Process W)
      → Keeps p.descriptors (send_to os e buffer host service p)
  unfolding send_to
  send_to-Keeps e buffer host service p =
      sent-Keeps e buffer (Socket.address_info os host service udp p)
      ∙ address_info-Keeps host service udp p

  attempt_connect-Keeps :
      (sock : Socket) (infos : List AddrInfo) (p : Process W)
      → Keeps p.descriptors (attempt_connect os sock infos p)
  unfolding attempt_connect Socket.connect
  attempt_connect-Keeps sock [] p = refl
  attempt_connect-Keeps sock (ai ∷ infos) p =
      next (os.connect sock.socket_id ai.ai_addr p.world).0
        (attempt_connect-Keeps sock infos (Socket.connect os sock ai p).1)
    where
      next :
          (done : Bool)
          → Keeps p.descriptors (attempt_connect os sock infos (Socket.connect os sock ai p).1)
          → Keeps p.descriptors (elim done as (λ b. Bool × Process W) [
            | true ↦ (true, (Socket.connect os sock ai p).1)
            | false ↦ attempt_connect os sock infos (Socket.connect os sock ai p).1
          ])
      next true k = refl
      next false k = k

  retry-Keeps :
      (sock : Socket) (infos : List AddrInfo) (attempts cooldown : ℕ) (p : Process W)
      → Keeps p.descriptors (retry os sock infos attempts cooldown p)
  unfolding retry
  retry-Keeps sock infos zero cooldown p = refl
  retry-Keeps sock infos (suc attempts) cooldown p =
      next (retry-Keeps sock infos attempts cooldown) (attempt_connect os sock infos p)
      ∙ attempt_connect-Keeps sock infos p
    where
      next :
          ((q : Process W) → Keeps q.descriptors (retry os sock infos attempts cooldown q))
          → (x : Bool × Process W)
          → Keeps x.1.descriptors (elim x.0 as (λ b. Bool × Process W) [
            | true ↦ (true, x.1)
            | false ↦
                retry os sock infos attempts cooldown (record x.1 { slept = x.1.slept + cooldown })
          ])
      next more (true, q) = refl
      next more (false, q) = more (record q { slept = q.slept + cooldown })

  retried-Keeps :
      (sock : Socket) (attempts cooldown : ℕ) (x : Result (List AddrInfo) × Process W)
      → Keeps x.1.descriptors (retried os sock attempts cooldown x)
  retried-Keeps sock attempts cooldown (value infos, q) = retry-Keeps sock infos attempts cooldown q
  retried-Keeps sock attempts cooldown (raised x, q) = refl
  retried-Keeps sock attempts cooldown (terminated, q) = refl

  pub connect_retry-Keeps :
      (e : Endpoint) (host service : String) (type : SocketType) (attempts cooldown : ℕ)
      (p : Process W)
      → Keeps p.descriptors (connect_retry os e host service type attempts cooldown p)
  unfolding connect_retry
  connect_retry-Keeps e host service type attempts cooldown p =
      retried-Keeps e.socket attempts cooldown (Socket.address_info os host service type p)
      ∙ address_info-Keeps host service type p
