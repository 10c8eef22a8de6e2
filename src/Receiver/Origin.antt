-- ===== src/Receiver/Origin.antt =====
-- Where the packets come from that a receiver hands out, and their order, over any resequencing
-- buffer.
use arq_benchmark.Base.{
  ℕ, zero, suc, ◌+◌, ◌≡◌, Bool, false, List, [], ◌∷◌, ◌++◌, All, All-append, OnSome, Option, none,
  some, Bool-cases, inl, inr, subst, sym, ap, ◌∙◌, map, map-append, replicate, append_assoc,
  if◌then◌else◌, ◌==◌, ==_iff, Outcome, returns, OnReturn, OnReturn->>=, if-holds, ◌>>=◌,
}
use arq_benchmark.Common.Host.{Host}
use arq_benchmark.Common.SequenceNumber.{next_sn}
use arq_benchmark.Common.DataPacket.{DataPacket, is_end_of_tx}
use arq_benchmark.Common.InOrder.{InOrder, InOrder-snoc}
use arq_benchmark.Common.ControlPacket
use arq_benchmark.Common.OutputBuffer
use arq_benchmark.Common.OutputBuffer.{OutputBuffer, ReceiveBufferObject, delivered}
use arq_benchmark.Rs.Buffer.{RsBuffer}
use arq_benchmark.Rs.Origin.{IsFaithful}
use arq_benchmark.Util.SafeQueue
use arq_benchmark.Receiver.{
  Receiver, receive_packet, take_packet, deliver, resequencing_round, ack_thread_round,
  try_get_packet, send_ack,
}

-- What the application was given and what waits for it.
abbrev pub output : {B : Type 0} → Receiver B → List DataPacket
output r = r.handed_out ++ delivered r.output_buffer

module _ {B : Type 0} (ops : RsBuffer B) (P : DataPacket → Type 0) (Holds : B → Type 0)
    (laws : IsFaithful ops P Holds) (first : ℕ) where
  -- `P` holds of all packets in the buffers, and the output carries consecutive numbers from `first`
  -- on.
  pub record IsGenuine (r : Receiver B) : Type 0 where
    pub held : Holds r.resequencing_buffer
    pub genuine : All P (output r)
    pub in_order : InOrder first (output r) r.output_buffer.next_sequence_number

  abbrev Keeps : Outcome (Receiver B) → Type 0
  Keeps = OnReturn IsGenuine

  -- A packet that the output buffer is offered.
  offered :
      (now : ℕ) (p : DataPacket) (handed_out : List DataPacket) (ob : OutputBuffer)
      → P p
      → All P (handed_out ++ delivered ob)
      → InOrder first (handed_out ++ delivered ob) ob.next_sequence_number
      → let ob' = (OutputBuffer.add_packet now p ob).1 in
        All P (handed_out ++ delivered ob')
        × InOrder first (handed_out ++ delivered ob') ob'.next_sequence_number
  unfolding OutputBuffer.add_packet SafeQueue.push
  offered now p out ob k h o =
      elim (Bool-cases (p.header.sequence_number == ob.next_sequence_number)) [
        | inr miss ↦ rw miss (h, o)
        | inl hit ↦
            let e : p.header.sequence_number ≡ ob.next_sequence_number = (==_iff _ _).0 hit in
            let behind : (out ++ delivered ob) ++ p ∷ []
                ≡ out
                  ++ map (λ r. r.packet)
                      (ob.output_packets.queue ++ record { packet = p; rx_time = now } ∷ []) =
              append_assoc out (delivered ob) (p ∷ [])
              ∙ ap (λ l. out ++ l) (sym (map-append (λ r. r.packet) ob.output_packets.queue _)) in
            rw hit (
              subst (All P) behind (All-append P (out ++ delivered ob) (p ∷ []) h (k, tt)),
              subst (λ l. InOrder first l (next_sn ob.next_sequence_number)) behind
                  (InOrder-snoc first ob.next_sequence_number (out ++ delivered ob) p o e),
            )
      ]

  -- A round of the loop, if the rounds behind it keep the invariant.
  deliver_round :
      (fuel : ℕ) (clock : ℕ → ℕ) (i : ℕ) (r : Receiver B) (next : Option DataPacket) (b : B)
      → IsGenuine r
      → OnSome P next
      → Holds b
      → ((s : Receiver B) → IsGenuine s → Keeps (deliver ops fuel clock (i + 1) s))
      → Keeps (elim next as (λ o. Outcome (Receiver B)) [
        | none ↦ returns (record r { resequencing_buffer = b })
        | some p ↦ deliver ops fuel clock (i + 1) (record r {
          resequencing_buffer = b;
          output_buffer = (OutputBuffer.add_packet (clock i) p r.output_buffer).1;
        })
      ])
  deliver_round fuel clock i r none b v k h rest = record {
    held = h;
    genuine = v.genuine;
    in_order = v.in_order;
  }
  deliver_round fuel clock i r (some p) b v k h rest =
      let (g, o) = offered (clock i) p r.handed_out r.output_buffer k v.genuine v.in_order in
      rest _ (record { held = h; genuine = g; in_order = o })

  deliver-IsGenuine :
      (fuel : ℕ) (clock : ℕ → ℕ) (i : ℕ) (r : Receiver B)
      → IsGenuine r
      → Keeps (deliver ops fuel clock i r)
  unfolding deliver
  deliver-IsGenuine zero clock i r v = tt
  deliver-IsGenuine (suc fuel) clock i r v =
      let (k, h) = laws.get_next_keeps r.resequencing_buffer v.held in
      deliver_round fuel clock i r _ _ v k h (λ s w. deliver-IsGenuine fuel clock (i + 1) s w)

  take_packet-IsGenuine :
      (p : DataPacket) (r : Receiver B) → P p → IsGenuine r → Keeps (take_packet ops p r)
  unfolding take_packet
  take_packet-IsGenuine p r k v =
      OnReturn->>= (λ x. Holds x.1) IsGenuine (ops.add_packet p r.resequencing_buffer) _
        (laws.add_keeps p r.resequencing_buffer k v.held) (λ x h. answered x.0 x.1 h)
    where
      eot : Option ℕ
      eot = if is_end_of_tx p then some p.header.sequence_number else r.end_of_tx_sn

      answered :
          (ack : Option ℕ) (b : B)
          → Holds b
          → Keeps (elim ack as (λ o. Outcome (Receiver B)) [
            | none ↦ returns (record r { resequencing_buffer = b; end_of_tx_sn = eot })
            | some sn ↦ returns (record r {
              resequencing_buffer = b;
              end_of_tx_sn = eot;
              ack_queue = SafeQueue.push r.ack_queue sn;
            })
          ])
      answered none b h = record { held = h; genuine = v.genuine; in_order = v.in_order }
      answered (some sn) b h = record { held = h; genuine = v.genuine; in_order = v.in_order }

  -- A pass of the resequencing thread, if `P` holds of the packet that the bytes make.
  pub resequencing_round-IsGenuine :
      (host : Host) (fuel : ℕ) (clock : ℕ → ℕ) (received : Option ℕ) (recv_buffer : List ℕ)
      (r : Receiver B)
      → OnReturn (OnSome P) (receive_packet host received recv_buffer)
      → IsGenuine r
      → OnReturn IsGenuine (resequencing_round ops host fuel clock received recv_buffer r)
  unfolding resequencing_round
  resequencing_round-IsGenuine host fuel clock received recv_buffer r k v =
      if-holds Keeps r.acked_end_of_tx _ _ v (
        OnReturn->>= (OnSome P) IsGenuine (receive_packet host received recv_buffer)
          (λ packet.
            elim packet as (λ o. Outcome (Receiver B)) [
              | none ↦ returns r
              | some p ↦ take_packet ops p r
            ]
            >>= deliver ops fuel clock 0)
          k (λ packet q. taken packet q))
    where
      taken :
          (packet : Option DataPacket)
          → OnSome P packet
          → Keeps (
              elim packet as (λ o. Outcome (Receiver B)) [
                | none ↦ returns r
                | some p ↦ take_packet ops p r
              ]
              >>= deliver ops fuel clock 0)
      taken none q = deliver-IsGenuine fuel clock 0 r v
      taken (some p) q =
          OnReturn->>= IsGenuine IsGenuine (take_packet ops p r) (deliver ops fuel clock 0)
            (take_packet-IsGenuine p r q v) (λ s w. deliver-IsGenuine fuel clock 0 s w)

  -- The packets move, and the output stays the same.
  pub try_get_packet-IsGenuine : (r : Receiver B) → IsGenuine r → IsGenuine (try_get_packet r)
  unfolding try_get_packet OutputBuffer.try_get_packet SafeQueue.try_pop
  try_get_packet-IsGenuine r v = at r.output_buffer.output_packets.queue v.genuine v.in_order
    where
      with_queue : List ReceiveBufferObject → Receiver B
      with_queue q = record r {
        output_buffer = record r.output_buffer { output_packets = record { queue = q } };
      }

      at :
          (q : List ReceiveBufferObject)
          → All P (output (with_queue q))
          → InOrder first (output (with_queue q)) r.output_buffer.next_sequence_number
          → IsGenuine (try_get_packet (with_queue q))
      at [] g o = record { held = v.held; genuine = g; in_order = o }
      at (p ∷ q) g o =
          let e = sym (append_assoc r.handed_out (p.packet ∷ []) (map (λ x. x.packet) q)) in
          record {
            held = v.held;
            genuine = subst (All P) e g;
            in_order = subst (λ l. InOrder first l r.output_buffer.next_sequence_number) e o;
          }

  send_ack-IsGenuine :
      (host : Host) (sn : ℕ) (r : Receiver B) → IsGenuine r → IsGenuine (send_ack host sn r)
  unfolding send_ack
  send_ack-IsGenuine host sn r v =
      let (done, send_buffer) =
        ControlPacket.serialise host (record { sequence_number = sn })
          (replicate ControlPacket.size_of 0) in
      if-holds IsGenuine done (record r { sent = r.sent ++ send_buffer ∷ [] }) r
        (record { held = v.held; genuine = v.genuine; in_order = v.in_order }) v

  pub ack_thread_round-IsGenuine :
      (host : Host) (r : Receiver B) → IsGenuine r → IsGenuine (ack_thread_round host r)
  unfolding ack_thread_round
  ack_thread_round-IsGenuine host r v =
      if-holds IsGenuine r.acked_end_of_tx r _ v (popped (SafeQueue.try_pop r.ack_queue).0)
    where
      rest : Receiver B
      rest = record r { ack_queue = (SafeQueue.try_pop r.ack_queue).1 }

      marked :
          (c : Bool) (s : Receiver B) → IsGenuine s → IsGenuine (record s { acked_end_of_tx = c })
      marked c s h = record { held = h.held; genuine = h.genuine; in_order = h.in_order }

      kept : IsGenuine rest
      kept = record { held = v.held; genuine = v.genuine; in_order = v.in_order }

      popped :
          (next : Option ℕ)
          → IsGenuine (elim next as (λ o. Receiver B) [
            | none ↦ r
            | some sn ↦ record (send_ack host sn rest) {
              acked_end_of_tx = elim r.end_of_tx_sn as (λ o. Bool) [
                | none ↦ false
                | some eot ↦ sn == eot
              ];
            }
          ])
      popped none = v
      popped (some sn) = marked _ (send_ack host sn rest) (send_ack-IsGenuine host sn rest kept)
