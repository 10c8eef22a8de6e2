-- ===== src/Receiver/Round.antt =====
-- A pass of the resequencing thread with a Go-Back-N buffer: what arrives in sequence goes through to
-- the output buffer in that pass.
use arq_benchmark.Base.{
  ℕ, zero, suc, ◌+◌, ◌≤◌, ◌≡◌, refl, ap, sym, ◌∙◌, true, false, List, [], ◌∷◌, ◌++◌, Option, none,
  some, length, arith, ◌==◌, ==_iff, Bool-cases, inl, inr, ◌⊎◌, Outcome, returns, ◌>>=◌,
  if◌then◌else◌, map-append, append_assoc, subst,
}
use arq_benchmark.Common.Host.{Host, IsNetworkOrder}
use arq_benchmark.Common.SequenceNumber.{next_sn, previous_sn}
use arq_benchmark.Common.DataPacketHeader.{packed_size}
use arq_benchmark.Common.DataPacket.{DataPacket, is_end_of_tx}
use arq_benchmark.Common.DataPacket.Consistent.{from_serial_never_throws}
use arq_benchmark.Common.InOrder.{InOrder, InOrder-snoc}
use arq_benchmark.Common.OutputBuffer
use arq_benchmark.Common.OutputBuffer.{delivered}
use arq_benchmark.Rs.GoBackN
use arq_benchmark.Rs.GoBackN.{GoBackN}
use arq_benchmark.Rs.Instances.{go_back_n}
use arq_benchmark.Util.SafeQueue
use arq_benchmark.Receiver.{Receiver, receive_packet, take_packet, deliver, resequencing_round}

-- What the application was given and what waits for it.
abbrev pub output : Receiver GoBackN → List DataPacket
output r = r.handed_out ++ delivered r.output_buffer

-- The output is in sequence, and both buffers expect the number behind it.
pub record Synced (first : ℕ) (handed_out : List DataPacket) (ob : OutputBuffer.OutputBuffer)
    (b : GoBackN) : Type 0 where
  pub in_order : InOrder first (handed_out ++ delivered ob) ob.next_sequence_number
  pub empty : b.shadow_buffer.queue ≡ []
  pub same_next : b.next_sequence_number ≡ ob.next_sequence_number

abbrev pub IsSynced : ℕ → Receiver GoBackN → Type 0
IsSynced first r = Synced first r.handed_out r.output_buffer r.resequencing_buffer

-- The call returns, and the receiver is in sequence.
abbrev pub Delivers : ℕ → Outcome (Receiver GoBackN) → Type 0
Delivers first o = (r' : Receiver GoBackN) × (o ≡ returns r') × IsSynced first r'

get_next_packet-nothing :
    (b : GoBackN) → b.shadow_buffer.queue ≡ [] → GoBackN.do_get_next_packet b ≡ (none, b)
unfolding GoBackN.do_get_next_packet SafeQueue.try_pop
get_next_packet-nothing b e = simp (e, GoBackN.do_get_next_packet, SafeQueue.try_pop)

pub get_next_packet-one :
    (b : GoBackN) (p : DataPacket)
    → b.shadow_buffer.queue ≡ p ∷ []
    → GoBackN.do_get_next_packet b ≡ (some p, record b { shadow_buffer = SafeQueue.new })
unfolding GoBackN.do_get_next_packet SafeQueue.try_pop
get_next_packet-one b p e = simp (e, GoBackN.do_get_next_packet, SafeQueue.try_pop)

-- The output buffer takes the packet whose number comes next.
pub accepted :
    (now : ℕ) (p : DataPacket) (ob : OutputBuffer.OutputBuffer)
    → p.header.sequence_number ≡ ob.next_sequence_number
    → (delivered (OutputBuffer.add_packet now p ob).1 ≡ delivered ob ++ p ∷ [])
      × ((OutputBuffer.add_packet now p ob).1.next_sequence_number
          ≡ next_sn ob.next_sequence_number)
unfolding OutputBuffer.add_packet SafeQueue.push
accepted now p ob e =
    let hit : (p.header.sequence_number == ob.next_sequence_number) ≡ true = (==_iff _ _).1 e in
    simp hit (map-append (λ x. x.packet) ob.output_packets.queue _, refl)

do_add_packet-hit :
    (b : GoBackN) (p : DataPacket)
    → (p.header.sequence_number == b.next_sequence_number) ≡ true
    → b.shadow_buffer.queue ≡ []
    → GoBackN.do_add_packet p b ≡ (
      some p.header.sequence_number,
      record {
        shadow_buffer = record { queue = p ∷ [] };
        next_sequence_number = next_sn b.next_sequence_number;
        can_send_acks = true;
      },
    )
unfolding GoBackN.do_add_packet SafeQueue.push
do_add_packet-hit b p hit e = rw (hit, e) refl

do_add_packet-miss :
    (b : GoBackN) (p : DataPacket)
    → (p.header.sequence_number == b.next_sequence_number) ≡ false
    → GoBackN.do_add_packet p b
      ≡ (if b.can_send_acks then some (previous_sn b.next_sequence_number) else none, b)
unfolding GoBackN.do_add_packet
do_add_packet-miss b p miss = rw miss refl

-- The receiver that took the packet that was expected.
abbrev pub taken : Receiver GoBackN → DataPacket → Receiver GoBackN
taken r p = record r {
  resequencing_buffer = record {
    shadow_buffer = record { queue = p ∷ [] };
    next_sequence_number = next_sn r.resequencing_buffer.next_sequence_number;
    can_send_acks = true;
  };
  end_of_tx_sn = if is_end_of_tx p then some p.header.sequence_number else r.end_of_tx_sn;
  ack_queue = SafeQueue.push r.ack_queue p.header.sequence_number;
}

-- What `take_packet` does with what the buffer answers.
abbrev answered : Receiver GoBackN → DataPacket → Option ℕ × GoBackN → Outcome (Receiver GoBackN)
answered r p x = elim x.0 [
  | none ↦ returns (record r {
    resequencing_buffer = x.1;
    end_of_tx_sn = if is_end_of_tx p then some p.header.sequence_number else r.end_of_tx_sn;
  })
  | some sn ↦ returns (record r {
    resequencing_buffer = x.1;
    end_of_tx_sn = if is_end_of_tx p then some p.header.sequence_number else r.end_of_tx_sn;
    ack_queue = SafeQueue.push r.ack_queue sn;
  })
]

pub take_packet-hit :
    (r : Receiver GoBackN) (p : DataPacket)
    → (p.header.sequence_number == r.resequencing_buffer.next_sequence_number) ≡ true
    → r.resequencing_buffer.shadow_buffer.queue ≡ []
    → take_packet go_back_n p r ≡ returns (taken r p)
unfolding take_packet
take_packet-hit r p hit e = ap (answered r p) (do_add_packet-hit r.resequencing_buffer p hit e)

-- The bytes that were received make a packet, or nothing was received.
pub receive_packet-cases :
    (host : Host) (order : IsNetworkOrder host) (received : Option ℕ) (recv_buffer : List ℕ)
    → packed_size ≤ length recv_buffer
    → (receive_packet host received recv_buffer ≡ returns none)
      ⊎ ((p : DataPacket) × (receive_packet host received recv_buffer ≡ returns (some p)))
unfolding receive_packet
receive_packet-cases host order none recv_buffer room = inl refl
receive_packet-cases host order (some zero) recv_buffer room = inl refl
receive_packet-cases host order (some (suc n)) recv_buffer room =
    elim (from_serial_never_throws host order recv_buffer) [
      | inl (enough, (hdr, e)) ↦ inr (record { header = hdr; bytes = recv_buffer }, rw (e, ◌>>=◌))
      | inr (short, e) ↦ absurd (omega arith)
    ]

module _ (first : ℕ) where
  abbrev IsSequencedOutput : Receiver GoBackN → Type 0
  IsSequencedOutput r = InOrder first (output r) r.output_buffer.next_sequence_number

  pub deliver-nothing :
      (fuel : ℕ) (clock : ℕ → ℕ) (i : ℕ) (r : Receiver GoBackN)
      → r.resequencing_buffer.shadow_buffer.queue ≡ []
      → deliver go_back_n (suc fuel) clock i r ≡ returns r
  unfolding deliver
  deliver-nothing fuel clock i r e = simp (get_next_packet-nothing r.resequencing_buffer e, deliver)

  take_packet-miss :
      (r : Receiver GoBackN) (p : DataPacket)
      → (p.header.sequence_number == r.resequencing_buffer.next_sequence_number) ≡ false
      → IsSynced first r
      → Delivers first (take_packet go_back_n p r)
  unfolding take_packet
  take_packet-miss r p miss v =
      let (r', e, v') = quiet_or_loud (
        if r.resequencing_buffer.can_send_acks
        then some (previous_sn r.resequencing_buffer.next_sequence_number)
        else none) in
      (r', ap (answered r p) (do_add_packet-miss r.resequencing_buffer p miss) ∙ e, v')
    where
      quiet_or_loud : (ack : Option ℕ) → Delivers first (answered r p (ack, r.resequencing_buffer))
      quiet_or_loud none = (_, refl, v)
      quiet_or_loud (some sn) = (_, refl, v)

  -- A round that finds a packet goes on with the next one.
  pub deliver-some :
      (fuel : ℕ) (clock : ℕ → ℕ) (i : ℕ) (r : Receiver GoBackN) (p : DataPacket) (b : GoBackN)
      → GoBackN.do_get_next_packet r.resequencing_buffer ≡ (some p, b)
      → deliver go_back_n (suc fuel) clock i r
        ≡ deliver go_back_n fuel clock (i + 1) (record r {
          resequencing_buffer = b;
          output_buffer = (OutputBuffer.add_packet (clock i) p r.output_buffer).1;
        })
  unfolding deliver
  deliver-some fuel clock i r p b e = simp (e, deliver)

  -- The packet that waits goes to the output buffer.
  deliver-one :
      (fuel : ℕ) (clock : ℕ → ℕ) (r : Receiver GoBackN) (p : DataPacket)
      → IsSequencedOutput r
      → r.resequencing_buffer.shadow_buffer.queue ≡ p ∷ []
      → p.header.sequence_number ≡ r.output_buffer.next_sequence_number
      → r.resequencing_buffer.next_sequence_number ≡ next_sn r.output_buffer.next_sequence_number
      → Delivers first (deliver go_back_n (suc (suc fuel)) clock 0 r)
  deliver-one fuel clock r p v e number next =
      let ob = (OutputBuffer.add_packet (clock 0) p r.output_buffer).1 in
      let r' : Receiver GoBackN = record r {
        resequencing_buffer = record r.resequencing_buffer { shadow_buffer = SafeQueue.new };
        output_buffer = ob;
      } in
      let (behind, after) = accepted (clock 0) p r.output_buffer number in
      (
        r',
        deliver-some (suc fuel) clock 0 r p _ (get_next_packet-one r.resequencing_buffer p e)
            ∙ deliver-nothing fuel clock (0 + 1) r' refl,
        record {
          in_order =
              subst (λ l. InOrder first l ob.next_sequence_number)
                (append_assoc r.handed_out (delivered r.output_buffer) (p ∷ [])
                  ∙ ap (λ l. r.handed_out ++ l) (sym behind))
                (subst (λ n. InOrder first (output r ++ p ∷ []) n) (sym after)
                  (InOrder-snoc first r.output_buffer.next_sequence_number (output r) p v number));
          empty = refl;
          same_next = next ∙ sym after;
        },
      )

  take_packet-IsSynced :
      (fuel : ℕ) (clock : ℕ → ℕ) (p : DataPacket) (r : Receiver GoBackN)
      → IsSynced first r
      → Delivers first (take_packet go_back_n p r >>= deliver go_back_n (suc (suc fuel)) clock 0)
  take_packet-IsSynced fuel clock p r v =
      elim (Bool-cases (p.header.sequence_number == r.resequencing_buffer.next_sequence_number)) [
        | inl hit ↦
            let number : p.header.sequence_number ≡ r.output_buffer.next_sequence_number =
              (==_iff _ _).0 hit ∙ v.same_next in
            let (r', e, v') =
              deliver-one fuel clock (taken r p) p v.in_order refl number
                (ap next_sn v.same_next) in
            (
              r',
              ap (λ o. o >>= deliver go_back_n (suc (suc fuel)) clock 0)
                    (take_packet-hit r p hit v.empty)
                  ∙ e,
              v',
            )
        | inr miss ↦
            let (r', e, v') = take_packet-miss r p miss v in
            (
              r',
              ap (λ o. o >>= deliver go_back_n (suc (suc fuel)) clock 0) e
                  ∙ deliver-nothing (suc fuel) clock 0 r' v'.empty,
              v',
            )
      ]

  pub resequencing_round-IsSynced :
      (host : Host) (order : IsNetworkOrder host) (fuel : ℕ) (clock : ℕ → ℕ) (received : Option ℕ)
      (recv_buffer : List ℕ) (r : Receiver GoBackN)
      → packed_size ≤ length recv_buffer
      → IsSynced first r
      → Delivers first
          (resequencing_round go_back_n host (suc (suc fuel)) clock received recv_buffer r)
  unfolding resequencing_round
  resequencing_round-IsSynced host order fuel clock received recv_buffer r room v =
      elim (Bool-cases r.acked_end_of_tx) [
        | inl done ↦ (r, simp done, v)
        | inr going ↦ elim (receive_packet-cases host order received recv_buffer room) [
          | inl e ↦ (r, simp (going, e, ◌>>=◌) (deliver-nothing (suc fuel) clock 0 r v.empty), v)
          | inr (p, e) ↦
              let (r', q, v') = take_packet-IsSynced fuel clock p r v in
              (r', simp (going, e, ◌>>=◌) q, v')
        ]
      ]
