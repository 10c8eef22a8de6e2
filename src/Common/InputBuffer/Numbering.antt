-- ===== src/Common/InputBuffer/Numbering.antt =====
-- The sequence numbers that an input buffer hands out.
use arq_benchmark.Base.{
  ℕ, ◌<◌, ◌≡◌, refl, ap, ◌∙◌, sym, List, [], ◌∷◌, ◌++◌, All, map, arith, append_assoc, append-nil,
}
use arq_benchmark.Common.Host.{Host, IsNetworkOrder, u16_mod}
use arq_benchmark.Common.SequenceNumber.{next_sn, previous_sn}
use arq_benchmark.Common.InOrder.{InOrder}
use arq_benchmark.Common.DataPacket.{DataPacket, update_sequence_number, get_payload_read_span}
use arq_benchmark.Common.DataPacket.Consistent.{IsConsistent, update_sequence_number-IsConsistent}
use arq_benchmark.Common.TxBufferObject.{TransmitBufferObject}
use arq_benchmark.Common.InputBuffer.{InputBuffer, new, add_packet, add_all}
use arq_benchmark.Util.SafeQueue

-- The packets of a queue.
abbrev pub packets : List TransmitBufferObject → List DataPacket
packets = map (λ t. t.packet)

-- An entry whose packet is consistent and carries the number that its info has.
pub record IsNumbered (t : TransmitBufferObject) : Type 0 where
  pub consistent : IsConsistent t.packet
  pub same_number : t.packet.header.sequence_number ≡ t.info.sequence_number

module _ (host : Host) (order : IsNetworkOrder host) where
  -- The entry that a submission makes.
  abbrev entry : ℕ → DataPacket → ℕ → TransmitBufferObject
  entry now packet sn = record {
    packet = update_sequence_number host sn packet;
    info = record { first_tx_time = now; last_tx_time = now; sequence_number = sn };
  }

  -- The entries of a series of submissions to a buffer whose next number is `sn`.
  abbrev entries : ℕ → List (ℕ × DataPacket) → List TransmitBufferObject
  entries sn [] = []
  entries sn ((now, packet) ∷ more) = entry now packet sn ∷ entries (next_sn sn) more

  queue-add_all :
      (subs : List (ℕ × DataPacket)) (ib : InputBuffer)
      → (add_all host subs ib).input_packets.queue
        ≡ ib.input_packets.queue ++ entries (next_sn ib.last_sequence_number) subs
  unfolding add_all add_packet SafeQueue.push
  queue-add_all [] ib = sym (append-nil ib.input_packets.queue)
  queue-add_all ((now, packet) ∷ more) ib =
      queue-add_all more (add_packet host now packet ib)
      ∙ append_assoc ib.input_packets.queue
          (entry now packet (next_sn ib.last_sequence_number) ∷ [])
          (entries (next_sn (next_sn ib.last_sequence_number)) more)

  entries-IsNumbered :
      (sn : ℕ) (subs : List (ℕ × DataPacket))
      → sn < u16_mod
      → All (λ s. IsConsistent s.1) subs
      → All IsNumbered (entries sn subs)
  entries-IsNumbered sn [] lt v = tt
  entries-IsNumbered sn ((now, packet) ∷ more) lt v =
      let (kept, header, payload) =
        update_sequence_number-IsConsistent host order sn packet lt v.0 in
      (
        record { consistent = kept; same_number = ap (λ h. h.sequence_number) header },
        entries-IsNumbered (next_sn sn) more (omega arith) v.1,
      )

  entries-InOrder :
      (sn : ℕ) (subs : List (ℕ × DataPacket))
      → sn < u16_mod
      → All (λ s. IsConsistent s.1) subs
      → (next : ℕ) × InOrder sn (packets (entries sn subs)) next
  entries-InOrder sn [] lt v = (sn, refl)
  entries-InOrder sn ((now, packet) ∷ more) lt v =
      let (kept, header, payload) =
        update_sequence_number-IsConsistent host order sn packet lt v.0 in
      let (next, rest) = entries-InOrder (next_sn sn) more (omega arith) v.1 in
      (next, (ap (λ h. h.sequence_number) header, rest))

  entries-payload :
      (sn : ℕ) (subs : List (ℕ × DataPacket))
      → sn < u16_mod
      → All (λ s. IsConsistent s.1) subs
      → map get_payload_read_span (packets (entries sn subs))
        ≡ map (λ s. get_payload_read_span s.1) subs
  entries-payload sn [] lt v = refl
  entries-payload sn ((now, packet) ∷ more) lt v =
      let (kept, header, payload) =
        update_sequence_number-IsConsistent host order sn packet lt v.0 in
      ap (λ b. b ∷ map get_payload_read_span (packets (entries (next_sn sn) more))) payload
      ∙ ap (◌∷◌ (get_payload_read_span packet))
          (entries-payload (next_sn sn) more (omega arith) v.1)

  -- Consistent packets that are submitted to a new buffer are queued in order, with consecutive
  -- numbers from the first one on; each is consistent, has the number of its info in its header, and
  -- has the payload that was submitted.
  pub add_all_numbers :
      (first : ℕ) (subs : List (ℕ × DataPacket))
      → first < u16_mod
      → All (λ s. IsConsistent s.1) subs
      → let queued = (add_all host subs (new first)).input_packets.queue in
        ((next : ℕ) × InOrder first (packets queued) next)
        × All IsNumbered queued
        × (map get_payload_read_span (packets queued) ≡ map (λ s. get_payload_read_span s.1) subs)
  unfolding new
  add_all_numbers first subs lt v =
      let start : next_sn (previous_sn first) ≡ first = omega arith in
      rw (queue-add_all subs (new first), start)
        (
          entries-InOrder first subs lt v,
          entries-IsNumbered first subs lt v,
          entries-payload first subs lt v,
        )
