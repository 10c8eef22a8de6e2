-- ===== src/Launcher/Packets/Numbered.antt =====
-- What `transmitPackets` leaves in the input buffer of a transmitter.
use arq_benchmark.Base.{
  ℕ, zero, suc, ◌+◌, ◌≡◌, refl, ap, ◌∙◌, List, [], ◌∷◌, ◌++◌, All, All-append, map, map-append,
  length, length-drop, ◌-◌, replicate, arith,
}
use arq_benchmark.Common.Host.{Host, IsNetworkOrder}
use arq_benchmark.Common.SequenceNumber.{first_sequence_number}
use arq_benchmark.Common.InOrder.{InOrder}
use arq_benchmark.Common.DataPacketHeader.{packed_size}
use arq_benchmark.Common.DataPacket.{
  DataPacket, new, update_data_length, update_conversation_id, get_payload_read_span, resize,
}
use arq_benchmark.Common.DataPacket.Consistent.{
  IsConsistent, new-IsConsistent, update_data_length-IsConsistent,
  update_conversation_id-IsConsistent, payload-update_data_length,
}
use arq_benchmark.Common.DataPacket.Payload.{write_payload-IsConsistent}
use arq_benchmark.Common.InputBuffer
use arq_benchmark.Common.InputBuffer.{InputBuffer, add_all, add_packet}
use arq_benchmark.Common.InputBuffer.Numbering.{packets, IsNumbered, add_all_numbers}
use arq_benchmark.Rs.DummySctp.{packet_payload_length}
use arq_benchmark.Transmitter
use arq_benchmark.Transmitter.{Transmitter, send_packet}
use arq_benchmark.Launcher.Packets.{
  random_bytes, input_packet, end_of_tx_packet, transmit_loop, transmit_packets,
}

pub length-random_bytes : (n : ℕ) (dist : ℕ → ℕ) (i : ℕ) → length (random_bytes n dist i) ≡ n
length-random_bytes zero dist i = refl
length-random_bytes (suc n) dist i = ap suc (length-random_bytes n dist (i + 1))

pub length-payload :
    (p : DataPacket) → IsConsistent p → length (get_payload_read_span p) ≡ p.header.length_
unfolding get_payload_read_span
length-payload p v = omega (arith, length-drop packed_size p.bytes, v.size)

resize-zero : (bytes : List ℕ) → resize 0 bytes ≡ []
resize-zero bytes = ap (λ n. replicate n 0) none_left
  where
    none_left : 0 - length bytes ≡ 0
    none_left = omega arith

module _ (host : Host) (order : IsNetworkOrder host) where
  -- A packet before its payload is written.
  abbrev blank : DataPacket
  blank = update_conversation_id host 1 (update_data_length host packet_payload_length (new host))

  blank-IsConsistent : IsConsistent blank × (blank.header.length_ ≡ packet_payload_length)
  blank-IsConsistent =
      let fresh = new-IsConsistent host order in
      let sized = payload-update_data_length host order packet_payload_length (new host) fresh in
      let (kept, header, payload) =
        update_conversation_id-IsConsistent host order 1
          (update_data_length host packet_payload_length (new host)) (omega arith)
          (update_data_length-IsConsistent host order packet_payload_length (new host)
            fresh.in_range.id_byte fresh.in_range.sn_u16) in
      (kept, ap (λ h. h.length_) header ∙ sized.0)

  pub input_packet-IsConsistent :
      (dist : ℕ → ℕ)
      → IsConsistent (input_packet host dist)
        × (get_payload_read_span (input_packet host dist)
            ≡ random_bytes packet_payload_length dist 0)
  unfolding input_packet
  input_packet-IsConsistent dist =
      let (kept, sized) = blank-IsConsistent in
      let enough : length (get_payload_read_span blank) ≡ packet_payload_length =
        length-payload blank kept ∙ sized in
      let (kept', payload) =
        write_payload-IsConsistent (random_bytes (length (get_payload_read_span blank)) dist 0)
          blank (length-random_bytes _ dist 0 ∙ length-payload blank kept) kept in
      (kept', payload ∙ ap (λ n. random_bytes n dist 0) enough)

  pub end_of_tx_packet-IsConsistent :
      IsConsistent (end_of_tx_packet host) × (get_payload_read_span (end_of_tx_packet host) ≡ [])
  unfolding end_of_tx_packet
  end_of_tx_packet-IsConsistent =
      let (kept, header, payload) =
        update_conversation_id-IsConsistent host order 1 (new host) (omega arith)
          (new-IsConsistent host order) in
      let p = update_conversation_id host 1 (new host) in
      (
        update_data_length-IsConsistent host order 0 p kept.in_range.id_byte kept.in_range.sn_u16,
        (payload-update_data_length host order 0 p kept).1 ∙ resize-zero (get_payload_read_span p),
      )

  module _ (clock : ℕ → ℕ) (dist : ℕ → ℕ → ℕ) where
    -- The packets of the rounds from `i` on, with the times at which they are sent.
    abbrev submissions : ℕ → ℕ → List (ℕ × DataPacket)
    submissions zero i = []
    submissions (suc rounds) i = (clock i, input_packet host (dist i)) ∷ submissions rounds (i + 1)

    -- The payloads that are drawn.
    abbrev pub drawn : ℕ → ℕ → List (List ℕ)
    drawn zero i = []
    drawn (suc rounds) i = random_bytes packet_payload_length (dist i) 0 ∷ drawn rounds (i + 1)

    abbrev pub send : {B : Type 0} → ℕ → DataPacket → Transmitter B → Transmitter B
    send i p t = send_packet host (clock i) p t

    all_submissions : ℕ → List (ℕ × DataPacket)
    all_submissions num = submissions num 0 ++ (clock num, end_of_tx_packet host) ∷ []

    submissions-IsConsistent : (n i : ℕ) → All (λ s. IsConsistent s.1) (submissions n i)
    submissions-IsConsistent zero i = tt
    submissions-IsConsistent (suc n) i =
        ((input_packet-IsConsistent (dist i)).0, submissions-IsConsistent n (i + 1))

    submissions-payload :
        (n i : ℕ) → map (λ s. get_payload_read_span s.1) (submissions n i) ≡ drawn n i
    submissions-payload zero i = refl
    submissions-payload (suc n) i =
        ap (λ l. l ∷ map (λ s. get_payload_read_span s.1) (submissions n (i + 1)))
          (input_packet-IsConsistent (dist i)).1
        ∙ ap (◌∷◌ (random_bytes packet_payload_length (dist i) 0)) (submissions-payload n (i + 1))

    add_all-append :
        (xs : List (ℕ × DataPacket)) (y : ℕ × DataPacket) (ib : InputBuffer)
        → add_packet host y.0 y.1 (add_all host xs ib) ≡ add_all host (xs ++ y ∷ []) ib
    unfolding add_all
    add_all-append [] y ib = refl
    add_all-append (x ∷ xs) y ib = add_all-append xs y (add_packet host x.0 x.1 ib)

    transmit_loop-add_all :
        {B : Type 0} (n i : ℕ) (t : Transmitter B)
        → transmit_loop host send dist n i t
          ≡ record t { input_buffer = add_all host (submissions n i) t.input_buffer }
    unfolding transmit_loop add_all send_packet
    transmit_loop-add_all zero i t = refl
    transmit_loop-add_all (suc n) i t =
        transmit_loop-add_all n (i + 1) (send i (input_packet host (dist i)) t)

    all_submissions-IsConsistent : (num : ℕ) → All (λ s. IsConsistent s.1) (all_submissions num)
    unfolding all_submissions
    all_submissions-IsConsistent num =
        All-append (λ s. IsConsistent s.1) (submissions num 0)
          ((clock num, end_of_tx_packet host) ∷ []) (submissions-IsConsistent num 0)
          (end_of_tx_packet-IsConsistent.0, tt)

    all-payload :
        (num : ℕ)
        → map (λ s. get_payload_read_span s.1) (all_submissions num) ≡ drawn num 0 ++ [] ∷ []
    unfolding all_submissions
    all-payload num =
        map-append (λ s. get_payload_read_span s.1) (submissions num 0)
          ((clock num, end_of_tx_packet host) ∷ [])
        ∙ ap (λ l. l ++ get_payload_read_span (end_of_tx_packet host) ∷ [])
            (submissions-payload num 0)
        ∙ ap (λ b. drawn num 0 ++ b ∷ []) end_of_tx_packet-IsConsistent.1

    transmit_packets-add_all :
        {B : Type 0} (rt_buffer : B) (num : ℕ)
        → (transmit_packets host send dist num (Transmitter.new rt_buffer)).input_buffer
          ≡ add_all host (all_submissions num) (InputBuffer.new first_sequence_number)
    unfolding transmit_packets send_packet Transmitter.new all_submissions
    transmit_packets-add_all rt_buffer num =
        ap (λ t. add_packet host (clock num) (end_of_tx_packet host) t.input_buffer)
          (transmit_loop-add_all num 0 (Transmitter.new rt_buffer))
        ∙ add_all-append (submissions num 0) (clock num, end_of_tx_packet host)
            (InputBuffer.new first_sequence_number)

    -- Through a new transmitter, `transmitPackets` queues one packet for each round and one for the
    -- end: they carry consecutive numbers from the first one on, in the info and in the header alike;
    -- their payloads are the random bytes, 1000 for each packet, and none for the last.
    pub transmit_packets-IsNumbered :
        {B : Type 0} (rt_buffer : B) (num_packets : ℕ)
        → let t = transmit_packets host send dist num_packets (Transmitter.new rt_buffer) in
          let queued = t.input_buffer.input_packets.queue in
          ((next : ℕ) × InOrder first_sequence_number (packets queued) next)
          × All IsNumbered queued
          × (map get_payload_read_span (packets queued) ≡ drawn num_packets 0 ++ [] ∷ [])
    transmit_packets-IsNumbered rt_buffer num =
        let (in_order, numbered, payload) =
          add_all_numbers host order first_sequence_number (all_submissions num) (omega arith)
            (all_submissions-IsConsistent num) in
        rw (transmit_packets-add_all rt_buffer num) (in_order, numbered, payload ∙ all-payload num)
