-- ===== src/Rs/DummySctp/Trims.antt =====
-- src/arq/resequencing_buffers/dummy_sctp_rs.cpp: what the buffer makes of a packet of the launcher's
-- size, or an empty one, with the rest of the read behind it.
use arq_benchmark.Base.{
  ℕ, ◌+◌, ◌≡◌, refl, sym, ap, ◌∙◌, false, List, [], ◌∷◌, ◌++◌, some, arith, returns, ◌>>=◌, length,
  length-append, take, le→not_ltb, ==_refl, ltb, append-nil, ◌⊎◌, inl, inr,
}
use arq_benchmark.Common.Host.{Host, IsNetworkOrder}
use arq_benchmark.Common.SequenceNumber.{next_sn}
use arq_benchmark.Common.DataPacketHeader.{packed_size}
use arq_benchmark.Common.DataPacket.{DataPacket, from_serial, get_read_span, is_end_of_tx}
use arq_benchmark.Common.DataPacket.Consistent.{IsConsistent, from_serial-get_read_span}
use arq_benchmark.Util.SafeQueue
use arq_benchmark.Rs.DummySctp.{
  DummySctp, packet_payload_length, first_bytes, trimmed, do_add_packet,
}

-- The packet is empty, or has as much data as the launcher's packets.
abbrev pub IsWhole : DataPacket → Type 0
IsWhole p = (p.header.length_ ≡ 0) ⊎ (p.header.length_ ≡ packet_payload_length)

take-length_append : (xs ys : List ℕ) → take (length xs) (xs ++ ys) ≡ xs
take-length_append [] ys = refl
take-length_append (x ∷ xs) ys = ap (◌∷◌ x) (take-length_append xs ys)

-- A buffer with nothing to give out, that expects packet `n`.
abbrev pub empty : ℕ → DummySctp
empty n = record { shadow_buffer = SafeQueue.new; next_sequence_number = n }

module _ (host : Host) (order : IsNetworkOrder host) where
  first_bytes-bytes :
      (n : ℕ) (bytes tail : List ℕ)
      → length bytes ≡ n
      → first_bytes n (bytes ++ tail) ≡ returns bytes
  first_bytes-bytes n bytes tail e =
      let enough : ltb (length (bytes ++ tail)) (length bytes) ≡ false =
        le→not_ltb (length (bytes ++ tail)) (length bytes)
          (omega (arith, length-append bytes tail)) in
      ap (λ m. first_bytes m (bytes ++ tail)) (sym e)
      ∙ rw (enough, take-length_append bytes tail) refl

  trimmed-bytes :
      (p received : DataPacket) (tail : List ℕ)
      → received.header ≡ p.header
      → length p.bytes ≡ packed_size + p.header.length_
      → IsWhole p
      → trimmed received (p.bytes ++ tail) ≡ returns p.bytes
  unfolding is_end_of_tx
  trimmed-bytes p received tail same size (inl e) =
      rw (same, e) (first_bytes-bytes packed_size p.bytes tail (omega (arith, size, e)))
  trimmed-bytes p received tail same size (inr e) =
      rw (same, e)
        (first_bytes-bytes (packet_payload_length + packed_size) p.bytes tail
          (omega (arith, size, e)))

  from_serial-bytes : (p : DataPacket) → IsConsistent p → from_serial host p.bytes ≡ returns p
  unfolding get_read_span
  from_serial-bytes p v =
      ap (from_serial host) (sym (append-nil p.bytes))
      ∙ from_serial-get_read_span host order p [] v
      ∙ ap (λ l. returns (record p { bytes = l })) (append-nil p.bytes)

  -- The packet that comes next is acknowledged, and waits without the bytes behind it.
  pub do_add_packet-trims :
      (n : ℕ) (p : DataPacket) (tail : List ℕ)
      → IsConsistent p
      → IsWhole p
      → p.header.sequence_number ≡ n
      → do_add_packet host (record p { bytes = p.bytes ++ tail }) (empty n)
        ≡ returns (
          some n,
          record { shadow_buffer = record { queue = p ∷ [] }; next_sequence_number = next_sn n },
        )
  unfolding do_add_packet get_read_span SafeQueue.push
  do_add_packet-trims n p tail v whole sn =
      let enough : ltb (length (p.bytes ++ tail)) packed_size ≡ false =
        le→not_ltb (length (p.bytes ++ tail)) packed_size
          (omega (arith, length-append p.bytes tail, v.size)) in
      rw
        (
          enough,
          from_serial-get_read_span host order p tail v,
          trimmed-bytes p (record p { bytes = p.bytes ++ tail }) tail refl v.size whole,
          from_serial-bytes p v,
          ◌>>=◌,
        )
        (rw (sn, ==_refl n) refl)
