-- ===== src/Common/DataPacket/Consistent.antt =====
-- The invariant of a packet: its stored bytes are its header, serialised, and a payload of the
-- length that the header states.
use arq_benchmark.Base.{
  ℕ, suc, ◌+◌, ◌-◌, ◌≤◌, ◌<◌, ◌≡◌, refl, ap, ◌∙◌, true, List, [], ◌∷◌, ◌++◌, arith, length, drop,
  take, replicate, le→not_ltb, ltb, min, length-append, length-take, length-drop, length-replicate,
  drop-take, returns, undefined, ◌⊎◌, if◌then◌else◌, inl, inr,
}
use arq_benchmark.Common.Host.{Host, IsNetworkOrder, u16_mod, byte_mod}
use arq_benchmark.Common.DataPacketHeader
use arq_benchmark.Common.SequenceNumber.{deserialise_seq_num}
use arq_benchmark.Common.DataPacketHeader.{
  DataPacketHeader, packed_size, zero_header, data_pkt_max_payload_size,
}
use arq_benchmark.Common.DataPacketHeader.Wire.{InRange, wire, serialise-wire, deserialise-wire}
use arq_benchmark.Common.DataPacket.{
  DataPacket, serialise_header, update_data_length, update_header, update_sequence_number,
  update_conversation_id, new, from_header, from_serial, resize, get_read_span,
  get_payload_read_span,
}

pub record IsConsistent (p : DataPacket) : Type 0 where
  pub in_range : InRange p.header
  pub bounded : p.header.length_ ≤ data_pkt_max_payload_size
  pub size : length p.bytes ≡ packed_size + p.header.length_
  pub starts : p.bytes ≡ wire p.header ++ drop packed_size p.bytes

length-resize : (n : ℕ) (xs : List ℕ) → length (resize n xs) ≡ n
length-resize n xs = omega (
  arith,
  length-append (take n xs) (replicate (n - length xs) 0),
  length-take n xs,
  length-replicate {A = ℕ} (n - length xs) 0,
)

-- Resizing past the header resizes the payload.
drop-resize :
    (n : ℕ) (hdr payload : List ℕ)
    → length hdr ≡ packed_size
    → drop packed_size (resize (packed_size + n) (hdr ++ payload)) ≡ resize n payload
drop-resize n [] payload h = absurd (omega arith)
drop-resize n (a ∷ []) payload h = absurd (omega arith)
drop-resize n (a ∷ b ∷ []) payload h = absurd (omega arith)
drop-resize n (a ∷ b ∷ c ∷ []) payload h = absurd (omega arith)
drop-resize n (a ∷ b ∷ c ∷ d ∷ []) payload h = absurd (omega arith)
drop-resize n (a ∷ b ∷ c ∷ d ∷ e ∷ f ∷ hdr) payload h = absurd (omega arith)
drop-resize n (a ∷ b ∷ c ∷ d ∷ e ∷ []) payload h =
    let sum : packed_size + n ≡ suc (suc (suc (suc (suc n)))) = omega arith in
    rw sum (ap (λ k. take n payload ++ replicate k 0) (omega arith))

module _ (host : Host) (order : IsNetworkOrder host) where
  -- The header is written over the first five bytes, and the write succeeds.
  serialise_header_lem :
      (p : DataPacket)
      → InRange p.header
      → packed_size ≤ length p.bytes
      → serialise_header host p
        ≡ (true, record p { bytes = wire p.header ++ drop packed_size p.bytes })
  unfolding serialise_header
  serialise_header_lem p v room =
      rw
        (
          serialise-wire host order p.header (take packed_size p.bytes) v
              (omega (arith, length-take packed_size p.bytes)),
          drop-take packed_size p.bytes,
        )
        refl

  abbrev truncated : ℕ → ℕ
  truncated len = if ltb data_pkt_max_payload_size len then data_pkt_max_payload_size else len

  truncated-eq-min : (len : ℕ) → truncated len ≡ min len data_pkt_max_payload_size
  truncated-eq-min len = ground arith

  pub update_data_length_lem :
      (len : ℕ) (p : DataPacket)
      → p.header.id < byte_mod
      → p.header.sequence_number < u16_mod
      → let hdr = record p.header { length_ = truncated len } in
        update_data_length host len p ≡ record {
          header = hdr;
          bytes = wire hdr ++ drop packed_size (resize (packed_size + truncated len) p.bytes);
        }
  unfolding update_data_length
  update_data_length_lem len p hid hsn =
      ap (λ r. r.1)
        (serialise_header_lem _ (record { id_byte = hid; sn_u16 = hsn; length_u16 = ground arith })
          (omega (arith, length-resize (packed_size + truncated len) p.bytes)))

  -- A packet whose bytes are a serialised header and as many bytes as it states.
  IsConsistent-wire :
      (hdr : DataPacketHeader) (payload : List ℕ)
      → InRange hdr
      → hdr.length_ ≤ data_pkt_max_payload_size
      → length payload ≡ hdr.length_
      → IsConsistent (record { header = hdr; bytes = wire hdr ++ payload })
  IsConsistent-wire hdr payload v small len = record {
    in_range = v;
    bounded = small;
    size = omega arith;
    starts = refl;
  }

  pub update_data_length-IsConsistent :
      (len : ℕ) (p : DataPacket)
      → p.header.id < byte_mod
      → p.header.sequence_number < u16_mod
      → IsConsistent (update_data_length host len p)
  update_data_length-IsConsistent len p hid hsn = rw (update_data_length_lem len p hid hsn) (
      IsConsistent-wire (record p.header { length_ = truncated len })
        (drop packed_size (resize (packed_size + truncated len) p.bytes))
        (record { id_byte = hid; sn_u16 = hsn; length_u16 = ground arith }) (ground arith)
        (omega (
          arith,
          length-drop packed_size (resize (packed_size + truncated len) p.bytes),
          length-resize (packed_size + truncated len) p.bytes,
        )))

  -- The updates of one field keep the rest of the bytes.
  update_sequence_number_lem :
      (sn : ℕ) (p : DataPacket)
      → sn < u16_mod
      → IsConsistent p
      → let hdr = record p.header { sequence_number = sn } in
        update_sequence_number host sn p
        ≡ record { header = hdr; bytes = wire hdr ++ drop packed_size p.bytes }
  unfolding update_sequence_number
  update_sequence_number_lem sn p h v =
      ap (λ r. r.1)
        (serialise_header_lem _
          (record { id_byte = v.in_range.id_byte; sn_u16 = h; length_u16 = v.in_range.length_u16 })
          (omega (arith, v.size)))

  update_conversation_id_lem :
      (conv : ℕ) (p : DataPacket)
      → conv < byte_mod
      → IsConsistent p
      → let hdr = record p.header { id = conv } in
        update_conversation_id host conv p
        ≡ record { header = hdr; bytes = wire hdr ++ drop packed_size p.bytes }
  unfolding update_conversation_id
  update_conversation_id_lem conv p h v =
      ap (λ r. r.1)
        (serialise_header_lem _
          (record { id_byte = h; sn_u16 = v.in_range.sn_u16; length_u16 = v.in_range.length_u16 })
          (omega (arith, v.size)))

  -- A packet whose sequence number is updated is consistent, carries that number, and keeps its
  -- other fields and its payload.
  pub update_sequence_number-IsConsistent :
      (sn : ℕ) (p : DataPacket)
      → sn < u16_mod
      → IsConsistent p
      → IsConsistent (update_sequence_number host sn p)
        × ((update_sequence_number host sn p).header ≡ record p.header { sequence_number = sn })
        × (get_payload_read_span (update_sequence_number host sn p) ≡ get_payload_read_span p)
  unfolding get_payload_read_span
  update_sequence_number-IsConsistent sn p h v = rw (update_sequence_number_lem sn p h v) (
    IsConsistent-wire _ _
        (record { id_byte = v.in_range.id_byte; sn_u16 = h; length_u16 = v.in_range.length_u16 })
        v.bounded (omega (arith, v.size, length-drop packed_size p.bytes)),
    refl,
    refl,
  )

  pub update_conversation_id-IsConsistent :
      (conv : ℕ) (p : DataPacket)
      → conv < byte_mod
      → IsConsistent p
      → IsConsistent (update_conversation_id host conv p)
        × ((update_conversation_id host conv p).header ≡ record p.header { id = conv })
        × (get_payload_read_span (update_conversation_id host conv p) ≡ get_payload_read_span p)
  unfolding get_payload_read_span
  update_conversation_id-IsConsistent conv p h v = rw (update_conversation_id_lem conv p h v) (
    IsConsistent-wire _ _
        (record { id_byte = h; sn_u16 = v.in_range.sn_u16; length_u16 = v.in_range.length_u16 })
        v.bounded (omega (arith, v.size, length-drop packed_size p.bytes)),
    refl,
    refl,
  )

  abbrev empty_packet : DataPacket
  empty_packet = record { header = zero_header; bytes = [] }

  -- Every way to build a packet on the transmitting side gives a consistent one.
  pub new-IsConsistent : IsConsistent (new host)
  unfolding new
  new-IsConsistent = update_data_length-IsConsistent 0 empty_packet (omega arith) (omega arith)

  pub from_header-IsConsistent :
      (hdr : DataPacketHeader)
      → hdr.id < byte_mod
      → hdr.sequence_number < u16_mod
      → IsConsistent (from_header host hdr)
  unfolding from_header update_header
  from_header-IsConsistent hdr hid hsn =
      update_data_length-IsConsistent hdr.length_ (record { header = hdr; bytes = [] }) hid hsn

  -- The receiving side's constructor, on the bytes of a consistent packet and any bytes behind
  -- them, gives the packet's header and keeps all of the bytes.
  pub from_serial-get_read_span :
      (p : DataPacket) (tail : List ℕ)
      → IsConsistent p
      → from_serial host (get_read_span p ++ tail) ≡ returns (record p { bytes = p.bytes ++ tail })
  unfolding from_serial get_read_span
  from_serial-get_read_span p tail v = rw (
    v.starts,
    le→not_ltb (length (wire p.header ++ drop packed_size p.bytes ++ tail)) packed_size
        (omega arith),
    deserialise-wire host order p.header zero_header [] v.in_range,
  )

  -- The constructor never throws its exception: five bytes or more make a packet, and with fewer
  -- the span of the header is already out of range.
  pub from_serial_never_throws :
      (serial_data : List ℕ)
      → ((packed_size ≤ length serial_data)
          × ((hdr : DataPacketHeader) × (from_serial host serial_data
                ≡ returns (record { header = hdr; bytes = serial_data }))))
        ⊎ ((length serial_data < packed_size) × (from_serial host serial_data ≡ undefined))
  unfolding from_serial DataPacketHeader.deserialise deserialise_seq_num
  from_serial_never_throws [] = inr (omega arith, refl)
  from_serial_never_throws (a ∷ []) = inr (omega arith, refl)
  from_serial_never_throws (a ∷ b ∷ []) = inr (omega arith, refl)
  from_serial_never_throws (a ∷ b ∷ c ∷ []) = inr (omega arith, refl)
  from_serial_never_throws (a ∷ b ∷ c ∷ d ∷ []) = inr (omega arith, refl)
  from_serial_never_throws (a ∷ b ∷ c ∷ d ∷ e ∷ rest) = inl (
    omega arith,
    (
      (DataPacketHeader.deserialise host zero_header (a ∷ b ∷ c ∷ d ∷ e ∷ [])).1,
      rw (le→not_ltb (length (a ∷ b ∷ c ∷ d ∷ e ∷ rest)) packed_size (omega arith)),
    ),
  )

  -- Changing the length cuts the payload off, or fills it up with zero bytes.
  pub payload-update_data_length :
      (len : ℕ) (p : DataPacket)
      → IsConsistent p
      → ((update_data_length host len p).header.length_ ≡ min len data_pkt_max_payload_size)
        × (get_payload_read_span (update_data_length host len p)
            ≡ resize (min len data_pkt_max_payload_size) (get_payload_read_span p))
  unfolding get_payload_read_span
  payload-update_data_length len p v =
      rw (update_data_length_lem len p v.in_range.id_byte v.in_range.sn_u16) (
        truncated-eq-min len,
        ap (λ b. drop packed_size (resize (packed_size + truncated len) b)) v.starts
            ∙ drop-resize (truncated len) (wire p.header) (drop packed_size p.bytes) refl
            ∙ ap (λ n. resize n (drop packed_size p.bytes)) (truncated-eq-min len),
      )
