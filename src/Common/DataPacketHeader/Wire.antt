-- ===== src/Common/DataPacketHeader/Wire.antt =====
-- The bytes of a header on the wire, and the round trip.
use arq_benchmark.Base.{
  ℕ, ◌+◌, ◌*◌, ◌/◌, ◌%◌, ◌≤◌, ◌<◌, ◌≡◌, true, false, List, [], ◌∷◌, ◌++◌, arith, length, drop,
  le→not_ltb, ltb, ltb→lt, Bool-cases, ◌⊎◌, inl, inr,
}
use arq_benchmark.Common.Host.{Host, IsNetworkOrder, u16_mod, byte_mod}
use arq_benchmark.Common.SequenceNumber.{wire_u16, serialise_seq_num_wire, deserialise_seq_num_wire}
use arq_benchmark.Common.DataPacketHeader.{DataPacketHeader, serialise, deserialise, packed_size}

-- The members fit their types.
pub record InRange (hdr : DataPacketHeader) : Type 0 where
  pub id_byte : hdr.id < byte_mod
  pub sn_u16 : hdr.sequence_number < u16_mod
  pub length_u16 : hdr.length_ < u16_mod

-- The format: the session, the sequence number and the length, most significant bytes first.
abbrev pub wire : DataPacketHeader → List ℕ
wire hdr = hdr.id ∷ (wire_u16 hdr.sequence_number ++ wire_u16 hdr.length_)

u16_parts : (x : ℕ) → x / byte_mod * byte_mod + x % byte_mod ≡ x
u16_parts x = omega arith

module _ (host : Host) (order : IsNetworkOrder host) where
  -- On a buffer with room, the header's format is written over the first five bytes, whatever the
  -- host's byte order, and the others stay.
  pub serialise-wire :
      (hdr : DataPacketHeader) (buffer : List ℕ)
      → InRange hdr
      → packed_size ≤ length buffer
      → serialise host hdr buffer ≡ (true, wire hdr ++ drop packed_size buffer)
  unfolding serialise
  serialise-wire hdr [] v room = absurd (omega arith)
  serialise-wire hdr (a ∷ []) v room = absurd (omega arith)
  serialise-wire hdr (a ∷ b ∷ []) v room = absurd (omega arith)
  serialise-wire hdr (a ∷ b ∷ c ∷ []) v room = absurd (omega arith)
  serialise-wire hdr (a ∷ b ∷ c ∷ d ∷ []) v room = absurd (omega arith)
  serialise-wire hdr (a ∷ b ∷ c ∷ d ∷ e ∷ rest) v room = rw (
    serialise_seq_num_wire host order hdr.sequence_number (b ∷ c ∷ d ∷ e ∷ rest) v.sn_u16
        (omega arith),
    le→not_ltb (length (a ∷ b ∷ c ∷ d ∷ e ∷ rest)) packed_size room,
    order.htons_bytes hdr.length_ v.length_u16,
  )

  -- The format is read back, whatever follows it and whatever the header held before.
  pub deserialise-wire :
      (hdr old : DataPacketHeader) (rest : List ℕ)
      → InRange hdr
      → deserialise host old (wire hdr ++ rest) ≡ (true, hdr)
  unfolding deserialise
  deserialise-wire hdr old rest v = rw (
    deserialise_seq_num_wire host order old.sequence_number (hdr.sequence_number / byte_mod)
        (hdr.sequence_number % byte_mod) (wire_u16 hdr.length_ ++ rest) (omega arith) (omega arith),
    le→not_ltb (length (wire hdr ++ rest)) packed_size (omega arith),
    order.ntohs_value (hdr.length_ / byte_mod) (hdr.length_ % byte_mod) (omega arith) (omega arith),
    u16_parts hdr.sequence_number,
    u16_parts hdr.length_,
  )

  -- A header that is written to a buffer of at least five bytes is read back from it; a shorter
  -- buffer is refused by both directions, and both leave their target as it was.
  pub deserialise-serialise :
      (hdr old : DataPacketHeader) (buffer : List ℕ)
      → InRange hdr
      → ((packed_size ≤ length buffer)
          × (deserialise host old (serialise host hdr buffer).1 ≡ (true, hdr)))
        ⊎ ((length buffer < packed_size)
            × (serialise host hdr buffer ≡ (false, buffer))
            × (deserialise host old buffer ≡ (false, old)))
  unfolding serialise deserialise
  deserialise-serialise hdr old buffer v = elim (Bool-cases (ltb (length buffer) packed_size)) [
    | inl short ↦ inr (ltb→lt _ _ short, rw short, rw short)
    | inr room ↦
        let fits : packed_size ≤ length buffer = ground arith in
        inl (fits, rw (serialise-wire hdr buffer v fits) (deserialise-wire hdr old _ v))
  ]
