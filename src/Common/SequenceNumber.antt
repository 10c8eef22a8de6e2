-- ===== src/Common/SequenceNumber.antt =====
-- src/arq/common/sequence_number.{hpp,cpp}. A span that is written is given back beside the result.
use arq_benchmark.Base.{
  ℕ, ◌+◌, ◌*◌, ◌/◌, ◌%◌, ◌≤◌, ◌<◌, ◌≡◌, refl, ap, ◌∙◌, le→not_ltb, Bool, true, false, List, [], ◌∷◌,
  ◌++◌, arith, length, drop, ltb, if◌then◌else◌,
}
use arq_benchmark.Common.Host.{
  Host, IsNetworkOrder, u16_mod, byte_mod, object_bytes, memcpy, load_u16,
}

abbrev pub first_sequence_number : ℕ
first_sequence_number = 0

abbrev pub max_sequence_number : ℕ
max_sequence_number = 65535

-- `++seqNum` on a `SequenceNumber`.
abbrev pub next_sn : ℕ → ℕ
next_sn sn = (sn + 1) % u16_mod

-- `seqNum - 1`, converted to a `SequenceNumber`.
abbrev pub previous_sn : ℕ → ℕ
previous_sn sn = (sn + max_sequence_number) % u16_mod

module _ (host : Host) where
  unfoldable pub serialise_seq_num : ℕ → List ℕ → Bool × List ℕ
  serialise_seq_num sequence_number buffer =
      if ltb (length buffer) 2
      then (false, buffer)
      else (true, memcpy 0 (object_bytes host.endian (host.htons sequence_number)) buffer)

  -- The number that is assigned to is given, and given back.
  unfoldable pub deserialise_seq_num : ℕ → List ℕ → Bool × ℕ
  deserialise_seq_num sequence_number buffer =
      if ltb (length buffer) 2
      then (false, sequence_number)
      else (true, host.ntohs (load_u16 host.endian 0 buffer))

-- The two bytes of a number, most significant first.
abbrev pub wire_u16 : ℕ → List ℕ
wire_u16 x = x / byte_mod ∷ x % byte_mod ∷ []

module _ (host : Host) (order : IsNetworkOrder host) where
  -- The bytes on the wire do not depend on the host.
  pub serialise_seq_num_wire :
      (sn : ℕ) (buffer : List ℕ)
      → sn < u16_mod
      → 2 ≤ length buffer
      → serialise_seq_num host sn buffer ≡ (true, wire_u16 sn ++ drop 2 buffer)
  unfolding serialise_seq_num
  serialise_seq_num_wire sn [] h room = absurd (omega arith)
  serialise_seq_num_wire sn (a ∷ []) h room = absurd (omega arith)
  serialise_seq_num_wire sn (a ∷ b ∷ rest) h room =
      rw (le→not_ltb (length (a ∷ b ∷ rest)) 2 room, order.htons_bytes sn h)

  -- Two bytes are read as the number whose most significant byte is the first.
  pub deserialise_seq_num_wire :
      (old hi lo : ℕ) (rest : List ℕ)
      → hi < byte_mod
      → lo < byte_mod
      → deserialise_seq_num host old (hi ∷ lo ∷ rest) ≡ (true, hi * byte_mod + lo)
  unfolding deserialise_seq_num
  deserialise_seq_num_wire old hi lo rest h l =
      rw (le→not_ltb (length (hi ∷ lo ∷ rest)) 2 (omega arith), order.ntohs_value hi lo h l)

  -- A number that is written to a buffer with room for it is read back from that buffer, and the
  -- bytes behind the first two are as they were.
  pub deserialise-serialise_seq_num :
      (sn old : ℕ) (buffer : List ℕ)
      → sn < u16_mod
      → 2 ≤ length buffer
      → (deserialise_seq_num host old (serialise_seq_num host sn buffer).1 ≡ (true, sn))
        × (drop 2 (serialise_seq_num host sn buffer).1 ≡ drop 2 buffer)
  deserialise-serialise_seq_num sn old buffer h room =
      rw (serialise_seq_num_wire sn buffer h room) (
        deserialise_seq_num_wire old (sn / byte_mod) (sn % byte_mod) (drop 2 buffer) (omega arith)
              (omega arith)
            ∙ ap (λ n. (true, n)) (omega arith),
        refl,
      )
