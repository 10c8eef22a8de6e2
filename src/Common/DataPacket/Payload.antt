-- ===== src/Common/DataPacket/Payload.antt =====
-- Writes to the payload of a packet.
use arq_benchmark.Base.{
  ℕ, ◌≡◌, refl, ap, sym, ◌∙◌, List, [], ◌∷◌, ◌++◌, length, drop, length-drop, arith,
}
use arq_benchmark.Common.Host.{memcpy}
use arq_benchmark.Common.DataPacketHeader.{packed_size}
use arq_benchmark.Common.DataPacketHeader.Wire.{wire}
use arq_benchmark.Common.DataPacket.{DataPacket, write_payload, get_payload_read_span}
use arq_benchmark.Common.DataPacket.Consistent.{IsConsistent}

memcpy-over : (src buffer : List ℕ) → length src ≡ length buffer → memcpy 0 src buffer ≡ src
memcpy-over [] [] e = refl
memcpy-over [] (y ∷ buffer) e = absurd (omega arith)
memcpy-over (x ∷ src) [] e = absurd (omega arith)
memcpy-over (x ∷ src) (y ∷ buffer) e = ap (◌∷◌ x) (memcpy-over src buffer (omega arith))

memcpy-header :
    (a b c d e : ℕ) (src rest : List ℕ)
    → memcpy packed_size src (a ∷ b ∷ c ∷ d ∷ e ∷ rest) ≡ a ∷ b ∷ c ∷ d ∷ e ∷ memcpy 0 src rest
memcpy-header a b c d e [] rest = refl
memcpy-header a b c d e (x ∷ src) rest = refl

-- Bytes for the whole payload of a consistent packet are its payload from then on, and the packet
-- stays consistent.
pub write_payload-IsConsistent :
    (src : List ℕ) (p : DataPacket)
    → length src ≡ p.header.length_
    → IsConsistent p
    → IsConsistent (write_payload src p) × (get_payload_read_span (write_payload src p) ≡ src)
unfolding write_payload get_payload_read_span
write_payload-IsConsistent src p e v = (
  record {
    in_range = v.in_range;
    bounded = v.bounded;
    size = ap length written ∙ omega (arith, e);
    starts = written ∙ ap (λ l. wire p.header ++ l) (sym payload);
  },
  payload,
)
  where
    written : memcpy packed_size src p.bytes ≡ wire p.header ++ src
    written =
        ap (memcpy packed_size src) v.starts
        ∙ memcpy-header _ _ _ _ _ src (drop packed_size p.bytes)
        ∙ ap (λ l. wire p.header ++ l)
            (memcpy-over src (drop packed_size p.bytes)
              (omega (arith, e, v.size, length-drop packed_size p.bytes)))

    payload : drop packed_size (memcpy packed_size src p.bytes) ≡ src
    payload = ap (drop packed_size) written
