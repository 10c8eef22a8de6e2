-- ===== src/Tests/Fixtures.antt =====
-- A little-endian host, and packets.
use arq_benchmark.Base.{ℕ, ◌+◌, ◌*◌, ◌/◌, ◌%◌, ◌<◌, ◌≡◌, refl, [], ◌∷◌, arith}
use arq_benchmark.Common.Host.{Host, little, IsNetworkOrder, byte_mod, u16_mod}
use arq_benchmark.Common.DataPacket.{DataPacket}
use arq_benchmark.Common.DataPacket.Consistent.{IsConsistent}
use arq_benchmark.Common.TxBufferObject.{TransmitBufferObject}

-- `htons` and `ntohs` where the least significant byte comes first in memory.
abbrev pub swap : ℕ → ℕ
swap x = x % byte_mod * byte_mod + x / byte_mod

abbrev pub host : Host
host = record { endian = little; htons = swap; ntohs = swap }

pub host-IsNetworkOrder : IsNetworkOrder host
host-IsNetworkOrder = record {
  htons_bytes = λ x h. bytes x h;
  ntohs_value = λ hi lo h l. omega arith;
}
  where
    bytes :
        (x : ℕ)
        → x < u16_mod
        → swap x % byte_mod ∷ swap x / byte_mod ∷ [] ≡ x / byte_mod ∷ x % byte_mod ∷ []
    bytes x h = rw (low, high)
      where
        low : swap x % byte_mod ≡ x / byte_mod
        low = omega arith

        high : swap x / byte_mod ≡ x % byte_mod
        high = omega arith

-- A packet with the two bytes of payload 9 and 8, in conversation 1.
abbrev pub packet : ℕ → DataPacket
packet sn = record {
  header = record { id = 1; sequence_number = sn; length_ = 2 };
  bytes = 1 ∷ sn / byte_mod ∷ sn % byte_mod ∷ 0 ∷ 2 ∷ 9 ∷ 8 ∷ [];
}

pub packet-IsConsistent : (sn : ℕ) → sn < u16_mod → IsConsistent (packet sn)
packet-IsConsistent sn h = record {
  in_range = record { id_byte = omega arith; sn_u16 = h; length_u16 = omega arith };
  bounded = omega arith;
  size = refl;
  starts = refl;
}

-- The same, submitted at a time.
abbrev pub submitted : ℕ → ℕ → TransmitBufferObject
submitted now sn = record {
  packet = packet sn;
  info = record { first_tx_time = now; last_tx_time = now; sequence_number = sn };
}

-- The end of a transmission.
abbrev pub final : DataPacket
final = record {
  header = record { id = 1; sequence_number = 0; length_ = 0 };
  bytes = 1 ∷ 0 ∷ 0 ∷ 0 ∷ 0 ∷ [];
}

pub final-IsConsistent : IsConsistent final
final-IsConsistent = record {
  in_range = record { id_byte = omega arith; sn_u16 = omega arith; length_u16 = omega arith };
  bounded = omega arith;
  size = refl;
  starts = refl;
}
