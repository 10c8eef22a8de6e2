-- ===== src/Common/ControlPacket.antt =====
-- src/arq/common/control_packet.{hpp,cpp}: the ACK that a receiver sends to a transmitter.
use arq_benchmark.Base.{ℕ, Bool, List}
use arq_benchmark.Common.Host.{Host}
use arq_benchmark.Common.SequenceNumber.{serialise_seq_num, deserialise_seq_num}

pub record ControlPacket : Type 0 where
  -- The sequence number that is acknowledged.
  pub sequence_number : ℕ

-- `sizeof(arq::ControlPacket)`: one `uint16_t`.
abbrev pub size_of : ℕ
size_of = 2

module _ (host : Host) where
  unfoldable pub serialise : ControlPacket → List ℕ → Bool × List ℕ
  serialise packet buffer = serialise_seq_num host packet.sequence_number buffer

  unfoldable pub deserialise : ControlPacket → List ℕ → Bool × ControlPacket
  deserialise packet buffer =
      let (done, sn) = deserialise_seq_num host packet.sequence_number buffer in
      (done, record { sequence_number = sn })
