-- ===== src/Common/DataPacketHeader.antt =====
-- The header of src/arq/common/data_packet.{hpp,cpp}. A span that is written is given back beside the
-- result.
pub mod Wire
use arq_benchmark.Base.{
  ℕ, ◌+◌, ◌-◌, Bool, true, false, List, [], ◌∷◌, ◌++◌, length, take, drop, get_or, ltb,
  if◌then◌else◌,
}
use arq_benchmark.Common.Host.{Host, object_bytes, memcpy, load_u16}
use arq_benchmark.Common.SequenceNumber.{serialise_seq_num, deserialise_seq_num}

abbrev pub max_transmission_unit : ℕ
max_transmission_unit = 1500

pub record DataPacketHeader : Type 0 where
  -- `id_`: the ARQ session.
  pub id : ℕ
  pub sequence_number : ℕ
  -- `length_`: the length of the payload; zero is an end-of-transmission packet.
  pub length_ : ℕ

-- `sizeof(sequenceNumber_) + sizeof(length_) + sizeof(id_)`.
abbrev pub packed_size : ℕ
packed_size = 2 + 2 + 1

abbrev pub data_pkt_max_payload_size : ℕ
data_pkt_max_payload_size = max_transmission_unit - packed_size

-- `header_{}`.
abbrev pub zero_header : DataPacketHeader
zero_header = record { id = 0; sequence_number = 0; length_ = 0 }

module _ (host : Host) where
  -- The bytes from `pos` on go through `serialiseSeqNum` as a span of the same memory.
  unfoldable pub serialise : DataPacketHeader → List ℕ → Bool × List ℕ
  serialise hdr buffer =
      let with_id = memcpy 0 (hdr.id ∷ []) buffer in
      let (done, sub) = serialise_seq_num host hdr.sequence_number (drop 1 with_id) in
      let with_sn = take 1 with_id ++ sub in
      if ltb (length buffer) packed_size
      then (false, buffer)
      else if done
      then (true, memcpy 3 (object_bytes host.endian (host.htons hdr.length_)) with_sn)
      else (false, with_sn)

  -- The header that is assigned to is given, and given back.
  unfoldable pub deserialise : DataPacketHeader → List ℕ → Bool × DataPacketHeader
  deserialise hdr buffer =
      let with_id = record hdr { id = get_or buffer 0 0 } in
      let (done, sn) = deserialise_seq_num host hdr.sequence_number (drop 1 buffer) in
      let with_sn = record with_id { sequence_number = sn } in
      if ltb (length buffer) packed_size
      then (false, hdr)
      else if done
      then (true, record with_sn { length_ = host.ntohs (load_u16 host.endian 3 buffer) })
      else (false, with_sn)
