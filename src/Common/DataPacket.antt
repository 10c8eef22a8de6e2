-- ===== src/Common/DataPacket.antt =====
-- The packet of src/arq/common/data_packet.{hpp,cpp}. `subspan(0, 5)` of a packet's bytes wants five
-- bytes; `Consistent.IsConsistent` says that a packet has them.
pub mod Consistent
pub mod Payload
use arq_benchmark.Base.{
  ℕ, ◌+◌, ◌-◌, Bool, List, [], ◌++◌, length, take, drop, replicate, ltb, ◌==◌, if◌then◌else◌,
  Outcome, returns, throws, undefined, ◌>>=◌,
}
use arq_benchmark.Common.Host.{Host, memcpy}
use arq_benchmark.Common.DataPacketHeader
use arq_benchmark.Common.DataPacketHeader.{
  DataPacketHeader, packed_size, data_pkt_max_payload_size, zero_header,
}

pub record DataPacket : Type 0 where
  -- `header_`.
  pub header : DataPacketHeader
  -- `data_`: the header, serialised, and the payload.
  pub bytes : List ℕ

-- `std::vector::resize`: the end is cut off, or filled up with zero bytes.
abbrev pub resize : ℕ → List ℕ → List ℕ
resize n bytes = take n bytes ++ replicate (n - length bytes) 0

unfoldable pub get_header : DataPacket → DataPacketHeader
get_header p = p.header

unfoldable pub is_end_of_tx : DataPacket → Bool
is_end_of_tx p = p.header.length_ == 0

unfoldable pub get_read_span : DataPacket → List ℕ
get_read_span p = p.bytes

unfoldable pub get_header_read_span : DataPacket → List ℕ
get_header_read_span p = take packed_size p.bytes

unfoldable pub get_payload_read_span : DataPacket → List ℕ
get_payload_read_span p = drop packed_size p.bytes

-- What a caller writes through `getPayloadSpan()`.
unfoldable pub write_payload : List ℕ → DataPacket → DataPacket
write_payload src p = record p { bytes = memcpy packed_size src p.bytes }

module _ (host : Host) where
  -- `header_.serialise(getHeaderSpan())`.
  unfoldable pub serialise_header : DataPacket → Bool × DataPacket
  serialise_header p =
      let (done, span) = DataPacketHeader.serialise host p.header (take packed_size p.bytes) in
      (done, record p { bytes = span ++ drop packed_size p.bytes })

  unfoldable pub update_data_length : ℕ → DataPacket → DataPacket
  unfolding serialise_header
  update_data_length len p =
      let new_length =
        if ltb data_pkt_max_payload_size len then data_pkt_max_payload_size else len in
      (serialise_header (record {
        header = record p.header { length_ = new_length };
        bytes = resize (packed_size + new_length) p.bytes;
      })).1

  unfoldable pub update_header : DataPacketHeader → DataPacket → DataPacket
  unfolding update_data_length
  update_header hdr p = update_data_length hdr.length_ (record p { header = hdr })

  unfoldable pub update_sequence_number : ℕ → DataPacket → DataPacket
  unfolding serialise_header
  update_sequence_number sn p =
      (serialise_header (record p { header = record p.header { sequence_number = sn } })).1

  unfoldable pub update_conversation_id : ℕ → DataPacket → DataPacket
  unfolding serialise_header
  update_conversation_id conv p =
      (serialise_header (record p { header = record p.header { id = conv } })).1

  -- `DataPacket()`.
  unfoldable pub new : DataPacket
  unfolding update_data_length
  new = update_data_length 0 (record { header = zero_header; bytes = [] })

  -- `DataPacket(const DataPacketHeader&)`.
  unfoldable pub from_header : DataPacketHeader → DataPacket
  unfolding update_header
  from_header hdr = update_header hdr (record { header = zero_header; bytes = [] })

  -- `header_.deserialise(getHeaderReadSpan())`. That span is `subspan(0, 5)`, whose precondition is
  -- that there are five bytes.
  unfoldable pub deserialise_header : DataPacket → Outcome (Bool × DataPacket)
  deserialise_header p =
      let (done, hdr) = DataPacketHeader.deserialise host p.header (take packed_size p.bytes) in
      if ltb (length p.bytes) packed_size
      then undefined
      else returns (done, record p { header = hdr })

  -- `DataPacket(std::span<const std::byte>)` and `DataPacket(std::vector<std::byte>&&)`: the bytes
  -- are stored, and their header decides.
  unfoldable pub from_serial : List ℕ → Outcome DataPacket
  unfolding deserialise_header
  from_serial serial_data =
      deserialise_header (record { header = zero_header; bytes = serial_data }) >>= λ (done, p).
      if done then returns p else throws
