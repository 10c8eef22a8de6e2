-- ===== src/Common.antt =====
-- src/arq/common: packets, sequence numbers and what the buffers share.
pub mod Host
pub mod SequenceNumber
pub mod ControlPacket
pub mod DataPacketHeader
pub mod DataPacket
pub mod TxBufferObject
pub mod InOrder
pub mod InputBuffer
pub mod OutputBuffer
pub mod ConversationId
