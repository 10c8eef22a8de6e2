-- ===== src/Lib.antt =====
-- arq-benchmark: the ARQ protocols of the repository (Stop-and-Wait, Go-Back-N, Selective Repeat, and
-- a stand-in for SCTP) as functions on explicit state, and what holds of them.
--
-- A transmitter numbers the packets that an application submits (input buffer), transmits them, and
-- keeps them in a retransmission buffer until they are acknowledged. A receiver puts the packets that
-- arrive back into sequence in a resequencing buffer, acknowledges them, and hands them to an output
-- buffer. The protocols differ in the two buffers. The launcher reads its options, opens a channel and
-- starts a transmitter and a receiver of the protocol that is asked for, over sockets.
--
--   Util/SafeQueue            src/util/safe_queue.hpp
--   Util/Logging              src/util/logging.hpp
--   Util/Os                   src/util/network_common.hpp, and the calls of the operating system
--   Util/AddressInfo          src/util/address_info.hpp: the linked list in memory, and its iterator
--   Util/Socket               src/util/socket.{hpp,cpp}, address_info.cpp
--   Util/Endpoint             src/util/endpoint.{hpp,cpp}
--   Common/SequenceNumber     src/arq/common/sequence_number.{hpp,cpp}
--   Common/ControlPacket      src/arq/common/control_packet.{hpp,cpp}
--   Common/DataPacketHeader   src/arq/common/data_packet.{hpp,cpp}, DataPacketHeader
--   Common/DataPacket         src/arq/common/data_packet.{hpp,cpp}, DataPacket
--   Common/TxBufferObject     src/arq/common/tx_buffer_object.hpp, and isPacketTimedOut
--   Common/InputBuffer        src/arq/common/input_buffer.{hpp,cpp}
--   Common/OutputBuffer       src/arq/common/output_buffer.{hpp,cpp}, rx_buffer_object.hpp
--   Common/ConversationId     src/arq/common/conversation_id.{hpp,cpp}
--   Rt                        src/arq/common/retransmission_buffer.hpp, src/arq/retransmission_buffers
--   Rs                        src/arq/common/resequencing_buffer.hpp, src/arq/resequencing_buffers
--   Transmitter               src/arq/transmitter.hpp
--   Receiver                  src/arq/receiver.hpp
--   Launcher/Config           src/config.hpp, and getArqProtocolFromStr of src/launcher.cpp
--   Launcher/Options          src/launcher.cpp, parseOptions and the table of the options
--   Launcher/Packets          src/launcher.cpp, transmitPackets
--   Launcher/Start            src/launcher.cpp, startTransmitter and startReceiver: channel and buffers
--   Launcher/Session          src/launcher.cpp, startTransmitter and startReceiver from end to end
--   Launcher/Main             src/launcher.cpp, generateOptionsDescription, generateConfiguration, main
--
-- System puts a transmitter and a receiver together, with a network between them: what the one sends,
-- packets and ACKs, may arrive at the other with any delay, in any order, again, or not at all. It
-- takes the buffers by their interfaces and by the laws of them: that every call returns (Rt/Buffer,
-- Rs/Buffer), that what is given out was put in (Rt/Origin, Rs/Origin), and what happens when there is
-- one packet at a time (Rt/Serial, Rs/Serial).
--
-- System/Conversation has schedules: lists of the steps of a conversation in which each packet is
-- submitted when the one before is acknowledged, with the number of the copies and of the ACKs of each
-- packet that the network loses, and the readings of the clock at which the packets that are timed out
-- are sent again. System/LastAck is about the steps behind the ACK of the last packet,
-- and System/Stream about a transmitter and a receiver over SCTP, which loses and repeats nothing.
--
-- Base has the lists, the tests on numbers, the arithmetic of circular buffers and the outcomes that
-- the parts share; Common/Host what the serialising code takes from the host, and Tests the runs.
--
-- Numbers are natural numbers, and the wrap of a `uint16_t`, a `size_t` or an `int` is written out.
-- The address of an element out of range and a span out of range are the outcome `undefined`, an
-- exception is `throws`. `htons`, `ntohs` and the order of bytes in memory are a parameter with their
-- documented behaviour as laws; readings of the clock, what the network delivers and the order of the
-- threads' steps are arguments. Each step touches the shared state in one place, so a run of the
-- threads is a list of steps.
--
-- The do-while loops on a circular buffer have the window size as fuel, since they end at the latest
-- where they are back at the start; the search for a free conversation ID has 256 rounds. The
-- theorems on these functions show that the fuel is enough. The loop of `main` has two rounds, the
-- second of which finds both threads joined; a join that does not come back has an outcome of its own. A delivery has fuel for one round more
-- than packets can wait in the resequencing buffer: 2 for Go-Back-N and Stop-and-Wait, and one more
-- than the window for Selective Repeat.
--
-- The operating system is a record of calls over a state of its own, any of which may fail; a process
-- has the list of the descriptors that are open. The variables that Boost parses the command line to
-- are a function from names to values.
--
-- Not modelled: the parser of the command line, which is Boost's; the code of the exchange of
-- conversation IDs that is not reached, since `shareConversationID` and `receiveConversationID` return
-- at their first statement; what is logged, but for the logger itself; the unit tests and the plotting
-- scripts. The sleep between two packets of `transmitPackets` is not counted. How the
-- threads of `main` end is an argument of it, and that they can be started is taken for granted. The
-- transmitter and the receiver start their threads before all of their members are initialised; the
-- models start behind that.
pub mod Base
pub mod Util
pub mod Common
pub mod Rt
pub mod Rs
pub mod Transmitter
pub mod Receiver
pub mod System
pub mod Launcher
pub mod Tests
