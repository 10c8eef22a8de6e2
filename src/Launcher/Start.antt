-- ===== src/Launcher/Start.antt =====
-- src/launcher.cpp: what `startTransmitter`, `startReceiver` and `main` set up. The conversation ID is
-- not sent: `shareConversationID` returns at once, and `receiveConversationID` returns 1. A channel is
-- a local variable, and is destroyed where its function throws.
pub mod Configured
pub mod Conversation
use arq_benchmark.Base.{
  ℕ, zero, suc, ◌*◌, Bool, true, false, not, ◌&&◌, List, [], ◌∷◌, Option, none, some, if◌then◌else◌,
  String,
}
use arq_benchmark.Common.SequenceNumber.{first_sequence_number}
use arq_benchmark.Util.Os.{
  SocketType, udp, sctp, Os, Process, Result, value, raised, terminated, runtime_error,
}
use arq_benchmark.Util.Endpoint
use arq_benchmark.Util.Endpoint.{Endpoint}
use arq_benchmark.Rt.DummySctp
use arq_benchmark.Rt.StopAndWait
use arq_benchmark.Rt.GoBackN
use arq_benchmark.Rt.SelectiveRepeat
use arq_benchmark.Rs.DummySctp as RsDummySctp
use arq_benchmark.Rs.StopAndWait as RsStopAndWait
use arq_benchmark.Rs.GoBackN as RsGoBackN
use arq_benchmark.Rs.SelectiveRepeat as RsSelectiveRepeat
use arq_benchmark.Launcher.Config.{
  ArqProtocol, dummy_sctp, stop_and_wait, go_back_n, selective_repeat, AddressNames, LauncherConfig,
  ServerConfig,
}

abbrev pub socket_rx_timeout_seconds : ℕ
socket_rx_timeout_seconds = 10

abbrev pub is_dummy_sctp : ArqProtocol → Bool
is_dummy_sctp dummy_sctp = true
is_dummy_sctp _ = false

-- The kind of socket of the data channel.
abbrev pub channel_type : ArqProtocol → SocketType
channel_type protocol = if is_dummy_sctp protocol then sctp else udp

unfoldable pub receive_conversation_id : ℕ
receive_conversation_id = 1

module _ {W : Type 0} (os : Os W) where
  -- A `throw` where a call gave false.
  abbrev pub ensure : Endpoint → Bool × Process W → Result Endpoint × Process W
  ensure e (true, p) = (value e, p)
  ensure e (false, p) = (raised runtime_error, Endpoint.destroy os e p)

  abbrev pub accepted :
      Endpoint → Result (Bool × Endpoint) × Process W → Result Endpoint × Process W
  accepted e (value (true, e'), p) = (value e', p)
  accepted e (value (false, e'), p) = (raised runtime_error, Endpoint.destroy os e' p)
  accepted e (raised x, p) = (raised x, Endpoint.destroy os e p)
  accepted e (terminated, p) = (terminated, p)

  -- The connection of an SCTP channel, on the transmitter's side.
  pub await_receiver : String → Endpoint → Process W → Result Endpoint × Process W
  await_receiver host e p =
      let (r, q) = ensure e (Endpoint.listen os e 1 p) in
      elim r [
        | value e' ↦ accepted e' (Endpoint.accept os e' (some host) q)
        | raised x ↦ (raised x, q)
        | terminated ↦ (terminated, q)
      ]

  -- What the transmitter does with its channel before it is used.
  unfoldable pub prepare_transmitter_channel :
      LauncherConfig → Result Endpoint × Process W → Result Endpoint × Process W
  unfolding await_receiver
  prepare_transmitter_channel config (value e, p) =
      if is_dummy_sctp config.common.arq_protocol
      then await_receiver config.common.client_names.host_name e p
      else ensure e (Endpoint.set_recv_timeout os e socket_rx_timeout_seconds 0 p)
  prepare_transmitter_channel config (raised x, p) = (raised x, p)
  prepare_transmitter_channel config (terminated, p) = (terminated, p)

  unfoldable pub open_transmitter_channel : LauncherConfig → Process W → Result Endpoint × Process W
  unfolding prepare_transmitter_channel
  open_transmitter_channel config p = prepare_transmitter_channel config (
      Endpoint.new os config.common.server_names.host_name config.common.server_names.service_name
        (channel_type config.common.arq_protocol) p)

  -- The answer of `connectRetry` is not used.
  abbrev pub connected : Endpoint → Result Bool × Process W → Result Endpoint × Process W
  connected e (value done, p) = (value e, p)
  connected e (raised x, p) = (raised x, Endpoint.destroy os e p)
  connected e (terminated, p) = (terminated, p)

  unfoldable pub prepare_receiver_channel :
      LauncherConfig → Result Endpoint × Process W → Result Endpoint × Process W
  prepare_receiver_channel config (value e, p) =
      if is_dummy_sctp config.common.arq_protocol
      then connected e (
          Endpoint.connect_retry os e config.common.server_names.host_name
            config.common.server_names.service_name sctp 20 500 p)
      else ensure e (Endpoint.set_recv_timeout os e socket_rx_timeout_seconds 0 p)
  prepare_receiver_channel config (raised x, p) = (raised x, p)
  prepare_receiver_channel config (terminated, p) = (terminated, p)

  unfoldable pub open_receiver_channel : LauncherConfig → Process W → Result Endpoint × Process W
  unfolding prepare_receiver_channel
  open_receiver_channel config p = prepare_receiver_channel config (
      Endpoint.new os config.common.client_names.host_name config.common.client_names.service_name
        (channel_type config.common.arq_protocol) p)

  -- The functions that the transmitter and the receiver are given: over SCTP the channel is
  -- connected, and over UDP each datagram names its destination.
  unfoldable pub channel_send :
      ArqProtocol → AddressNames → Endpoint → List ℕ → Process W → Result (Option ℕ) × Process W
  channel_send protocol destination e buffer p =
      if is_dummy_sctp protocol
      then (let (n, q) = Endpoint.send os e buffer p in (value n, q))
      else Endpoint.send_to os e buffer destination.host_name destination.service_name p

  unfoldable pub channel_receive :
      ArqProtocol → Endpoint → List ℕ → Process W → (Option ℕ × List ℕ) × Process W
  channel_receive protocol e buffer p =
      if is_dummy_sctp protocol
      then Endpoint.recv os e buffer p
      else Endpoint.recv_from os e buffer p

-- The window that is used where none is given.
abbrev pub window_or_default : Option ℕ → ℕ
window_or_default none = 100
window_or_default (some w) = w

-- The buffer that the transmitter is made with.
pub data TransmitterBuffer : Type 0 where
  sctp_buffer : DummySctp.DummySctp → TransmitterBuffer
  saw_buffer : StopAndWait.StopAndWait → TransmitterBuffer
  gbn_buffer : GoBackN.GoBackN → TransmitterBuffer
  sr_buffer : SelectiveRepeat.SelectiveRepeat → TransmitterBuffer

-- The timeout is given in milliseconds, and the buffers count microseconds.
unfoldable pub transmitter_buffer : ArqProtocol → Option ℕ → ServerConfig → TransmitterBuffer
transmitter_buffer dummy_sctp window_size server = sctp_buffer DummySctp.new
transmitter_buffer stop_and_wait window_size server =
    saw_buffer (StopAndWait.new (server.arq_timeout * 1000))
transmitter_buffer go_back_n window_size server =
    gbn_buffer (
      GoBackN.new (window_or_default window_size) (server.arq_timeout * 1000) first_sequence_number)
transmitter_buffer selective_repeat window_size server = sr_buffer (
    SelectiveRepeat.new (window_or_default window_size) (server.arq_timeout * 1000)
      first_sequence_number)

-- The buffer that the receiver is made with. The window of the configuration is not used.
pub data ReceiverBuffer : Type 0 where
  sctp_rs_buffer : RsDummySctp.DummySctp → ReceiverBuffer
  saw_rs_buffer : RsStopAndWait.StopAndWait → ReceiverBuffer
  gbn_rs_buffer : RsGoBackN.GoBackN → ReceiverBuffer
  sr_rs_buffer : RsSelectiveRepeat.SelectiveRepeat → ReceiverBuffer

unfoldable pub receiver_buffer : ArqProtocol → ReceiverBuffer
receiver_buffer dummy_sctp = sctp_rs_buffer (RsDummySctp.new first_sequence_number)
receiver_buffer stop_and_wait = saw_rs_buffer (RsStopAndWait.new first_sequence_number)
receiver_buffer go_back_n = gbn_rs_buffer (RsGoBackN.new first_sequence_number)
receiver_buffer selective_repeat = sr_rs_buffer (RsSelectiveRepeat.new 100 first_sequence_number)
