-- ===== src/Transmitter.antt =====
-- src/arq/transmitter.hpp, over any retransmission buffer. The functions that transmit and receive
-- are the caller's: what is handed to the first is listed in `sent`, and what the second returns is
-- an argument. A call that ends in a log message only does not change the state and is left out.
use arq_benchmark.Base.{
  ℕ, zero, suc, Bool, true, false, not, List, [], ◌∷◌, ◌++◌, Option, none, some, ltb, ◌==◌,
  if◌then◌else◌, Outcome, returns, out_of_fuel, ◌>>=◌,
}
use arq_benchmark.Common.Host.{Host}
use arq_benchmark.Common.SequenceNumber.{first_sequence_number, deserialise_seq_num}
use arq_benchmark.Common.DataPacket.{DataPacket, get_read_span}
use arq_benchmark.Common.TxBufferObject.{TransmitBufferObject, is_end_of_tx}
use arq_benchmark.Common.InputBuffer
use arq_benchmark.Common.InputBuffer.{InputBuffer}
use arq_benchmark.Rt.Buffer.{RtBuffer}
use arq_benchmark.Rt.GoBackN.{Readings}
use arq_benchmark.Util.SafeQueue
use arq_benchmark.Util.SafeQueue.{SafeQueue}
pub mod Safety
pub mod AckQueue
pub mod Protocols
pub mod Origin
pub mod Serial
pub mod Waiting

pub record Transmitter (B : Type 0) : Type 0 where
  pub input_buffer : InputBuffer
  pub retransmission_buffer : B
  pub ack_queue : SafeQueue ℕ
  pub end_of_tx_seq_num : Option ℕ
  pub end_of_tx_acked : Bool
  -- What `txFn_` was called with, oldest first.
  pub sent : List (List ℕ)

unfoldable pub new : {B : Type 0} → B → Transmitter B
new rt_buffer = record {
  input_buffer = InputBuffer.new first_sequence_number;
  retransmission_buffer = rt_buffer;
  ack_queue = SafeQueue.new;
  end_of_tx_seq_num = none;
  end_of_tx_acked = false;
  sent = [];
}

-- `optional == value`.
abbrev pub holds_number : Option ℕ → ℕ → Bool
holds_number none sn = false
holds_number (some n) sn = n == sn

module _ {B : Type 0} where
  unfoldable pub send_packet : Host → ℕ → DataPacket → Transmitter B → Transmitter B
  send_packet host now packet t = record t {
    input_buffer = InputBuffer.add_packet host now packet t.input_buffer;
  }

  unfoldable pub transmit_packet_data : List ℕ → Transmitter B → Transmitter B
  transmit_packet_data span t = record t { sent = t.sent ++ span ∷ [] }

  -- One pass of the loop of `ackThread`: `rxFn_` returned a number of bytes, and `recv_buffer` is the
  -- whole array behind it.
  unfoldable pub ack_thread_round : Host → Option ℕ → List ℕ → Transmitter B → Transmitter B
  ack_thread_round host received_bytes recv_buffer t = elim received_bytes [
    | none ↦ t
    | some n ↦
        let (done, sn) = deserialise_seq_num host 0 recv_buffer in
        if ltb 0 n
        then if done then record t { ack_queue = SafeQueue.push t.ack_queue sn } else t
        else t
  ]

module _ {B : Type 0} (ops : RtBuffer B) where
  -- A packet of the retransmission buffer; gives back whether there was one.
  unfoldable pub attempt_packet_retransmission :
      Readings → Transmitter B → Outcome (Bool × Transmitter B)
  unfolding transmit_packet_data
  attempt_packet_retransmission clock t =
      ops.try_get_packet_span clock t.retransmission_buffer >>= λ (span, b). elim span [
        | none ↦ returns (false, record t { retransmission_buffer = b })
        | some bytes ↦
            returns (true, transmit_packet_data bytes (record t { retransmission_buffer = b }))
      ]

  -- What is done with a packet from the input buffer.
  unfoldable pub transmit_new : TransmitBufferObject → Transmitter B → Outcome (Transmitter B)
  unfolding transmit_packet_data
  transmit_new p t =
      let eot = if is_end_of_tx p then some p.info.sequence_number else t.end_of_tx_seq_num in
      ops.add_packet p t.retransmission_buffer >>= λ b. returns (
        transmit_packet_data (get_read_span p.packet)
          (record t { retransmission_buffer = b; end_of_tx_seq_num = eot }))

  -- A packet of the input buffer, if the retransmission buffer has room.
  unfoldable pub attempt_new_packet_transmission : Transmitter B → Outcome (Bool × Transmitter B)
  unfolding transmit_new
  attempt_new_packet_transmission t =
      let (new_pkt, ib) = InputBuffer.try_get_packet t.input_buffer in
      if not (ops.ready_for_new_packet t.retransmission_buffer)
      then returns (false, t)
      else elim new_pkt [
        | none ↦ returns (false, record t { input_buffer = ib })
        | some p ↦ (transmit_new p (record t { input_buffer = ib }) >>= λ t'. returns (true, t'))
      ]

  -- One pass of the loop of `processAckQueue`; gives back whether there is another.
  unfoldable pub process_ack : Transmitter B → Outcome (Bool × Transmitter B)
  process_ack t =
      let (sn_to_ack, q) = SafeQueue.try_pop t.ack_queue in
      let popped = record t { ack_queue = q } in
      if t.end_of_tx_acked then returns (false, t) else elim sn_to_ack [
        | none ↦ returns (false, t)
        | some sn ↦
            if holds_number t.end_of_tx_seq_num sn
            then returns (true, record popped { end_of_tx_acked = true })
            else (ops.acknowledge_packet sn t.retransmission_buffer >>= λ b.
                returns (true, record popped { retransmission_buffer = b }))
      ]

  -- The loop, where no ACK arrives in its course.
  pub process_ack_queue : ℕ → Transmitter B → Outcome (Transmitter B)
  process_ack_queue zero t = out_of_fuel
  process_ack_queue (suc fuel) t = process_ack t >>= λ (more, t'). elim more [
    | true ↦ process_ack_queue fuel t'
    | false ↦ returns t'
  ]

  -- The attempts of one pass of the loop of `transmitThread`.
  unfoldable pub transmit : Readings → Transmitter B → Outcome (Transmitter B)
  transmit clock t = attempt_packet_retransmission clock t >>= λ (done, t'). elim done [
    | true ↦ returns t'
    | false ↦ (attempt_new_packet_transmission t' >>= λ (done', t''). returns t'')
  ]

  -- One pass of the loop of `transmitThread`.
  unfoldable pub transmit_thread_round : ℕ → Readings → Transmitter B → Outcome (Transmitter B)
  unfolding transmit process_ack_queue
  transmit_thread_round fuel clock t =
      if t.end_of_tx_acked then returns t else (transmit clock t >>= process_ack_queue fuel)

-- The steps of the three threads: the application's, the one that transmits, and the one that takes
-- ACKs. Each touches the shared state in one place, so a run of the threads is a list of steps.
pub data Step : Type 0 where
  sends : ℕ → DataPacket → Step
  transmits : Readings → Step
  processes : Step
  takes_ack : Option ℕ → List ℕ → Step

module _ {B : Type 0} (host : Host) (ops : RtBuffer B) where
  unfoldable pub step : Step → Transmitter B → Outcome (Transmitter B)
  step (sends now packet) t = returns (send_packet host now packet t)
  step (transmits clock) t = transmit ops clock t
  step processes t = process_ack ops t >>= λ (more, t'). returns t'
  step (takes_ack received recv_buffer) t = returns (ack_thread_round host received recv_buffer t)

  unfoldable pub run : List Step → Transmitter B → Outcome (Transmitter B)
  unfolding step
  run [] t = returns t
  run (s ∷ steps) t = step s t >>= run steps
