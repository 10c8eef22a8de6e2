-- ===== src/Receiver.antt =====
-- src/arq/receiver.hpp, over any resequencing buffer. What the receive function gives is an argument,
-- what the transmit function was called with is listed in `sent`, and what the application was given
-- in `handed_out`. Calls that only log are left out.
use arq_benchmark.Base.{
  ℕ, zero, suc, ◌+◌, ◌≡◌, Bool, true, false, List, [], ◌∷◌, ◌++◌, Option, none, some, replicate,
  ◌==◌, if◌then◌else◌, Outcome, returns, out_of_fuel, ◌>>=◌,
}
use arq_benchmark.Common.Host.{Host}
use arq_benchmark.Common.ControlPacket
use arq_benchmark.Common.DataPacket.{DataPacket, from_serial, is_end_of_tx}
use arq_benchmark.Common.OutputBuffer
use arq_benchmark.Common.OutputBuffer.{OutputBuffer}
use arq_benchmark.Rs.Buffer.{RsBuffer}
use arq_benchmark.Util.SafeQueue
use arq_benchmark.Util.SafeQueue.{SafeQueue}
pub mod Round
pub mod InSequence
pub mod Origin
pub mod Serial
pub mod Done
pub mod Progress
pub mod Accepts

pub record Receiver (B : Type 0) : Type 0 where
  pub output_buffer : OutputBuffer
  pub resequencing_buffer : B
  pub ack_queue : SafeQueue ℕ
  pub acked_end_of_tx : Bool
  pub end_of_tx_sn : Option ℕ
  -- What `txFn_` was called with, oldest first.
  pub sent : List (List ℕ)
  -- What `tryGetPacket` gave out, oldest first.
  pub handed_out : List DataPacket

unfoldable pub new : {B : Type 0} → B → Receiver B
new rs_buffer = record {
  output_buffer = OutputBuffer.new;
  resequencing_buffer = rs_buffer;
  ack_queue = SafeQueue.new;
  acked_end_of_tx = false;
  end_of_tx_sn = none;
  sent = [];
  handed_out = [];
}

-- The bytes of the array behind the received ones are part of the packet that is made.
unfoldable pub receive_packet : Host → Option ℕ → List ℕ → Outcome (Option DataPacket)
receive_packet host none recv_buffer = returns none
receive_packet host (some zero) recv_buffer = returns none
receive_packet host (some (suc n)) recv_buffer =
    from_serial host recv_buffer >>= λ packet. returns (some packet)

module _ {B : Type 0} where
  unfoldable pub try_get_packet : Receiver B → Receiver B
  try_get_packet r =
      let (next, ob) = OutputBuffer.try_get_packet r.output_buffer in
      elim next [
        | none ↦ record r { output_buffer = ob }
        | some p ↦ record r { output_buffer = ob; handed_out = r.handed_out ++ p.packet ∷ [] }
      ]

  -- The array is not initialised before both of its bytes are written.
  pub send_ack : Host → ℕ → Receiver B → Receiver B
  send_ack host sn r =
      let (done, send_buffer) =
        ControlPacket.serialise host (record { sequence_number = sn })
          (replicate ControlPacket.size_of 0) in
      if done then record r { sent = r.sent ++ send_buffer ∷ [] } else r

  -- One pass of the loop of `ackThread`.
  unfoldable pub ack_thread_round : Host → Receiver B → Receiver B
  unfolding send_ack
  ack_thread_round host r =
      let (next_to_ack, q) = SafeQueue.try_pop r.ack_queue in
      if r.acked_end_of_tx then r else elim next_to_ack [
        | none ↦ r
        | some sn ↦
            let last = elim r.end_of_tx_sn as (λ o. Bool) [ none ↦ false | some eot ↦ sn == eot ] in
            record (send_ack host sn (record r { ack_queue = q })) { acked_end_of_tx = last }
      ]

module _ {B : Type 0} (ops : RsBuffer B) where
  -- What is done with a packet that is received.
  pub take_packet : DataPacket → Receiver B → Outcome (Receiver B)
  take_packet packet r =
      let eot =
        if is_end_of_tx packet then some packet.header.sequence_number else r.end_of_tx_sn in
      ops.add_packet packet r.resequencing_buffer >>= λ (ack, b). elim ack [
        | none ↦ returns (record r { resequencing_buffer = b; end_of_tx_sn = eot })
        | some sn ↦ returns (record r {
          resequencing_buffer = b;
          end_of_tx_sn = eot;
          ack_queue = SafeQueue.push r.ack_queue sn;
        })
      ]

  -- The loop that moves packets to the output buffer, in its round `i`; `clock` gives the readings.
  pub deliver : ℕ → (ℕ → ℕ) → ℕ → Receiver B → Outcome (Receiver B)
  deliver zero clock i r = out_of_fuel
  deliver (suc fuel) clock i r =
      let (packet, b) = ops.get_next_packet r.resequencing_buffer in
      elim packet [
        | none ↦ returns (record r { resequencing_buffer = b })
        | some p ↦ deliver fuel clock (i + 1) (record r {
          resequencing_buffer = b;
          output_buffer = (OutputBuffer.add_packet (clock i) p r.output_buffer).1;
        })
      ]

  -- One pass of the loop of `resequencingThread`.
  pub resequencing_round :
      Host → ℕ → (ℕ → ℕ) → Option ℕ → List ℕ → Receiver B → Outcome (Receiver B)
  unfolding receive_packet take_packet deliver
  resequencing_round host fuel clock received recv_buffer r =
      if r.acked_end_of_tx
      then returns r
      else (receive_packet host received recv_buffer >>= λ packet.
          elim packet as (λ o. Outcome (Receiver B)) [ none ↦ returns r | some p ↦ take_packet p r ]
          >>= deliver fuel clock 0)

-- The steps of the threads: a pass of the resequencing thread, with the bytes received and the array
-- behind them, a pass of the ACK thread, and a call of the application.
pub data Step : Type 0 where
  resequences : (ℕ → ℕ) → Option ℕ → List ℕ → Step
  acks : Step
  gets_packet : Step

module _ {B : Type 0} (host : Host) (ops : RsBuffer B) (fuel : ℕ) where
  unfoldable pub step : Step → Receiver B → Outcome (Receiver B)
  unfolding resequencing_round ack_thread_round try_get_packet
  step (resequences clock received recv_buffer) r =
      resequencing_round ops host fuel clock received recv_buffer r
  step acks r = returns (ack_thread_round host r)
  step gets_packet r = returns (try_get_packet r)

  unfoldable pub run : List Step → Receiver B → Outcome (Receiver B)
  unfolding step
  run [] r = returns r
  run (s ∷ steps) r = step s r >>= run steps
