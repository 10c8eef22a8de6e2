-- ===== src/Transmitter/Serial.antt =====
-- The threads of a transmitter that has one packet on its way at a time, over any retransmission
-- buffer that keeps the laws of `Rt.Serial`.
use arq_benchmark.Base.{
  ℕ, suc, ◌≡◌, refl, Bool, true, false, List, [], ◌∷◌, ◌++◌, Option, none, some, arith, returns,
  ◌>>=◌, if◌then◌else◌, ==_refl, lt→ltb,
}
use arq_benchmark.Common.Host.{Host}
use arq_benchmark.Common.SequenceNumber.{next_sn, deserialise_seq_num}
use arq_benchmark.Common.DataPacket.{DataPacket, get_read_span, update_sequence_number}
use arq_benchmark.Common.TxBufferObject.{
  TransmitBufferObject, is_packet_timed_out, update_last_tx_time, is_end_of_tx,
}
use arq_benchmark.Common.InputBuffer
use arq_benchmark.Rt.Buffer.{RtBuffer}
use arq_benchmark.Rt.GoBackN.{Readings}
use arq_benchmark.Rt.Serial.{IsSerial}
use arq_benchmark.Util.SafeQueue
use arq_benchmark.Transmitter.{
  Transmitter, send_packet, transmit, transmit_new, attempt_packet_retransmission,
  attempt_new_packet_transmission, transmit_packet_data, ack_thread_round, process_ack,
}

-- A transmitter whose input buffer is empty.
abbrev pub waiting : {B : Type 0} → ℕ → B → List ℕ → Option ℕ → Bool → List (List ℕ) → Transmitter B
waiting last b acks eot acked sent = record {
  input_buffer = record { input_packets = SafeQueue.new; last_sequence_number = last };
  retransmission_buffer = b;
  ack_queue = record { queue = acks };
  end_of_tx_seq_num = eot;
  end_of_tx_acked = acked;
  sent = sent;
}

-- What the input buffer makes of a packet.
abbrev pub numbered_object : Host → ℕ → ℕ → DataPacket → TransmitBufferObject
numbered_object host now n packet = record {
  packet = update_sequence_number host n packet;
  info = record { first_tx_time = now; last_tx_time = now; sequence_number = n };
}

-- The number that ends the transmission, if the packet is the last.
abbrev pub ending : Bool → ℕ → Option ℕ
ending eot n = if eot then some n else none

module _ {B : Type 0} (host : Host) where
  -- An ACK whose bytes are read as `n` waits in the queue.
  pub ack_thread_round-pushes :
      (last n bytes : ℕ) (b : B) (eot : Option ℕ) (sent : List (List ℕ)) (recv_buffer : List ℕ)
      → deserialise_seq_num host 0 recv_buffer ≡ (true, n)
      → ack_thread_round host (some (suc bytes)) recv_buffer (waiting last b [] eot false sent)
        ≡ waiting last b (n ∷ []) eot false sent
  unfolding ack_thread_round SafeQueue.push
  ack_thread_round-pushes last n bytes b eot sent recv_buffer e =
      rw (lt→ltb 0 (suc bytes) (omega arith), e) refl

module _ {B : Type 0} (ops : RtBuffer B) (timeout : ℕ) (Idle : ℕ → B → Type 0)
    (Holding : ℕ → TransmitBufferObject → B → Type 0) (laws : IsSerial ops timeout Idle Holding)
    (host : Host) where
  -- A packet that is submitted is sent in the next pass.
  pub transmit-send_packet :
      (clock : Readings) (now last : ℕ) (b : B) (sent : List (List ℕ)) (packet : DataPacket)
      → Idle (next_sn last) b
      → let p = numbered_object host now (next_sn last) packet in
        (b' : B) × (transmit ops clock
            (send_packet host now packet (waiting last b [] none false sent))
          ≡ returns (
              waiting
                (next_sn last)
                b'
                []
                (ending (is_end_of_tx p) (next_sn last))
                false
                (sent ++ get_read_span p.packet ∷ [])))
        × Holding (next_sn last) p b'
  unfolding transmit send_packet transmit_new attempt_packet_retransmission
      attempt_new_packet_transmission transmit_packet_data InputBuffer.add_packet
      InputBuffer.get_next_info InputBuffer.try_get_packet SafeQueue.push SafeQueue.try_pop
  transmit-send_packet clock now last b sent packet v =
      let p = numbered_object host now (next_sn last) packet in
      let (b', e, h) = laws.add (next_sn last) p b v refl in
      (
        b',
        rw (laws.idle_try clock (next_sn last) b v, laws.idle_ready (next_sn last) b v, e, ◌>>=◌)
            refl,
        h,
      )

  -- The packet that is held is sent again, if it is timed out.
  pub transmit-again :
      (clock : Readings) (last n : ℕ) (b : B) (eot : Option ℕ) (sent : List (List ℕ))
      (p : TransmitBufferObject)
      → Holding n p b
      → is_packet_timed_out timeout (clock.check 0) p ≡ true
      → (b' : B) × (transmit ops clock (waiting last b [] eot false sent)
          ≡ returns (waiting last b' [] eot false (sent ++ get_read_span p.packet ∷ [])))
        × Holding n (update_last_tx_time clock.stamp p) b'
  unfolding transmit attempt_packet_retransmission transmit_packet_data
  transmit-again clock last n b eot sent p v late =
      let (b', e, h) = laws.holding_try clock n p b v late in (b', rw (e, ◌>>=◌) refl, h)

  -- The ACK of the packet that is held makes the buffer free, or ends the transmission.
  pub process_ack-frees :
      (last n : ℕ) (b : B) (sent : List (List ℕ)) (p : TransmitBufferObject)
      → Holding n p b
      → (b' : B) × (process_ack ops (waiting last b (n ∷ []) none false sent)
          ≡ returns (true, waiting last b' [] none false sent))
        × Idle (next_sn n) b'
  unfolding process_ack SafeQueue.try_pop
  process_ack-frees last n b sent p v =
      let (b', e, h) = laws.acknowledge n p b v in (b', rw (e, ◌>>=◌) refl, h)

  pub process_ack-ends :
      (last n : ℕ) (b : B) (sent : List (List ℕ))
      → process_ack ops (waiting last b (n ∷ []) (some n) false sent)
        ≡ returns (true, waiting last b [] (some n) true sent)
  unfolding process_ack SafeQueue.try_pop
  process_ack-ends last n b sent = rw (==_refl n) refl
