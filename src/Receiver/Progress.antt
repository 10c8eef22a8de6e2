-- ===== src/Receiver/Progress.antt =====
-- The steps of a receiver's threads, over any resequencing buffer that keeps the laws of its
-- interface: what they return.
use arq_benchmark.Base.{
  ℕ, zero, suc, ◌+◌, ◌≤◌, ◌<◌, ◌≡◌, refl, Bool, List, [], ◌∷◌, Option, none, some, length, arith,
  Bool-cases, inl, inr, if-holds, Outcome, returns, ◌>>=◌, replicate, ◌++◌, if◌then◌else◌, ◌==◌,
  false,
}
use arq_benchmark.Common.Host.{Host, IsNetworkOrder}
use arq_benchmark.Common.DataPacketHeader.{packed_size}
use arq_benchmark.Common.DataPacket.{DataPacket, is_end_of_tx}
use arq_benchmark.Common.ControlPacket
use arq_benchmark.Common.OutputBuffer
use arq_benchmark.Rs.Buffer.{RsBuffer, IsRsBuffer}
use arq_benchmark.Util.SafeQueue
use arq_benchmark.Receiver.{
  Receiver, Step, resequences, acks, gets_packet, step, take_packet, deliver, resequencing_round,
  ack_thread_round, try_get_packet, send_ack,
}
use arq_benchmark.Receiver.Round.{receive_packet-cases}
use arq_benchmark.Receiver.InSequence.{HasRoom}

module _ {B : Type 0} (ops : RsBuffer B) (IsValid : B → Type 0) (waiting : B → ℕ) (bound : ℕ)
    (laws : IsRsBuffer ops IsValid waiting bound) where
  -- The resequencing buffer is valid, and nothing waits in it.
  abbrev pub IsReady : Receiver B → Type 0
  IsReady r = IsValid r.resequencing_buffer × (waiting r.resequencing_buffer ≡ 0)

  abbrev pub Returns : Outcome (Receiver B) → Type 0
  Returns o = (r : Receiver B) × (o ≡ returns r) × IsReady r

  deliver-Returns :
      (fuel : ℕ) (clock : ℕ → ℕ) (i : ℕ) (r : Receiver B)
      → IsValid r.resequencing_buffer
      → waiting r.resequencing_buffer < fuel
      → Returns (deliver ops fuel clock i r)
  unfolding deliver
  deliver-Returns zero clock i r v enough = absurd (omega arith)
  deliver-Returns (suc fuel) clock i r v enough =
      let (v', next) = laws.get_next_returns r.resequencing_buffer v in
      elim next [
        | inl (e, none_left) ↦ (
          record r { resequencing_buffer = (ops.get_next_packet r.resequencing_buffer).1 },
          rw (e, deliver),
          (v', none_left),
        )
        | inr (p, e, fewer) ↦
            let (r', q, w) =
              deliver-Returns fuel clock (i + 1)
                (record r {
                  resequencing_buffer = (ops.get_next_packet r.resequencing_buffer).1;
                  output_buffer = (OutputBuffer.add_packet (clock i) p r.output_buffer).1;
                })
                v' (omega arith) in
            (r', rw (e, deliver) q, w)
      ]

  take_packet-returns :
      (p : DataPacket) (r : Receiver B)
      → IsReady r
      → (r' : Receiver B) × (take_packet ops p r ≡ returns r')
        × IsValid r'.resequencing_buffer
        × (waiting r'.resequencing_buffer ≤ bound)
  unfolding take_packet
  take_packet-returns p r (v, empty) =
      let (ack, b, e, v', more) = laws.add_returns p r.resequencing_buffer v in
      let (r', q, v'', few) = answered ack b v' (omega arith) in (r', rw e q, v'', few)
    where
      eot : Option ℕ
      eot = if is_end_of_tx p then some p.header.sequence_number else r.end_of_tx_sn

      answered :
          (ack : Option ℕ) (b : B)
          → IsValid b
          → waiting b ≤ bound
          → (r' : Receiver B) × ((elim ack as (λ o. Outcome (Receiver B)) [
            | none ↦ returns (record r { resequencing_buffer = b; end_of_tx_sn = eot })
            | some sn ↦ returns (record r {
              resequencing_buffer = b;
              end_of_tx_sn = eot;
              ack_queue = SafeQueue.push r.ack_queue sn;
            })
          ])
              ≡ returns r')
            × IsValid r'.resequencing_buffer
            × (waiting r'.resequencing_buffer ≤ bound)
      answered none b w few = (_, refl, w, few)
      answered (some sn) b w few = (_, refl, w, few)

  pub resequencing_round-Returns :
      (host : Host) (order : IsNetworkOrder host) (fuel : ℕ) (clock : ℕ → ℕ) (received : Option ℕ)
      (recv_buffer : List ℕ) (r : Receiver B)
      → bound < fuel
      → packed_size ≤ length recv_buffer
      → IsReady r
      → Returns (resequencing_round ops host fuel clock received recv_buffer r)
  unfolding resequencing_round
  resequencing_round-Returns host order fuel clock received recv_buffer r enough room v =
      elim (Bool-cases r.acked_end_of_tx) [
        | inl done ↦ (r, simp done, v)
        | inr going ↦ elim (receive_packet-cases host order received recv_buffer room) [
          | inl e ↦
              let (r', q, w) = deliver-Returns fuel clock 0 r v.0 (omega (arith, v.1)) in
              (r', simp (going, e, ◌>>=◌) q, w)
          | inr (p, e) ↦
              let (r1, q, w, few) = take_packet-returns p r v in
              let (r', q', w') = deliver-Returns fuel clock 0 r1 w (omega arith) in
              (r', simp (going, e, q, ◌>>=◌) q', w')
        ]
      ]

  send_ack-IsReady :
      (host : Host) (sn : ℕ) (r : Receiver B) → IsReady r → IsReady (send_ack host sn r)
  unfolding send_ack
  send_ack-IsReady host sn r v =
      let (done, send_buffer) =
        ControlPacket.serialise host (record { sequence_number = sn })
          (replicate ControlPacket.size_of 0) in
      if-holds IsReady done (record r { sent = r.sent ++ send_buffer ∷ [] }) r v v

  pub ack_thread_round-IsReady :
      (host : Host) (r : Receiver B) → IsReady r → IsReady (ack_thread_round host r)
  unfolding ack_thread_round
  ack_thread_round-IsReady host r v =
      if-holds IsReady r.acked_end_of_tx r _ v (popped (SafeQueue.try_pop r.ack_queue).0)
    where
      rest : Receiver B
      rest = record r { ack_queue = (SafeQueue.try_pop r.ack_queue).1 }

      popped :
          (next : Option ℕ)
          → IsReady (elim next as (λ o. Receiver B) [
            | none ↦ r
            | some sn ↦ record (send_ack host sn rest) {
              acked_end_of_tx = elim r.end_of_tx_sn as (λ o. Bool) [
                | none ↦ false
                | some eot ↦ sn == eot
              ];
            }
          ])
      popped none = v
      popped (some sn) = send_ack-IsReady host sn rest v

  pub try_get_packet-IsReady : (r : Receiver B) → IsReady r → IsReady (try_get_packet r)
  unfolding try_get_packet
  try_get_packet-IsReady r v = popped (OutputBuffer.try_get_packet r.output_buffer).0
    where
      ob : OutputBuffer.OutputBuffer
      ob = (OutputBuffer.try_get_packet r.output_buffer).1

      popped :
          (next : Option OutputBuffer.ReceiveBufferObject)
          → IsReady (elim next as (λ o. Receiver B) [
            | none ↦ record r { output_buffer = ob }
            | some p ↦ record r { output_buffer = ob; handed_out = r.handed_out ++ p.packet ∷ [] }
          ])
      popped none = v
      popped (some p) = v

  pub step-Returns :
      (host : Host) (order : IsNetworkOrder host) (fuel : ℕ) (s : Step) (r : Receiver B)
      → bound < fuel
      → HasRoom s
      → IsReady r
      → Returns (step host ops fuel s r)
  unfolding step
  step-Returns host order fuel (resequences clock received recv_buffer) r enough room v =
      resequencing_round-Returns host order fuel clock received recv_buffer r enough room v
  step-Returns host order fuel acks r enough room v =
      (ack_thread_round host r, refl, ack_thread_round-IsReady host r v)
  step-Returns host order fuel gets_packet r enough room v =
      (try_get_packet r, refl, try_get_packet-IsReady r v)
