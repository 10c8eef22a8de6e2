-- ===== src/Common/OutputBuffer.antt =====
-- src/arq/common/output_buffer.{hpp,cpp} and rx_buffer_object.hpp: the packets for the application,
-- accepted in sequence only. A reading of the clock is an argument.
use arq_benchmark.Base.{
  ℕ, ◌≡◌, refl, Bool, true, false, List, [], ◌∷◌, ◌++◌, Option, ◌==◌, ==_iff, if◌then◌else◌,
  Bool-cases, inl, inr, map, map-append, subst, sym, ◌⊎◌,
}
use arq_benchmark.Common.SequenceNumber.{first_sequence_number, next_sn}
use arq_benchmark.Common.DataPacket.{DataPacket}
use arq_benchmark.Common.InOrder.{InOrder, InOrder-snoc}
use arq_benchmark.Util.SafeQueue
use arq_benchmark.Util.SafeQueue.{SafeQueue}

pub record ReceiveBufferObject : Type 0 where
  pub packet : DataPacket
  pub rx_time : ℕ

pub record OutputBuffer : Type 0 where
  pub output_packets : SafeQueue ReceiveBufferObject
  pub next_sequence_number : ℕ

abbrev pub new : OutputBuffer
new = record { output_packets = SafeQueue.new; next_sequence_number = first_sequence_number }

-- Reject a packet that is not the next in sequence.
unfoldable pub add_packet : ℕ → DataPacket → OutputBuffer → Bool × OutputBuffer
add_packet now packet ob =
    if packet.header.sequence_number == ob.next_sequence_number
    then (
      true,
      record {
        output_packets =
            SafeQueue.push ob.output_packets (record { packet = packet; rx_time = now });
        next_sequence_number = next_sn ob.next_sequence_number;
      },
    )
    else (false, ob)

unfoldable pub get_packet : OutputBuffer → Option ReceiveBufferObject × OutputBuffer
get_packet ob =
    let (next, q) = SafeQueue.pop_wait ob.output_packets in (next, record ob { output_packets = q })

unfoldable pub try_get_packet : OutputBuffer → Option ReceiveBufferObject × OutputBuffer
try_get_packet ob =
    let (next, q) = SafeQueue.try_pop ob.output_packets in (next, record ob { output_packets = q })

abbrev pub delivered : OutputBuffer → List DataPacket
delivered ob = map (λ r. r.packet) ob.output_packets.queue

-- What is stored carries consecutive numbers, up to the one that comes next.
abbrev pub IsSequenced : ℕ → OutputBuffer → Type 0
IsSequenced first ob = InOrder first (delivered ob) ob.next_sequence_number

-- Whatever packet is offered, the stored packets stay in sequence: the packet is stored behind them
-- if its number comes next, and refused with no change if not.
pub add_packet-IsSequenced :
    (first now : ℕ) (packet : DataPacket) (ob : OutputBuffer)
    → IsSequenced first ob
    → IsSequenced first (add_packet now packet ob).1
      × (((packet.header.sequence_number ≡ ob.next_sequence_number)
            × ((add_packet now packet ob).0 ≡ true)
            × (delivered (add_packet now packet ob).1 ≡ delivered ob ++ packet ∷ []))
          ⊎ (¬ (packet.header.sequence_number ≡ ob.next_sequence_number)
              × (add_packet now packet ob ≡ (false, ob))))
unfolding add_packet SafeQueue.push
add_packet-IsSequenced first now packet ob v =
    elim (Bool-cases (packet.header.sequence_number == ob.next_sequence_number)) [
      | inl hit ↦
          let e : packet.header.sequence_number ≡ ob.next_sequence_number = (==_iff _ _).0 hit in
          let behind : map (λ r. r.packet)
                (ob.output_packets.queue ++ record { packet = packet; rx_time = now } ∷ [])
              ≡ delivered ob ++ packet ∷ [] =
            map-append (λ r. r.packet) ob.output_packets.queue
              (record { packet = packet; rx_time = now } ∷ []) in
          rw hit (
            subst (λ l. InOrder first l (next_sn ob.next_sequence_number)) (sym behind)
                (InOrder-snoc first ob.next_sequence_number (delivered ob) packet v e),
            inl (e, refl, behind),
          )
      | inr miss ↦ rw miss (v, inr (λ e. cc ((==_iff _ _).1 e), refl))
    ]
