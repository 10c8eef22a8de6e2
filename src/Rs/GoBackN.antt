-- ===== src/Rs/GoBackN.antt =====
-- src/arq/resequencing_buffers/go_back_n_rs.{hpp,cpp}: packets are taken in sequence only.
use arq_benchmark.Base.{
  ℕ, ◌<◌, ◌≡◌, refl, ap, Bool, true, false, not, Option, none, some, ◌==◌, if◌then◌else◌,
  Bool-cases, inl, inr, ==_iff, arith,
}
use arq_benchmark.Common.Host.{u16_mod}
use arq_benchmark.Common.SequenceNumber.{next_sn, previous_sn}
use arq_benchmark.Common.InOrder.{InOrder, InOrder-snoc}
use arq_benchmark.Common.DataPacket.{DataPacket}
use arq_benchmark.Util.SafeQueue
use arq_benchmark.Util.SafeQueue.{SafeQueue}

pub record GoBackN : Type 0 where
  pub shadow_buffer : SafeQueue DataPacket
  pub next_sequence_number : ℕ
  pub can_send_acks : Bool

unfoldable pub new : ℕ → GoBackN
new first_seq_num = record {
  shadow_buffer = SafeQueue.new;
  next_sequence_number = first_seq_num;
  can_send_acks = false;
}

unfoldable pub do_add_packet : DataPacket → GoBackN → Option ℕ × GoBackN
do_add_packet packet b =
    let received = packet.header.sequence_number in
    if received == b.next_sequence_number
    then (
      some received,
      record {
        shadow_buffer = SafeQueue.push b.shadow_buffer packet;
        next_sequence_number = next_sn b.next_sequence_number;
        can_send_acks = true;
      },
    )
    else (if b.can_send_acks then some (previous_sn b.next_sequence_number) else none, b)

unfoldable pub do_packets_pending : GoBackN → Bool
do_packets_pending b = not (SafeQueue.is_empty b.shadow_buffer)

unfoldable pub do_get_next_packet : GoBackN → Option DataPacket × GoBackN
do_get_next_packet b =
    let (packet, q) = SafeQueue.try_pop b.shadow_buffer in (packet, record b { shadow_buffer = q })

-- The shadow buffer holds the packets from `first` up to the number that is expected.
pub record IsOrdered (first : ℕ) (b : GoBackN) : Type 0 where
  pub in_order : InOrder first b.shadow_buffer.queue b.next_sequence_number
  pub next_u16 : b.next_sequence_number < u16_mod

-- Whatever packet arrives, the shadow buffer stays in order, and the ACK is cumulative: it is for the
-- last packet in sequence, and none is sent before there was one.
pub do_add_packet-cumulative :
    (first : ℕ) (packet : DataPacket) (b : GoBackN)
    → IsOrdered first b
    → IsOrdered first (do_add_packet packet b).1
      × ((do_add_packet packet b).0 ≡ (
          if (do_add_packet packet b).1.can_send_acks
          then some (previous_sn (do_add_packet packet b).1.next_sequence_number)
          else none))
unfolding do_add_packet SafeQueue.push
do_add_packet-cumulative first packet b v =
    elim (Bool-cases (packet.header.sequence_number == b.next_sequence_number)) [
      | inl hit ↦
          let e : packet.header.sequence_number ≡ b.next_sequence_number = (==_iff _ _).0 hit in
          rw hit (
            record {
              in_order =
                  InOrder-snoc first b.next_sequence_number b.shadow_buffer.queue packet v.in_order
                    e;
              next_u16 = omega arith;
            },
            ap some (omega (arith, v.next_u16)),
          )
      | inr miss ↦ rw miss (v, refl)
    ]
