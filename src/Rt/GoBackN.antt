-- ===== src/Rt/GoBackN.antt =====
-- src/arq/retransmission_buffers/go_back_n_rt.{hpp,cpp}. The two scans of the circular buffer are
-- do-while loops that stop where the index is back at the start; their fuel is the window size,
-- which `Add` and `Retransmit` show to be enough. A window of size 0 has no slot to read.
pub mod Holds
pub mod Add
pub mod Retransmit
pub mod Acknowledge
pub mod Numbered
use arq_benchmark.Base.{
  ℕ, zero, suc, ◌+◌, ◌-◌, ◌%◌, Bool, true, false, List, [], ◌∷◌, Option, none, some, get_elem?, set,
  length, replicate, ltb, leb, ◌==◌, not, if◌then◌else◌, Outcome, returns, throws, undefined,
  out_of_fuel, ◌>>=◌,
}
use arq_benchmark.Common.Host.{u16_mod, size_mod}
use arq_benchmark.Common.DataPacket.{get_read_span}
use arq_benchmark.Common.TxBufferObject.{
  TransmitBufferObject, is_packet_timed_out, update_last_tx_time,
}

pub record GoBackN : Type 0 where
  -- `timeoutInterval_` of the base class, in microseconds.
  pub timeout_interval : ℕ
  pub window_size : ℕ
  pub buffer : List (Option TransmitBufferObject)
  pub start_idx : ℕ
  pub next_to_ack : ℕ
  pub packets_in_buffer : ℕ

unfoldable pub new : ℕ → ℕ → ℕ → GoBackN
new window_size timeout first_seq_num = record {
  timeout_interval = timeout;
  window_size = window_size;
  buffer = replicate window_size none;
  start_idx = 0;
  next_to_ack = first_seq_num;
  packets_in_buffer = 0;
}

abbrev pub next_idx : GoBackN → ℕ → ℕ
next_idx b pkt_idx = (pkt_idx + 1) % b.window_size

-- The loop of `do_addPacket`, from the index `pkt_idx` on.
unfoldable pub add_scan : ℕ → TransmitBufferObject → GoBackN → ℕ → Outcome GoBackN
add_scan zero packet b pkt_idx = out_of_fuel
add_scan (suc fuel) packet b pkt_idx = elim (get_elem? b.buffer pkt_idx) [
  | none ↦ undefined
  | some none ↦ returns (record b {
    buffer = set b.buffer pkt_idx (some packet);
    packets_in_buffer = (b.packets_in_buffer + 1) % size_mod;
  })
  | some (some _) ↦ elim (next_idx b pkt_idx == b.start_idx) [
    | true ↦ throws
    | false ↦ add_scan fuel packet b (next_idx b pkt_idx)
  ]
]

unfoldable pub do_add_packet : TransmitBufferObject → GoBackN → Outcome GoBackN
unfolding add_scan
do_add_packet packet b = add_scan b.window_size packet b b.start_idx

-- A new packet may be added if there is space in the circular buffer.
unfoldable pub do_ready_for_new_packet : GoBackN → Bool
do_ready_for_new_packet b = ltb b.packets_in_buffer b.window_size

unfoldable pub do_packets_pending : GoBackN → Bool
do_packets_pending b = ltb 0 b.packets_in_buffer

-- The readings of the clock in one call: in round `i` of the scan, and where a packet is found.
pub record Readings : Type 0 where
  pub check : ℕ → ℕ
  pub stamp : ℕ

-- The loop of `do_tryGetPacketSpan`, in its round `i`.
unfoldable pub try_scan : ℕ → Readings → GoBackN → ℕ → ℕ → Outcome (Option (List ℕ) × GoBackN)
try_scan zero clock b i pkt_idx = out_of_fuel
try_scan (suc fuel) clock b i pkt_idx =
    let rest : Outcome (Option (List ℕ) × GoBackN) = elim (next_idx b pkt_idx == b.start_idx) [
      | true ↦ returns (none, b)
      | false ↦ try_scan fuel clock b (i + 1) (next_idx b pkt_idx)
    ] in
    elim (get_elem? b.buffer pkt_idx) [
      | none ↦ undefined
      | some none ↦ rest
      | some (some this_pkt) ↦
          elim (is_packet_timed_out b.timeout_interval (clock.check i) this_pkt) [
            | true ↦ returns (
              some (get_read_span this_pkt.packet),
              record b {
                buffer = set b.buffer pkt_idx (some (update_last_tx_time clock.stamp this_pkt));
              },
            )
            | false ↦ rest
          ]
    ]

unfoldable pub do_try_get_packet_span : Readings → GoBackN → Outcome (Option (List ℕ) × GoBackN)
unfolding try_scan do_packets_pending
do_try_get_packet_span clock b =
    if not (do_packets_pending b)
    then returns (none, b)
    else try_scan b.window_size clock b 0 b.start_idx

-- Round `i` of the loop of `do_acknowledgePacket`. The sequence numbers are compared as `int`, and
-- the counter is a `size_t`.
unfoldable pub ack_round : ℕ → ℕ → GoBackN → Outcome GoBackN
ack_round acked i b =
    let pkt_idx = (b.start_idx + i) % b.window_size in
    if leb (b.next_to_ack + i) acked
    then if ltb pkt_idx (length b.buffer)
      then returns (record b {
        buffer = set b.buffer pkt_idx none;
        packets_in_buffer = (b.packets_in_buffer + (size_mod - 1)) % size_mod;
      })
      else undefined
    else returns b

-- `rounds` rounds of it, from `i` on.
unfoldable pub ack_loop : ℕ → ℕ → ℕ → GoBackN → Outcome GoBackN
ack_loop zero acked i b = returns b
ack_loop (suc rounds) acked i b = ack_round acked i b >>= ack_loop rounds acked (i + 1)

-- The new 'next packet to ACK'.
unfoldable pub advance : ℕ → GoBackN → GoBackN
advance acked b =
    if leb b.next_to_ack acked
    then record b {
      start_idx = (b.start_idx + (acked + 1 - b.next_to_ack)) % size_mod % b.window_size;
      next_to_ack = (acked + 1) % u16_mod;
    }
    else b

unfoldable pub do_acknowledge_packet : ℕ → GoBackN → Outcome GoBackN
unfolding ack_loop ack_round advance do_packets_pending
do_acknowledge_packet acked b =
    if leb (b.next_to_ack + b.window_size) acked
    then returns b
    else if not (do_packets_pending b)
    then returns b
    else (ack_loop b.window_size acked 0 b >>= λ cleared. returns (advance acked cleared))
