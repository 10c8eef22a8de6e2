-- ===== src/Rs/SelectiveRepeat.antt =====
-- src/arq/resequencing_buffers/selective_repeat_rs.{hpp,cpp}. The do-while loop of `updateBuffer` has
-- the window size as its fuel, which `Update` shows to be enough. Sequence numbers are compared as
-- `int`, and indices and counters are of type `size_t`.
pub mod Window
pub mod Scan
pub mod Update
pub mod Add
pub mod Full
pub mod Order
use arq_benchmark.Base.{
  ℕ, zero, suc, ◌+◌, ◌-◌, ◌%◌, ◌^◌, Bool, true, false, ◌||◌, List, [], ◌∷◌, Option, none, some,
  get_elem?, set, length, replicate, ltb, leb, ◌==◌, if◌then◌else◌, Outcome, returns, undefined,
  out_of_fuel, ◌>>=◌, not,
}
use arq_benchmark.Common.Host.{u16_mod, size_mod}
use arq_benchmark.Common.SequenceNumber.{previous_sn}
use arq_benchmark.Common.DataPacket.{DataPacket}
use arq_benchmark.Util.SafeQueue
use arq_benchmark.Util.SafeQueue.{SafeQueue}

pub record SelectiveRepeat : Type 0 where
  pub window_size : ℕ
  pub buffer : List (Option DataPacket)
  pub start_idx : ℕ
  pub earliest_expected : ℕ
  pub packets_in_buffer : ℕ
  pub shadow_buffer : SafeQueue DataPacket
  pub can_send_acks : Bool

unfoldable pub new : ℕ → ℕ → SelectiveRepeat
new window_size first_seq_num = record {
  window_size = window_size;
  buffer = replicate window_size none;
  start_idx = 0;
  earliest_expected = first_seq_num;
  packets_in_buffer = 0;
  shadow_buffer = SafeQueue.new;
  can_send_acks = false;
}

-- An `int`; `negsuc n` is -(n + 1).
pub data ℤ : Type 0 where
  pos : ℕ → ℤ
  negsuc : ℕ → ℤ

-- The `int` that a `size_t` converts to.
abbrev pub int_of_size : ℕ → ℤ
int_of_size n =
    let low = n % 2 ^ 32 in if ltb low (2 ^ 31) then pos low else negsuc (2 ^ 32 - low - 1)

-- The remainder of the language has the sign of `a`; `b` is added to a negative one.
abbrev pub arithmetic_modulo : ℤ → ℕ → ℕ
arithmetic_modulo (pos a) b = a % b
arithmetic_modulo (negsuc n) b = let out = (n + 1) % b in if out == 0 then 0 else b - out

abbrev pub next_idx : SelectiveRepeat → ℕ → ℕ
next_idx b pkt_idx = (pkt_idx + 1) % b.window_size

-- The packet at an index goes to the shadow buffer.
abbrev pub forward : SelectiveRepeat → ℕ → DataPacket → SelectiveRepeat
forward b pkt_idx packet = record b {
  shadow_buffer = SafeQueue.push b.shadow_buffer packet;
  buffer = set b.buffer pkt_idx none;
  packets_in_buffer = (b.packets_in_buffer + (size_mod - 1)) % size_mod;
}

-- The loop of `updateBuffer` from an index on, with the `newStartIdx` that it leaves.
unfoldable pub update_scan : ℕ → SelectiveRepeat → ℕ → Outcome (SelectiveRepeat × ℕ)
update_scan zero b pkt_idx = out_of_fuel
update_scan (suc fuel) b pkt_idx = elim (get_elem? b.buffer pkt_idx) [
  | none ↦ undefined
  | some none ↦ returns (b, pkt_idx)
  | some (some packet) ↦ elim (next_idx b pkt_idx == b.start_idx) [
    | true ↦ returns (forward b pkt_idx packet, b.start_idx)
    | false ↦ update_scan fuel (forward b pkt_idx packet) (next_idx b pkt_idx)
  ]
]

-- The sliding window's tracking info. The difference of the indices wraps, and the sum wraps back.
unfoldable pub move_start : SelectiveRepeat → ℕ → SelectiveRepeat
move_start b new_start = if new_start == b.start_idx then b else record b {
  earliest_expected =
      (b.earliest_expected
        + (if ltb b.start_idx new_start
            then new_start - b.start_idx
            else ((new_start + size_mod - b.start_idx) % size_mod + b.window_size) % size_mod))
      % u16_mod;
  start_idx = new_start;
}

unfoldable pub update_buffer : SelectiveRepeat → Outcome SelectiveRepeat
unfolding update_scan move_start
update_buffer b =
    update_scan b.window_size b b.start_idx >>= λ (c, new_start). returns (move_start c new_start)

-- Where a packet that is accepted goes.
abbrev pub insertion_idx : SelectiveRepeat → ℕ → ℕ
insertion_idx b received =
    arithmetic_modulo
      (int_of_size ((b.start_idx + received + size_mod - b.earliest_expected) % size_mod))
      b.window_size

unfoldable pub insert : SelectiveRepeat → ℕ → DataPacket → Outcome SelectiveRepeat
insert b idx packet = elim (get_elem? b.buffer idx) [
  | none ↦ undefined
  | some (some _) ↦ returns b
  | some none ↦ update_buffer (record b {
    buffer = set b.buffer idx (some packet);
    packets_in_buffer = (b.packets_in_buffer + 1) % size_mod;
  })
]

abbrev pub with_ack : SelectiveRepeat → Option ℕ × SelectiveRepeat
with_ack b = (if b.can_send_acks then some (previous_sn b.earliest_expected) else none, b)

unfoldable pub do_add_packet : DataPacket → SelectiveRepeat → Outcome (Option ℕ × SelectiveRepeat)
unfolding insert
do_add_packet packet b =
    let received = packet.header.sequence_number in
    if ltb received b.earliest_expected || leb (b.earliest_expected + b.window_size) received
    then returns (with_ack b)
    else (insert (record b { can_send_acks = true }) (insertion_idx b received) packet >>= λ c.
        returns (with_ack c))

unfoldable pub do_packets_pending : SelectiveRepeat → Bool
do_packets_pending b = ltb 0 b.packets_in_buffer || not (SafeQueue.is_empty b.shadow_buffer)

unfoldable pub do_get_next_packet : SelectiveRepeat → Option DataPacket × SelectiveRepeat
do_get_next_packet b =
    let (packet, q) = SafeQueue.try_pop b.shadow_buffer in (packet, record b { shadow_buffer = q })
