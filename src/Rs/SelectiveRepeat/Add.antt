-- ===== src/Rs/SelectiveRepeat/Add.antt =====
-- `do_addPacket` against the list of the window's slots, on every branch.
use arq_benchmark.Base.{
  ℕ, ◌+◌, ◌%◌, ◌^◌, ◌≤◌, ◌<◌, ◌≡◌, ap, sym, ◌∙◌, true, List, Option, none, some, arith, get_elem?,
  set, length-set, get_elem?-set_self, get_elem?-set_ne, slot-set_self, slot-set_ne, ℕ_discrete,
  returns, ◌⊎◌, inl, inr, if◌then◌else◌, lt→ltb, le→leb, le→not_ltb, lt→not_leb, ◌>>=◌,
}
use arq_benchmark.Common.Host.{size_mod}
use arq_benchmark.Common.SequenceNumber.{previous_sn}
use arq_benchmark.Common.DataPacket.{DataPacket}
use arq_benchmark.Rs.SelectiveRepeat.{
  SelectiveRepeat, do_add_packet, insert, insertion_idx, with_ack, int_of_size, arithmetic_modulo,
  pos,
}
use arq_benchmark.Rs.SelectiveRepeat.Scan.{here}
use arq_benchmark.Rs.SelectiveRepeat.Update.{Updated, update_buffer_refines}
use arq_benchmark.Rs.SelectiveRepeat.Window.{HasWindow, count-set, count-le-length}

int_of_size_small : (n : ℕ) → n < 2 ^ 31 → int_of_size n ≡ pos n
int_of_size_small n lt = let low : n % 2 ^ 32 ≡ n = omega arith in rw (low, lt→ltb n (2 ^ 31) lt)

module _ (b : SelectiveRepeat) (slots : List (Option DataPacket)) (packet : DataPacket)
    (h : HasWindow b slots) where
  -- A packet outside the window changes nothing; the ACK, once ACKs can be sent, is for the number
  -- before the earliest that is expected.
  pub do_add_packet-rejects :
      (packet.header.sequence_number < b.earliest_expected)
        ⊎ (b.earliest_expected + b.window_size ≤ packet.header.sequence_number)
      → do_add_packet packet b
        ≡ returns (if b.can_send_acks then some (previous_sn b.earliest_expected) else none, b)
  unfolding do_add_packet
  do_add_packet-rejects (inl early) =
      rw (lt→ltb packet.header.sequence_number b.earliest_expected early)
  do_add_packet-rejects (inr late) = rw (
    le→not_ltb packet.header.sequence_number b.earliest_expected (omega arith),
    le→leb (b.earliest_expected + b.window_size) packet.header.sequence_number late,
  )

  module _ (i : ℕ) (sn : packet.header.sequence_number ≡ b.earliest_expected + i)
      (inside : i < b.window_size) where
    insertion_idx-here : insertion_idx b packet.header.sequence_number ≡ here b i
    insertion_idx-here =
        ap (λ n. arithmetic_modulo (int_of_size n) b.window_size)
          (omega (arith, h.start_in, h.window_u16, h.earliest_u16))
        ∙ ap (λ n. arithmetic_modulo n b.window_size)
            (int_of_size_small (b.start_idx + i) (omega (arith, h.start_in, h.window_u16)))

    accepted : do_add_packet packet b ≡ (
        insert (record b { can_send_acks = true }) (here b i) packet >>= λ c. returns (with_ack c))
    unfolding do_add_packet
    accepted = rw (
      le→not_ltb packet.header.sequence_number b.earliest_expected (omega arith),
      lt→not_leb (b.earliest_expected + b.window_size) packet.header.sequence_number (omega arith),
      insertion_idx-here,
    )

    -- A packet inside the window whose slot is taken is dropped; ACKs can be sent from then on, and the
    -- ACK is for the number before the earliest that is expected.
    pub do_add_packet-duplicate :
        (held : DataPacket)
        → get_elem? slots i ≡ some (some held)
        → do_add_packet packet b
          ≡ returns (some (previous_sn b.earliest_expected), record b { can_send_acks = true })
    unfolding insert
    do_add_packet-duplicate held e = accepted ∙ rw (h.at i inside, e, insert)

    -- The buffer with the packet in its slot.
    abbrev filled : SelectiveRepeat
    filled = record b {
      can_send_acks = true;
      buffer = set b.buffer (here b i) (some packet);
      packets_in_buffer = (b.packets_in_buffer + 1) % size_mod;
    }

    filled-HasWindow : get_elem? slots i ≡ some none → HasWindow filled (set slots i (some packet))
    filled-HasWindow e = record {
      storage = length-set b.buffer (here b i) (some packet) ∙ h.storage;
      start_in = h.start_in;
      width = length-set slots i (some packet) ∙ h.width;
      at = λ j lt. slot j lt (ℕ_discrete j i);
      counted = omega (
        arith,
        h.counted,
        h.width,
        h.window_u16,
        count-set slots i packet e,
        count-le-length slots,
      );
      window_u16 = h.window_u16;
      earliest_u16 = h.earliest_u16;
    }
      where
        slot :
            (j : ℕ)
            → j < b.window_size
            → Dec (j ≡ i)
            → get_elem? (set b.buffer (here b i) (some packet)) (here b j)
              ≡ get_elem? (set slots i (some packet)) j
        slot j lt (yes q) =
            rw (q, get_elem?-set_self slots i (some packet) (omega (arith, h.width)))
              (slot-set_self b.buffer b.window_size b.start_idx i (some packet) h.storage
                h.start_in)
        slot j lt (no ne) =
            slot-set_ne b.buffer b.window_size b.start_idx i j (some packet) h.start_in inside lt
              (λ q. ne (sym q))
            ∙ h.at j lt
            ∙ sym (get_elem?-set_ne slots i j (some packet) (λ q. ne (sym q)))

    -- A packet inside the window whose slot is free goes into it, the packets that are then in sequence are forwarded, and the
    -- ACK is for the number before the earliest that is then expected.
    pub do_add_packet-accepts :
        get_elem? slots i ≡ some none
        → (b' : SelectiveRepeat) × (do_add_packet packet b
            ≡ returns (some (previous_sn b'.earliest_expected), b'))
          × Updated (record b { can_send_acks = true }) (set slots i (some packet)) b'
    unfolding insert
    do_add_packet-accepts e =
        let (b', updates, u) =
          update_buffer_refines filled (set slots i (some packet)) (filled-HasWindow e) in
        (
          b',
          accepted ∙ rw (h.at i inside, e, insert, updates, ◌>>=◌, u.same_acks),
          record {
            window = u.window;
            forwarded = u.forwarded;
            expects = u.expects;
            same_size = u.same_size;
            same_acks = u.same_acks;
          },
        )
