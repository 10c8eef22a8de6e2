-- ===== src/Rs/SelectiveRepeat/Full.antt =====
-- What `do_addPacket` does where the packet that arrives fills the window.
use arq_benchmark.Base.{
  ℕ, suc, ◌+◌, ◌<◌, ◌≡◌, ap, ◌∙◌, subst, List, [], ◌∷◌, ◌++◌, Option, none, some, arith, length,
  get_elem?, set, length-set, drop_all, replicate, returns, le→not_ltb,
}
use arq_benchmark.Common.SequenceNumber.{previous_sn}
use arq_benchmark.Common.DataPacket.{DataPacket}
use arq_benchmark.Rs.SelectiveRepeat.{SelectiveRepeat, do_add_packet}
use arq_benchmark.Rs.SelectiveRepeat.Add.{do_add_packet-accepts}
use arq_benchmark.Rs.SelectiveRepeat.Window.{count, run_of, HasWindow, count-set, count-le-length}

-- In a window with no free slot the run is the window.
length-run_of_full :
    (slots : List (Option DataPacket))
    → count slots ≡ length slots
    → length (run_of slots) ≡ length slots
length-run_of_full [] e = e
length-run_of_full (none ∷ slots) e = absurd (omega (arith, count-le-length slots))
length-run_of_full (some p ∷ slots) e = ap suc (length-run_of_full slots (omega arith))

-- The packet that takes the last free slot makes the whole window go to the shadow buffer, and
-- empties it; but the earliest expected number stays, and the ACK repeats the number before it: the
-- packets that were given out are not acknowledged, and would be accepted again.
pub do_add_packet-full_window :
    (b : SelectiveRepeat) (slots : List (Option DataPacket)) (packet : DataPacket) (i : ℕ)
    → HasWindow b slots
    → packet.header.sequence_number ≡ b.earliest_expected + i
    → i < b.window_size
    → get_elem? slots i ≡ some none
    → count slots + 1 ≡ b.window_size
    → (b' : SelectiveRepeat) × (do_add_packet packet b
        ≡ returns (some (previous_sn b.earliest_expected), b'))
      × (b'.earliest_expected ≡ b.earliest_expected)
      × (b'.shadow_buffer.queue ≡ b.shadow_buffer.queue ++ run_of (set slots i (some packet)))
      × (length (run_of (set slots i (some packet))) ≡ b.window_size)
      × HasWindow b' (replicate b.window_size none)
do_add_packet-full_window b slots packet i h sn inside free last =
    let (b', returned, u) = do_add_packet-accepts b slots packet h i sn inside free in
    let now = set slots i (some packet) in
    let all : length (run_of now) ≡ b.window_size =
      length-run_of_full now
        (omega (arith, count-set slots i packet free, length-set slots i (some packet), h.width))
      ∙ length-set slots i (some packet)
      ∙ h.width in
    let stays : b'.earliest_expected ≡ b.earliest_expected =
      u.expects ∙ rw (le→not_ltb (length (run_of now)) b.window_size (omega arith)) in
    (
      b',
      returned ∙ ap (λ n. returns (some (previous_sn n), b')) stays,
      stays,
      u.forwarded,
      all,
      subst (HasWindow b')
          (rw (
            all,
            drop_all b.window_size now (omega (arith, h.width, length-set slots i (some packet))),
          ))
          u.window,
    )
