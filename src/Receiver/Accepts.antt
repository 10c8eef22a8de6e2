-- ===== src/Receiver/Accepts.antt =====
-- A pass of the resequencing thread with a Go-Back-N buffer that receives the packet it expects.
use arq_benchmark.Base.{
  ℕ, suc, ◌+◌, ◌≡◌, refl, sym, ap, ◌∙◌, true, false, List, [], ◌∷◌, ◌++◌, Option, some, ==_iff,
  ◌==◌, append_assoc, returns, ◌>>=◌,
}
use arq_benchmark.Common.Host.{Host}
use arq_benchmark.Common.DataPacket.{DataPacket}
use arq_benchmark.Common.OutputBuffer
use arq_benchmark.Common.OutputBuffer.{delivered}
use arq_benchmark.Rs.GoBackN.{GoBackN}
use arq_benchmark.Rs.Instances.{go_back_n}
use arq_benchmark.Util.SafeQueue
use arq_benchmark.Receiver.{Receiver, receive_packet, take_packet, deliver, resequencing_round}
use arq_benchmark.Receiver.Round.{
  output, IsSynced, taken, take_packet-hit, deliver-some, deliver-nothing, get_next_packet-one,
  accepted,
}

-- The pass goes on with what the packet leads to.
resequencing_round-goes :
    (host : Host) (fuel : ℕ) (clock : ℕ → ℕ) (received : Option ℕ) (recv_buffer : List ℕ)
    (r r' : Receiver GoBackN) (p : DataPacket)
    → r.acked_end_of_tx ≡ false
    → receive_packet host received recv_buffer ≡ returns (some p)
    → (take_packet go_back_n p r >>= deliver go_back_n fuel clock 0) ≡ returns r'
    → resequencing_round go_back_n host fuel clock received recv_buffer r ≡ returns r'
unfolding resequencing_round
resequencing_round-goes host fuel clock received recv_buffer r r' p going e q =
    simp (going, e, ◌>>=◌) q

-- The packet goes through to the output in that pass.
pub resequencing_round-accepts :
    (first : ℕ) (host : Host) (fuel : ℕ) (clock : ℕ → ℕ) (received : Option ℕ)
    (recv_buffer : List ℕ) (r : Receiver GoBackN) (p : DataPacket)
    → IsSynced first r
    → r.acked_end_of_tx ≡ false
    → receive_packet host received recv_buffer ≡ returns (some p)
    → p.header.sequence_number ≡ r.output_buffer.next_sequence_number
    → (r' : Receiver GoBackN) × (resequencing_round go_back_n host
          (suc (suc fuel))
          clock
          received
          recv_buffer
          r
        ≡ returns r')
      × (output r' ≡ output r ++ p ∷ [])
resequencing_round-accepts first host fuel clock received recv_buffer r p v going e number =
    let hit : (p.header.sequence_number == r.resequencing_buffer.next_sequence_number) ≡ true =
      (==_iff _ _).1 (number ∙ sym v.same_next) in
    let ob = (OutputBuffer.add_packet (clock 0) p r.output_buffer).1 in
    let r' : Receiver GoBackN = record (taken r p) {
      resequencing_buffer = record (taken r p).resequencing_buffer {
        shadow_buffer = SafeQueue.new;
      };
      output_buffer = ob;
    } in
    let delivers : deliver go_back_n (suc (suc fuel)) clock 0 (taken r p) ≡ returns r' =
      deliver-some first (suc fuel) clock 0 (taken r p) p _
        (get_next_packet-one (taken r p).resequencing_buffer p refl)
      ∙ deliver-nothing first fuel clock (0 + 1) r' refl in
    (
      r',
      resequencing_round-goes host (suc (suc fuel)) clock received recv_buffer r r' p going e (
          ap (λ o. o >>= deliver go_back_n (suc (suc fuel)) clock 0)
            (take_packet-hit r p hit v.empty)
          ∙ delivers),
      ap (λ l. r.handed_out ++ l) (accepted (clock 0) p r.output_buffer number).0
          ∙ sym (append_assoc r.handed_out (delivered r.output_buffer) (p ∷ [])),
    )
