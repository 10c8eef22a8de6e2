-- ===== src/Transmitter/Protocols.antt =====
-- The transmitter over the retransmission buffers of the protocols, from its construction on.
use arq_benchmark.Base.{ℕ, ◌<◌, ◌≡◌, List, [], returns}
use arq_benchmark.Common.Host.{Host, u16_mod}
use arq_benchmark.Rt.GoBackN
use arq_benchmark.Rt.SelectiveRepeat
use arq_benchmark.Rt.StopAndWait
use arq_benchmark.Rt.Instances.{
  go_back_n, selective_repeat, stop_and_wait, IsRing, go_back_n-IsRtBuffer,
  selective_repeat-IsRtBuffer, stop_and_wait-IsRtBuffer,
}
use arq_benchmark.Rt.GoBackN.Holds.{new-Holds}
use arq_benchmark.Transmitter.{Transmitter, Step, new, run}
use arq_benchmark.Transmitter.Safety.{run-IsSafe}

-- With a Go-Back-N buffer of any window from 1 to 65535 every run of the threads of a new
-- transmitter returns: nothing throws, no slot out of range is read, no loop runs out of fuel.
pub run-go_back_n :
    (host : Host) (window timeout first : ℕ) (steps : List Step)
    → 0 < window
    → window < u16_mod
    → first < u16_mod
    → (t : Transmitter GoBackN.GoBackN) × (run host go_back_n steps
          (new (GoBackN.new window timeout first))
        ≡ returns t)
      × IsRing t.retransmission_buffer
unfolding new
run-go_back_n host window timeout first steps pos small h =
    run-IsSafe go_back_n IsRing go_back_n-IsRtBuffer host steps
      (new (GoBackN.new window timeout first))
      ([], (new-Holds window timeout first pos small h).tracks)

-- With a Stop-and-Wait buffer every run of the threads of a new transmitter returns.
pub run-stop_and_wait :
    (host : Host) (timeout : ℕ) (steps : List Step)
    → (t : Transmitter StopAndWait.StopAndWait) × (run host stop_and_wait steps
          (new (StopAndWait.new timeout))
        ≡ returns t)
run-stop_and_wait host timeout steps =
    let (t, e, v) =
      run-IsSafe stop_and_wait (λ b. Unit {0}) stop_and_wait-IsRtBuffer host steps
        (new (StopAndWait.new timeout)) tt in
    (t, e)

-- With a Selective Repeat buffer of any window from 1 to 65535 every run of the threads of a new
-- transmitter returns.
pub run-selective_repeat :
    (host : Host) (window timeout first : ℕ) (steps : List Step)
    → 0 < window
    → window < u16_mod
    → first < u16_mod
    → (t : Transmitter SelectiveRepeat.SelectiveRepeat) × (run host selective_repeat steps
          (new (SelectiveRepeat.new window timeout first))
        ≡ returns t)
unfolding new
run-selective_repeat host window timeout first steps pos small h =
    let (t, e, v) =
      run-IsSafe selective_repeat IsRing selective_repeat-IsRtBuffer host steps
        (new (SelectiveRepeat.new window timeout first))
        ([], (new-Holds window timeout first pos small h).tracks) in
    (t, e)
