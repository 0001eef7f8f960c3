-- ===== src/Tests/Signals.antt =====
-- Runs of the detection and of the gate: lagcorr.py, gate.py and detectors.py of correlation/engine.
use abb_accelerator_aiops.Prelude.{◌≡◌, refl, ◌↔◌, some, List, [], ◌∷◌, ◌++◌}
use abb_accelerator_aiops.Float.Milli.{ℤ, pos, milli, milli-IsOrdered, milli-IsRounded}
use abb_accelerator_aiops.Names.{pod_name, stable_workload, stable_workload-pod_name}
use abb_accelerator_aiops.Lagcorr.{Profile, best_directed, lag_profile, last_n}
use abb_accelerator_aiops.Lagcorr.Direction.{IsBest, best_directed-IsBest}
use abb_accelerator_aiops.Gate.{accept_edge}
use abb_accelerator_aiops.Gate.Clauses.{Passes, accepted, accept_edge_iff}
use abb_accelerator_aiops.Detectors.{cusum_onsets}
use abb_accelerator_aiops.Detectors.Onsets.{AreReported, cusum_onsets-AreOnsets}
use abb_accelerator_aiops.Tests.Fixtures.{stats, arrays, disk, storm_edge}

abbrev quiet : List ℤ
quiet =
    pos 100
    ∷ pos 120
    ∷ pos 100
    ∷ pos 90
    ∷ pos 100
    ∷ pos 110
    ∷ pos 100
    ∷ pos 100
    ∷ pos 100
    ∷ pos 100
    ∷ pos 110
    ∷ pos 100
    ∷ pos 100
    ∷ pos 90
    ∷ []

-- Fourteen quiet samples and six of a storm.
abbrev storm : List ℤ
storm = quiet ++ pos 5000 ∷ pos 9000 ∷ pos 9500 ∷ pos 9400 ∷ pos 9300 ∷ pos 9000 ∷ []

stable_workload-pod_name_example :
    stable_workload (pod_name "cooling-monitor" "abc123" "xyz") ≡ "cooling-monitor"
stable_workload-pod_name_example =
    stable_workload-pod_name "cooling-monitor" "abc123" "xyz" refl refl

best_directed-IsBest_example :
    IsBest milli-IsOrdered
      (lag_profile stats (last_n 20 storm) (last_n 20 storm))
      (lag_profile stats (last_n 20 storm) (last_n 20 storm))
      (best_directed stats storm storm)
best_directed-IsBest_example =
    best_directed-IsBest milli-IsOrdered milli-IsRounded stats storm storm

abbrev profile : Profile ℤ
profile = (5, pos 500) ∷ (15, pos 900) ∷ []

accept_edge_iff_example :
    (accept_edge "log-archiver-7d9f-x1" "timescaledb-5c4b-q2" (pos 900) 15 profile disk []
      ≡ some storm_edge)
    ↔ (Passes "log-archiver-7d9f-x1" "timescaledb-5c4b-q2" (pos 900) 15 profile disk []
        × (accepted "log-archiver-7d9f-x1" "timescaledb-5c4b-q2" (pos 900) 15 profile disk []
            ≡ storm_edge))
accept_edge_iff_example =
    accept_edge_iff "log-archiver-7d9f-x1" "timescaledb-5c4b-q2" (pos 900) 15 profile disk []
      storm_edge

cusum_onsets-AreOnsets_example : AreReported arrays storm (cusum_onsets arrays storm)
cusum_onsets-AreOnsets_example = cusum_onsets-AreOnsets arrays storm
