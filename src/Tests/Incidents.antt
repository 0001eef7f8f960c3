-- ===== src/Tests/Incidents.antt =====
-- Runs of the baselines and of the case library of correlation/engine/state.py.
use abb_accelerator_aiops.Prelude.{
  ◌+◌, ◌≡◌, refl, false, some, [], ◌∷◌, str_eq, arith, if◌then◌else◌,
}
use abb_accelerator_aiops.Float.Milli.{ℤ, pos, milli, milli-IsOrdered}
use abb_accelerator_aiops.Names.{stable_workload}
use abb_accelerator_aiops.Memory.Baselines.{
  BaselineRow, find_baseline, baseline_threshold, moved, mad_of, update_baseline,
}
use abb_accelerator_aiops.Memory.Baselines.Gating.{exceeds, find-update_baseline}
use abb_accelerator_aiops.Memory.Similarity.{CaseRow}
use abb_accelerator_aiops.Memory.Cases.{CaseLibrary, key_of_incident, victims_of, promote_case}
use abb_accelerator_aiops.Memory.Cases.Filed.{IsPromoted, promote_case-IsPromoted}
use abb_accelerator_aiops.Memory.Cases.Registers.{JustifiedBy, promote_case-Justified}
use abb_accelerator_aiops.Tests.Fixtures.{idle, quantiles, config, digest, incident}

-- The baseline of the database after twenty updates.
abbrev baseline : BaselineRow ℤ
baseline = record {
  workload = "timescaledb";
  signal = "psi_io";
  median = pos 110;
  mad = pos 5;
  n = 20;
  updated_ts = pos 500;
}

baseline_found :
    find_baseline (stable_workload "timescaledb-5c4b-q2") config.signal (baseline ∷ [])
    ≡ some baseline
unfolding stable_workload find_baseline
baseline_found = refl

find-update_baseline_example :
    find_baseline
      (stable_workload "timescaledb-5c4b-q2")
      "psi_io"
      (update_baseline config quantiles "timescaledb-5c4b-q2" idle (pos 2000) (baseline ∷ []))
    ≡ some (
        if exceeds config
          (baseline_threshold config (stable_workload "timescaledb-5c4b-q2") (baseline ∷ []))
          (pos 100)
        then baseline
        else record baseline {
          median = moved config (pos 110) (pos 100);
          mad = moved config (pos 5) (mad_of quantiles idle);
          n = 20 + 1;
          updated_ts = pos 2000;
        })
find-update_baseline_example =
    find-update_baseline config quantiles "timescaledb-5c4b-q2" idle (pos 2000) (baseline ∷ [])
      baseline (omega arith) baseline_found

other_workload : str_eq (stable_workload "log-archiver-7d9f-x1") "timescaledb" ≡ false
unfolding stable_workload
other_workload = refl

-- The case that the incident matches.
abbrev known_case : CaseRow ℤ
known_case = record {
  id = "77aa";
  key = key_of_incident config digest "log-archiver" ("timescaledb" ∷ []) incident;
  lag_structure = [];
  occurrences = 1;
  first_seen_ts = pos 100;
  last_seen_ts = pos 100;
  typical_lead_time_s = some (pos 15000);
  family_id = some "77aa";
}

abbrev one_case : CaseLibrary ℤ
one_case = record { cases = known_case ∷ []; observations = [] }

promote_case-IsPromoted_example :
    IsPromoted config digest milli-IsOrdered incident
      (pos 2000)
      one_case
      (promote_case config digest incident (pos 2000) one_case)
promote_case-IsPromoted_example =
    promote_case-IsPromoted config digest milli-IsOrdered incident (pos 2000) one_case

promote_case-Justified_example :
    let root = stable_workload "log-archiver-7d9f-x1" in
    JustifiedBy config
      (key_of_incident config digest root (victims_of root incident) incident)
      (known_case ∷ [])
      (promote_case config digest incident (pos 2000) one_case).1
promote_case-Justified_example =
    promote_case-Justified milli-IsOrdered config digest refl refl incident (pos 2000) one_case
      (record { pod = "log-archiver-7d9f-x1"; score = pos 1000; onset_s = some (pos 60000) }) []
      refl
