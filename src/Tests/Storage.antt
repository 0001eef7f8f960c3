-- ===== src/Tests/Storage.antt =====
-- Two rounds of the service, correlation/service.py, with a storm on two pods of one disk and a third pod
-- that is on no disk.
use abb_accelerator_aiops.Prelude.{
  ◌≡◌, ◌&&◌, String, Option, none, some, List, filter, sorted, put, [], ◌∷◌, map, any, has, All,
  get, Dict, refl,
}
use abb_accelerator_aiops.Float.{max, abs}
use abb_accelerator_aiops.Float.Milli.{ℤ, pos, milli, milli-IsOrdered}
use abb_accelerator_aiops.Window.{Sample, Window, series_of}
use abb_accelerator_aiops.Api.{fetched, failed}
use abb_accelerator_aiops.Memory.Passes.{Memory, empty_memory, edged}
use abb_accelerator_aiops.Service.{Service, Round, Surroundings, in_memory, broken, loop, started}
use abb_accelerator_aiops.Service.Steps.{memory_of, is_fetched, loop_outages}
use abb_accelerator_aiops.Service.Storage.Rounds.{KeepsStorage, served_edges-AreStored}
use abb_accelerator_aiops.Gate.{couples, same_set}
use abb_accelerator_aiops.Service.Inputs.{build_inputs, grid}
use abb_accelerator_aiops.Service.Inputs.Latest.{IsLatest}
use abb_accelerator_aiops.Service.Inputs.Aligned.{IsAligned, build_inputs-IsAligned}
use abb_accelerator_aiops.Service.Inputs.Witnesses.{
  pod_names, are_stored, is_stalled, build_inputs-couples,
}
use abb_accelerator_aiops.Tests.Fixtures.{config, arrays}
use abb_accelerator_aiops.Tests.Memories.{backbone}
use abb_accelerator_aiops.Tests.Services.{svc, around}

abbrev sample : String → ℤ → Sample ℤ
sample ts v = record { ts = ts; value = v }

-- The stamps of fifteen polls, five seconds apart.
abbrev stamps : Dict ℤ
stamps =
    ("10:00:00", pos 0)
    ∷ ("10:00:05", pos 5000)
    ∷ ("10:00:10", pos 10000)
    ∷ ("10:00:15", pos 15000)
    ∷ ("10:00:20", pos 20000)
    ∷ ("10:00:25", pos 25000)
    ∷ ("10:00:30", pos 30000)
    ∷ ("10:00:35", pos 35000)
    ∷ ("10:00:40", pos 40000)
    ∷ ("10:00:45", pos 45000)
    ∷ ("10:00:50", pos 50000)
    ∷ ("10:00:55", pos 55000)
    ∷ ("10:01:00", pos 60000)
    ∷ ("10:01:05", pos 65000)
    ∷ ("10:01:10", pos 70000)
    ∷ []

abbrev pub by_stamp : Surroundings ℤ
by_stamp = record around { epoch = λ ts. get ts stamps }

-- A pod that stalls at the end.
abbrev stalls : List (Sample ℤ)
stalls =
    sample "10:00:00" (pos 100)
    ∷ sample "10:00:05" (pos 100)
    ∷ sample "10:00:10" (pos 100)
    ∷ sample "10:00:15" (pos 100)
    ∷ sample "10:00:20" (pos 100)
    ∷ sample "10:00:25" (pos 100)
    ∷ sample "10:00:30" (pos 100)
    ∷ sample "10:00:35" (pos 100)
    ∷ sample "10:00:40" (pos 100)
    ∷ sample "10:00:45" (pos 5000)
    ∷ sample "10:00:50" (pos 9000)
    ∷ sample "10:00:55" (pos 9500)
    ∷ sample "10:01:00" (pos 9400)
    ∷ sample "10:01:05" (pos 9300)
    ∷ sample "10:01:10" (pos 9000)
    ∷ []

abbrev window : Window ℤ
window =
    ("factory-data/timescaledb-5c4b-q2/psi_io", stalls)
    ∷ ("factory-data/log-archiver-7d9f-x1/psi_io", stalls)
    ∷ ("factory-data/vision-qc-88aa-z9/psi_io", stalls)
    ∷ []

abbrev pub round : Round ℤ
round = record {
  window = fetched window;
  events = fetched [];
  ts = pos 70000;
  now = pos 71000;
  fault = none;
}

abbrev pub remembered : Memory ℤ
remembered = record empty_memory { edge_memory = backbone ∷ [] }

served_edges-AreStored_example : KeepsStorage config svc by_stamp (
    loop config svc by_stamp
      (round ∷ round ∷ [])
      (started config svc by_stamp (pos 70000) remembered))
served_edges-AreStored_example =
    served_edges-AreStored config svc by_stamp (round ∷ round ∷ []) (pos 70000) remembered
      ((refl, refl), tt)

abbrev at_stamp : String → Option ℤ
at_stamp ts = get ts stamps

abbrev database_pod : String
database_pod = "timescaledb-5c4b-q2"

abbrev archiver_pod : String
archiver_pod = "log-archiver-7d9f-x1"

-- All three pods have a vector.
vectors_of_storm :
    map (λ (e : String × List ℤ). e.0) (build_inputs svc arrays at_stamp window []).vectors
    ≡ database_pod ∷ archiver_pod ∷ "vision-qc-88aa-z9" ∷ []
unfolding build_inputs get series_of put sorted max grid abs
vectors_of_storm = refl

build_inputs-IsAligned_example :
    let i = build_inputs svc arrays at_stamp window [] in
    (latest : ℤ) × IsLatest at_stamp svc window latest
    × All (IsAligned at_stamp window latest (pos 5000) "psi_io") i.vectors
    × All (IsAligned at_stamp window latest (pos 5000) "io_write") i.write_vectors
build_inputs-IsAligned_example =
    build_inputs-IsAligned at_stamp window svc arrays milli-IsOrdered []

build_inputs-couples_example :
    let i = build_inputs svc arrays at_stamp window [] in
    (couples i.witness database_pod archiver_pod ≡ (
      (has database_pod (pod_names svc arrays i.vectors)
        && has archiver_pod (pod_names svc arrays i.vectors))
      && are_stored svc arrays database_pod archiver_pod))
    × (any (same_set database_pod archiver_pod) i.witness.psi_copressure ≡ (
        is_stalled svc arrays database_pod i.vectors
        && is_stalled svc arrays archiver_pod i.vectors))
build_inputs-couples_example =
    build_inputs-couples svc arrays at_stamp window [] database_pod archiver_pod refl

-- The aggregator is out of reach, is back, and a pass is ended between its writes.
abbrev disturbed : List (Round ℤ)
disturbed =
    record round { window = failed "timed out" }
    ∷ round
    ∷ record round { fault = some (in_memory edged "database is locked") }
    ∷ []

abbrev remembering : Service ℤ
remembering = record { memory = remembered; graph = broken "timed out" }

loop_outages_example :
    memory_of config svc by_stamp (loop config svc by_stamp disturbed (some remembering))
    ≡ memory_of config svc by_stamp (
        loop config svc by_stamp
          (filter (is_fetched config svc by_stamp) disturbed)
          (some remembering))
loop_outages_example = loop_outages config svc by_stamp disturbed remembering
