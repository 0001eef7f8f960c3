-- ===== src/Tests/Factory.antt =====
-- Runs of the simulated workloads, workloads/*/main.py.
use abb_accelerator_aiops.Prelude.{
  ◌+◌, ℕ, ◌≤◌, ◌<◌, ◌≡◌, refl, true, String, List, [], ◌∷◌, ◌++◌, arith,
}
use abb_accelerator_aiops.Workloads.Ingest.{
  Row, Ingest, idle, on_msg, take_from, take_row, commit, reconnect,
}
use abb_accelerator_aiops.Workloads.Ingest.Delivered.{
  Run, begun, queued, taken, written, broken, IsAccounted, Run-IsAccounted,
}
use abb_accelerator_aiops.Workloads.Cooling.{
  Happening, post, touch, clear, step, booted, is_running, rstrip_slashes, is_flush, advance, run,
}
use abb_accelerator_aiops.Workloads.Cooling.Armed.{asks, run-Answers}

abbrev reading : String → Row ℕ
reading payload = record { ts = 0; topic = "sensors/zone-a"; payload = payload }

-- Two messages; the first is taken and lost with its batch, the second is stored.
abbrev ingested : Ingest ℕ
ingested =
    commit (take_row (reconnect (take_row (on_msg (reading "b") (on_msg (reading "a") idle)))))

ingested-Run : Run (reading "a" ∷ reading "b" ∷ []) (reading "a" ∷ []) ingested
unfolding on_msg take_from reconnect
ingested-Run =
    written (taken (broken (taken (queued (reading "b") refl (queued (reading "a") refl begun)))))

Run-IsAccounted_example : IsAccounted (reading "a" ∷ reading "b" ∷ []) (reading "a" ∷ []) ingested
Run-IsAccounted_example = Run-IsAccounted ingested-Run

flush-IsFlush : is_flush "/flush/" ≡ true
unfolding rstrip_slashes
flush-IsFlush = refl

abbrev after : List Happening
after = step ∷ step ∷ step ∷ touch ∷ step ∷ post "/flush" ∷ step ∷ []

-- A flag that another process puts on the volume and takes away again.
abbrev before : List Happening
before = touch ∷ step ∷ clear ∷ step ∷ []

before_running : is_running (run before (booted true)).phase ≡ true
unfolding run advance
before_running = refl

run-Answers_example :
    let all = before ++ post "/flush/" ∷ after in
    ((run before (booted true)).storms < (run all (booted true)).storms)
    × ((run all (booted true)).storms ≤ 1 + asks all)
run-Answers_example =
    run-Answers true before after "/flush/" flush-IsFlush before_running refl (omega arith)
