-- ===== src/Tests/Rendering.antt =====
-- Runs of the rendered graph and of the tables behind it, correlation/engine/state.py.
use abb_accelerator_aiops.Prelude.{
  ℕ, ◌≤◌, ◌≡◌, refl, true, String, some, List, [], ◌∷◌, map, get, put, All, In,
}
use abb_accelerator_aiops.Prelude.Choice.{count}
use abb_accelerator_aiops.Float.Laws.{◌≼◌}
use abb_accelerator_aiops.Float.Milli.{ℤ, pos, milli, milli-IsOrdered}
use abb_accelerator_aiops.Gate.{stat}
use abb_accelerator_aiops.Names.{stable_workload}
use abb_accelerator_aiops.Memory.{EdgeRow, active}
use abb_accelerator_aiops.Memory.Edges.View.{view_of}
use abb_accelerator_aiops.Memory.Passes.{Seen, empty_memory, observe_all}
use abb_accelerator_aiops.Memory.Passes.Refines.{observe_all_view, observe_all_refines}
use abb_accelerator_aiops.Memory.Render.{candidates, kept_rows, held_edges, RenderedEdge}
use abb_accelerator_aiops.Memory.Render.Ghosts.{IsBacked, held_edges-IsBacked}
use abb_accelerator_aiops.Memory.Render.Strongest.{is_between, kept_rows-Covers}
use abb_accelerator_aiops.Tests.Fixtures.{idle, quantiles, config, digest, disk, incident}

-- Two passes over the same storm.
abbrev storm : ℕ → Seen ℤ
storm ts = record {
  graph = incident;
  vectors = ("timescaledb-5c4b-q2", idle) ∷ ("log-archiver-7d9f-x1", idle) ∷ [];
  witness = some disk;
  ts = pos ts;
}

observe_all_refines_example :
    view_of
      (observe_all config quantiles digest (storm 1000 ∷ storm 2000 ∷ []) empty_memory).edge_memory
    ≡ observe_all_view config (storm 1000 ∷ storm 2000 ∷ []) (view_of {F = ℤ} [])
observe_all_refines_example =
    observe_all_refines config quantiles digest (storm 1000 ∷ storm 2000 ∷ []) empty_memory

-- The belief of a storm, in each direction.
abbrev belief : ℕ → String → String → EdgeRow ℤ
belief confidence src dst = record {
  src = src;
  dst = dst;
  signal = "psi_io";
  confidence = pos confidence;
  r = pos 900;
  lag_s = 15;
  evidence = stat ∷ [];
  hits = 3;
  visible = true;
  state = active;
  first_seen_ts = pos 1000;
  last_seen_ts = pos 2000;
  updated_ts = pos 2000;
  base_conf = pos 300;
}

abbrev beliefs : List (EdgeRow ℤ)
beliefs =
    belief 640 "log-archiver" "timescaledb"
    ∷ belief 780 "timescaledb" "log-archiver"
    ∷ belief 700 "log-archiver" "dcim-bridge"
    ∷ []

abbrev running : List String
running = "log-archiver-7d9f-x1" ∷ "timescaledb-5c4b-q2" ∷ []

-- The stronger belief is shown, and none of a workload that does not run.
held_one :
    map (λ (e : RenderedEdge ℤ). e.edge.src) (held_edges config (pos 3000) running [] beliefs)
    ≡ "timescaledb-5c4b-q2" ∷ []
unfolding held_edges kept_rows get put stable_workload
held_one = refl

held_edges-IsBacked_example :
    All (IsBacked config running [] beliefs) (held_edges config (pos 3000) running [] beliefs)
held_edges-IsBacked_example = held_edges-IsBacked config running [] beliefs (pos 3000)

kept_rows-Covers_example :
    (count (is_between config "timescaledb" "log-archiver") (kept_rows config [] beliefs) ≤ 1)
    × All
        (λ row.
          (best : EdgeRow ℤ) × In best (kept_rows config [] beliefs)
          × (is_between config row.src row.dst best ≡ true)
          × (row.confidence ≼ best.confidence))
        (candidates config [] beliefs)
kept_rows-Covers_example =
    kept_rows-Covers config milli-IsOrdered [] beliefs "timescaledb" "log-archiver"
