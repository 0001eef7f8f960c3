-- ===== src/Tests/Memories.antt =====
-- Runs of the memory of correlation/engine/state.py, from a new database on.
use abb_accelerator_aiops.Prelude.{
  ◌+◌, ◌≡◌, refl, false, true, ◌||◌, String, List, none, some, [], ◌∷◌, All,
}
use abb_accelerator_aiops.Float.{le}
use abb_accelerator_aiops.Float.Laws.{◌≼◌}
use abb_accelerator_aiops.Float.Milli.{ℤ, pos, milli, milli-IsOrdered, milli-IsRounded}
use abb_accelerator_aiops.Memory.{EdgeRow, steady}
use abb_accelerator_aiops.Memory.Edges.Seeding.{IsSeeded, seed_structural-IsSeeded}
use abb_accelerator_aiops.Memory.Edges.{seed_structural, Key, edge_key, find, confirmed}
use abb_accelerator_aiops.Memory.Edges.Belief.{IsBelief, IsSane, confirmed_row}
use abb_accelerator_aiops.Memory.Edges.Absence.{Pass, decay_at, IsWorn, find-decay_at}
use abb_accelerator_aiops.Memory.Edges.Climb.{
  confirm_at, climbed, shown, IsClimbed, find-confirm_at,
}
use abb_accelerator_aiops.Memory.Passes.{Memory, empty_memory, observe}
use abb_accelerator_aiops.Memory.Passes.Reachable.{
  Reachable, created, passed, IsLinked, Reachable-IsBelief, Reachable-IsLinked,
}
use abb_accelerator_aiops.Tests.Fixtures.{
  idle, quantiles, config, digest, storm_edge, disk, incident,
}

-- The default configuration is one that the theorems speak of.
sane : IsSane config
sane = record {
  alpha = (refl, refl);
  decay = (refl, refl);
  prior = (refl, refl);
  floor_frac = (refl, refl);
}

abbrev pub stormed : Memory ℤ
stormed =
    (observe config quantiles digest incident
      (("timescaledb-5c4b-q2", idle) ∷ ("log-archiver-7d9f-x1", idle) ∷ []) (some disk) (pos 1000)
      empty_memory).0

pub stormed-Reachable : Reachable config quantiles digest stormed
stormed-Reachable =
    passed incident (("timescaledb-5c4b-q2", idle) ∷ ("log-archiver-7d9f-x1", idle) ∷ [])
      (some disk) (pos 1000) created

Reachable-IsBelief_example : All IsBelief stormed.edge_memory
Reachable-IsBelief_example =
    Reachable-IsBelief config quantiles digest milli-IsOrdered milli-IsRounded sane
      stormed-Reachable

Reachable-IsLinked_example : IsLinked config quantiles digest stormed.library
Reachable-IsLinked_example =
    Reachable-IsLinked config quantiles digest milli-IsOrdered stormed-Reachable

-- The row that a pair of workloads on one disk starts with.
abbrev pub backbone : EdgeRow ℤ
backbone = record {
  src = "log-archiver";
  dst = "timescaledb";
  signal = "psi_io";
  confidence = pos 200;
  r = pos 0;
  lag_s = 0;
  evidence = [];
  hits = 0;
  visible = false;
  state = steady;
  first_seen_ts = pos 1000;
  last_seen_ts = pos 1000;
  updated_ts = pos 1000;
  base_conf = pos 200;
}

backbone-IsBelief : IsBelief backbone
backbone-IsBelief = record { confidence = (refl, refl); floor = (refl, refl) }

confirmed_row_example :
    let row' = confirmed config (some backbone) storm_edge (pos 2000) in
    (pos 200 ≼ row'.confidence)
    × (pos 200 ≼ row'.base_conf)
    × (row'.visible ≡ (false || le config.show row'.confidence))
    × (row'.hits ≡ 0 + 1)
confirmed_row_example =
    confirmed_row milli-IsOrdered milli-IsRounded config sane backbone storm_edge (pos 2000)
      backbone-IsBelief

abbrev backbone_key : Key
backbone_key = ("log-archiver", "timescaledb", "psi_io")

-- A row that is shown, and two passes that do not see its edge.
abbrev shown_row : EdgeRow ℤ
shown_row = record backbone { confidence = pos 900; visible = true }

shown_row-IsBelief : IsBelief shown_row
shown_row-IsBelief = record { confidence = (refl, refl); floor = (refl, refl) }

abbrev running : List String
running = "log-archiver" ∷ "timescaledb" ∷ []

abbrev missed_at : ℤ → Pass config
missed_at ts = ([], running, ts)

find-decay_at_example :
    (last : EdgeRow ℤ) × (find backbone_key
        (decay_at config (missed_at (pos 2000) ∷ missed_at (pos 3000) ∷ []) (shown_row ∷ []))
      ≡ some last)
    × IsWorn config shown_row (pos 729) last
unfolding find
find-decay_at_example =
    find-decay_at config milli-IsOrdered milli-IsRounded sane backbone_key (missed_at (pos 2000))
      (missed_at (pos 3000) ∷ []) (shown_row ∷ []) shown_row shown_row-IsBelief (refl, (refl, tt))
      refl

seed_structural-IsSeeded_example :
    All
      (IsSeeded milli-IsOrdered config ("timescaledb" ∷ "log-archiver" ∷ []) (
        seed_structural config disk.shared_relation
          ("timescaledb" ∷ "log-archiver" ∷ [])
          (pos 1000)
          []))
      disk.shared_relation
seed_structural-IsSeeded_example =
    seed_structural-IsSeeded milli-IsOrdered config disk.shared_relation
      ("timescaledb" ∷ "log-archiver" ∷ []) (pos 1000) []

nothing_known : find {F = ℤ} (edge_key config storm_edge) [] ≡ none
unfolding find
nothing_known = refl

-- A storm of three passes.
find-confirm_at_example :
    (last : EdgeRow ℤ) × (find
        (edge_key config storm_edge)
        (confirm_at config storm_edge (pos 1000 ∷ pos 2000 ∷ pos 3000 ∷ []) [])
      ≡ some last)
    × IsClimbed config storm_edge
        (climbed config storm_edge config.alpha (pos 2000 ∷ pos 3000 ∷ []))
        (shown config storm_edge
          (le config.show config.alpha)
          config.alpha
          (pos 2000 ∷ pos 3000 ∷ []))
        3
        (pos 1000)
        last
find-confirm_at_example =
    find-confirm_at config storm_edge (pos 1000) (pos 2000 ∷ pos 3000 ∷ []) [] nothing_known
