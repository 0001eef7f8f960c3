-- ===== src/Memory/Render/Strongest.antt =====
-- `by_pair` of `_render` in correlation/engine/state.py: one row for each pair of workloads.
use abb_accelerator_aiops.Prelude.{◌≤◌, ◌≡◌, Bool, true, String, List, [], arith, All, In}
use abb_accelerator_aiops.Prelude.Choice.{count, count-choose_all, IsRanked, choose_all-Covers}
use abb_accelerator_aiops.Float.{Float}
use abb_accelerator_aiops.Float.Laws.{IsOrdered, ◌≼◌, le_of_lt, le_of_not-lt}
use abb_accelerator_aiops.Gate.{Edge, same_set}
use abb_accelerator_aiops.Gate.Pairs.{between-IsClass, same_ends-IsRanked}
use abb_accelerator_aiops.Memory.{MemoryConfig, EdgeRow}
use abb_accelerator_aiops.Memory.Render.{same_workloads, stronger, candidates, kept_rows}

module _ {F : Type 0} ⦃f : Float F⦄ (cfg : MemoryConfig F) where
  abbrev workloads : EdgeRow F → String × String
  workloads row = (row.src, row.dst)

  -- The row is of the two workloads, in one direction or the other.
  abbrev pub is_between : String → String → EdgeRow F → Bool
  is_between a b row = same_set a b (workloads row)

  workloads-IsRanked :
      IsOrdered F
      → IsRanked (same_workloads cfg) (stronger cfg) (λ x y. x.confidence ≼ y.confidence)
  workloads-IsRanked o =
      same_ends-IsRanked workloads (stronger cfg) (λ x y. x.confidence ≼ y.confidence)
        (λ x. o.le_refl x.confidence) (λ x y z. o.le_trans x.confidence y.confidence z.confidence)
        (λ x c. le_of_lt o c.confidence x.confidence)
        (λ x c. le_of_not-lt o c.confidence x.confidence)

  -- Of the rows that may be held, the ones kept include at most one between any two workloads, in
  -- either direction, and for each of the rows one between the same workloads whose confidence is
  -- at least as high. The order obeys `IsOrdered`.
  pub kept_rows-Covers :
      (o : IsOrdered F) (edges : List (Edge F)) (rows : List (EdgeRow F)) (a b : String)
      → (count (is_between a b) (kept_rows cfg edges rows) ≤ 1)
        × All
            (λ row.
              (best : EdgeRow F) × In best (kept_rows cfg edges rows)
              × (is_between row.src row.dst best ≡ true)
              × (row.confidence ≼ best.confidence))
            (candidates cfg edges rows)
  unfolding kept_rows
  kept_rows-Covers o edges rows a b = (
    count-choose_all (same_workloads cfg) (stronger cfg) (is_between a b)
        (between-IsClass workloads a b) (candidates cfg edges rows) [] (omega arith),
    choose_all-Covers (same_workloads cfg) (stronger cfg) (λ x y. x.confidence ≼ y.confidence)
        (workloads-IsRanked o) (candidates cfg edges rows) [],
  )
