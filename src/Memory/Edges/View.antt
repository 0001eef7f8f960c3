-- ===== src/Memory/Edges/View.antt =====
-- The table edge_memory of correlation/engine/state.py as what it stands for, a map from keys to
-- beliefs, and what a pass does to the map. The order of the rows is forgotten.
pub mod Refines
use mathlib.Core.Option
use abb_accelerator_aiops.Prelude.{String, Option, none, some, List, [], ◌∷◌, map, if◌then◌else◌}
use abb_accelerator_aiops.Float.{Float, lt}
use abb_accelerator_aiops.Names.{stable_workload}
use abb_accelerator_aiops.Gate.{Edge}
use abb_accelerator_aiops.Memory.{MemoryConfig, EdgeRow}
use abb_accelerator_aiops.Memory.Edges.{
  Key, key_eq, find, edge_key, confirmed, decay_row, seeded, smaller, larger, is_skipped,
}

abbrev pub View : Type 0 → Type 0
View F = Key → Option (EdgeRow F)

-- The map of a table.
abbrev pub view_of : {F : Type 0} → List (EdgeRow F) → View F
view_of rows k = find k rows

-- The map, changed at one key.
abbrev pub assign : {F : Type 0} → Key → EdgeRow F → View F → View F
assign k row v j = if key_eq k j then some row else v j

module _ {F : Type 0} ⦃f : Float F⦄ (cfg : MemoryConfig F) where
  -- A witnessed pair: its new belief, or its old one with the prior as the least floor.
  abbrev pub raised : String → String → F → Option (EdgeRow F) → EdgeRow F
  raised a b ts none = seeded cfg a b ts
  raised a b ts (some row) =
      if lt row.base_conf cfg.prior then record row { base_conf = cfg.prior } else row

  abbrev pub seed_view : List String → F → String × String → View F → View F
  seed_view pods_present ts (p, q) v =
      let a = smaller (stable_workload p) (stable_workload q) in
      let b = larger (stable_workload p) (stable_workload q) in
      if is_skipped cfg pods_present a b
      then v
      else assign (a, b, cfg.signal) (raised a b ts (v (a, b, cfg.signal))) v

  abbrev pub confirm_view : Edge F → F → View F → View F
  confirm_view edge ts v =
      assign (edge_key cfg edge) (confirmed cfg (v (edge_key cfg edge)) edge ts) v

  abbrev pub decay_view : List Key → List String → F → View F → View F
  decay_view seen pods_present ts v k = Option.map (decay_row cfg seen pods_present ts) (v k)

  -- A step for each element, in order.
  abbrev pub each : {A : Type 0} → (A → View F → View F) → List A → View F → View F
  each step [] v = v
  each step (x ∷ xs) v = each step xs (step x v)

  -- A pass: every witnessed pair is seeded, every edge confirmed, and then all that is absent decays.
  abbrev pub observe_view :
      List (Edge F) → List String → List (String × String) → F → View F → View F
  observe_view edges pods_present pairs ts v =
      decay_view (map (edge_key cfg) edges) pods_present ts
        (each (λ e. confirm_view e ts) edges (each (seed_view pods_present ts) pairs v))
