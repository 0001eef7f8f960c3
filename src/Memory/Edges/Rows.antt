-- ===== src/Memory/Edges/Rows.antt =====
-- A predicate of the rows of edge_memory that each of the writes in correlation/engine/state.py keeps
-- holds of the table after them.
use mathlib.Core.Path.{subst}
use abb_accelerator_aiops.Prelude.{
  ◌≡◌, String, Option, none, some, List, [], ◌∷◌, arith, All, All-append, Bool-cases, inl, inr,
  if_rule,
}
use abb_accelerator_aiops.Float.{Float, lt}
use abb_accelerator_aiops.Gate.{Edge}
use abb_accelerator_aiops.Names.{stable_workload}
use abb_accelerator_aiops.Memory.{MemoryConfig, EdgeRow}
use abb_accelerator_aiops.Memory.Edges.{
  edge_key, smaller, larger, is_skipped, Key, key_of, key_eq, find, without, insert_or_replace,
  set_base, confirmed, confirm_edge, confirm_edges, decayed, is_absent, decay_row,
  decay_absent_edges, seeded, seed_row, seed_pair, seed_structural,
}

-- What keeps the predicate: a confirmation by an edge of a kind, a decay, a raised floor, and the row
-- that is seeded for two workloads of a kind.
pub record IsKept {F : Type 0} ⦃f : Float F⦄ (cfg : MemoryConfig F) (P : EdgeRow F → Type 0)
    (Good : Edge F → Type 0) (Seeds : String → String → Type 0) : Type 0 where
  pub confirm :
      (old : Option (EdgeRow F)) (edge : Edge F) (ts : F)
      → Good edge
      → ((row : EdgeRow F) → old ≡ some row → P row)
      → P (confirmed cfg old edge ts)
  pub decay : (ts : F) (row : EdgeRow F) → P row → P (decayed cfg ts row)
  pub raise : (row : EdgeRow F) → P row → P (record row { base_conf = cfg.prior })
  pub seed : (a b : String) (ts : F) → Seeds a b → P (seeded cfg a b ts)

module _ {F : Type 0} ⦃f : Float F⦄ {cfg : MemoryConfig F} {P : EdgeRow F → Type 0}
    {Good : Edge F → Type 0} {Seeds : String → String → Type 0}
    (kept : IsKept cfg P Good Seeds) where
  All-find :
      (k : Key) (rows : List (EdgeRow F)) (row : EdgeRow F)
      → All P rows
      → find k rows ≡ some row
      → P row
  unfolding find
  All-find k [] row h e = absurd (cc)
  All-find k (x ∷ rows) row (b, bs) e = elim (Bool-cases (key_eq (key_of x) k)) [
    | inl t ↦ subst P (ground arith) b
    | inr t ↦ All-find k rows row bs (ground arith)
  ]

  All-without : (k : Key) (rows : List (EdgeRow F)) → All P rows → All P (without k rows)
  unfolding without
  All-without k [] h = tt
  All-without k (x ∷ rows) (b, bs) = elim (Bool-cases (key_eq (key_of x) k)) [
    | inl t ↦ rw (t, without) (All-without k rows bs)
    | inr t ↦ rw (t, without) (b, All-without k rows bs)
  ]

  pub confirm_edges-All :
      (edges : List (Edge F)) (ts : F) (rows : List (EdgeRow F))
      → All Good edges
      → All P rows
      → All P (confirm_edges cfg edges ts rows)
  unfolding confirm_edges insert_or_replace
  confirm_edges-All [] ts rows _ h = h
  confirm_edges-All (edge ∷ edges) ts rows (g, gs) h =
      let row = confirmed cfg (find (edge_key cfg edge) rows) edge ts in
      let p : P row =
        kept.confirm _ edge ts g (λ old e. All-find (edge_key cfg edge) rows old h e) in
      confirm_edges-All edges ts (confirm_edge cfg edge ts rows) gs (
        All-append P (without (key_of row) rows) (row ∷ []) (All-without (key_of row) rows h)
          (p, tt))

  pub decay_absent_edges-All :
      (seen : List Key) (pods_present : List String) (ts : F) (rows : List (EdgeRow F))
      → All P rows
      → All P (decay_absent_edges cfg seen pods_present ts rows)
  unfolding decay_absent_edges decay_row
  decay_absent_edges-All seen ps ts [] h = tt
  decay_absent_edges-All seen ps ts (row ∷ rows) (b, bs) = (
    if_rule P (is_absent cfg seen ps row) (kept.decay ts row b) b,
    decay_absent_edges-All seen ps ts rows bs,
  )

  set_base-All :
      (k : Key) (rows : List (EdgeRow F)) → All P rows → All P (set_base k cfg.prior rows)
  unfolding set_base
  set_base-All k [] h = tt
  set_base-All k (row ∷ rows) (b, bs) =
      (if_rule P (key_eq (key_of row) k) (kept.raise row b) b, set_base-All k rows bs)

  seed_row-All :
      (a b : String) (ts : F) (old : Option (EdgeRow F)) (rows : List (EdgeRow F))
      → Seeds a b
      → All P rows
      → All P (seed_row cfg a b ts old rows)
  unfolding seed_row
  seed_row-All a b ts none rows s h = All-append P rows _ h (kept.seed a b ts s, tt)
  seed_row-All a b ts (some row) rows s h =
      if_rule (All P) (lt row.base_conf cfg.prior) (set_base-All (a, b, cfg.signal) rows h) h

  -- The two workloads of a witnessed pair, in order.
  abbrev pub SeedsPair : String × String → Type 0
  SeedsPair (p, q) =
      Seeds (smaller (stable_workload p) (stable_workload q))
        (larger (stable_workload p) (stable_workload q))

  pub seed_structural-All :
      (pairs : List (String × String)) (pods_present : List String) (ts : F)
      (rows : List (EdgeRow F))
      → All SeedsPair pairs
      → All P rows
      → All P (seed_structural cfg pairs pods_present ts rows)
  unfolding seed_structural seed_pair
  seed_structural-All [] ps ts rows _ h = h
  seed_structural-All ((p, q) ∷ pairs) ps ts rows (s, ss) h =
      let a = smaller (stable_workload p) (stable_workload q) in
      let b = larger (stable_workload p) (stable_workload q) in
      let old = find (a, b, cfg.signal) rows in
      seed_structural-All pairs ps ts (seed_pair cfg ps ts (p, q) rows) ss (
        if_rule (All P) (is_skipped cfg ps a b) {y = seed_row cfg a b ts old rows} h
          (seed_row-All a b ts old rows s h))
