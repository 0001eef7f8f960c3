-- ===== src/Memory/Edges/View/Refines.antt =====
-- The three loops of `observe` over edge_memory refine the steps on the map.
use mathlib.Core.Option
use mathlib.Core.Path.{fun_ext}
use abb_accelerator_aiops.Prelude.{
  ◌≡◌, refl, sym, ap, ◌∙◌, true, String, Option, none, some, List, [], ◌∷◌, map, arith, Bool-cases,
  inl, inr, if◌then◌else◌,
}
use abb_accelerator_aiops.Float.{Float, lt}
use abb_accelerator_aiops.Names.{stable_workload}
use abb_accelerator_aiops.Gate.{Edge}
use abb_accelerator_aiops.Memory.{MemoryConfig, EdgeRow}
use abb_accelerator_aiops.Memory.Edges.{
  Key, key_of, key_eq, find, set_base, edge_key, confirm_edge, confirm_edges, decay_absent_edges,
  seeded, seed_row, seed_pair, seed_structural, smaller, larger, is_skipped,
}
use abb_accelerator_aiops.Memory.Edges.Table.{
  key_eq_iff, key_eq_trans, or_else, find-append, find-confirm_edge, find-decay_absent_edges,
}
use abb_accelerator_aiops.Memory.Edges.View.{
  view_of, assign, raised, seed_view, confirm_view, decay_view, each, observe_view,
}

module _ {F : Type 0} where
  find-set_base :
      (j k : Key) (base : F) (rows : List (EdgeRow F))
      → find k (set_base j base rows) ≡ (
          if key_eq j k
          then Option.map (λ (r : EdgeRow F). record r { base_conf = base }) (find k rows)
          else find k rows)
  unfolding find set_base
  find-set_base j k base [] = ground arith
  find-set_base j k base (row ∷ rows) = ground (
    arith,
    find-set_base j k base rows,
    key_eq_iff (key_of row) j,
    key_eq_iff (key_of row) k,
    key_eq_iff j k,
    key_eq_trans (key_of row) j k,
    key_eq_trans (key_of row) k j,
  )

  find_same : (j k : Key) (rows : List (EdgeRow F)) → key_eq j k ≡ true → find k rows ≡ find j rows
  find_same j k rows h = ap (λ i. find i rows) (sym ((key_eq_iff j k).0 h))

  or_else-none : (x : Option (EdgeRow F)) → or_else x none ≡ x
  or_else-none none = refl
  or_else-none (some row) = refl

module _ {F : Type 0} ⦃f : Float F⦄ (cfg : MemoryConfig F) where
  find-seeded :
      (a b : String) (ts : F) (k : Key)
      → find k (seeded cfg a b ts ∷ [])
        ≡ (if key_eq (a, b, cfg.signal) k then some (seeded cfg a b ts) else none)
  unfolding find seeded
  find-seeded a b ts k = refl

  view_of-seed_row :
      (a b : String) (ts : F) (old : Option (EdgeRow F)) (rows : List (EdgeRow F))
      → find (a, b, cfg.signal) rows ≡ old
      → (k : Key)
      → find k (seed_row cfg a b ts old rows)
        ≡ assign (a, b, cfg.signal) (raised cfg a b ts old) (view_of rows) k
  unfolding seed_row
  view_of-seed_row a b ts none rows e k = elim (Bool-cases (key_eq (a, b, cfg.signal) k)) [
    | inl h ↦
        rw
          (find-append k rows (seeded cfg a b ts ∷ []), find_same (a, b, cfg.signal) k rows h, e, h)
          (rw (find-seeded a b ts k, h))
    | inr h ↦
        rw (find-append k rows (seeded cfg a b ts ∷ []), h)
          (rw (find-seeded a b ts k, h) (or_else-none (find k rows)))
  ]
  view_of-seed_row a b ts (some row) rows e k = elim (Bool-cases (lt row.base_conf cfg.prior)) [
    | inl l ↦ elim (Bool-cases (key_eq (a, b, cfg.signal) k)) [
      | inl h ↦ rw (
        l,
        find-set_base (a, b, cfg.signal) k cfg.prior rows,
        find_same (a, b, cfg.signal) k rows h,
        e,
        h,
      )
      | inr h ↦ rw (l, find-set_base (a, b, cfg.signal) k cfg.prior rows, h)
    ]
    | inr l ↦ elim (Bool-cases (key_eq (a, b, cfg.signal) k)) [
      | inl h ↦ rw (l, find_same (a, b, cfg.signal) k rows h, e, h)
      | inr h ↦ rw (l, h)
    ]
  ]

  view_of-seed_pair :
      (pods_present : List String) (ts : F) (pair : String × String) (rows : List (EdgeRow F))
      → view_of (seed_pair cfg pods_present ts pair rows)
        ≡ seed_view cfg pods_present ts pair (view_of rows)
  unfolding seed_pair
  view_of-seed_pair ps ts (p, q) rows =
      let a = smaller (stable_workload p) (stable_workload q) in
      let b = larger (stable_workload p) (stable_workload q) in
      elim (Bool-cases (is_skipped cfg ps a b)) [
        | inl h ↦ rw h
        | inr h ↦ rw h (fun_ext (view_of-seed_row a b ts (find (a, b, cfg.signal) rows) rows refl))
      ]

  view_of-confirm_edge :
      (edge : Edge F) (ts : F) (rows : List (EdgeRow F))
      → view_of (confirm_edge cfg edge ts rows) ≡ confirm_view cfg edge ts (view_of rows)
  view_of-confirm_edge edge ts rows = fun_ext (λ k. find-confirm_edge cfg edge ts k rows)

  view_of-decay :
      (seen : List Key) (ps : List String) (ts : F) (rows : List (EdgeRow F))
      → view_of (decay_absent_edges cfg seen ps ts rows) ≡ decay_view cfg seen ps ts (view_of rows)
  view_of-decay seen ps ts rows = fun_ext (λ k. find-decay_absent_edges cfg seen ps ts k rows)

  view_of-seed_structural :
      (pairs : List (String × String)) (ps : List String) (ts : F) (rows : List (EdgeRow F))
      → view_of (seed_structural cfg pairs ps ts rows)
        ≡ each cfg (seed_view cfg ps ts) pairs (view_of rows)
  unfolding seed_structural
  view_of-seed_structural [] ps ts rows = refl
  view_of-seed_structural (pair ∷ pairs) ps ts rows =
      view_of-seed_structural pairs ps ts (seed_pair cfg ps ts pair rows)
      ∙ ap (each cfg (seed_view cfg ps ts) pairs) (view_of-seed_pair ps ts pair rows)

  view_of-confirm_edges :
      (edges : List (Edge F)) (ts : F) (rows : List (EdgeRow F))
      → view_of (confirm_edges cfg edges ts rows)
        ≡ each cfg (λ e. confirm_view cfg e ts) edges (view_of rows)
  unfolding confirm_edges
  view_of-confirm_edges [] ts rows = refl
  view_of-confirm_edges (e ∷ edges) ts rows =
      view_of-confirm_edges edges ts (confirm_edge cfg e ts rows)
      ∙ ap (each cfg (λ e. confirm_view cfg e ts) edges) (view_of-confirm_edge e ts rows)

  -- One pass over the table is one pass over its map.
  pub observe_edges_refines :
      (edges : List (Edge F)) (pods_present : List String) (pairs : List (String × String)) (ts : F)
      (rows : List (EdgeRow F))
      → view_of (
          decay_absent_edges cfg
            (map (edge_key cfg) edges)
            pods_present
            ts
            (confirm_edges cfg edges ts (seed_structural cfg pairs pods_present ts rows)))
        ≡ observe_view cfg edges pods_present pairs ts (view_of rows)
  observe_edges_refines edges ps pairs ts rows =
      let seeds = seed_structural cfg pairs ps ts rows in
      let seen = map (edge_key cfg) edges in
      view_of-decay seen ps ts (confirm_edges cfg edges ts seeds)
      ∙ ap (decay_view cfg seen ps ts) (
          view_of-confirm_edges edges ts seeds
          ∙ ap (each cfg (λ e. confirm_view cfg e ts) edges)
              (view_of-seed_structural pairs ps ts rows))
