-- ===== src/Memory/Edges/Seeding.antt =====
-- The backbone that `_seed_structural` of correlation/engine/state.py keeps: every witnessed pair of
-- running workloads has a row at the topology prior or above.
use abb_accelerator_aiops.Prelude.{
  ◌≡◌, refl, Bool, true, false, String, Option, none, some, List, [], ◌∷◌, ◌++◌, arith, All,
  Bool-cases, inl, inr, if_rule,
}
use abb_accelerator_aiops.Float.{Float, le, lt}
use abb_accelerator_aiops.Float.Laws.{IsOrdered, le_of_not-lt}
use abb_accelerator_aiops.Names.{stable_workload}
use abb_accelerator_aiops.Memory.{MemoryConfig, EdgeRow}
use abb_accelerator_aiops.Memory.Edges.{
  Key, find, set_base, smaller, larger, is_skipped, seeded, seed_row, seed_pair, seed_structural,
}
use abb_accelerator_aiops.Memory.Edges.Table.{key_eq_iff, find-append}

module _ {F : Type 0} ⦃f : Float F⦄ (o : IsOrdered F) (cfg : MemoryConfig F) where
  -- There is a row, and its floor is at the prior or above.
  abbrev pub at_prior : Option (EdgeRow F) → Bool
  at_prior none = false
  at_prior (some row) = le cfg.prior row.base_conf

  at_prior-set_base :
      (j k : Key) (rows : List (EdgeRow F))
      → at_prior (find k rows) ≡ true
      → at_prior (find k (set_base j cfg.prior rows)) ≡ true
  unfolding find set_base
  at_prior-set_base j k [] h = h
  at_prior-set_base j k (row ∷ rows) h =
      ground (arith, at_prior-set_base j k rows, o.le_refl cfg.prior)

  at_prior-set_base_own :
      (k : Key) (rows : List (EdgeRow F)) (row : EdgeRow F)
      → find k rows ≡ some row
      → at_prior (find k (set_base k cfg.prior rows)) ≡ true
  unfolding find set_base
  at_prior-set_base_own k [] row h = ground arith
  at_prior-set_base_own k (r ∷ rows) row h =
      ground (arith, at_prior-set_base_own k rows row, o.le_refl cfg.prior)

  at_prior-append :
      (k : Key) (rows rows' : List (EdgeRow F))
      → at_prior (find k rows) ≡ true
      → at_prior (find k (rows ++ rows')) ≡ true
  at_prior-append k rows rows' h = rw (find-append k rows rows') (ground (arith, h))

  seed_row-own :
      (a b : String) (ts : F) (old : Option (EdgeRow F)) (rows : List (EdgeRow F))
      → find (a, b, cfg.signal) rows ≡ old
      → at_prior (find (a, b, cfg.signal) (seed_row cfg a b ts old rows)) ≡ true
  unfolding seed_row seeded find
  seed_row-own a b ts none rows e =
      let k : Key = (a, b, cfg.signal) in
      rw (find-append k rows (seeded cfg a b ts ∷ []), e, (key_eq_iff k k).1 refl)
        (o.le_refl cfg.prior)
  seed_row-own a b ts (some row) rows e = elim (Bool-cases (lt row.base_conf cfg.prior)) [
    | inl h ↦ rw h (at_prior-set_base_own (a, b, cfg.signal) rows row e)
    | inr h ↦ rw (h, e) (le_of_not-lt o row.base_conf cfg.prior h)
  ]

  seed_row-keeps :
      (k : Key) (a b : String) (ts : F) (old : Option (EdgeRow F)) (rows : List (EdgeRow F))
      → at_prior (find k rows) ≡ true
      → at_prior (find k (seed_row cfg a b ts old rows)) ≡ true
  unfolding seed_row
  seed_row-keeps k a b ts none rows h = at_prior-append k rows _ h
  seed_row-keeps k a b ts (some row) rows h =
      if_rule (λ t. at_prior (find k t) ≡ true) (lt row.base_conf cfg.prior)
        (at_prior-set_base (a, b, cfg.signal) k rows h) h

  -- What seeding a list of witnessed pairs promises, for each pair that it does not skip.
  abbrev pub IsSeeded : List String → List (EdgeRow F) → String × String → Type 0
  IsSeeded pods_present rows (p, q) =
      let a = smaller (stable_workload p) (stable_workload q) in
      let b = larger (stable_workload p) (stable_workload q) in
      is_skipped cfg pods_present a b ≡ false → at_prior (find (a, b, cfg.signal) rows) ≡ true

  seed_pair-IsSeeded :
      (pods_present : List String) (ts : F) (p q : String) (rows : List (EdgeRow F))
      → IsSeeded pods_present (seed_pair cfg pods_present ts (p, q) rows) (p, q)
  unfolding seed_pair
  seed_pair-IsSeeded ps ts p q rows h =
      let a = smaller (stable_workload p) (stable_workload q) in
      let b = larger (stable_workload p) (stable_workload q) in
      rw h (seed_row-own a b ts (find (a, b, cfg.signal) rows) rows refl)

  seed_pair-keeps :
      (k : Key) (pods_present : List String) (ts : F) (p q : String) (rows : List (EdgeRow F))
      → at_prior (find k rows) ≡ true
      → at_prior (find k (seed_pair cfg pods_present ts (p, q) rows)) ≡ true
  unfolding seed_pair
  seed_pair-keeps k ps ts p q rows h =
      let a = smaller (stable_workload p) (stable_workload q) in
      let b = larger (stable_workload p) (stable_workload q) in
      if_rule (λ t. at_prior (find k t) ≡ true) (is_skipped cfg ps a b) h
        (seed_row-keeps k a b ts (find (a, b, cfg.signal) rows) rows h)

  seed_structural-keeps :
      (k : Key) (pairs : List (String × String)) (pods_present : List String) (ts : F)
      (rows : List (EdgeRow F))
      → at_prior (find k rows) ≡ true
      → at_prior (find k (seed_structural cfg pairs pods_present ts rows)) ≡ true
  unfolding seed_structural
  seed_structural-keeps k [] ps ts rows h = h
  seed_structural-keeps k ((p, q) ∷ pairs) ps ts rows h =
      seed_structural-keeps k pairs ps ts (seed_pair cfg ps ts (p, q) rows)
        (seed_pair-keeps k ps ts p q rows h)

  -- After seeding, every witnessed pair whose two workloads differ and are both present has a
  -- row, and its floor is at the prior or above, whatever rows there were. The order obeys
  -- `IsOrdered`.
  pub seed_structural-IsSeeded :
      (pairs : List (String × String)) (pods_present : List String) (ts : F)
      (rows : List (EdgeRow F))
      → All (IsSeeded pods_present (seed_structural cfg pairs pods_present ts rows)) pairs
  unfolding seed_structural
  seed_structural-IsSeeded [] ps ts rows = tt
  seed_structural-IsSeeded ((p, q) ∷ pairs) ps ts rows =
      let a = smaller (stable_workload p) (stable_workload q) in
      let b = larger (stable_workload p) (stable_workload q) in
      let rows' = seed_pair cfg ps ts (p, q) rows in
      (
        λ h.
            seed_structural-keeps (a, b, cfg.signal) pairs ps ts rows'
              (seed_pair-IsSeeded ps ts p q rows h),
        seed_structural-IsSeeded pairs ps ts rows',
      )
