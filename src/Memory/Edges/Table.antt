-- ===== src/Memory/Edges/Table.antt =====
-- What the writes to edge_memory change and what they leave: each is the lookup of any key after the
-- write, in terms of the lookups before it.
use mathlib.Core.Option
use abb_accelerator_aiops.Prelude.{
  ◌≡◌, refl, ◌∙◌, ap, ◌↔◌, Bool, true, false, String, str_eq_iff, Option, none, some, List, [], ◌∷◌,
  ◌++◌, arith, Bool-cases, inl, inr, if◌then◌else◌, if_rule, sym, All,
}
use abb_accelerator_aiops.Float.{Float}
use abb_accelerator_aiops.Names.{stable_workload, dashes, pod_name, stable_workload-pod_name}
use abb_accelerator_aiops.Gate.{Edge}
use abb_accelerator_aiops.Memory.{MemoryConfig, EdgeRow}
use abb_accelerator_aiops.Memory.Edges.{
  Key, key_of, key_eq, edge_key, find, without, insert_or_replace, confirmed, confirm_edge, decayed,
  is_absent, decay_row, decay_absent_edges,
}

pub key_eq_iff : (k j : Key) → (key_eq k j ≡ true) ↔ (k ≡ j)
key_eq_iff (a, b, c) (x, y, z) = (
  λ h. ground (arith, str_eq_iff a x, str_eq_iff b y, str_eq_iff c z),
  λ h. ground (arith, str_eq_iff a x, str_eq_iff b y, str_eq_iff c z),
)

pub key_eq_trans : (a b c : Key) → key_eq a b ≡ true → key_eq a c ≡ key_eq b c
key_eq_trans a b c h = ap (λ k. key_eq k c) ((key_eq_iff a b).0 h)

module _ {F : Type 0} where
  -- the row if there is one, and the other lookup if not
  abbrev pub or_else : Option (EdgeRow F) → Option (EdgeRow F) → Option (EdgeRow F)
  or_else none y = y
  or_else (some x) y = some x

  find-cons :
      (k : Key) (row : EdgeRow F) (rows : List (EdgeRow F)) (b : Bool)
      → key_eq (key_of row) k ≡ b
      → find k (row ∷ rows) ≡ (if b then some row else find k rows)
  unfolding find
  find-cons k row rows b e = rw e refl

  pub find-append :
      (k : Key) (rows rows' : List (EdgeRow F))
      → find k (rows ++ rows') ≡ or_else (find k rows) (find k rows')
  unfolding find
  find-append k [] rows' = refl
  find-append k (row ∷ rows) rows' = ground (arith, find-append k rows rows')

  find-without :
      (j k : Key) (rows : List (EdgeRow F))
      → find k (without j rows) ≡ (if key_eq j k then none else find k rows)
  unfolding find without
  find-without j k [] = ground arith
  find-without j k (row ∷ rows) = ground (
    arith,
    find-without j k rows,
    key_eq_trans (key_of row) j k,
    key_eq_trans (key_of row) k j,
    key_eq_iff (key_of row) j,
    key_eq_iff (key_of row) k,
    key_eq_iff j k,
  )

  find-insert_or_replace :
      (row : EdgeRow F) (k : Key) (rows : List (EdgeRow F))
      → find k (insert_or_replace row rows)
        ≡ (if key_eq (key_of row) k then some row else find k rows)
  unfolding find insert_or_replace
  find-insert_or_replace row k rows =
      rw (find-append k (without (key_of row) rows) (row ∷ []), find-without (key_of row) k rows)
        (ground arith)

module _ {F : Type 0} ⦃f : Float F⦄ (cfg : MemoryConfig F) where
  key_of-confirmed :
      (old : Option (EdgeRow F)) (edge : Edge F) (ts : F)
      → key_of (confirmed cfg old edge ts) ≡ edge_key cfg edge
  unfolding confirmed
  key_of-confirmed none edge ts = refl
  key_of-confirmed (some row) edge ts = refl

  -- After a confirmation the key of the edge's two workloads has the confirmed row, made from the
  -- row that it had, and every other key has the row that it had.
  pub find-confirm_edge :
      (edge : Edge F) (ts : F) (k : Key) (rows : List (EdgeRow F))
      → find k (confirm_edge cfg edge ts rows) ≡ (
          if key_eq (edge_key cfg edge) k
          then some (confirmed cfg (find (edge_key cfg edge) rows) edge ts)
          else find k rows)
  find-confirm_edge edge ts k rows =
      let row = confirmed cfg (find (edge_key cfg edge) rows) edge ts in
      unfold confirm_edge in
      find-insert_or_replace row k rows
      ∙ ap (λ (j : Key). if key_eq j k then some row else find k rows)
          (key_of-confirmed (find (edge_key cfg edge) rows) edge ts)

  pub key_of-decay_row :
      (seen : List Key) (pods_present : List String) (ts : F) (row : EdgeRow F)
      → key_of (decay_row cfg seen pods_present ts row) ≡ key_of row
  unfolding decay_row
  key_of-decay_row seen ps ts row =
      if_rule (λ r. key_of r ≡ key_of row) (is_absent cfg seen ps row) {x = decayed cfg ts row}
        {y = row} refl refl

  -- After the decay of absent edges the row of a key is its old row, decayed if its edge was not
  -- seen in this pass and both of its workloads are running, and no key gains or loses a row.
  pub find-decay_absent_edges :
      (seen : List Key) (pods_present : List String) (ts : F) (k : Key) (rows : List (EdgeRow F))
      → find k (decay_absent_edges cfg seen pods_present ts rows)
        ≡ Option.map (decay_row cfg seen pods_present ts) (find k rows)
  unfolding find decay_absent_edges
  find-decay_absent_edges seen ps ts k [] = refl
  find-decay_absent_edges seen ps ts k (row ∷ rows) =
      let same = ap (λ (j : Key). key_eq j k) (key_of-decay_row seen ps ts row) in
      elim (Bool-cases (key_eq (key_of row) k)) [
        | inl e ↦
            find-cons k _ _ true (same ∙ e)
            ∙ ap (Option.map (decay_row cfg seen ps ts)) (sym (find-cons k row rows true e))
        | inr e ↦
            find-cons k _ _ false (same ∙ e)
            ∙ find-decay_absent_edges seen ps ts k rows
            ∙ ap (Option.map (decay_row cfg seen ps ts)) (sym (find-cons k row rows false e))
      ]

  confirmed-workload :
      (old : Option (EdgeRow F)) (edge : Edge F) (s d s' d' : String) (ts : F)
      → stable_workload s ≡ stable_workload s'
      → stable_workload d ≡ stable_workload d'
      → confirmed cfg old (record edge { src = s; dst = d }) ts
        ≡ confirmed cfg old (record edge { src = s'; dst = d' }) ts
  unfolding confirmed
  confirmed-workload none edge s d s' d' ts p q = rw (p, q)
  confirmed-workload (some row) edge s d s' d' ts p q = rw (p, q)

  -- A restart gives every pod of a workload new hashes, which have no dashes: an edge between the
  -- new pods is confirmed as the same edge between the old ones would be.
  pub confirm_edge-restart :
      (edge : Edge F) (v w : String) (r1 h1 r2 h2 s1 g1 s2 g2 : String) (ts : F)
      (rows : List (EdgeRow F))
      → All (λ hash. dashes hash ≡ 0) (r1 ∷ h1 ∷ r2 ∷ h2 ∷ s1 ∷ g1 ∷ s2 ∷ g2 ∷ [])
      → confirm_edge cfg (record edge { src = pod_name v r1 h1; dst = pod_name w r2 h2 }) ts rows
        ≡ confirm_edge cfg (record edge { src = pod_name v s1 g1; dst = pod_name w s2 g2 }) ts rows
  unfolding confirm_edge
  confirm_edge-restart edge v w r1 h1 r2 h2 s1 g1 s2 g2 ts rows
        (a, (b, (c, (d, (e, (f', (g, (h, _)))))))) =
      let p1 = stable_workload-pod_name v r1 h1 a b in
      let p2 = stable_workload-pod_name w r2 h2 c d in
      let q1 = stable_workload-pod_name v s1 g1 e f' in
      let q2 = stable_workload-pod_name w s2 g2 g h in
      rw (p1, p2, q1, q2)
        (ap (λ row. insert_or_replace row rows)
          (confirmed-workload (find (v, w, cfg.signal) rows) edge _ _ _ _ ts (p1 ∙ sym q1)
            (p2 ∙ sym q2)))
