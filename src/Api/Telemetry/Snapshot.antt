-- ===== src/Api/Telemetry/Snapshot.antt =====
-- What the snapshot of `pods` in api/main.py says of the window.
use mathlib.Core.Path.{subst}
use abb_accelerator_aiops.Prelude.{
  ℕ, has, filter-All, ◌≡◌, refl, sym, ap, ◌∙◌, String, str_eq, str_eq_iff, Option, none, some, List,
  [], ◌∷◌, map, arith, filter, All, All-map, All-sorted, sorted-IsSorted, IsSorted, Dict, get, put,
  get-put, Distinct, put-Distinct, Distinct-get, Bool-cases, inl, inr, if◌then◌else◌,
}
use abb_accelerator_aiops.Prelude.Choice.{count, count-sorted}
use abb_accelerator_aiops.Float.{Float, neg}
use abb_accelerator_aiops.Float.Laws.{IsOrdered, lt_asym, not-lt_trans}
use abb_accelerator_aiops.Window.{Window}
use abb_accelerator_aiops.Api.Telemetry.{
  PodRow, Reading, readings, read, read_all, hotter, snapshot,
}

-- The number of rows that a lookup stands for.
abbrev pub present {ℓ} : {A : Type ℓ} → Option A → ℕ
present none = 0
present (some _) = 1

All-values :
    {V : Type 0} (P : V → Type 0) (d : Dict V)
    → All (λ (e : String × V). P e.1) d
    → All P (map (λ (e : String × V). e.1) d)
All-values P [] _ = tt
All-values P (e ∷ d) (p, ps) = (p, All-values P d ps)

count-values :
    {F : Type 0} (w : String) (d : Dict (PodRow F))
    → Distinct d
    → All (λ (e : String × PodRow F). e.1.workload ≡ e.0) d
    → count (λ row. str_eq row.workload w) (map (λ (e : String × PodRow F). e.1) d)
      ≡ present (get w d)
unfolding get
count-values w [] _ _ = refl
count-values w ((k, row) ∷ d) (n, h) (e, es) =
    ground (arith, count-values w d h es, str_eq_iff k w, e, n)

module _ {F : Type 0} ⦃f : Float F⦄ (signal : String) (flagged : List String) where
  -- The readings of one workload, folded one by one.
  abbrev pub folded : Option (PodRow F) → List (Reading F) → Option (PodRow F)
  folded row [] = row
  folded row (r ∷ rs) = folded (some (read signal flagged r row)) rs

  abbrev pub own : String → List (Reading F) → List (Reading F)
  own w rs = filter (λ (r : Reading F). str_eq r.workload w) rs

  get-read_all :
      (w : String) (rs : List (Reading F)) (out : Dict (PodRow F))
      → get w (read_all signal flagged rs out) ≡ folded (get w out) (own w rs)
  unfolding read_all
  get-read_all w [] out = refl
  get-read_all w (r ∷ rs) out =
      let out' = put r.workload (read signal flagged r (get r.workload out)) out in
      let later = get-read_all w rs out' in
      let now = get-put r.workload w (read signal flagged r (get r.workload out)) out in
      elim (Bool-cases (str_eq r.workload w)) [
        | inl e ↦
            let same = (str_eq_iff r.workload w).0 e in
            let found : get w out' ≡ some (read signal flagged r (get w out)) =
              now
              ∙ ap (λ b. if b then some (read signal flagged r (get r.workload out)) else get w out)
                  e
              ∙ ap (λ k. some (read signal flagged r (get k out))) same in
            rw e (later ∙ ap (λ o. folded o (own w rs)) found)
        | inr e ↦
            let kept : get w out' ≡ get w out =
              now
              ∙ ap (λ b. if b then some (read signal flagged r (get r.workload out)) else get w out)
                  e in
            rw e (later ∙ ap (λ o. folded o (own w rs)) kept)
      ]

  -- A row has the name of its workload, and says whether it is flagged.
  abbrev IsRow : String → Option (PodRow F) → Type 0
  IsRow w none = Unit
  IsRow w (some row) = (row.workload ≡ w) × (row.signal ≡ signal) × (row.anomalous ≡ has w flagged)

  folded-IsRow :
      (w : String) (rs : List (Reading F)) (row : Option (PodRow F))
      → All (λ (r : Reading F). r.workload ≡ w) rs
      → IsRow w row
      → IsRow w (folded row rs)
  folded-IsRow w [] row _ h = h
  folded-IsRow w (r ∷ rs) none (e, es) h =
      folded-IsRow w rs _ es (e, refl, ap (λ k. has k flagged) e)
  folded-IsRow w (r ∷ rs) (some cur) (e, es) (n, s, _) =
      folded-IsRow w rs _ es (n, s, ap (λ k. has k flagged) e)

  own-All :
      (w : String) (rs : List (Reading F)) → All (λ (r : Reading F). r.workload ≡ w) (own w rs)
  own-All w rs =
      All-map (λ r (_, e). (str_eq_iff r.workload w).0 e) (own w rs)
        (filter-All (λ (r : Reading F). str_eq r.workload w) rs)

  read_all-Distinct :
      (rs : List (Reading F)) (out : Dict (PodRow F))
      → Distinct out
      → Distinct (read_all signal flagged rs out)
  unfolding read_all
  read_all-Distinct [] out h = h
  read_all-Distinct (r ∷ rs) out h =
      read_all-Distinct rs (put r.workload (read signal flagged r (get r.workload out)) out)
        (put-Distinct r.workload _ out h)

  -- The dict of the rows, for a list of readings.
  abbrev rows : List (Reading F) → Dict (PodRow F)
  rows rs = read_all signal flagged rs []

  get-rows : (w : String) (rs : List (Reading F)) → get w (rows rs) ≡ folded none (own w rs)
  unfolding get
  get-rows w rs = get-read_all w rs []

  rows-Distinct : (rs : List (Reading F)) → Distinct (rows rs)
  rows-Distinct rs = read_all-Distinct rs [] tt

  -- The entry is the row of its key's workload.
  abbrev IsEntry : List (Reading F) → String × PodRow F → Type 0
  IsEntry rs e = IsRow e.0 (some e.1) × (folded none (own e.0 rs) ≡ some e.1)

  rows-IsRow : (rs : List (Reading F)) → All (IsEntry rs) (rows rs)
  rows-IsRow rs =
      All-map
        (λ (e : String × PodRow F) g.
          let found = sym (get-rows e.0 rs) ∙ g in
          (subst (IsRow e.0) found (folded-IsRow e.0 (own e.0 rs) none (own-All e.0 rs) tt), found))
        (rows rs) (Distinct-get (rows rs) (rows-Distinct rs))

  -- What the rows say of a window: hottest first, one row for each workload that has a series of the signal
  -- with samples, and that row is the fold of the newest samples of the workload's pods.
  pub record IsSnapshot (window : Window F) (shown : List (PodRow F)) : Type 0 where
    pub sorted : IsSorted hotter shown
    pub once :
        (w : String)
        → count (λ row. str_eq row.workload w) shown
          ≡ present (folded none (own w (readings signal window)))
    pub each :
        All
          (λ row.
            (folded none (own row.workload (readings signal window)) ≡ some row)
            × (row.anomalous ≡ has row.workload flagged))
          shown

  -- The rows of the snapshot ascend by their negated values; each workload has one row if a
  -- series of the signal with samples is one of its pods', and none otherwise; that row is the
  -- fold of the newest samples of its pods in the order of the window; and it is anomalous
  -- exactly if its workload is flagged. The order obeys `IsOrdered`.
  pub snapshot-IsSnapshot :
      (o : IsOrdered F) (window : Window F) → IsSnapshot window (snapshot signal flagged window)
  snapshot-IsSnapshot o window =
      let rs = readings signal window in
      let values = map (λ (e : String × PodRow F). e.1) (rows rs) in
      record {
        sorted =
            sorted-IsSorted hotter (λ x y. lt_asym o (neg x.value) (neg y.value))
              (λ x y z. not-lt_trans o (neg x.value) (neg y.value) (neg z.value)) values;
        once = λ w.
            count-sorted hotter (λ row. str_eq row.workload w) values
            ∙ count-values w (rows rs) (rows-Distinct rs)
                (All-map {P = IsEntry rs} (λ e (r, _). r.0) (rows rs) (rows-IsRow rs))
            ∙ ap present (get-rows w rs);
        each = All-sorted hotter _ values (
            All-values _ (rows rs) (
              All-map {P = IsEntry rs}
                (λ (e : String × PodRow F) ((name, _, flag), found).
                  subst (λ w. (folded none (own w rs) ≡ some e.1) × (e.1.anomalous ≡ has w flagged))
                    (sym name) (found, flag))
                (rows rs) (rows-IsRow rs)));
      }
