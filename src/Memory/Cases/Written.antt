-- ===== src/Memory/Cases/Written.antt =====
-- What `_promote_case` writes to the row of one id of `cases`, and the rows of the other ids.
use mathlib.Core.Option
use abb_accelerator_aiops.Prelude.{
  ℕ, ◌+◌, ◌≡◌, refl, ◌∙◌, sym, ap, inl, inr, true, false, String, str_eq, str_eq_iff, Option, none,
  some, List, [], ◌∷◌, ◌++◌, arith, any, In, Bool-cases, if◌then◌else◌,
}
use abb_accelerator_aiops.Float.{Float, lit, ◌⊕◌, ◌⊗◌, ◌⊘◌}
use abb_accelerator_aiops.Memory.Similarity.{CaseKey, CaseRow}
use abb_accelerator_aiops.Memory.Cases.{Promotion, Register, recurrence, fold_into}

module _ {F : Type 0} where
  -- The row of an id.
  abbrev pub case_of : String → List (CaseRow F) → Option (CaseRow F)
  case_of id [] = none
  case_of id (row ∷ rows) = if str_eq row.id id then some row else case_of id rows

module _ {F : Type 0} ⦃f : Float F⦄ where
  -- The mean of so many lead times and one more, where there are any.
  abbrev pub mean_with : ℕ → Option F → Option F → Option F
  mean_with n old none = old
  mean_with n none (some lead) = some lead
  mean_with n (some old) (some lead) = some ((old ⊗ lit n 0 ⊕ lead) ⊘ lit (n + 1) 0)

  -- What a recurrence makes of the row of its case: one more occurrence, seen now, and the mean of the lead
  -- times; the rest stays.
  pub record IsMerged (cases : List (CaseRow F)) (ts : F) (lead : Option F) (old row : CaseRow F)
      : Type 0 where
    pub best : CaseRow F
    pub known : In best cases
    pub same : best.id ≡ old.id
    pub row_of : row ≡ record old {
      occurrences = best.occurrences + 1;
      last_seen_ts = ts;
      typical_lead_time_s = mean_with best.occurrences best.typical_lead_time_s lead;
    }

  -- The row of a case that is opened.
  pub record IsOpened (key : CaseKey) (ts : F) (lead : Option F) (q : Promotion F) (row : CaseRow F)
      : Type 0 where
    pub id : row.id ≡ q.case_id
    pub incident : row.key ≡ key
    pub occurrences : row.occurrences ≡ 1
    pub first_seen : row.first_seen_ts ≡ ts
    pub last_seen : row.last_seen_ts ≡ ts
    pub lead_time : row.typical_lead_time_s ≡ lead
    pub family : row.family_id ≡ some q.case_family

  -- The row of the promotion's id, by its register and the row that was there. A case that is there already is
  -- not opened again.
  abbrev pub IsWritten :
      CaseKey
      → List (CaseRow F)
      → F
      → Option F
      → Promotion F
      → Register
      → Option (CaseRow F)
      → CaseRow F
      → Type 0
  IsWritten key cases ts lead q recurrence none row = ⊥
  IsWritten key cases ts lead q recurrence (some old) row = IsMerged cases ts lead old row
  IsWritten key cases ts lead q _ none row = IsOpened key ts lead q row
  IsWritten key cases ts lead q _ (some old) row = row ≡ old

  -- One id has the row that is written, and every other id the row that it had.
  pub record IsFiled (key : CaseKey) (ts : F) (lead : Option F) (cases cases' : List (CaseRow F))
      (q : Promotion F) : Type 0 where
    pub row : CaseRow F
    pub rows :
        (id : String)
        → case_of id cases' ≡ (if str_eq q.case_id id then some row else case_of id cases)
    pub written : IsWritten key cases ts lead q q.case_register (case_of q.case_id cases) row

  abbrev pub after : CaseRow F → F → Option F → CaseRow F → CaseRow F
  after best ts lead row = record row {
    occurrences = best.occurrences + 1;
    last_seen_ts = ts;
    typical_lead_time_s = lead;
  }

  pub case_of-fold_into :
      (best : CaseRow F) (ts : F) (lead : Option F) (id : String) (rows : List (CaseRow F))
      → case_of id (fold_into best ts lead rows) ≡ (
          if str_eq best.id id
          then Option.map (after best ts lead) (case_of id rows)
          else case_of id rows)
  unfolding fold_into
  case_of-fold_into best ts lead id [] = ground arith
  case_of-fold_into best ts lead id (row ∷ rows) =
      let ih = case_of-fold_into best ts lead id rows in
      let at_best = str_eq_iff row.id best.id in
      let at_id = str_eq_iff row.id id in
      let best_at_id = str_eq_iff best.id id in
      elim (Bool-cases (str_eq row.id best.id)) [
        | inl x ↦ elim (Bool-cases (str_eq row.id id)) [
          | inl r ↦
              let b : str_eq best.id id ≡ true = best_at_id.1 (sym (at_best.0 x) ∙ at_id.0 r) in
              rw (x, r, b) refl
          | inr r ↦ rw (x, r) ih
        ]
        | inr x ↦ elim (Bool-cases (str_eq row.id id)) [
          | inl r ↦
              let b : str_eq best.id id ≡ false =
                ground (arith, at_best, at_id, best_at_id, x, r) in
              rw (x, r, b) refl
          | inr r ↦ rw (x, r) ih
        ]
      ]

  pub case_of-any :
      (id : String) (rows : List (CaseRow F))
      → any (λ (r : CaseRow F). str_eq r.id id) rows ≡ false
      → case_of id rows ≡ none
  case_of-any id [] h = refl
  case_of-any id (row ∷ rows) h = elim (Bool-cases (str_eq row.id id)) [
    | inl e ↦ absurd (ground (arith, h, e))
    | inr e ↦ rw e (case_of-any id rows (ground (arith, h)))
  ]

  pub any-case_of :
      (id : String) (rows : List (CaseRow F))
      → any (λ (r : CaseRow F). str_eq r.id id) rows ≡ true
      → (old : CaseRow F) × (case_of id rows ≡ some old)
  any-case_of id [] h = cc
  any-case_of id (row ∷ rows) h = elim (Bool-cases (str_eq row.id id)) [
    | inl e ↦ rw e (row, refl)
    | inr e ↦ rw e (any-case_of id rows (rw e at h))
  ]

  pub case_of-append :
      (id : String) (rows : List (CaseRow F)) (row : CaseRow F)
      → case_of row.id rows ≡ none
      → case_of id (rows ++ row ∷ []) ≡ (if str_eq row.id id then some row else case_of id rows)
  case_of-append id [] row h = refl
  case_of-append id (r ∷ rows) row h =
      let a = str_eq_iff r.id id in
      let b = str_eq_iff row.id id in
      let c = str_eq_iff r.id row.id in
      elim (Bool-cases (str_eq r.id row.id)) [
        | inl e ↦ absurd (ground (arith, h, e))
        | inr e ↦ elim (Bool-cases (str_eq r.id id)) [
          | inl q ↦
              let n : str_eq row.id id ≡ false = ground (arith, a, b, c, e, q) in rw (q, n) refl
          | inr q ↦ rw q (case_of-append id rows row (rw e at h))
        ]
      ]

  pub case_of-In :
      (best : CaseRow F) (rows : List (CaseRow F))
      → In best rows
      → (old : CaseRow F) × (case_of best.id rows ≡ some old) × (best.id ≡ old.id)
  case_of-In best [] m = elim m [ ]
  case_of-In best (row ∷ rows) m = elim (Bool-cases (str_eq row.id best.id)) [
    | inl e ↦ rw e (row, refl, sym ((str_eq_iff row.id best.id).0 e))
    | inr e ↦ elim m [
      | inl same ↦
          absurd (ground (arith, e, str_eq_iff row.id best.id, ap (λ (r : CaseRow F). r.id) same))
      | inr later ↦ rw e (case_of-In best rows later)
    ]
  ]
