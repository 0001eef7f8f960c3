-- ===== src/Api/Telemetry/Climb.antt =====
-- The readings that a row of the snapshot of `pods` in api/main.py is folded from, and its value.
use abb_accelerator_aiops.Prelude.{
  ◌≡◌, refl, sym, ap, ◌∙◌, ◌⊎◌, inl, inr, Bool, true, false, String, none, some, List, [], ◌∷◌, map,
  arith, All, All-of_map, In, Bool-cases, if◌then◌else◌,
}
use abb_accelerator_aiops.Float.{Float, lit, lt, max, round}
use abb_accelerator_aiops.Float.Laws.{IsOrdered, ◌≼◌, le-max_left, le-max_right}
use abb_accelerator_aiops.Api.Telemetry.{PodRow, Reading, read, raised, fresh}
use abb_accelerator_aiops.Api.Telemetry.Snapshot.{present, folded}

-- What Python documents of `round(x, 4)`: the decimal that is nearest, and that one again.
pub record RoundsToDecimal (F : Type 0) ⦃f : Float F⦄ : Type 0 where
  pub mono : (x y : F) → x ≼ y → round 4 x ≼ round 4 y
  pub again : (x : F) → round 4 (round 4 x) ≡ round 4 x

abbrev pub filled : {A : Type 0} → List A → Bool
filled [] = false
filled (_ ∷ _) = true

module _ {F : Type 0} where
  abbrev pub values : List (Reading F) → List F
  values rs = map (λ (r : Reading F). r.value) rs

module _ {F : Type 0} ⦃f : Float F⦄ (signal : String) where
  -- A value is the rounded 0, or a rounded one of these.
  abbrev pub IsOneOf : List F → F → Type 0
  IsOneOf vs x = (x ≡ round 4 (lit 0 0)) ⊎ ((v : F) × In v vs × (x ≡ round 4 v))

  module _ (o : IsOrdered F) (l : RoundsToDecimal F) (flagged : List String) where
    -- How the value of a row has come from the one before and the readings between them.
    abbrev Climbs : F → List (Reading F) → F → Type 0
    Climbs x rs y =
        (x ≼ y)
        × All (λ (r : Reading F). round 4 r.value ≼ y) rs
        × ((y ≡ x) ⊎ ((v : F) × In v (values rs) × (y ≡ round 4 v)))

    max-cases : (x v : F) → (max x v ≡ x) ⊎ (max x v ≡ v)
    unfolding max
    max-cases x v = elim (Bool-cases (lt x v)) [ inl e ↦ inr (rw e refl) | inr e ↦ inl (rw e refl) ]

    folded-Climbs :
        (rs : List (Reading F)) (cur row : PodRow F)
        → round 4 cur.value ≡ cur.value
        → folded signal flagged (some cur) rs ≡ some row
        → Climbs cur.value rs row.value
    folded-Climbs [] cur row fixed e =
        let same : cur.value ≡ row.value = ground (arith, e) in
        (rw (sym same) (o.le_refl cur.value), tt, inl (sym same))
    folded-Climbs (r ∷ rs) cur row fixed e =
        let next = round 4 (max cur.value r.value) in
        let (up, reached, from) =
          folded-Climbs rs (raised signal flagged r cur) row (l.again (max cur.value r.value)) e in
        let grown : cur.value ≼ next =
          rw fixed at (l.mono cur.value _ (le-max_left o cur.value r.value)) in
        let above : round 4 r.value ≼ next = l.mono r.value _ (le-max_right o cur.value r.value) in
        (
          o.le_trans _ _ _ grown up,
          (o.le_trans _ _ _ above up, reached),
          elim from [
            | inl same ↦ elim (max-cases cur.value r.value) [
              | inl q ↦ inl (same ∙ ap (round 4) q ∙ fixed)
              | inr q ↦ inr (r.value, inl refl, same ∙ ap (round 4) q)
            ]
            | inr (v, m, q) ↦ inr (v, inr m, q)
          ],
        )

    -- The first reading of a workload raises a row of value 0.
    pub folded-level :
        (rs : List (Reading F)) (row : PodRow F)
        → folded signal flagged none rs ≡ some row
        → All (λ v. round 4 v ≼ row.value) (values rs) × IsOneOf (values rs) row.value
    folded-level [] row e = cc
    folded-level (r ∷ rs) row e =
        let first = raised signal flagged r (fresh signal flagged r) in
        let (up, reached, from) = folded-Climbs rs first row (l.again (max (lit 0 0) r.value)) e in
        let above : round 4 r.value ≼ first.value =
          l.mono r.value _ (le-max_right o (lit 0 0) r.value) in
        (
          (o.le_trans _ _ _ above up, All-of_map _ (λ (r : Reading F). r.value) rs reached),
          elim from [
            | inl same ↦ elim (max-cases (lit 0 0) r.value) [
              | inl q ↦ inl (same ∙ ap (round 4) q)
              | inr q ↦ inr (r.value, inl refl, same ∙ ap (round 4) q)
            ]
            | inr (v, m, q) ↦ inr (v, inr m, q)
          ],
        )

  module _ (flagged : List String) where
    folded-filled :
        (rs : List (Reading F)) (cur : PodRow F) → present (folded signal flagged (some cur) rs) ≡ 1
    folded-filled [] cur = refl
    folded-filled (r ∷ rs) cur = folded-filled rs (read signal flagged r (some cur))

    pub present-filled :
        (rs : List (Reading F))
        → present (folded signal flagged none rs) ≡ (if filled (values rs) then 1 else 0)
    present-filled [] = refl
    present-filled (r ∷ rs) = folded-filled rs (read signal flagged r none)
