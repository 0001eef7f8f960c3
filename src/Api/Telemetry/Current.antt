-- ===== src/Api/Telemetry/Current.antt =====
-- The snapshot of `pods` in api/main.py shows the level of each workload: the largest of the newest samples of its
-- pods.
use mathlib.Core.Path.{subst}
use abb_accelerator_aiops.Prelude.{
  has, ◌≡◌, refl, sym, ap, ◌∙◌, ◌⊎◌, inl, inr, Bool, ◌||◌, String, str_eq, Option, none, some, List,
  [], ◌∷◌, ◌++◌, any, All, All-map, In, IsSorted, Bool-cases, Option-cases, if◌then◌else◌,
}
use abb_accelerator_aiops.Prelude.Choice.{count}
use abb_accelerator_aiops.Float.{Float, lit, neg, lt, round}
use abb_accelerator_aiops.Float.Laws.{IsOrdered, ◌≼◌}
use abb_accelerator_aiops.Window.{Sample, Window, Series, series_of}
use abb_accelerator_aiops.Api.{workload}
use abb_accelerator_aiops.Api.Telemetry.{
  PodRow, Reading, newest, reading_of, readings, is_series, snapshot,
}
use abb_accelerator_aiops.Api.Telemetry.Snapshot.{own, snapshot-IsSnapshot}
use abb_accelerator_aiops.Api.Telemetry.Climb.{
  RoundsToDecimal, filled, values, folded-level, present-filled,
}

module _ {F : Type 0} ⦃f : Float F⦄ (signal : String) where
  -- The last sample.
  abbrev pub last_of : List (Sample F) → Option F
  last_of [] = none
  last_of (s ∷ []) = some s.value
  last_of (s ∷ t ∷ samples) = last_of (t ∷ samples)

  -- The newest value of an entry of the window, if it is a series of the workload and the signal.
  abbrev pub level_of : String → String × List (Sample F) → Option F
  level_of w e = if is_series w signal (series_of e.0) e.1 then last_of e.1 else none

  abbrev listed : Option F → List F → List F
  listed none vs = vs
  listed (some v) vs = v ∷ vs

  abbrev levels : String → Window F → List F
  levels w [] = []
  levels w (e ∷ window) = listed (level_of w e) (levels w window)

  newest-last_of :
      (s : Sample F) (samples : List (Sample F))
      → last_of (s ∷ samples) ≡ some (newest s samples).value
  unfolding newest
  newest-last_of s [] = refl
  newest-last_of s (t ∷ samples) = newest-last_of t samples

  values-append :
      (w : String) (rs qs : List (Reading F))
      → values (own signal [] w (rs ++ qs))
        ≡ values (own signal [] w rs) ++ values (own signal [] w qs)
  values-append w [] qs = refl
  values-append w (r ∷ rs) qs = elim (Bool-cases (str_eq r.workload w)) [
    | inl e ↦ rw e (ap (◌∷◌ r.value) (values-append w rs qs))
    | inr e ↦ rw e (values-append w rs qs)
  ]

  reading-values :
      (w : String) (series : Option Series) (samples : List (Sample F))
      → values (own signal [] w (reading_of series signal samples))
        ≡ listed (if is_series w signal series samples then last_of samples else none) []
  unfolding reading_of
  reading-values w none samples = refl
  reading-values w (some key) [] = refl
  reading-values w (some key) (s ∷ samples) = elim (Bool-cases (str_eq key.signal signal)) [
    | inl e ↦ elim (Bool-cases (str_eq (workload key.pod) w)) [
      | inl q ↦ rw (e, q) (ap (λ o. listed o []) (sym (newest-last_of s samples)))
      | inr q ↦ rw (e, q) refl
    ]
    | inr e ↦ rw e refl
  ]

  listed-append : (o : Option F) (vs : List F) → listed o [] ++ vs ≡ listed o vs
  listed-append none vs = refl
  listed-append (some v) vs = refl

  values-levels :
      (w : String) (window : Window F)
      → values (own signal [] w (readings signal window)) ≡ levels w window
  unfolding readings
  values-levels w [] = refl
  values-levels w ((key, samples) ∷ window) =
      values-append w (reading_of (series_of key) signal samples) (readings signal window)
      ∙ ap (λ vs. vs ++ values (own signal [] w (readings signal window)))
          (reading-values w (series_of key) samples)
      ∙ ap (λ vs. listed (level_of w (key, samples)) [] ++ vs) (values-levels w window)
      ∙ listed-append (level_of w (key, samples)) (levels w window)

  last_of-some :
      (s : Sample F) (samples : List (Sample F)) → (v : F) × (last_of (s ∷ samples) ≡ some v)
  last_of-some s [] = (s.value, refl)
  last_of-some s (t ∷ samples) = last_of-some t samples

  abbrev is_of : String → String × List (Sample F) → Bool
  is_of w e = is_series w signal (series_of e.0) e.1

  filled-listed :
      (w : String) (series : Option Series) (samples : List (Sample F)) (vs : List F)
      → filled (listed (if is_series w signal series samples then last_of samples else none) vs)
        ≡ (is_series w signal series samples || filled vs)
  filled-listed w none samples vs = refl
  filled-listed w (some key) [] vs = refl
  filled-listed w (some key) (s ∷ samples) vs =
      let (v, e) = last_of-some s samples in
      elim (Bool-cases (is_series w signal (some key) (s ∷ samples))) [
        | inl q ↦ rw (q, e) refl
        | inr q ↦ rw q refl
      ]

  filled-levels : (w : String) (window : Window F) → filled (levels w window) ≡ any (is_of w) window
  filled-levels w [] = refl
  filled-levels w ((key, samples) ∷ window) =
      filled-listed w (series_of key) samples (levels w window)
      ∙ ap (λ b. is_of w (key, samples) || b) (filled-levels w window)

  -- The level of an entry, where there is one, is not above the value.
  abbrev pub IsWithin : F → Option F → Type 0
  IsWithin x none = Unit
  IsWithin x (some v) = round 4 v ≼ x

  -- The value of a workload: no newest value of its series is above it, and it is the rounded one of them, or 0.
  pub record IsLevel (window : Window F) (w : String) (x : F) : Type 0 where
    pub bounds : All (λ e. IsWithin x (level_of w e)) window
    pub attained :
        (x ≡ round 4 (lit 0 0))
        ⊎ ((e : String × List (Sample F)) × (v : F) × In e window
            × (level_of w e ≡ some v)
            × (x ≡ round 4 v))

  levels-bounds :
      (w : String) (x : F) (window : Window F)
      → All (λ v. round 4 v ≼ x) (levels w window)
      → All (λ e. IsWithin x (level_of w e)) window
  levels-bounds w x [] h = tt
  levels-bounds w x (e ∷ window) h = elim (Option-cases (level_of w e)) [
    | inl q ↦ let rest = rw q at h in rw q (tt, levels-bounds w x window rest)
    | inr (v, q) ↦ let both = rw q at h in rw q (both.0, levels-bounds w x window both.1)
  ]

  levels-In :
      (w : String) (v : F) (window : Window F)
      → In v (levels w window)
      → (e : String × List (Sample F)) × In e window × (level_of w e ≡ some v)
  levels-In w v [] m = elim m [ ]
  levels-In w v (e ∷ window) m = elim (Option-cases (level_of w e)) [
    | inl q ↦ let (e', m', q') = levels-In w v window (rw q at m) in (e', inr m', q')
    | inr (u, q) ↦ elim (rw q at m) [
      | inl same ↦ (e, inl refl, q ∙ ap some (sym same))
      | inr later ↦ let (e', m', q') = levels-In w v window later in (e', inr m', q')
    ]
  ]

  -- What the rows say of a window: hottest first, one for each workload that has a series of the signal with
  -- samples, with its level, and whether it is flagged.
  pub record IsCurrent (flagged : List String) (window : Window F) (shown : List (PodRow F))
      : Type 0 where
    pub sorted : IsSorted (λ a b. lt (neg a.value) (neg b.value)) shown
    pub once :
        (w : String)
        → count (λ row. str_eq row.workload w) shown
          ≡ (if any (λ e. is_series w signal (series_of e.0) e.1) window then 1 else 0)
    pub each :
        All
          (λ row.
            IsLevel window row.workload row.value × (row.anomalous ≡ has row.workload flagged))
          shown

  -- The rows of the snapshot ascend by their negated values. Each workload has one row if a
  -- series of the signal with samples is one of its pods', and none otherwise. The value of a row
  -- is the rounded newest sample of a series of the workload, or the rounded 0, and no newest
  -- sample of its series, rounded, is above it. The row is anomalous exactly if its workload is
  -- flagged. The order obeys `IsOrdered`, and the rounding `RoundsToDecimal`.
  pub snapshot-IsCurrent :
      (o : IsOrdered F) (l : RoundsToDecimal F) (flagged : List String) (window : Window F)
      → IsCurrent flagged window (snapshot signal flagged window)
  snapshot-IsCurrent o l flagged window =
      let s = snapshot-IsSnapshot signal flagged o window in
      record {
        sorted = s.sorted;
        once = λ w.
            s.once w
            ∙ present-filled signal flagged (own signal flagged w (readings signal window))
            ∙ ap (λ vs. if filled vs then 1 else 0) (values-levels w window)
            ∙ ap (λ b. if b then 1 else 0) (filled-levels w window);
        each =
            All-map
              (λ row (e, flag).
                let w = row.workload in
                let (bounds, from) =
                  folded-level signal o l flagged (own signal flagged w (readings signal window))
                    row e in
                let known = values-levels w window in
                (
                  record {
                    bounds =
                        levels-bounds w row.value window
                          (subst (All (λ v. round 4 v ≼ row.value)) known bounds);
                    attained = elim from [
                      | inl zero ↦ inl zero
                      | inr (v, m, q) ↦
                          let (e', m', q') = levels-In w v window (subst (In v) known m) in
                          inr (e', v, m', q', q)
                    ];
                  },
                  flag,
                ))
              (snapshot signal flagged window) s.each;
      }
