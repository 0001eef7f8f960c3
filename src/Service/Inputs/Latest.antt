-- ===== src/Service/Inputs/Latest.antt =====
-- The end of the grid of `build_inputs` in correlation/service.py: the latest sample of the series that it reads.
use abb_accelerator_aiops.Prelude.{
  ◌≡◌, refl, sym, ap, ◌∙◌, ◌⊎◌, inl, inr, Bool, true, false, ◌||◌, String, str_eq, str_eq_iff,
  Option, none, some, List, [], ◌∷◌, arith, leb, length, All, In, Dict, get, put, get-put,
  Bool-cases, Option-cases, if◌then◌else◌,
}
use abb_accelerator_aiops.Float.{Float, lit, max, lt}
use abb_accelerator_aiops.Float.Laws.{IsOrdered, ◌≼◌, le-max_left, le-max_right}
use abb_accelerator_aiops.Detectors.{Arrays}
use abb_accelerator_aiops.Window.{Sample, Window, Series, series_of}
use abb_accelerator_aiops.Service.Inputs.{
  ServiceConfig, Point, Raw, points, kept, collect_series, collect, last_point, raw_of,
}

module _ {F : Type 0} ⦃f : Float F⦄ (epoch : String → Option F) (svc : ServiceConfig F) where
  abbrev pub is_read : String → Bool
  is_read name = str_eq svc.signal name || str_eq svc.write_signal name

  -- The time of the last of at least twelve points.
  abbrev pub end_of : List (Point F) → Option F
  end_of [] = none
  end_of (p ∷ ps) = if leb 12 (length (p ∷ ps)) then some (last_point p ps).0 else none

  abbrev end_of_series : Option Series → List (Sample F) → Option F
  end_of_series none samples = none
  end_of_series (some s) samples = if is_read s.signal then end_of (points epoch samples) else none

  -- The time that an entry of the window ends at, if it is a series of one of the two signals with at least
  -- twelve samples.
  abbrev pub end_of_entry : String × List (Sample F) → Option F
  end_of_entry e = end_of_series (series_of e.0) e.1

  abbrev pub IsReachedBy : F → Option F → Type 0
  IsReachedBy t none = Unit
  IsReachedBy t (some u) = u ≼ t

  -- No entry that is read ends later, and one ends then, unless the time is 0.
  pub record IsLatest (window : Window F) (t : F) : Type 0 where
    pub ends :
        (t ≡ lit 0 0) ⊎ ((e : String × List (Sample F)) × In e window × (end_of_entry e ≡ some t))
    pub bounds : All (λ e. IsReachedBy t (end_of_entry e)) window

  abbrev is_some : Option (Dict (List (Point F))) → Bool
  is_some none = false
  is_some (some _) = true

  abbrev HasSignals : Raw F → Type 0
  HasSignals raw = (name : String) → is_some (get name raw.by_signal) ≡ is_read name

  abbrev later_of : F → Option F → F
  later_of t none = t
  later_of t (some u) = max t u

  kept-latest :
      (raw : Raw F) (signal pod : String) (pods : Dict (List (Point F))) (pts : List (Point F))
      → (kept raw signal pod pods pts).latest ≡ later_of raw.latest (end_of pts)
  kept-latest raw signal pod pods [] = refl
  kept-latest raw signal pod pods (p ∷ ps) = elim (Bool-cases (leb 12 (length (p ∷ ps)))) [
    | inl e ↦ rw e refl
    | inr e ↦ rw e refl
  ]

  kept-HasSignals :
      (raw : Raw F) (signal pod : String) (pods : Dict (List (Point F))) (pts : List (Point F))
      → HasSignals raw
      → get signal raw.by_signal ≡ some pods
      → HasSignals (kept raw signal pod pods pts)
  kept-HasSignals raw signal pod pods [] h g = h
  kept-HasSignals raw signal pod pods (p ∷ ps) h g = elim (Bool-cases (leb 12 (length (p ∷ ps)))) [
    | inl e ↦ rw e (λ name. elim (Bool-cases (str_eq signal name)) [
      | inl same ↦
          let here : is_read name ≡ true =
            ap is_read (sym ((str_eq_iff signal name).0 same)) ∙ sym (h signal) ∙ ap is_some g in
          ap is_some (get-put signal name (put pod (p ∷ ps) pods) raw.by_signal)
          ∙ rw (same) (sym here)
      | inr other ↦
          ap is_some (get-put signal name (put pod (p ∷ ps) pods) raw.by_signal)
          ∙ rw (other) (h name)
    ])
    | inr e ↦ rw e h
  ]

  abbrev Steps : Raw F → Option F → Raw F → Type 0
  Steps raw end raw' = (raw'.latest ≡ later_of raw.latest end) × HasSignals raw'

  collect_series-Steps :
      (series : Option Series) (samples : List (Sample F)) (raw : Raw F)
      → HasSignals raw
      → Steps raw (end_of_series series samples) (collect_series epoch series samples raw)
  unfolding collect_series
  collect_series-Steps none samples raw h = (refl, h)
  collect_series-Steps (some s) samples raw h = elim (Option-cases (get s.signal raw.by_signal)) [
    | inl g ↦
        let unread : is_read s.signal ≡ false = sym (h s.signal) ∙ ap is_some g in
        rw (collect_series, g, unread) (refl, h)
    | inr (pods, g) ↦
        let here : is_read s.signal ≡ true = sym (h s.signal) ∙ ap is_some g in
        let pts = points epoch samples in
        rw (collect_series, g, here)
          (kept-latest raw s.signal s.pod pods pts, kept-HasSignals raw s.signal s.pod pods pts h g)
  ]

  module _ (o : IsOrdered F) where
    later_of-bounds :
        (t : F) (end : Option F) → (t ≼ later_of t end) × IsReachedBy (later_of t end) end
    later_of-bounds t none = (o.le_refl t, tt)
    later_of-bounds t (some u) = (le-max_left o t u, le-max_right o t u)

    IsReachedBy-le : (t u : F) (end : Option F) → t ≼ u → IsReachedBy t end → IsReachedBy u end
    IsReachedBy-le t u none h k = tt
    IsReachedBy-le t u (some v) h k = o.le_trans v t u k h

    later_of-cases : (t : F) (end : Option F) → (later_of t end ≡ t) ⊎ (end ≡ some (later_of t end))
    unfolding max
    later_of-cases t none = inl refl
    later_of-cases t (some u) = elim (Bool-cases (lt t u)) [
      | inl e ↦ inr (rw e refl)
      | inr e ↦ inl (rw e refl)
    ]

    -- From some variables on, the rest of the window brings the time up to its ends and no further.
    abbrev Raises : F → Window F → F → Type 0
    Raises t rest u =
        (t ≼ u)
        × All (λ e. IsReachedBy u (end_of_entry e)) rest
        × ((u ≡ t) ⊎ ((e : String × List (Sample F)) × In e rest × (end_of_entry e ≡ some u)))

    collect-Raises :
        (rest : Window F) (raw : Raw F)
        → HasSignals raw
        → Raises raw.latest rest (collect epoch rest raw).latest
    unfolding collect
    collect-Raises [] raw h = (o.le_refl raw.latest, tt, inl refl)
    collect-Raises ((key, samples) ∷ rest) raw h =
        let raw' = collect_series epoch (series_of key) samples raw in
        let end = end_of_entry (key, samples) in
        let (now, h') = collect_series-Steps (series_of key) samples raw h in
        let (up, reached) = later_of-bounds raw.latest end in
        let (later, bounds, from) = collect-Raises rest raw' h' in
        let later' : later_of raw.latest end ≼ (collect epoch rest raw').latest =
          rw (← now) later in
        (
          o.le_trans _ _ _ up later',
          (IsReachedBy-le _ _ end later' reached, bounds),
          elim from [
            | inl same ↦ elim (later_of-cases raw.latest end) [
              | inl old ↦ inl (same ∙ now ∙ old)
              | inr new ↦ inr ((key, samples), inl refl, new ∙ ap some (sym (same ∙ now)))
            ]
            | inr (e, m, q) ↦ inr (e, inr m, q)
          ],
        )

    -- `raw` at the start.
    abbrev begun : Raw F
    begun = record { by_signal = put svc.write_signal [] (put svc.signal [] []); latest = lit 0 0 }

    begun-HasSignals : HasSignals begun
    unfolding get
    begun-HasSignals name =
        let outer =
          get-put {V = Dict (List (Point F))} svc.write_signal name [] (put svc.signal [] []) in
        let inner = get-put {V = Dict (List (Point F))} svc.signal name [] [] in
        ap is_some outer ∙ elim (Bool-cases (str_eq svc.write_signal name)) [
          | inl e ↦ rw e (ground arith)
          | inr e ↦ rw e (
              ap is_some inner ∙ elim (Bool-cases (str_eq svc.signal name)) [
                | inl q ↦ rw q refl
                | inr q ↦ rw q refl
              ])
        ]

    pub raw_of-IsLatest :
        (np : Arrays F) (window : Window F) → IsLatest window (raw_of svc np epoch window).latest
    unfolding raw_of
    raw_of-IsLatest np window =
        let (_, bounds, from) = collect-Raises window begun begun-HasSignals in
        record { ends = from; bounds = bounds }
