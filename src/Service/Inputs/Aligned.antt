-- ===== src/Service/Inputs/Aligned.antt =====
-- The vectors of `build_inputs` in correlation/service.py: each has one cell for every instant of the grid, of
-- samples of the pod.
use abb_accelerator_aiops.Prelude.{
  All-In, All-map, All-put, get-All, ◌≤◌, ◌≡◌, refl, false, ◌∙◌, String, Option, none, some, List,
  [], ◌∷◌, map, length, arith, All, All-append, In, Dict, get, put, Bool-cases, Option-cases, inl,
  inr, if_rule, leb,
}
use abb_accelerator_aiops.Float.{Float, lit, ◌⊖◌, ◌⊗◌, lt}
use abb_accelerator_aiops.Detectors.{Arrays}
use abb_accelerator_aiops.Window.{Sample, Window, Series, series_of}
use abb_accelerator_aiops.Float.Laws.{IsOrdered}
use abb_accelerator_aiops.Service.Inputs.Latest.{IsLatest, raw_of-IsLatest}
use abb_accelerator_aiops.Service.Inputs.Held.{IsHeld, resample-IsHeld, length-IsHeld, length-grid}
use abb_accelerator_aiops.Service.Inputs.{
  ServiceConfig, Event, Point, Raw, grid_n, points, kept, collect_series, collect, grid, resample,
  covered, or_zero, or_empty, vector_of, to_vectors, last_point, per_pod, raw_of, build_inputs,
}

module _ {F : Type 0} ⦃f : Float F⦄ (epoch : String → Option F) (window : Window F) where
  -- The points are those of a series of the window, of this signal and pod.
  pub record IsFrom (name owner : String) (pts : List (Point F)) : Type 0 where
    pub key : String
    pub samples : List (Sample F)
    pub series : Series
    pub listed : In (key, samples) window
    pub parts : series_of key ≡ some series
    pub signal : series.signal ≡ name
    pub pod : series.pod ≡ owner
    pub stamped : pts ≡ points epoch samples

  abbrev Entry : String → String × List (Point F) → Type 0
  Entry name e = IsFrom name e.0 e.1

  -- Every entry of `raw` is of the window.
  abbrev AllFrom : Raw F → Type 0
  AllFrom raw = All (λ (e : String × Dict (List (Point F))). All (Entry e.0) e.1) raw.by_signal

  kept-AllFrom :
      (raw : Raw F) (signal pod : String) (pods : Dict (List (Point F))) (pts : List (Point F))
      → AllFrom raw
      → get signal raw.by_signal ≡ some pods
      → IsFrom signal pod pts
      → AllFrom (kept raw signal pod pods pts)
  kept-AllFrom raw signal pod pods [] h g new = h
  kept-AllFrom raw signal pod pods (p ∷ ps) h g new =
      if_rule AllFrom (leb 12 (length (p ∷ ps)))
        (All-put (λ (e : String × Dict (List (Point F))). All (Entry e.0) e.1) signal
          (put pod (p ∷ ps) pods) raw.by_signal
          (All-put (Entry signal) pod (p ∷ ps) pods new (get-All _ signal pods raw.by_signal h g))
          h)
        h

  collect_series-AllFrom :
      (key : String) (samples : List (Sample F)) (series : Option Series) (raw : Raw F)
      → In (key, samples) window
      → series_of key ≡ series
      → AllFrom raw
      → AllFrom (collect_series epoch series samples raw)
  unfolding collect_series
  collect_series-AllFrom key samples none raw m e h = h
  collect_series-AllFrom key samples (some k) raw m e h =
      elim (Option-cases (get k.signal raw.by_signal)) [
        | inl g ↦ rw (g, collect_series) h
        | inr (pods, g) ↦
            rw (g, collect_series)
              (kept-AllFrom raw k.signal k.pod pods (points epoch samples) h g (record {
                key = key;
                samples = samples;
                series = k;
                listed = m;
                parts = e;
                signal = refl;
                pod = refl;
                stamped = refl;
              }))
      ]

  collect-AllFrom :
      (rest : Window F) (raw : Raw F)
      → All (λ e. In e window) rest
      → AllFrom raw
      → AllFrom (collect epoch rest raw)
  unfolding collect
  collect-AllFrom [] raw _ h = h
  collect-AllFrom ((key, samples) ∷ rest) raw (m, ms) h =
      collect-AllFrom rest (collect_series epoch (series_of key) samples raw) ms
        (collect_series-AllFrom key samples (series_of key) raw m refl h)

  -- The last point is at most two steps older than the grid.
  abbrev pub IsFresh : F → F → List (Point F) → Type 0
  IsFresh latest step [] = ⊥
  IsFresh latest step (p ∷ ps) = lt (last_point p ps).0 (latest ⊖ lit 2 0 ⊗ step) ≡ false

  -- The vector of a pod: the cells of the grid, from a series of the window, with at least twelve that hold a
  -- sample; an empty one is zero.
  abbrev pub IsAligned : F → F → String → String × List F → Type 0
  IsAligned latest step name e =
      (pts : List (Point F)) × (cells : List (Option F)) × IsFrom name e.0 pts
      × IsFresh latest step pts
      × IsHeld step pts (grid latest step grid_n) cells
      × (e.1 ≡ map or_zero cells)
      × (12 ≤ covered cells)
      × (length e.1 ≡ grid_n)

  vector_of-IsAligned :
      (latest step : F) (name pod : String) (pts : List (Point F))
      → IsFrom name pod pts
      → All (IsAligned latest step name) (vector_of latest step pod pts)
  unfolding vector_of
  vector_of-IsAligned latest step name pod [] new = tt
  vector_of-IsAligned latest step name pod (p ∷ ps) new =
      let gts = grid latest step grid_n in
      let cells = resample step gts p ps in
      let (m, ms) = All-In (p ∷ ps) in
      let held = resample-IsHeld step (p ∷ ps) gts p ps m ms in
      let long = length-IsHeld step (p ∷ ps) gts cells held ∙ length-grid latest step grid_n in
      elim (Bool-cases (lt (last_point p ps).0 (latest ⊖ lit 2 0 ⊗ step))) [
        | inl stale ↦ rw stale tt
        | inr fresh ↦ elim (Bool-cases (leb 12 (covered cells))) [
          | inl c ↦
              rw (fresh, c) ((p ∷ ps, cells, new, fresh, held, refl, ground (arith, c), long), tt)
          | inr c ↦ rw (fresh, c) tt
        ]
      ]

  to_vectors-IsAligned :
      (latest step : F) (name : String) (pods : Dict (List (Point F)))
      → All (Entry name) pods
      → All (IsAligned latest step name) (to_vectors latest step pods)
  unfolding to_vectors
  to_vectors-IsAligned latest step name [] _ = tt
  to_vectors-IsAligned latest step name ((pod, pts) ∷ pods) (e, es) =
      All-append (IsAligned latest step name) (vector_of latest step pod pts)
        (to_vectors latest step pods) (vector_of-IsAligned latest step name pod pts e)
        (to_vectors-IsAligned latest step name pods es)

  or_empty-All :
      (name : String) (o : Option (Dict (List (Point F))))
      → ((pods : Dict (List (Point F))) → o ≡ some pods → All (Entry name) pods)
      → All (Entry name) (or_empty o)
  or_empty-All name none h = tt
  or_empty-All name (some pods) h = h pods refl

  module _ (svc : ServiceConfig F) (np : Arrays F) where
    raw_of-AllFrom : AllFrom (raw_of svc np epoch window)
    unfolding raw_of
    raw_of-AllFrom =
        collect-AllFrom window _ (All-In window) (
          All-put _ svc.write_signal [] (put svc.signal [] []) tt
            (All-put _ svc.signal [] [] tt tt))

    per_pod-All :
        (name : String) → All (Entry name) (per_pod svc np name (raw_of svc np epoch window))
    per_pod-All name =
        let raw = raw_of svc np epoch window in
        or_empty-All name (get name raw.by_signal)
          (λ pods g. get-All _ name pods raw.by_signal raw_of-AllFrom g)

    -- There is a latest time of the window: no series of either signal with twelve samples or
    -- more ends later, and one ends then, unless the time is 0. Every vector of `build_inputs`,
    -- of the signal and of the write signal, has 180 cells, one for each instant of the grid
    -- that ends at the latest time. At least twelve of them hold the value of a sample that is
    -- within one step of the instant, of a series of the window with the vector's pod and
    -- signal, whose last sample is no more than two steps older than the latest time; the
    -- others are zero. The order obeys `IsOrdered`.
    pub build_inputs-IsAligned :
        (o : IsOrdered F) (events : List Event)
        → let i = build_inputs svc np epoch window events in
          (latest : F) × IsLatest epoch svc window latest
          × All (IsAligned latest svc.grid_step_s svc.signal) i.vectors
          × All (IsAligned latest svc.grid_step_s svc.write_signal) i.write_vectors
    unfolding build_inputs
    build_inputs-IsAligned o events =
        let raw = raw_of svc np epoch window in
        (
          raw.latest,
          raw_of-IsLatest epoch svc o np window,
          to_vectors-IsAligned raw.latest svc.grid_step_s svc.signal (per_pod svc np svc.signal raw)
              (per_pod-All svc.signal),
          to_vectors-IsAligned raw.latest svc.grid_step_s svc.write_signal
              (per_pod svc np svc.write_signal raw) (per_pod-All svc.write_signal),
        )

    -- A vector has as many cells as the grid.
    pub build_inputs-length :
        (events : List Event)
        → All
            (λ (e : String × List F). length e.1 ≡ grid_n)
            (build_inputs svc np epoch window events).vectors
    unfolding build_inputs
    build_inputs-length events =
        let raw = raw_of svc np epoch window in
        All-map (λ e (_, _, _, _, _, _, _, long). long) _
          (to_vectors-IsAligned raw.latest svc.grid_step_s svc.signal
            (per_pod svc np svc.signal raw) (per_pod-All svc.signal))
