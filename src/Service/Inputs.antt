-- ===== src/Service/Inputs.antt =====
-- `build_inputs` of correlation/service.py: the vectors of the pods on one grid of instants, the witness of the
-- shared disk and of the pressure, and the breaches.
pub mod Held
pub mod Latest
pub mod Aligned
pub mod Witnesses
use abb_accelerator_aiops.Prelude.{
  ℕ, zero, suc, ◌+◌, ◌-◌, Bool, true, false, not, ◌&&◌, ◌||◌, String, str_eq, str_lt, Option, none,
  some, List, [], ◌∷◌, ◌++◌, map, filter, any, length, take, drop, ltb, leb, has, sorted, dedup,
  Dict, get, put, if◌then◌else◌,
}
use abb_accelerator_aiops.Float.{Float, lit, ◌⊕◌, ◌⊖◌, ◌⊗◌, ◌⊘◌, le, lt, abs, max}
use abb_accelerator_aiops.Names.{split, join}
use abb_accelerator_aiops.Gate.{Witness}
use abb_accelerator_aiops.Detectors.{Arrays}
use abb_accelerator_aiops.Pipeline.Edges.{combinations}
use abb_accelerator_aiops.Window.{Sample, Window, Series, series_of}

-- The parts of the environment that a pass reads.
pub record ServiceConfig (F : Type 0) : Type 0 where
  pub signal : String
  pub write_signal : String
  pub copr_min : F
  pub analysis_window : ℕ
  pub grid_step_s : F
  pub storage : List String

-- An event that is a dict.
pub record Event : Type 0 where
  pub pod : String
  pub kind : Option String

pub record Observed (F : Type 0) : Type 0 where
  pub vectors : Dict (List F)
  pub write_vectors : Dict (List F)
  pub witness : Witness
  pub breach : List String

-- `workload`
unfoldable pub workload : String → String
workload pod =
    let parts = split pod in
    if ltb 2 (length parts) then join (take (length parts - 2) parts) else pod

-- A sample as its time in seconds and its value.
abbrev pub Point : Type 0 → Type 0
Point F = F × F

-- The number of instants of the grid.
abbrev pub grid_n : ℕ
grid_n = 180

module _ {F : Type 0} ⦃f : Float F⦄ where
  -- The order of tuples.
  abbrev pub point_lt : Point F → Point F → Bool
  point_lt (t, v) (u, w) = lt t u || ((le t u && le u t) && lt v w)

  -- `pts[-1]`
  abbrev pub last_point : Point F → List (Point F) → Point F
  last_point p [] = p
  last_point p (q ∷ ps) = last_point q ps

  abbrev pub stamped : Option F → F → List (Point F)
  stamped none v = []
  stamped (some t) v = (t, v) ∷ []

  module _ (epoch : String → Option F) where
    timed : List (Sample F) → List (Point F)
    timed [] = []
    timed (s ∷ samples) = stamped (epoch s.ts) s.value ++ timed samples

    -- The samples with a time, in the order of time.
    unfoldable pub points : List (Sample F) → List (Point F)
    unfolding timed
    points samples = sorted point_lt (timed samples)

abbrev pub or_empty : {V : Type 0} → Option (Dict V) → Dict V
or_empty none = []
or_empty (some d) = d

-- `raw` and `latest`.
pub record Raw (F : Type 0) : Type 0 where
  pub by_signal : Dict (Dict (List (Point F)))
  pub latest : F

module _ {F : Type 0} ⦃f : Float F⦄ where
  -- `raw[signal][pod] = pts`, if there are twelve
  abbrev pub kept : Raw F → String → String → Dict (List (Point F)) → List (Point F) → Raw F
  kept raw signal pod pods [] = raw
  kept raw signal pod pods (p ∷ ps) =
      if leb 12 (length (p ∷ ps))
      then record {
        by_signal = put signal (put pod (p ∷ ps) pods) raw.by_signal;
        latest = max raw.latest (last_point p ps).0;
      }
      else raw

  module _ (epoch : String → Option F) where
    -- One round of the loop over the window.
    unfoldable pub collect_series : Option Series → List (Sample F) → Raw F → Raw F
    unfolding points
    collect_series none samples raw = raw
    collect_series (some key) samples raw = elim (get key.signal raw.by_signal) [
      | none ↦ raw
      | some pods ↦ kept raw key.signal key.pod pods (points epoch samples)
    ]

    unfoldable pub collect : Window F → Raw F → Raw F
    unfolding collect_series
    collect [] raw = raw
    collect ((key, samples) ∷ window) raw =
        collect window (collect_series (series_of key) samples raw)

  -- `[latest - step * (n - 1 - k) for k in range(n)]`, of the last `n` instants
  unfoldable pub grid : F → F → ℕ → List F
  grid latest step zero = []
  grid latest step (suc n) = (latest ⊖ step ⊗ lit n 0) ∷ grid latest step n

  -- The `while` loop: the pointer moves on to the last point of the instant's half step.
  unfoldable pub advance : F → Point F → List (Point F) → Point F × List (Point F)
  advance limit cur [] = (cur, [])
  advance limit cur (next ∷ rest) =
      let later = advance limit next rest in if le next.0 limit then later else (cur, next ∷ rest)

  -- The cell of one instant: a sample within a step of it, or NaN, which is none. Gaps are not interpolated.
  abbrev pub cell : F → F → Point F → Option F
  cell step gt cur = if le (abs (cur.0 ⊖ gt)) step then some cur.1 else none

  unfoldable pub resample : F → List F → Point F → List (Point F) → List (Option F)
  unfolding advance
  resample step [] cur rest = []
  resample step (gt ∷ gts) cur rest =
      let at = advance (gt ⊕ step ⊘ lit 2 0) cur rest in
      cell step gt at.0 ∷ resample step gts at.0 at.1

  -- `np.count_nonzero(~np.isnan(vec))`
  abbrev pub covered : List (Option F) → ℕ
  covered [] = 0
  covered (none ∷ cells) = covered cells
  covered (some _ ∷ cells) = suc (covered cells)

  -- `np.nan_to_num(vec, nan=0.0)`
  abbrev pub or_zero : Option F → F
  or_zero none = lit 0 0
  or_zero (some v) = v

  -- One pod of `to_vectors`: nothing of a stale pod, nor of one with fewer than twelve covered instants.
  unfoldable pub vector_of : F → F → String → List (Point F) → Dict (List F)
  unfolding resample
  vector_of latest step pod [] = []
  vector_of latest step pod (p ∷ ps) =
      let cells = resample step (grid latest step grid_n) p ps in
      if lt (last_point p ps).0 (latest ⊖ lit 2 0 ⊗ step)
      then []
      else if leb 12 (covered cells)
      then (pod, map or_zero cells) ∷ []
      else []

  unfoldable pub to_vectors : F → F → Dict (List (Point F)) → Dict (List F)
  unfolding vector_of
  to_vectors latest step [] = []
  to_vectors latest step ((pod, pts) ∷ per_pod) =
      vector_of latest step pod pts ++ to_vectors latest step per_pod

  module _ (svc : ServiceConfig F) (np : Arrays F) where
    -- `raw[signal]`, of a signal that `raw` has from the start
    abbrev pub per_pod : String → Raw F → Dict (List (Point F))
    per_pod signal raw = or_empty (get signal raw.by_signal)

    -- `float(np.max(vectors[p][-6:])) > COPR_MIN`
    abbrev pub is_hot : List F → Bool
    is_hot vec = lt svc.copr_min (np.maximum (drop (length vec - 6) vec))

    abbrev pub hot_pods : Dict (List F) → List String
    hot_pods vectors =
        map (λ (e : String × List F). e.0) (filter (λ (e : String × List F). is_hot e.1) vectors)

    -- The pods of a workload on the storage node.
    abbrev pub on_disk : String → Bool
    on_disk pod = has (workload pod) svc.storage

    unfoldable pub witness_of : Dict (List F) → Witness
    unfolding workload
    witness_of vectors = record {
      ebpf_edges = [];
      psi_copressure = combinations (hot_pods vectors);
      shared_relation =
          filter (λ (p : String × String). on_disk p.0 && on_disk p.1)
            (combinations (map (λ (e : String × List F). e.0) vectors));
    }

    abbrev pub is_candidate : Event → Bool
    is_candidate e = elim e.kind [ none ↦ false | some kind ↦ str_eq kind "anomaly_candidate" ]

    -- `sorted({e["pod"] for e in events if …})`
    unfoldable pub breaches : List Event → List String
    breaches events =
        sorted str_lt (dedup str_eq (map (λ (e : Event). e.pod) (filter is_candidate events)))

    module _ (epoch : String → Option F) where
      unfoldable pub raw_of : Window F → Raw F
      unfolding collect
      raw_of window =
          collect epoch window (record {
            by_signal = put svc.write_signal [] (put svc.signal [] []);
            latest = lit 0 0;
          })

      unfoldable pub build_inputs : Window F → List Event → Observed F
      unfolding raw_of to_vectors witness_of breaches
      build_inputs window events =
          let raw = raw_of window in
          let vectors = to_vectors raw.latest svc.grid_step_s (per_pod svc.signal raw) in
          record {
            vectors = vectors;
            write_vectors = to_vectors raw.latest svc.grid_step_s (per_pod svc.write_signal raw);
            witness = witness_of vectors;
            breach = breaches events;
          }
