-- ===== src/Memory/Baselines/Gating.antt =====
-- A baseline learns the normal and not the storm: `update_baselines` skips a vector exactly where
-- `baseline_threshold`, by which the service calls an onset an incident, is exceeded.
use abb_accelerator_aiops.Prelude.{
  ℕ, ◌+◌, ◌≤◌, ◌≡◌, refl, ap, Bool, false, ◌&&◌, String, str_eq, str_eq_iff, Option, none, some,
  List, [], ◌∷◌, ◌++◌, arith, length, Bool-cases, inl, inr, if◌then◌else◌, if_rule, ltb,
}
use abb_accelerator_aiops.Float.{Float, lt}
use abb_accelerator_aiops.Names.{stable_workload}
use abb_accelerator_aiops.Memory.{MemoryConfig}
use abb_accelerator_aiops.Memory.Baselines.{
  Quantiles, BaselineRow, find_baseline, set_baseline, row_threshold, baseline_threshold, mad_of,
  is_storming, moved, learn, update_baseline,
}

module _ {F : Type 0} ⦃f : Float F⦄ (cfg : MemoryConfig F) where
  -- The test by which a pass calls a level deviant; while the baseline is learning none is.
  abbrev pub exceeds : Option F → F → Bool
  exceeds none x = false
  exceeds (some threshold) x = lt threshold x

  find-set_baseline :
      (wl : String) (median mad : F) (n : ℕ) (ts : F) (rows : List (BaselineRow F))
      (row : BaselineRow F)
      → find_baseline wl cfg.signal rows ≡ some row
      → find_baseline wl cfg.signal (set_baseline cfg wl median mad n ts rows)
        ≡ some (record row { median = median; mad = mad; n = n; updated_ts = ts })
  unfolding find_baseline set_baseline
  find-set_baseline wl median mad n ts [] row h = cc
  find-set_baseline wl median mad n ts (r ∷ rows) row h =
      elim (Bool-cases (str_eq r.workload wl && str_eq r.signal cfg.signal)) [
        | inl e ↦ ground arith
        | inr e ↦ ground (arith, find-set_baseline wl median mad n ts rows row)
      ]

  find-set_baseline_other :
      (wl v : String) (median mad : F) (n : ℕ) (ts : F) (rows : List (BaselineRow F))
      → str_eq wl v ≡ false
      → find_baseline v cfg.signal (set_baseline cfg wl median mad n ts rows)
        ≡ find_baseline v cfg.signal rows
  unfolding find_baseline set_baseline
  find-set_baseline_other wl v median mad n ts [] h = refl
  find-set_baseline_other wl v median mad n ts (r ∷ rows) h = ground (
    arith,
    find-set_baseline_other wl v median mad n ts rows,
    str_eq_iff r.workload wl,
    str_eq_iff r.workload v,
    str_eq_iff wl v,
  )

  threshold_of_row :
      (wl : String) (rows : List (BaselineRow F)) (row : BaselineRow F)
      → find_baseline wl cfg.signal rows ≡ some row
      → baseline_threshold cfg wl rows ≡ row_threshold cfg (some row)
  unfolding baseline_threshold
  threshold_of_row wl rows row h = ap (row_threshold cfg) h

  module _ (np : Quantiles F) where
    is_storming-exceeds :
        (row : BaselineRow F) (arr : List F)
        → is_storming cfg np row arr ≡ exceeds (row_threshold cfg (some row)) (np.percentile_90 arr)
    unfolding is_storming row_threshold
    is_storming-exceeds row arr = ground arith

    -- The row of a workload that has one, after a vector of at least 12 samples of one of its
    -- pods: unchanged if the vector's 90th percentile exceeds the workload's incident
    -- threshold, and otherwise moved towards the vector's median and deviation, with one more
    -- update counted.
    pub find-update_baseline :
        (pod : String) (arr : List F) (ts : F) (rows : List (BaselineRow F)) (row : BaselineRow F)
        → 12 ≤ length arr
        → find_baseline (stable_workload pod) cfg.signal rows ≡ some row
        → find_baseline (stable_workload pod) cfg.signal (update_baseline cfg np pod arr ts rows)
          ≡ some (
              if exceeds (baseline_threshold cfg (stable_workload pod) rows) (np.percentile_90 arr)
              then row
              else record row {
                median = moved cfg row.median (np.median arr);
                mad = moved cfg row.mad (mad_of np arr);
                n = row.n + 1;
                updated_ts = ts;
              })
    unfolding update_baseline
    find-update_baseline pod arr ts rows row enough h =
        let short : ltb (length arr) 12 ≡ false = ground arith in
        let wl = stable_workload pod in
        let limit = threshold_of_row wl rows row h in
        elim (Bool-cases (exceeds (row_threshold cfg (some row)) (np.percentile_90 arr))) [
          | inl e ↦ simp (short, h, limit, is_storming-exceeds row arr, e) refl
          | inr e ↦
              simp (short, h, limit, is_storming-exceeds row arr, e)
                (find-set_baseline wl _ _ _ ts rows row h)
        ]

    find-append_other :
        (v : String) (rows : List (BaselineRow F)) (row : BaselineRow F)
        → str_eq row.workload v ≡ false
        → find_baseline v cfg.signal (rows ++ row ∷ []) ≡ find_baseline v cfg.signal rows
    unfolding find_baseline
    find-append_other v [] row h = rw h refl
    find-append_other v (r ∷ rows) row h = ground (arith, find-append_other v rows row)

    find-learn_other :
        (wl : String) (arr : List F) (ts : F) (v : String) (old : Option (BaselineRow F))
        (rows : List (BaselineRow F))
        → str_eq wl v ≡ false
        → find_baseline v cfg.signal (learn cfg np wl arr ts old rows)
          ≡ find_baseline v cfg.signal rows
    unfolding learn
    find-learn_other wl arr ts v none rows h = find-append_other v rows _ h
    find-learn_other wl arr ts v (some row) rows h =
        if_rule (λ t. find_baseline v cfg.signal t ≡ find_baseline v cfg.signal rows)
          (is_storming cfg np row arr) {x = rows} refl
          (find-set_baseline_other wl v _ _ _ ts rows h)

    -- A vector of a pod leaves the rows of all other workloads as they are.
    pub find-update_baseline_other :
        (pod : String) (arr : List F) (ts : F) (v : String) (rows : List (BaselineRow F))
        → str_eq (stable_workload pod) v ≡ false
        → find_baseline v cfg.signal (update_baseline cfg np pod arr ts rows)
          ≡ find_baseline v cfg.signal rows
    unfolding update_baseline find_baseline
    find-update_baseline_other pod arr ts v rows h =
        if_rule (λ t. find_baseline v cfg.signal t ≡ find_baseline v cfg.signal rows)
          (ltb (length arr) 12) {x = rows}
          {y = learn cfg np wl arr ts (find_baseline wl cfg.signal rows) rows} refl
          (find-learn_other wl arr ts v (find_baseline wl cfg.signal rows) rows h)
      where
        wl : String
        wl = stable_workload pod
