-- ===== src/Memory/Baselines.antt =====
-- The table baselines of correlation/engine/state.py: `update_baselines` and `baseline_threshold`.
-- `np.median` and `np.percentile(·, 90)` are parameters.
pub mod Gating
use abb_accelerator_aiops.Prelude.{
  ℕ, ◌+◌, Bool, true, false, not, ◌&&◌, String, str_eq, Option, none, some, List, [], ◌∷◌, ◌++◌,
  map, length, ltb, leb, if◌then◌else◌, Dict,
}
use abb_accelerator_aiops.Float.{Float, lit, ◌⊕◌, ◌⊖◌, ◌⊗◌, lt, abs, max}
use abb_accelerator_aiops.Names.{stable_workload}
use abb_accelerator_aiops.Memory.{MemoryConfig}

pub record Quantiles (F : Type 0) : Type 0 where
  pub median : List F → F
  pub percentile_90 : List F → F

-- A row of baselines; its primary key is (workload, signal).
pub record BaselineRow (F : Type 0) : Type 0 where
  pub workload : String
  pub signal : String
  pub median : F
  pub mad : F
  pub n : ℕ
  pub updated_ts : F

-- SELECT … FROM baselines WHERE workload=? AND signal=?
unfoldable pub find_baseline :
    {F : Type 0} → String → String → List (BaselineRow F) → Option (BaselineRow F)
find_baseline wl signal [] = none
find_baseline wl signal (row ∷ rows) =
    if str_eq row.workload wl && str_eq row.signal signal
    then some row
    else find_baseline wl signal rows

module _ {F : Type 0} ⦃f : Float F⦄ where
  -- The median absolute deviation from the median.
  unfoldable pub mad_of : Quantiles F → List F → F
  mad_of np arr = np.median (map (λ v. abs (v ⊖ np.median arr)) arr)

module _ {F : Type 0} ⦃f : Float F⦄ (cfg : MemoryConfig F) where
  -- UPDATE baselines SET … WHERE workload=? AND signal=?
  unfoldable pub set_baseline : String → F → F → ℕ → F → List (BaselineRow F) → List (BaselineRow F)
  set_baseline wl median mad n ts [] = []
  set_baseline wl median mad n ts (row ∷ rows) =
      (if str_eq row.workload wl && str_eq row.signal cfg.signal
        then record row { median = median; mad = mad; n = n; updated_ts = ts }
        else row)
      ∷ set_baseline wl median mad n ts rows

  -- `baseline_threshold`: none while the baseline is still learning.
  row_threshold : Option (BaselineRow F) → Option F
  row_threshold none = none
  row_threshold (some row) =
      if ltb row.n cfg.base_min_n
      then none
      else some (row.median ⊕ cfg.dev_k ⊗ max row.mad cfg.mad_floor)

  unfoldable pub baseline_threshold : String → List (BaselineRow F) → Option F
  unfolding row_threshold
  baseline_threshold wl rows = row_threshold (find_baseline wl cfg.signal rows)

  -- The slow moving average: (1 - a) * old + a * new.
  abbrev pub moved : F → F → F
  moved old new = (lit 1 0 ⊖ cfg.base_alpha) ⊗ old ⊕ cfg.base_alpha ⊗ new

  module _ (np : Quantiles F) where
    -- A mature baseline that the signal exceeds: the workload is storming.
    unfoldable pub is_storming : BaselineRow F → List F → Bool
    is_storming row arr =
        leb cfg.base_min_n row.n
        && lt (row.median ⊕ cfg.dev_k ⊗ max row.mad cfg.mad_floor) (np.percentile_90 arr)

    learn :
        String → List F → F → Option (BaselineRow F) → List (BaselineRow F) → List (BaselineRow F)
    unfolding mad_of
    learn wl arr ts none rows =
        rows
        ++ record {
          workload = wl;
          signal = cfg.signal;
          median = np.median arr;
          mad = mad_of np arr;
          n = 1;
          updated_ts = ts;
        }
          ∷ []
    learn wl arr ts (some row) rows =
        if is_storming row arr
        then rows
        else set_baseline wl (moved row.median (np.median arr)) (moved row.mad (mad_of np arr))
            (row.n + 1) ts rows

    -- One round of the loop of `update_baselines`; a vector of fewer than 12 samples is skipped.
    unfoldable pub update_baseline :
        String → List F → F → List (BaselineRow F) → List (BaselineRow F)
    unfolding learn is_storming
    update_baseline pod arr ts rows =
        let wl = stable_workload pod in
        if ltb (length arr) 12
        then rows
        else learn wl arr ts (find_baseline wl cfg.signal rows) rows

    unfoldable pub update_baselines :
        Dict (List F) → F → List (BaselineRow F) → List (BaselineRow F)
    unfolding update_baseline
    update_baselines [] ts rows = rows
    update_baselines ((pod, arr) ∷ vectors) ts rows =
        update_baselines vectors ts (update_baseline pod arr ts rows)
