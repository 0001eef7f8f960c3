-- ===== src/Detectors.antt =====
-- correlation/engine/detectors.py: change points by EWMA and CUSUM, and the shape of what follows.
-- numpy's statistics are a parameter.
pub mod Onsets
use abb_accelerator_aiops.Prelude.{
  ℕ, zero, suc, ◌+◌, ◌-◌, ◌/◌, ◌*◌, Bool, true, false, ◌&&◌, ◌||◌, Option, none, some, List, [],
  ◌∷◌, ◌++◌, map, length, get_elem?, take, drop, ltb, leb, if◌then◌else◌,
}
use abb_accelerator_aiops.Float.{Float, lit, ◌⊕◌, ◌⊖◌, ◌⊗◌, ◌⊘◌, neg, le, lt, abs, max}
use abb_accelerator_aiops.Graph.{Shape, saturation, burst, leak, flap, shift}

-- The functions of numpy that the module calls.
pub record Arrays (F : Type 0) : Type 0 where
  pub median : List F → F
  -- `np.max(x)`, `np.min(x)` and `np.ptp(x)`
  pub maximum : List F → F
  pub minimum : List F → F
  pub ptp : List F → F
  -- `np.polyfit(np.arange(len(x)), x, 1)[0]`
  pub slope : List F → F
  -- `np.corrcoef(np.arange(len(x)), x)[0, 1]`
  pub trend_r : List F → F
  -- `np.sum(np.diff(np.sign(x)) != 0)`
  pub sign_changes : List F → ℕ

pub data Direction : Type 0 where
  up down : Direction

pub record Onset (F : Type 0) : Type 0 where
  pub idx : ℕ
  pub direction : Direction
  pub zpeak : F

-- The variables of the loop of `cusum_onsets`.
pub record Cusum (F : Type 0) : Type 0 where
  pub gp : F
  pub gn : F
  pub armed_at : ℕ

abbrev pub warmup : ℕ
warmup = 12

module _ {F : Type 0} ⦃f : Float F⦄ where
  -- `x[i]`, read inside the array only
  abbrev pub at : List F → ℕ → F
  at x i = elim (get_elem? x i) [ none ↦ lit 0 0 | some v ↦ v ]

  -- `ewma`, from the last smoothed value on
  ewma_from : F → List F → List F
  ewma_from prev [] = []
  ewma_from prev (v ∷ x) =
      let next = lit 3 1 ⊗ v ⊕ (lit 1 0 ⊖ lit 3 1) ⊗ prev in next ∷ ewma_from next x

  unfoldable pub ewma : List F → List F
  unfolding ewma_from
  ewma [] = []
  ewma (v ∷ x) = v ∷ ewma_from v x

  -- `x - np.concatenate(([base[0]], base[:-1]))`: each sample less the smoothed value before it.
  residuals_from : F → List F → List F → List F
  residuals_from before (v ∷ x) (b ∷ base) = (v ⊖ before) ∷ residuals_from b x base
  residuals_from before _ _ = []

  unfoldable pub residuals : List F → List F
  unfolding ewma residuals_from
  residuals x = residuals_from (at (ewma x) 0) x (ewma x)

  -- `sign * z > 0.5`, for the sign of a direction
  abbrev pub contributes : Direction → F → Bool
  contributes up z = lt (lit 5 1) z
  contributes down z = lt (lit 5 1) (neg z)

  -- `_backtrack`: the walk back from the alarm.
  unfoldable pub backtrack : List F → ℕ → Direction → ℕ
  backtrack z zero sign = zero
  backtrack z (suc i) sign =
      let earlier = backtrack z i sign in if contributes sign (at z i) then earlier else suc i

  -- `max(0.0, g + z - k)` with k = 0.5
  abbrev pub climb : F → F → F
  climb g z = max (lit 0 0) (g ⊕ z ⊖ lit 5 1)

  abbrev pub fall : F → F → F
  fall g z = max (lit 0 0) (g ⊖ z ⊖ lit 5 1)

  -- The direction in which sample `i` raises the alarm, with h = 5.0.
  unfoldable pub alarm : Cusum F → ℕ → F → Option Direction
  alarm c i z =
      if lt (lit 5 0) (climb c.gp z) && leb c.armed_at i
      then some up
      else if lt (lit 5 0) (fall c.gn z) && leb c.armed_at i
      then some down
      else none

  -- The variables after sample `i`: an alarm resets the sums and disarms for three samples.
  unfoldable pub cusum_step : Cusum F → ℕ → F → Option Direction → Cusum F
  cusum_step c i z none = record { gp = climb c.gp z; gn = fall c.gn z; armed_at = c.armed_at }
  cusum_step c i z (some _) = record { gp = lit 0 0; gn = lit 0 0; armed_at = i + 3 }

  unfoldable pub reported : List F → ℕ → F → Option Direction → List (Onset F)
  unfolding backtrack
  reported zs i z none = []
  reported zs i z (some sign) =
      record { idx = backtrack zs i sign; direction = sign; zpeak = z } ∷ []

  -- `for i in range(warmup, len(z))`, over the samples that are left.
  unfoldable pub cusum_loop : List F → List F → ℕ → Cusum F → List (Onset F)
  unfolding alarm cusum_step reported
  cusum_loop zs [] i c = []
  cusum_loop zs (z ∷ rest) i c =
      let raised = alarm c i z in
      reported zs i z raised ++ cusum_loop zs rest (i + 1) (cusum_step c i z raised)

  module _ (np : Arrays F) where
    unfoldable pub robust_sigma : List F → F
    robust_sigma x =
        let med = np.median x in
        let mad = np.median (map (λ v. abs (v ⊖ med)) x) in max (lit 14826 4 ⊗ mad) (lit 1 6)

    -- `int(min(max(warmup * 2, len(x) // 3), 60))`
    abbrev sig_n : ℕ → ℕ
    sig_n n =
        let third = n / 3 in
        let low = if ltb 24 third then third else 24 in if ltb 60 low then 60 else low

    -- The z-scores of the residuals.
    unfoldable pub z_scores : List F → List F
    unfolding robust_sigma residuals
    z_scores x =
        let resid = residuals x in
        let sigma = robust_sigma (take (sig_n (length x)) resid) in map (λ r. r ⊘ sigma) resid

    unfoldable pub cusum_onsets : List F → List (Onset F)
    unfolding cusum_loop z_scores
    cusum_onsets x =
        let zs = z_scores x in
        if ltb (length x) (warmup + 4)
        then []
        else cusum_loop zs (drop warmup zs) warmup
            (record { gp = lit 0 0; gn = lit 0 0; armed_at = warmup })

    -- `x[-max(3, len(x) // k):]`
    abbrev tail_of : ℕ → List F → List F
    tail_of k seg =
        let n = length seg / k in let m = if ltb 3 n then n else 3 in drop (length seg - m) seg

    -- `cap is not None and np.median(seg[-max(3, len(seg) // 3):]) >= 0.92 * cap`
    is_saturated : List F → Option F → Bool
    is_saturated seg none = false
    is_saturated seg (some cap) = le (lit 92 2 ⊗ cap) (np.median (tail_of 3 seg))

    unfoldable pub classify : List F → ℕ → Option F → Shape
    unfolding robust_sigma is_saturated
    classify x onset_idx cap =
        let seg = drop onset_idx x in
        let n = length seg in
        let pre = np.median (take (if ltb onset_idx 1 then 1 else onset_idx) x) in
        let sigma_pre = robust_sigma (if ltb 8 onset_idx then take onset_idx x else x) in
        let excursion = np.maximum (map (λ v. abs (v ⊖ pre)) seg) in
        let came_back = lt (abs (np.median (tail_of 4 seg) ⊖ pre)) (lit 15 1 ⊗ sigma_pre) in
        let mid = (np.maximum seg ⊕ np.minimum seg) ⊘ lit 2 0 in
        let crossings = np.sign_changes (map (λ v. v ⊖ mid) seg) in
        if ltb n 6
        then shift
        else if is_saturated seg cap
        then saturation
        else if came_back && lt (lit 3 0 ⊗ sigma_pre) excursion
        then burst
        else if lt (lit 0 0) (np.slope seg) && lt (lit 2 0 ⊗ sigma_pre) (at seg (n - 1) ⊖ at seg 0)
        then leak
        else if leb 4 crossings && lt (lit 4 0 ⊗ sigma_pre) (np.ptp seg)
        then flap
        else shift

    -- Seconds until the limit is hit, with `tail` = 24; none unless the signal really climbs to it.
    unfoldable pub forecast_to_limit : List F → F → Option F
    forecast_to_limit x limit =
        let seg = if leb 24 (length x) then drop (length x - 24) x else x in
        let slope = np.slope seg in
        let samples_left = (limit ⊖ at seg (length seg - 1)) ⊘ slope in
        let eta_s = samples_left ⊗ lit 5 0 in
        if le slope (lit 1 9) || lt (np.trend_r seg) (lit 5 1)
        then none
        else if lt samples_left (lit 0 0) || lt (lit 3600 0) eta_s
        then none
        else some eta_s
