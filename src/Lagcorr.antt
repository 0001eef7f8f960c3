-- ===== src/Lagcorr.antt =====
-- correlation/engine/lagcorr.py: the correlation of two signals at each lag, and the direction in
-- which it is strongest. Pearson's and Spearman's coefficients, the skew and the moments are
-- numpy's and scipy's: parameters of the model.
pub mod Direction
pub mod Light
use abb_accelerator_aiops.Prelude.{
  ℕ, zero, suc, ◌+◌, ◌-◌, Bool, true, false, ◌||◌, Option, none, some, List, [], ◌∷◌, map, ltb, leb,
  ◌==◌, if◌then◌else◌, length, get_elem?, take, drop, any, sorted, ◌++◌,
}
use abb_accelerator_aiops.Float.{Float, lit, ◌⊕◌, ◌⊖◌, ◌⊘◌, le, lt, abs}

-- The functions of numpy and scipy that the module calls; NaN is the result `none`.
pub record Stats (F : Type 0) : Type 0 where
  pub mean : List F → F
  pub std : List F → F
  pub skew : List F → F
  pub pearsonr : List F → List F → Option F
  pub spearmanr : List F → List F → Option F

-- A profile is the dict `lag -> r`, in the order of insertion, which is that of the lags.
abbrev pub Profile : Type 0 → Type 0
Profile F = List (ℕ × F)

-- LAGS_S, each with `int(round(lag_s / DT_S))` for DT_S = 5.0: the lag in samples.
abbrev pub lags_s : List (ℕ × ℕ)
lags_s = (0, 0) ∷ (5, 1) ∷ (15, 3) ∷ (30, 6) ∷ (60, 12) ∷ (120, 24) ∷ []

-- The result of `best_directed`.
pub record Directed (F : Type 0) : Type 0 where
  pub forward : Bool
  pub r : F
  pub lag_s : ℕ
  pub profile : Profile F

-- `lags.index(peak_lag)`, and `none` where the peak is not among the lags.
unfoldable pub index_of : ℕ → List ℕ → Option ℕ
index_of peak [] = none
index_of peak (l ∷ lags) =
    if l == peak then some 0 else elim (index_of peak lags) [ none ↦ none | some i ↦ some (i + 1) ]

abbrev at : List ℕ → ℕ → List ℕ
at lags j = elim (get_elem? lags j) [ none ↦ [] | some l ↦ l ∷ [] ]

-- `[lags[j] for j in (i - 1, i + 1) if 0 <= j < len(lags)]`
unfoldable pub neighbours : List ℕ → ℕ → List ℕ
neighbours lags i = elim i [ zero ↦ [] | suc k ↦ at lags k ] ++ at lags (i + 1)

-- `min(len(srcv), len(dstv))`
abbrev pub shorter : {F : Type 0} → List F → List F → ℕ
shorter srcv dstv = if ltb (length dstv) (length srcv) then length dstv else length srcv

module _ {F : Type 0} ⦃f : Float F⦄ where
  -- `profile[lag]`
  unfoldable pub lookup : ℕ → Profile F → Option F
  lookup lag [] = none
  lookup lag ((l, r) ∷ p) = if l == lag then some r else lookup lag p

  unfoldable pub stronger : ℕ × F → ℕ × F → ℕ × F
  stronger b e = if lt (abs b.1) (abs e.1) then e else b

  -- `max(profile.items(), key=lambda kv: abs(kv[1]))`: the first entry of the largest |r|.
  unfoldable pub strongest_from : ℕ × F → Profile F → ℕ × F
  strongest_from b [] = b
  strongest_from b (e ∷ p) = strongest_from (stronger b e) p

  unfoldable pub strongest : Profile F → ℕ × F
  unfolding strongest_from stronger
  strongest [] = (0, lit 0 0)
  strongest (e ∷ p) = strongest_from e p

  -- `abs(profile[n]) >= floor`
  unfoldable pub is_elevated : Profile F → F → ℕ → Bool
  unfolding lookup
  is_elevated profile floor n = elim (lookup n profile) [ none ↦ false | some r ↦ le floor (abs r) ]

  unfoldable pub adjacent_support : Profile F → ℕ → F → Bool
  unfolding index_of neighbours is_elevated sorted
  adjacent_support profile peak_lag floor =
      let lags = sorted ltb (map (λ e. e.0) profile) in
      elim (index_of peak_lag lags) [
        | none ↦ false
        | some i ↦ any (is_elevated profile floor) (neighbours lags i)
      ]

  -- `x[-n:]`, where `x[-0:]` is all of `x`.
  unfoldable pub last_n : ℕ → List F → List F
  last_n n x = if n == 0 then x else drop (length x - n) x

  module _ (np : Stats F) where
    -- `(x - np.mean(x)) / (sd if sd > 1e-9 else 1.0)`
    unfoldable pub znorm : List F → List F
    znorm x =
        let sd = np.std x in
        let scale = if lt (lit 1 9) sd then sd else lit 1 0 in map (λ v. (v ⊖ np.mean x) ⊘ scale) x

    -- The coefficient of the two slices, 0.0 in place of NaN. Of slices of different lengths scipy
    -- raises: the callers pass signals of one length.
    unfoldable pub corr_at_lag : List F → List F → ℕ → F
    corr_at_lag src dst lag_samples =
        let a = if ltb 0 lag_samples then take (length src - lag_samples) src else src in
        let b = if ltb 0 lag_samples then drop lag_samples dst else dst in
        let heavy = lt (lit 2 0) (abs (np.skew a)) || lt (lit 2 0) (abs (np.skew b)) in
        let r = if heavy then np.spearmanr a b else np.pearsonr a b in
        if ltb (length a) 12 || lt (np.std a) (lit 1 9) || lt (np.std b) (lit 1 9)
        then lit 0 0
        else elim r [ none ↦ lit 0 0 | some x ↦ x ]

    lag_profile_from : List (ℕ × ℕ) → List F → List F → Profile F
    lag_profile_from [] src dst = []
    lag_profile_from ((lag_s, ls) ∷ lags) src dst =
        let rest = lag_profile_from lags src dst in
        if leb (length src - 12) ls
        then rest
        else (lag_s, corr_at_lag (znorm src) (znorm dst) ls) ∷ rest

    unfoldable pub lag_profile : List F → List F → Profile F
    unfolding lag_profile_from corr_at_lag znorm
    lag_profile src dst = lag_profile_from lags_s src dst

    unfoldable pub best_directed : List F → List F → Directed F
    unfolding last_n
    best_directed srcv dstv =
        let n = shorter srcv dstv in
        let fwd = lag_profile (last_n n srcv) (last_n n dstv) in
        let rev = lag_profile (last_n n dstv) (last_n n srcv) in
        let fbest = strongest fwd in
        let rbest = strongest rev in
        if lt (abs fbest.1 ⊕ lit 1 9) (abs rbest.1)
        then record { forward = false; r = rbest.1; lag_s = rbest.0; profile = rev }
        else record { forward = true; r = fbest.1; lag_s = fbest.0; profile = fwd }
