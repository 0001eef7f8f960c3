-- ===== src/Lagcorr/Light.antt =====
-- The correlations of correlation/engine/lagcorr.py are at most 1, in either direction, as those of scipy are.
use abb_accelerator_aiops.Prelude.{
  ℕ, ◌≡◌, refl, Option, none, some, List, [], ◌∷◌, All, if_rule, leb, length, ◌-◌,
}
use abb_accelerator_aiops.Float.{Float, lit, ◌⊕◌, lt, abs, round}
use abb_accelerator_aiops.Float.Laws.{◌≼◌}
use abb_accelerator_aiops.Lagcorr.{
  Stats, Profile, Directed, stronger, strongest_from, strongest, znorm, corr_at_lag, lags_s,
  lag_profile_from, lag_profile, last_n, shorter, best_directed,
}

-- What scipy documents of a coefficient.
pub record AreCoefficients {F : Type 0} ⦃f : Float F⦄ (st : Stats F) : Type 0 where
  pub pearson : (a b : List F) (r : F) → st.pearsonr a b ≡ some r → abs r ≼ lit 1 0
  pub spearman : (a b : List F) (r : F) → st.spearmanr a b ≡ some r → abs r ≼ lit 1 0

-- 0 is exact, and rounding to a decimal does not leave the interval from -1 to 1.
pub record RoundsWithin (F : Type 0) ⦃f : Float F⦄ : Type 0 where
  pub zero : abs {F = F} (lit 0 0) ≼ lit 1 0
  pub rounded : (x : F) → abs x ≼ lit 1 0 → abs (round 3 x) ≼ lit 1 0

module _ {F : Type 0} ⦃f : Float F⦄ where
  abbrev Light : F → Type 0
  Light r = abs r ≼ lit 1 0

  abbrev pub AreLight : Profile F → Type 0
  AreLight p = All (λ (e : ℕ × F). abs e.1 ≼ lit 1 0) p

  strongest_from-Light :
      (b : ℕ × F) (p : Profile F) → Light b.1 → AreLight p → Light (strongest_from b p).1
  unfolding strongest_from stronger
  strongest_from-Light b [] h _ = h
  strongest_from-Light b (e ∷ p) h (k, ks) =
      strongest_from-Light (stronger b e) p
        (if_rule (λ (x : ℕ × F). Light x.1) (lt (abs b.1) (abs e.1)) k h) ks

  module _ (within : RoundsWithin F) where
    strongest-Light : (p : Profile F) → AreLight p → Light (strongest p).1
    unfolding strongest
    strongest-Light [] _ = within.zero
    strongest-Light (e ∷ p) (h, hs) = strongest_from-Light e p h hs

    -- NaN is replaced by 0.
    coefficient :
        (r : Option F)
        → ((x : F) → r ≡ some x → Light x)
        → Light (elim r [ none ↦ lit 0 0 | some x ↦ x ])
    coefficient none h = within.zero
    coefficient (some x) h = h x refl

    module _ (st : Stats F) (scipy : AreCoefficients st) where
      corr_at_lag-Light : (src dst : List F) (n : ℕ) → Light (corr_at_lag st src dst n)
      unfolding corr_at_lag
      corr_at_lag-Light src dst n = if_rule Light _ within.zero (
          coefficient _ (
            if_rule (λ (o : Option F). (x : F) → o ≡ some x → Light x) _ (scipy.spearman _ _)
              (scipy.pearson _ _)))

      lag_profile_from-AreLight :
          (lags : List (ℕ × ℕ)) (src dst : List F) → AreLight (lag_profile_from st lags src dst)
      unfolding lag_profile_from
      lag_profile_from-AreLight [] src dst = tt
      lag_profile_from-AreLight ((lag_s, ls) ∷ lags) src dst =
          let rest = lag_profile_from-AreLight lags src dst in
          if_rule AreLight (leb (length src - 12) ls) rest
            (corr_at_lag-Light (znorm st src) (znorm st dst) ls, rest)

      pub lag_profile-AreLight : (src dst : List F) → AreLight (lag_profile st src dst)
      unfolding lag_profile
      lag_profile-AreLight src dst = lag_profile_from-AreLight lags_s src dst

      pub best_directed-Light : (x y : List F) → abs (best_directed st x y).r ≼ lit 1 0
      unfolding best_directed
      best_directed-Light x y =
          let n = shorter x y in
          let fwd = lag_profile st (last_n n x) (last_n n y) in
          let rev = lag_profile st (last_n n y) (last_n n x) in
          if_rule (λ (d : Directed F). Light d.r)
            (lt (abs (strongest fwd).1 ⊕ lit 1 9) (abs (strongest rev).1))
            (strongest-Light rev (lag_profile-AreLight (last_n n y) (last_n n x)))
            (strongest-Light fwd (lag_profile-AreLight (last_n n x) (last_n n y)))
