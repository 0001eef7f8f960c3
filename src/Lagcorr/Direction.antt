-- ===== src/Lagcorr/Direction.antt =====
-- `best_directed` of correlation/engine/lagcorr.py finds the strongest coupling of two signals.
use abb_accelerator_aiops.Prelude.{
  ℕ, ◌≡◌, refl, ◌∙◌, ◌⊎◌, inl, inr, true, false, List, [], ◌∷◌, arith, All, All-map, In, Bool-cases,
  if◌then◌else◌,
}
use abb_accelerator_aiops.Float.{Float, lit, ◌⊕◌, lt, abs}
use abb_accelerator_aiops.Float.Laws.{
  IsOrdered, IsRounded, ◌≼◌, ◌≺◌, le_of_lt, le_of_not-lt, lt_of_le_of_lt,
}
use abb_accelerator_aiops.Lagcorr.{
  Stats, Profile, Directed, strongest, strongest_from, stronger, lag_profile, last_n, shorter,
  best_directed,
}

module _ {F : Type 0} ⦃f : Float F⦄ (o : IsOrdered F) where
  -- The entry is at least as strong as all of a profile.
  abbrev pub Dominates : F → Profile F → Type 0
  Dominates r p = All (λ e. abs e.1 ≼ abs r) p

  stronger_bounds :
      (b e : ℕ × F) → (abs b.1 ≼ abs (stronger b e).1) × (abs e.1 ≼ abs (stronger b e).1)
  unfolding stronger
  stronger_bounds b e = ground (
    arith,
    le_of_lt o (abs b.1) (abs e.1),
    le_of_not-lt o (abs b.1) (abs e.1),
    o.le_refl (abs b.1),
    o.le_refl (abs e.1),
  )

  strongest_from-ge : (b : ℕ × F) (p : Profile F) → abs b.1 ≼ abs (strongest_from b p).1
  unfolding strongest_from
  strongest_from-ge b [] = o.le_refl (abs b.1)
  strongest_from-ge b (e ∷ p) =
      o.le_trans _ _ _ (stronger_bounds b e).0 (strongest_from-ge (stronger b e) p)

  strongest_from-Dominates : (b : ℕ × F) (p : Profile F) → Dominates (strongest_from b p).1 p
  unfolding strongest_from
  strongest_from-Dominates b [] = tt
  strongest_from-Dominates b (e ∷ p) = (
    o.le_trans _ _ _ (stronger_bounds b e).1 (strongest_from-ge (stronger b e) p),
    strongest_from-Dominates (stronger b e) p,
  )

  strongest-Dominates : (p : Profile F) → Dominates (strongest p).1 p
  unfolding strongest
  strongest-Dominates [] = tt
  strongest-Dominates (e ∷ p) = (strongest_from-ge e p, strongest_from-Dominates e p)

stronger_cases : {F : Type 0} ⦃f : Float F⦄ (b e : ℕ × F) → (stronger b e ≡ b) ⊎ (stronger b e ≡ e)
unfolding stronger
stronger_cases b e = ground arith

strongest_from-In :
    {F : Type 0} ⦃f : Float F⦄ (b : ℕ × F) (p : Profile F)
    → (strongest_from b p ≡ b) ⊎ In (strongest_from b p) p
unfolding strongest_from
strongest_from-In b [] = inl refl
strongest_from-In b (e ∷ p) = elim (strongest_from-In (stronger b e) p) [
  | inl h ↦ elim (stronger_cases b e) [ inl q ↦ inl (h ∙ q) | inr q ↦ inr (inl (h ∙ q)) ]
  | inr h ↦ inr (inr h)
]

strongest-In : {F : Type 0} ⦃f : Float F⦄ (p : Profile F) → (p ≡ []) ⊎ In (strongest p) p
unfolding strongest
strongest-In [] = inl refl
strongest-In (e ∷ p) = inr (strongest_from-In e p)

-- What `best_directed` promises of its result, for the profiles of the two directions.
pub record IsBest {F : Type 0} ⦃f : Float F⦄ (o : IsOrdered F) (fwd rev : Profile F)
    (d : Directed F) : Type 0 where
  pub profile : d.profile ≡ (if d.forward then fwd else rev)
  pub peak : (d.profile ≡ []) ⊎ In (d.lag_s, d.r) d.profile
  pub strongest : Dominates o d.r d.profile
  pub forward_wins : d.forward ≡ true → All (λ e. abs e.1 ≼ abs d.r ⊕ lit 1 9) rev
  pub reverse_wins : d.forward ≡ false → All (λ e. abs e.1 ⊕ lit 1 9 ≺ abs d.r) fwd

module _ {F : Type 0} ⦃f : Float F⦄ (o : IsOrdered F) (l : IsRounded F) (np : Stats F) where
  -- The peak is an entry of the profile of its direction, unless that is empty, and the strongest
  -- one there; forward wins where no reverse entry exceeds it by more than 1e-9, at whatever
  -- lags, and reverse only where it exceeds each forward entry by more than that. The arithmetic
  -- obeys `IsOrdered` and `IsRounded`.
  pub best_directed-IsBest :
      (x y : List F)
      → let n = shorter x y in
        IsBest o
          (lag_profile np (last_n n x) (last_n n y))
          (lag_profile np (last_n n y) (last_n n x))
          (best_directed np x y)
  unfolding best_directed
  best_directed-IsBest x y =
      elim (Bool-cases (lt (abs (strongest fwd).1 ⊕ lit 1 9) (abs (strongest rev).1))) [
        | inl h ↦
            rw (h, best_directed)
              (record {
                profile = refl;
                peak = strongest-In rev;
                strongest = strongest-Dominates o rev;
                forward_wins = λ q. cc;
                reverse_wins = λ _.
                    All-map (λ e k. lt_of_le_of_lt o _ _ _ (l.add_mono_left (lit 1 9) _ _ k) h) fwd
                      (strongest-Dominates o fwd);
              })
        | inr h ↦
            rw (h, best_directed)
              (record {
                profile = refl;
                peak = strongest-In fwd;
                strongest = strongest-Dominates o fwd;
                forward_wins = λ _.
                    All-map (λ e k. o.le_trans _ _ _ k (le_of_not-lt o _ _ h)) rev
                      (strongest-Dominates o rev);
                reverse_wins = λ q. cc;
              })
      ]
    where
      fwd : Profile F
      fwd = lag_profile np (last_n (shorter x y) x) (last_n (shorter x y) y)

      rev : Profile F
      rev = lag_profile np (last_n (shorter x y) y) (last_n (shorter x y) x)
