-- ===== src/Prelude/Dicts.antt =====
-- Python's `dict` with text keys, in the order of insertion.
use mathlib.Core.Path.{◌≡◌, refl, sym, subst}
use mathlib.Core.List.{List, [], ◌∷◌}
use mathlib.Core.Option.{Option, none, some}
use Prim.Native.String.{String}
use native.Mathlib.Omega.{arith}
use text.Mathlib.Text.{◌==◌ as str_eq}
use text.Mathlib.TextEquality.{eq_iff as str_eq_iff}
use mathlib.Core.Logic.{inl, inr}
use abb_accelerator_aiops.Prelude.Lists.{All, All-map}
use abb_accelerator_aiops.Prelude.Tests.{if◌then◌else◌, Bool-cases}

abbrev pub Dict {ℓ} : Type ℓ → Type ℓ
Dict V = List (String × V)

module _ {ℓ} {V : Type ℓ} where
  -- `d.get(k)`
  unfoldable pub get : String → Dict V → Option V
  get k [] = none
  get k ((j, v) ∷ d) = if str_eq j k then some v else get k d

  -- `d[k] = v`: a key keeps its place.
  unfoldable pub put : String → V → Dict V → Dict V
  put k v [] = (k, v) ∷ []
  put k v ((j, w) ∷ d) = if str_eq j k then (j, v) ∷ d else (j, w) ∷ put k v d

  pub get-put :
      (k j : String) (v : V) (d : Dict V)
      → get j (put k v d) ≡ (if str_eq k j then some v else get j d)
  unfolding get put
  get-put k j v [] = refl
  get-put k j v ((i, w) ∷ d) =
      ground (arith, str_eq_iff k j, str_eq_iff i k, str_eq_iff i j, get-put k j v d)

  -- No key stands twice.
  abbrev pub Distinct : Dict V → Type ℓ
  Distinct [] = Unit
  Distinct ((k, v) ∷ d) = (get k d ≡ none) × Distinct d

  pub put-Distinct : (k : String) (v : V) (d : Dict V) → Distinct d → Distinct (put k v d)
  unfolding put get
  put-Distinct k v [] _ = (refl, tt)
  put-Distinct k v ((j, w) ∷ d) (n, h) = elim (Bool-cases (str_eq j k)) [
    | inl e ↦ rw e (n, h)
    | inr e ↦ rw e (
      ground (arith, get-put k j v d, n, e, str_eq_iff j k, str_eq_iff k j),
      put-Distinct k v d h,
    )
  ]

  -- The entries are what the lookup finds.
  pub Distinct-get : (d : Dict V) → Distinct d → All (λ (e : String × V). get e.0 d ≡ some e.1) d
  unfolding get
  Distinct-get [] _ = tt
  Distinct-get ((k, v) ∷ d) (n, h) = (
    ground (arith, str_eq_iff k k),
    All-map (λ (e : String × V) (g : get e.0 d ≡ some e.1). ground (arith, str_eq_iff k e.0, n, g))
        d (Distinct-get d h),
  )

pub All-put :
    {V : Type 0} (P : String × V → Type 0) (k : String) (v : V) (d : Dict V)
    → P (k, v)
    → All P d
    → All P (put k v d)
unfolding put
All-put P k v [] p _ = (p, tt)
All-put P k v ((j, w) ∷ d) p (q, qs) = elim (Bool-cases (str_eq j k)) [
  | inl e ↦ rw e (subst (λ i. P (i, v)) (sym ((str_eq_iff j k).0 e)) p, qs)
  | inr e ↦ rw e (q, All-put P k v d p qs)
]

pub get-All :
    {V : Type 0} (P : String × V → Type 0) (k : String) (v : V) (d : Dict V)
    → All P d
    → get k d ≡ some v
    → P (k, v)
unfolding get
get-All P k v [] _ e = cc
get-All P k v ((j, w) ∷ d) (p, ps) e = elim (Bool-cases (str_eq j k)) [
  | inl s ↦
      let value : w ≡ v = ground (arith, e, s) in
      subst (λ i. P (i, v)) ((str_eq_iff j k).0 s) (subst (λ u. P (j, u)) value p)
  | inr s ↦ get-All P k v d ps (ground (arith, e, s))
]
