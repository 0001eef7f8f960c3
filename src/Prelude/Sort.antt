-- ===== src/Prelude/Sort.antt =====
-- Python's `sorted`: a stable sort by a strict order `before`, and the laws that the proofs use.
use Prim.Native.Nat.{ℕ, zero, suc}
use mathlib.Core.Path.{◌≡◌, refl}
use mathlib.Core.Logic.{◌⊎◌, inl, inr}
use mathlib.Core.Bool.{Bool, true, false}
use mathlib.Core.List.{List, [], ◌∷◌}
use native.Mathlib.Omega.{arith}
use abb_accelerator_aiops.Prelude.Tests.{if◌then◌else◌, Bool-cases}
use abb_accelerator_aiops.Prelude.Lists.{All, All-map, All-at, All-take, In, length, take}

module _ {A : Type 0} (before : A → A → Bool) where
  -- `x` goes in front of the first element that it does not come after.
  unfoldable pub insert : A → List A → List A
  insert x [] = x ∷ []
  insert x (y ∷ ys) = if before y x then y ∷ insert x ys else x ∷ y ∷ ys

  unfoldable pub sorted : List A → List A
  unfolding insert
  sorted [] = []
  sorted (x ∷ xs) = insert x (sorted xs)

  -- Nothing later in the list comes strictly before an element.
  abbrev pub IsSorted : List A → Type 0
  IsSorted [] = Unit
  IsSorted (x ∷ xs) = All (λ y. before y x ≡ false) xs × IsSorted xs

  pub length-insert : (x : A) (xs : List A) → length (insert x xs) ≡ suc (length xs)
  unfolding insert
  length-insert x [] = refl
  length-insert x (y ∷ ys) = ground (arith, length-insert x ys)

  pub length-sorted : (xs : List A) → length (sorted xs) ≡ length xs
  unfolding sorted
  length-sorted [] = refl
  length-sorted (x ∷ xs) = ground (arith, length-insert x (sorted xs), length-sorted xs)

  pub All-insert : (P : A → Type 0) (x : A) (xs : List A) → P x → All P xs → All P (insert x xs)
  unfolding insert
  All-insert P x [] p _ = (p, tt)
  All-insert P x (y ∷ ys) p (q, qs) = elim (Bool-cases (before y x)) [
    | inl e ↦ rw e (q, All-insert P x ys p qs)
    | inr e ↦ rw e (p, (q, qs))
  ]

  -- What holds of every element holds of every element of the sorted list.
  pub All-sorted : (P : A → Type 0) (xs : List A) → All P xs → All P (sorted xs)
  unfolding sorted
  All-sorted P [] _ = tt
  All-sorted P (x ∷ xs) (p, ps) = All-insert P x (sorted xs) p (All-sorted P xs ps)

  In-insert : (a x : A) (xs : List A) → (a ≡ x) ⊎ In a xs → In a (insert x xs)
  unfolding insert
  In-insert a x [] h = h
  In-insert a x (y ∷ ys) h = elim (Bool-cases (before y x)) [
    | inl e ↦ rw e (elim h [
      | inl p ↦ inr (In-insert a x ys (inl p))
      | inr (inl p) ↦ inl p
      | inr (inr p) ↦ inr (In-insert a x ys (inr p))
    ])
    | inr e ↦ rw e h
  ]

  pub In-sorted : (a : A) (xs : List A) → In a xs → In a (sorted xs)
  unfolding sorted
  In-sorted a [] h = elim h [ ]
  In-sorted a (x ∷ xs) (inl p) = In-insert a x (sorted xs) (inl p)
  In-sorted a (x ∷ xs) (inr p) = In-insert a x (sorted xs) (inr (In-sorted a xs p))

  module _ (asym : (x y : A) → before x y ≡ true → before y x ≡ false)
      (cotrans : (x y z : A) → before y x ≡ false → before z y ≡ false → before z x ≡ false) where
    insert-IsSorted : (x : A) (xs : List A) → IsSorted xs → IsSorted (insert x xs)
    unfolding insert
    insert-IsSorted x [] h = (tt, tt)
    insert-IsSorted x (y ∷ ys) (h, hs) = elim (Bool-cases (before y x)) [
      | inl e ↦
          rw e (All-insert (λ z. before z y ≡ false) x ys (asym y x e) h, insert-IsSorted x ys hs)
      | inr e ↦ rw e ((e, All-map (λ z k. cotrans x y z e k) ys h), (h, hs))
    ]

    pub sorted-IsSorted : (xs : List A) → IsSorted (sorted xs)
    unfolding sorted
    sorted-IsSorted [] = tt
    sorted-IsSorted (x ∷ xs) = insert-IsSorted x (sorted xs) (sorted-IsSorted xs)

  -- What the first elements of a sorted list leave out comes after none of them.
  pub take-IsSorted :
      (n : ℕ) (xs : List A)
      → IsSorted xs
      → (x : A) → In x xs
      → In x (take n xs) ⊎ ((length (take n xs) ≡ n) × All (λ y. before x y ≡ false) (take n xs))
  take-IsSorted zero xs h x m = inr (refl, tt)
  take-IsSorted (suc n) [] h x m = elim m [ ]
  take-IsSorted (suc n) (y ∷ ys) h x (inl e) = inl (inl e)
  take-IsSorted (suc n) (y ∷ ys) (h, hs) x (inr m) = elim (take-IsSorted n ys hs x m) [
    | inl kept ↦ inl (inr kept)
    | inr (full, later) ↦
        inr (omega (arith, full), (All-at (λ z. before z y ≡ false) ys h x m, later))
  ]

  pub IsSorted-take : (n : ℕ) (xs : List A) → IsSorted xs → IsSorted (take n xs)
  IsSorted-take zero xs h = tt
  IsSorted-take (suc n) [] h = tt
  IsSorted-take (suc n) (x ∷ xs) (h, hs) =
      (All-take (λ y. before y x ≡ false) n xs h, IsSorted-take n xs hs)
