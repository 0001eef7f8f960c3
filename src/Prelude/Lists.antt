-- ===== src/Prelude/Lists.antt =====
-- Lists measured and indexed by native numbers, and predicates on lists by recursion.
use Prim.Native.Nat.{ℕ, zero, suc, ◌+◌, ◌-◌, ◌≤◌}
use mathlib.Core.Path.{◌≡◌, refl, sym, ap, ◌∙◌, subst}
use mathlib.Core.Logic.{◌⊎◌, inl, inr}
use mathlib.Core.Bool.{Bool, true, false, ◌||◌}
use mathlib.Core.List.{List, [], ◌∷◌, ◌++◌, map}
use mathlib.Core.Option.{Option, none, some}
use native.Mathlib.Omega.{arith}
use abb_accelerator_aiops.Prelude.Tests.{if◌then◌else◌, Bool-cases}

module _ {ℓ} {A : Type ℓ} where
  abbrev pub length : List A → ℕ
  length [] = 0
  length (x ∷ xs) = suc (length xs)

  abbrev pub get_elem? : List A → ℕ → Option A
  get_elem? [] i = none
  get_elem? (x ∷ xs) zero = some x
  get_elem? (x ∷ xs) (suc i) = get_elem? xs i

  abbrev pub take : ℕ → List A → List A
  take zero xs = []
  take (suc n) [] = []
  take (suc n) (x ∷ xs) = x ∷ take n xs

  abbrev pub drop : ℕ → List A → List A
  drop zero xs = xs
  drop (suc n) [] = []
  drop (suc n) (x ∷ xs) = drop n xs

  -- `any(p(x) for x in xs)`
  abbrev pub any : (A → Bool) → List A → Bool
  any p [] = false
  any p (x ∷ xs) = p x || any p xs

  -- `[x for x in xs if p(x)]`
  abbrev pub filter : (A → Bool) → List A → List A
  filter p [] = []
  filter p (x ∷ xs) = if p x then x ∷ filter p xs else filter p xs

  abbrev pub All {κ} : (A → Type κ) → List A → Type κ
  All P [] = Unit
  All P (x ∷ xs) = P x × All P xs

  pub length-append : (xs ys : List A) → length (xs ++ ys) ≡ length xs + length ys
  length-append [] ys = omega arith
  length-append (x ∷ xs) ys = omega (arith, length-append xs ys)

  pub length-drop : (n : ℕ) (xs : List A) → length (drop n xs) ≡ length xs - n
  length-drop zero xs = omega arith
  length-drop (suc n) [] = omega arith
  length-drop (suc n) (x ∷ xs) = omega (arith, length-drop n xs)

  drop-nil : (n : ℕ) → drop n [] ≡ []
  drop-nil zero = refl
  drop-nil (suc n) = refl

  pub drop-drop : (m n : ℕ) (xs : List A) → drop m (drop n xs) ≡ drop (n + m) xs
  drop-drop m zero xs = ap (λ k. drop k xs) (omega arith)
  drop-drop m (suc n) [] = drop-nil m ∙ sym (drop-nil (suc n + m))
  drop-drop m (suc n) (x ∷ xs) =
      drop-drop m n xs ∙ ap (λ k. drop k (x ∷ xs)) {x = suc (n + m)} {y = suc n + m} (omega arith)

  pub drop-append : (n : ℕ) (xs ys : List A) → n ≤ length xs → drop n (xs ++ ys) ≡ drop n xs ++ ys
  drop-append zero xs ys h = refl
  drop-append (suc n) [] ys h = absurd (omega arith)
  drop-append (suc n) (x ∷ xs) ys h = drop-append n xs ys (omega arith)

  pub All-map {κ μ} :
      {P : A → Type κ} {Q : A → Type μ}
      → ((x : A) → P x → Q x)
      → (xs : List A) → All P xs
      → All Q xs
  All-map f [] _ = tt
  All-map f (x ∷ xs) (p, ps) = (f x p, All-map f xs ps)

  pub All-append {κ} : (P : A → Type κ) (xs ys : List A) → All P xs → All P ys → All P (xs ++ ys)
  All-append P [] ys _ q = q
  All-append P (x ∷ xs) ys (p, ps) q = (p, All-append P xs ys ps q)

module _ {A : Type 0} where
  -- `x` stands in the list.
  abbrev pub In : A → List A → Type 0
  In x [] = ⊥
  In x (y ∷ ys) = (x ≡ y) ⊎ In x ys

pub All-In : {A : Type 0} (xs : List A) → All (λ x. In x xs) xs
All-In [] = tt
All-In (x ∷ xs) = (inl refl, All-map (λ y m. inr m) xs (All-In xs))

pub All-at : {A : Type 0} (P : A → Type 0) (xs : List A) → All P xs → (x : A) → In x xs → P x
All-at P [] _ x m = elim m [ ]
All-at P (y ∷ ys) (p, ps) x (inl e) = subst P (sym e) p
All-at P (y ∷ ys) (p, ps) x (inr m) = All-at P ys ps x m

pub filter-All :
    {A : Type 0} (test : A → Bool) (xs : List A)
    → All (λ x. In x xs × (test x ≡ true)) (filter test xs)
filter-All test [] = tt
filter-All test (x ∷ xs) =
    let later = All-map (λ y (m, t). (inr m, t)) (filter test xs) (filter-All test xs) in
    elim (Bool-cases (test x)) [ inl h ↦ rw h ((inl refl, h), later) | inr h ↦ rw h later ]

-- The elements of a list, each once, for the sets that the code builds by comprehension.
module _ {A : Type 0} (eq : A → A → Bool) where
  abbrev pub dedup : List A → List A
  dedup [] = []
  dedup (x ∷ xs) = let rest = dedup xs in if any (eq x) rest then rest else x ∷ rest

pub In-append_left : {A : Type 0} (x : A) (xs ys : List A) → In x xs → In x (xs ++ ys)
In-append_left x [] ys m = elim m [ ]
In-append_left x (y ∷ xs) ys (inl e) = inl e
In-append_left x (y ∷ xs) ys (inr m) = inr (In-append_left x xs ys m)

pub In-append_last : {A : Type 0} (x : A) (xs : List A) → In x (xs ++ x ∷ [])
In-append_last x [] = inl refl
In-append_last x (y ∷ xs) = inr (In-append_last x xs)

pub All-take : {A : Type 0} (P : A → Type 0) (n : ℕ) (xs : List A) → All P xs → All P (take n xs)
All-take P zero xs h = tt
All-take P (suc n) [] h = tt
All-take P (suc n) (x ∷ xs) (p, ps) = (p, All-take P n xs ps)

pub length-take : {A : Type 0} (n : ℕ) (xs : List A) → length (take n xs) ≤ n
length-take zero xs = omega arith
length-take (suc n) [] = omega arith
length-take (suc n) (x ∷ xs) = omega (arith, length-take n xs)

pub length-map : {A B : Type 0} (h : A → B) (xs : List A) → length (map h xs) ≡ length xs
length-map h [] = refl
length-map h (x ∷ xs) = omega (arith, length-map h xs)

pub All-of_map :
    {A B : Type 0} (P : B → Type 0) (h : A → B) (xs : List A)
    → All (λ x. P (h x)) xs
    → All P (map h xs)
All-of_map P h [] _ = tt
All-of_map P h (x ∷ xs) (p, ps) = (p, All-of_map P h xs ps)

pub All-zip :
    {A : Type 0} {P Q R : A → Type 0}
    → ((x : A) → P x → Q x → R x)
    → (xs : List A) → All P xs
    → All Q xs
    → All R xs
All-zip f [] _ _ = tt
All-zip f (x ∷ xs) (p, ps) (q, qs) = (f x p q, All-zip f xs ps qs)

pub In-map : {A B : Type 0} (h : A → B) (x : A) (xs : List A) → In x xs → In (h x) (map h xs)
In-map h x (y ∷ ys) (inl e) = inl (ap h e)
In-map h x (y ∷ ys) (inr m) = inr (In-map h x ys m)
In-map h x [] m = elim m [ ]

-- What holds of everything holds of every element.
pub All-always {ℓ} : {A : Type 0} {P : A → Type ℓ} → ((x : A) → P x) → (xs : List A) → All P xs
All-always f [] = tt
All-always f (x ∷ xs) = (f x, All-always f xs)

pub All-of_In : {A : Type 0} {P : A → Type 0} (xs : List A) → ((x : A) → In x xs → P x) → All P xs
All-of_In [] f = tt
All-of_In (x ∷ xs) f = (f x (inl refl), All-of_In xs (λ y m. f y (inr m)))
