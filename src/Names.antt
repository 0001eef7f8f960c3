-- ===== src/Names.antt =====
-- Workload names: `stable_workload` of correlation/engine/state.py, and the copies of it that
-- correlation/service.py and api/main.py keep under the name `workload`.
use Prim.Native.Char.{Char, code}
use Prim.Native.String
use text.Mathlib.TextLemmas.{nil-append, cons-append}
use text.Mathlib.TextEquality.{Char-path}
use abb_accelerator_aiops.Prelude.{
  ℕ, suc, ◌-◌, ◌<◌, ◌≡◌, refl, ap, true, String, List, [], ◌∷◌, ◌++◌, arith, ltb, ◌==◌,
  if◌then◌else◌, length, take, length-append,
}

-- `pod.split("-")`, which has at least one part: the part before the first dash is `p` of `p ∷ ps`.
grow : Char → List String → List String
grow c [] = String.◌∷◌ c String.[] ∷ []
grow c (p ∷ ps) = String.◌∷◌ c p ∷ ps

pub split : String → List String
unfolding grow
split String.[] = String.[] ∷ []
split (String.◌∷◌ c s) = if code c == b'-' then String.[] ∷ split s else grow c (split s)

-- `"-".join(parts)`
pub join : List String → String
join [] = String.[]
join (p ∷ []) = p
join (p ∷ q ∷ ps) = String.◌++◌ p (String.◌∷◌ "-" (join (q ∷ ps)))

unfoldable pub stable_workload : String → String
unfolding split join
stable_workload pod =
    let parts = split pod in
    if ltb 2 (length parts) then join (take (length parts - 2) parts) else pod

-- The pod name that Kubernetes gives a replica: the workload, the replica set's hash, the pod's.
abbrev pub pod_name : String → String → String → String
pod_name w rs h = join (w ∷ rs ∷ h ∷ [])

-- How many dashes a text has.
abbrev pub dashes : String → ℕ
dashes String.[] = 0
dashes (String.◌∷◌ c s) = if code c == b'-' then suc (dashes s) else dashes s

length-grow : (c : Char) (ps : List String) → 0 < length ps → length (grow c ps) ≡ length ps
unfolding grow
length-grow c [] h = absurd (omega arith)
length-grow c (p ∷ ps) h = refl

pub length-split : (s : String) → length (split s) ≡ suc (dashes s)
unfolding split
length-split String.[] = refl
length-split (String.◌∷◌ c s) = ground (arith, length-split s, length-grow c (split s))

split_of_dash_free : (s : String) → dashes s ≡ 0 → split s ≡ s ∷ []
unfolding split grow
split_of_dash_free String.[] h = refl
split_of_dash_free (String.◌∷◌ c s) h = ground (arith, split_of_dash_free s)

grow-append : (c : Char) (ps qs : List String) → 0 < length ps → grow c (ps ++ qs) ≡ grow c ps ++ qs
unfolding grow
grow-append c [] qs h = absurd (omega arith)
grow-append c (p ∷ ps) qs h = refl

-- A dash between two texts separates their parts.
split-append : (s t : String) → split (String.◌++◌ s (String.◌∷◌ "-" t)) ≡ split s ++ split t
unfolding split
split-append String.[] t = rw nil-append refl
split-append (String.◌∷◌ c s) t =
    rw cons-append
      (ground (arith, split-append s t, grow-append c (split s) (split t), length-split s))

join-grow :
    (c : Char) (ps : List String) → 0 < length ps → join (grow c ps) ≡ String.◌∷◌ c (join ps)
unfolding join grow
join-grow c [] h = absurd (omega arith)
join-grow c (p ∷ []) h = refl
join-grow c (p ∷ q ∷ ps) h = cons-append c p (String.◌∷◌ "-" (join (q ∷ ps)))

join-nil : (ps : List String) → 0 < length ps → join ("" ∷ ps) ≡ String.◌∷◌ "-" (join ps)
unfolding join
join-nil [] h = absurd (omega arith)
join-nil (p ∷ ps) h = nil-append (String.◌∷◌ "-" (join (p ∷ ps)))

-- Joining the parts of a text gives the text back.
pub join-split : (s : String) → join (split s) ≡ s
unfolding split
join-split String.[] = unfold join in refl
join-split (String.◌∷◌ c s) = ground (
  arith,
  join-split s,
  join-nil (split s),
  join-grow c (split s),
  length-split s,
  Char-path c "-",
)

take_all_but : {A : Type 0} (xs : List A) (a b : A) → take (length xs) (xs ++ a ∷ b ∷ []) ≡ xs
take_all_but [] a b = refl
take_all_but (x ∷ xs) a b = ap (◌∷◌ x) (take_all_but xs a b)

pub split-pod_name :
    (w rs h : String)
    → dashes rs ≡ 0
    → dashes h ≡ 0
    → split (pod_name w rs h) ≡ split w ++ rs ∷ h ∷ []
unfolding join
split-pod_name w rs h hr hh =
    rw (split-append w _)
      (rw (split-append rs h) (rw (split_of_dash_free rs hr, split_of_dash_free h hh)))

stable_workload_of_split :
    (p w rs h : String) → split p ≡ split w ++ rs ∷ h ∷ [] → stable_workload p ≡ w
unfolding stable_workload
stable_workload_of_split p w rs h e =
    let n : length (split p) - 2 ≡ length (split w) =
      omega (arith, ap length e, length-append (split w) (rs ∷ h ∷ [])) in
    let long : ltb 2 (length (split p)) ≡ true =
      ground (arith, ap length e, length-append (split w) (rs ∷ h ∷ []), length-split w) in
    rw (long, n, e, take_all_but (split w) rs h) (join-split w)

-- Every replica of a workload has the workload's name, whatever the hashes, as long as they have no
-- dashes, and whatever dashes stand in the workload's own name.
pub stable_workload-pod_name :
    (w rs h : String) → dashes rs ≡ 0 → dashes h ≡ 0 → stable_workload (pod_name w rs h) ≡ w
unfolding stable_workload
stable_workload-pod_name w rs h hr hh =
    stable_workload_of_split (pod_name w rs h) w rs h (split-pod_name w rs h hr hh)

-- A name with fewer than two dashes is left as it is.
pub stable_workload_of_few_dashes : (p : String) → dashes p < 2 → stable_workload p ≡ p
unfolding stable_workload
stable_workload_of_few_dashes p h = ground (arith, length-split p)
