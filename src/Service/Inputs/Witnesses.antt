-- ===== src/Service/Inputs/Witnesses.antt =====
-- The witness that `build_inputs` of correlation/service.py makes: which pods it couples.
use abb_accelerator_aiops.Prelude.{
  ◌≡◌, refl, ap, sym, ◌∙◌, Bool, true, false, ◌&&◌, ◌||◌, String, Option, str_eq, str_eq_iff, List,
  [], ◌∷◌, ◌++◌, map, arith, filter, any, has, All, drop, length, ◌-◌, Dict, Bool-cases, inl, inr,
}
use abb_accelerator_aiops.Float.{Float, lt}
use abb_accelerator_aiops.Names.{stable_workload}
use abb_accelerator_aiops.Gate.{kinds, couples, same_set, same_pair}
use abb_accelerator_aiops.Detectors.{Arrays}
use abb_accelerator_aiops.Window.{Window}
use abb_accelerator_aiops.Service.Inputs.{
  ServiceConfig, Event, on_disk, hot_pods, witness_of, workload, build_inputs,
}
use abb_accelerator_aiops.Service.Inputs.Aligned.{build_inputs-length}
use abb_accelerator_aiops.Pipeline.Edges.{combinations}

and_comm : (b c : Bool) → (b && c) ≡ (c && b)
and_comm true true = refl
and_comm true false = refl
and_comm false true = refl
and_comm false false = refl

any-append :
    {A : Type 0} (p : A → Bool) (xs ys : List A) → any p (xs ++ ys) ≡ (any p xs || any p ys)
any-append p [] ys = refl
any-append p (x ∷ xs) ys = ground (arith, any-append p xs ys)

any-paired :
    (a b x : String) (ys : List String)
    → any (same_set a b) (map (λ y. (x, y)) ys)
      ≡ ((str_eq x a && has b ys) || (str_eq x b && has a ys))
any-paired a b x [] = ground arith
any-paired a b x (y ∷ ys) =
    ground
      (arith, any-paired a b x ys, str_eq_iff y b, str_eq_iff b y, str_eq_iff y a, str_eq_iff a y)

-- The pairs of a list are those of two of its elements.
any-combinations :
    (a b : String) (xs : List String)
    → str_eq a b ≡ false
    → any (same_set a b) (combinations xs) ≡ (has a xs && has b xs)
unfolding combinations
any-combinations a b [] n = refl
any-combinations a b (x ∷ xs) n =
    any-append (same_set a b) (map (λ y. (x, y)) xs) (combinations xs)
    ∙ ground (
      arith,
      any-paired a b x xs,
      any-combinations a b xs n,
      str_eq_iff x a,
      str_eq_iff x b,
      str_eq_iff a x,
      str_eq_iff b x,
      str_eq_iff a b,
    )

-- A test of both elements of a pair depends on the pair only.
both_of_same_set :
    (a b : String) (d : String → Bool) (x y : String)
    → same_set a b (x, y) ≡ true
    → (d x && d y) ≡ (d a && d b)
both_of_same_set a b d x y h = elim (Bool-cases (same_pair a b (x, y))) [
  | inl e ↦
      let p : x ≡ a = ground (arith, str_eq_iff x a, e) in
      let q : y ≡ b = ground (arith, str_eq_iff y b, e) in
      ap (λ i. d i && d y) p ∙ ap (λ i. d a && d i) q
  | inr e ↦
      let p : x ≡ b = ground (arith, str_eq_iff x b, h, e) in
      let q : y ≡ a = ground (arith, str_eq_iff y a, h, e) in
      ap (λ i. d i && d y) p ∙ ap (λ i. d b && d i) q ∙ and_comm (d b) (d a)
]

and_false : (c : Bool) → (c && false) ≡ false
and_false true = refl
and_false false = refl

any-filter_pair :
    (a b : String) (d : String → Bool) (ps : List (String × String))
    → any (same_set a b) (filter (λ (p : String × String). d p.0 && d p.1) ps)
      ≡ (any (same_set a b) ps && (d a && d b))
any-filter_pair a b d [] = refl
any-filter_pair a b d ((x, y) ∷ ps) =
    let ih = any-filter_pair a b d ps in
    elim (Bool-cases (d x && d y)) [
      | inl k ↦ elim (Bool-cases (same_set a b (x, y))) [
        | inl e ↦ rw (k, e) (sym k ∙ both_of_same_set a b d x y e)
        | inr e ↦ rw (k, e) ih
      ]
      | inr k ↦ elim (Bool-cases (same_set a b (x, y))) [
        | inl e ↦
            let n : (d a && d b) ≡ false = sym (both_of_same_set a b d x y e) ∙ k in
            rw (k, e, n) (ih ∙ ap (λ c. any (same_set a b) ps && c) n ∙ and_false _)
        | inr e ↦ rw (k, e) ih
      ]
    ]

couples_of_disk :
    (psi shared : List (String × String)) (a b : String)
    → couples (record { ebpf_edges = []; psi_copressure = psi; shared_relation = shared }) a b
      ≡ any (same_set a b) shared
unfolding couples kinds
couples_of_disk psi shared a b = ground arith

or_of : {c d : Bool} (b : Bool) → c ≡ d → (b || c) ≡ ((b && true) || d)
or_of true e = refl
or_of false e = e

skip : {c : Bool} (b : Bool) → c ≡ ((b && false) || c)
skip true = refl
skip false = refl

module _ {F : Type 0} ⦃f : Float F⦄ (svc : ServiceConfig F) (np : Arrays F) where
  abbrev pub pod_names : Dict (List F) → List String
  pod_names vectors = map (λ (e : String × List F). e.0) vectors

  -- Both pods are of storage workloads, by the names that the memory has for them.
  abbrev pub are_stored : String → String → Bool
  are_stored a b = has (stable_workload a) svc.storage && has (stable_workload b) svc.storage

  -- The last six of the 180 cells of the pod have a value above the limit.
  abbrev pub is_stalled : String → Dict (List F) → Bool
  is_stalled a vectors =
      any (λ (e : String × List F). str_eq a e.0 && lt svc.copr_min (np.maximum (drop 174 e.1)))
        vectors

  has-hot_pods :
      (a : String) (vectors : Dict (List F))
      → All (λ (e : String × List F). length e.1 ≡ 180) vectors
      → has a (hot_pods svc np vectors) ≡ is_stalled a vectors
  has-hot_pods a [] _ = refl
  has-hot_pods a ((pod, vec) ∷ vectors) (long, longs) =
      let rest = has-hot_pods a vectors longs in
      let six : length vec - 6 ≡ 174 = omega (arith, long) in
      rw six (elim (Bool-cases (lt svc.copr_min (np.maximum (drop 174 vec)))) [
        | inl hot ↦ rw hot (or_of (str_eq a pod) rest)
        | inr cold ↦ rw cold (rest ∙ skip (str_eq a pod))
      ])

  -- The witness of `build_inputs` couples two different pods exactly if both have a vector and
  -- the workloads of both, their names by `stable_workload`, are in the list of storage
  -- workloads; it has them under co-pressure exactly if both have a vector whose last six cells
  -- have a maximum above `copr_min`.
  pub build_inputs-couples :
      (epoch : String → Option F) (window : Window F) (events : List Event) (a b : String)
      → str_eq a b ≡ false
      → let i = build_inputs svc np epoch window events in
        (couples i.witness a b
          ≡ ((has a (pod_names i.vectors) && has b (pod_names i.vectors)) && are_stored a b))
        × (any (same_set a b) i.witness.psi_copressure
            ≡ (is_stalled a i.vectors && is_stalled b i.vectors))
  unfolding build_inputs witness_of workload stable_workload
  build_inputs-couples epoch window events a b n =
      let vectors = (build_inputs svc np epoch window events).vectors in
      let long = build_inputs-length epoch window svc np events in
      (
        couples_of_disk _ _ a b
            ∙ any-filter_pair a b (on_disk svc np) (combinations (pod_names vectors))
            ∙ ap (λ t. t && are_stored a b) (any-combinations a b (pod_names vectors) n),
        any-combinations a b (hot_pods svc np vectors) n
            ∙ rw (has-hot_pods a vectors long, has-hot_pods b vectors long) refl,
      )
