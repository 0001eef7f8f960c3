-- ===== src/Detectors/Onsets.antt =====
-- `cusum_onsets` of correlation/engine/detectors.py: what is reported as an onset, and how far apart.
use mathlib.Core.Path.{subst}
use abb_accelerator_aiops.Prelude.{
  ℕ, zero, suc, ◌+◌, ◌≤◌, ◌<◌, ◌≡◌, ◌⊎◌, refl, sym, ap, ◌∙◌, true, false, none, some, List, [], ◌∷◌,
  arith, length, get_elem?, drop, ltb, Bool-cases, Option-cases, inl, inr,
}
use abb_accelerator_aiops.Float.{Float, lit, ◌⊕◌, ◌⊖◌, lt, max}
use abb_accelerator_aiops.Detectors.{
  Arrays, Direction, up, down, Onset, Cusum, at, contributes, backtrack, alarm, cusum_step,
  reported, cusum_loop, warmup, z_scores, cusum_onsets,
}

length_of_none : {A : Type 0} (xs : List A) (n : ℕ) → get_elem? xs n ≡ none → length xs ≤ n
length_of_none [] n e = omega arith
length_of_none (x ∷ xs) zero e = cc
length_of_none (x ∷ xs) (suc n) e = omega (arith, length_of_none xs n e)

module _ {F : Type 0} ⦃f : Float F⦄ (zs : List F) where
  -- The onset of an alarm at sample `i`: the run of samples before the alarm that move the same way,
  -- taken as far back as it goes.
  pub record IsOnset (i : ℕ) (onset : Onset F) : Type 0 where
    pub peak : get_elem? zs i ≡ some onset.zpeak
    pub before : onset.idx ≤ i
    pub run : (k : ℕ) → onset.idx ≤ k → k < i → contributes onset.direction (at zs k) ≡ true
    pub first : (k : ℕ) → onset.idx ≡ suc k → contributes onset.direction (at zs k) ≡ false

  -- One side of the CUSUM over the samples from `start` on, the first so many of them: what exceeds half a
  -- deviation adds up, and the sum never falls below 0.
  abbrev pub level : Direction → ℕ → ℕ → F
  level d start zero = lit 0 0
  level up start (suc m) = max (lit 0 0) (level up start m ⊕ at zs (start + m) ⊖ lit 5 1)
  level down start (suc m) = max (lit 0 0) (level down start m ⊖ at zs (start + m) ⊖ lit 5 1)

  -- Neither sum exceeds 5 before the sample `start + m`, where the detector is armed from sample `n` on.
  abbrev pub IsQuiet : ℕ → ℕ → ℕ → Type 0
  IsQuiet n start m =
      (k : ℕ)
      → k < m
      → n ≤ start + k
      → (lt (lit 5 0) (level up start (suc k)) ≡ false)
        × (lt (lit 5 0) (level down start (suc k)) ≡ false)

  -- The sum of the direction exceeds 5 at the sample `start + m`, and the upward one goes first.
  abbrev pub IsAlarm : Direction → ℕ → ℕ → Type 0
  IsAlarm up start m = lt (lit 5 0) (level up start (suc m)) ≡ true
  IsAlarm down start m =
      (lt (lit 5 0) (level up start (suc m)) ≡ false)
      × (lt (lit 5 0) (level down start (suc m)) ≡ true)

  -- The onsets of the alarms from sample `n` on, of sums that begin at `start`: each alarm is the first since
  -- then, and the next one is looked for with sums that begin after it, three samples later.
  abbrev pub AreOnsets : ℕ → ℕ → List (Onset F) → Type 0
  AreOnsets n start [] = (m : ℕ) × (length zs ≤ start + m) × IsQuiet n start m
  AreOnsets n start (onset ∷ onsets) =
      (m : ℕ) × (n ≤ start + m)
      × IsQuiet n start m
      × IsAlarm onset.direction start m
      × IsOnset (start + m) onset
      × AreOnsets (start + m + 3) (start + m + 1) onsets

  backtrack-le : (i : ℕ) (sign : Direction) → backtrack zs i sign ≤ i
  unfolding backtrack
  backtrack-le zero sign = omega arith
  backtrack-le (suc i) sign = ground (arith, backtrack-le i sign)

  backtrack-run :
      (i : ℕ) (sign : Direction) (k : ℕ)
      → backtrack zs i sign ≤ k
      → k < i
      → contributes sign (at zs k) ≡ true
  unfolding backtrack
  backtrack-run zero sign k l h = ground arith
  backtrack-run (suc i) sign k l h = elim (Bool-cases (contributes sign (at zs i))) [
    | inl c ↦ elim (Bool-cases (ltb k i)) [
      | inl q ↦ backtrack-run i sign k (ground arith) (ground arith)
      | inr q ↦ subst (λ j. contributes sign (at zs j) ≡ true) (ground arith) c
    ]
    | inr c ↦ ground arith
  ]

  backtrack-first :
      (i : ℕ) (sign : Direction) (k : ℕ)
      → backtrack zs i sign ≡ suc k
      → contributes sign (at zs k) ≡ false
  unfolding backtrack
  backtrack-first zero sign k h = ground arith
  backtrack-first (suc i) sign k h = elim (Bool-cases (contributes sign (at zs i))) [
    | inl c ↦ backtrack-first i sign k (ground arith)
    | inr c ↦ subst (λ j. contributes sign (at zs j) ≡ false) (ground arith) c
  ]

  -- The variables of the loop before the sample `start + m`.
  abbrev swept : ℕ → ℕ → ℕ → Cusum F
  swept n start m = record { gp = level up start m; gn = level down start m; armed_at = n }

  alarm-raised :
      (n start m : ℕ) (sign : Direction)
      → alarm (swept n start m) (start + m) (at zs (start + m)) ≡ some sign
      → (n ≤ start + m) × IsAlarm sign start m
  unfolding alarm
  alarm-raised n start m up e = (ground (arith, e), ground (arith, e))
  alarm-raised n start m down e = (ground (arith, e), (ground (arith, e), ground (arith, e)))

  IsQuiet-suc :
      (n start m : ℕ)
      → IsQuiet n start m
      → alarm (swept n start m) (start + m) (at zs (start + m)) ≡ none
      → IsQuiet n start (suc m)
  unfolding alarm
  IsQuiet-suc n start m quiet e k l a = elim (Bool-cases (ltb k m)) [
    | inl q ↦ quiet k (ground arith) a
    | inr q ↦
        let same : m ≡ k = ground arith in
        subst
          (λ i.
            n ≤ start + i
            → (lt (lit 5 0) (level up start (suc i)) ≡ false)
              × (lt (lit 5 0) (level down start (suc i)) ≡ false))
          same (λ b. (ground (arith, e), ground (arith, e))) a
  ]

  next :
      {z : F} (i : ℕ) (rest : List F)
      → ((k : ℕ) → get_elem? (z ∷ rest) k ≡ get_elem? zs (i + k))
      → (k : ℕ) → get_elem? rest k ≡ get_elem? zs (i + 1 + k)
  next i rest h k = h (suc k) ∙ ap (get_elem? zs) (omega arith)

  found :
      (z : F) (rest : List F) (i : ℕ)
      → ((k : ℕ) → get_elem? (z ∷ rest) k ≡ get_elem? zs (i + k))
      → get_elem? zs i ≡ some z
  found z rest i h = ap (get_elem? zs) (omega arith) ∙ sym (h 0)

  at_found : (z : F) (i : ℕ) → get_elem? zs i ≡ some z → at zs i ≡ z
  at_found z i e = rw (at, e) refl

  cusum_loop-AreOnsets :
      (rest : List F) (n start m : ℕ)
      → ((k : ℕ) → get_elem? rest k ≡ get_elem? zs (start + m + k))
      → IsQuiet n start m
      → AreOnsets n start (cusum_loop zs rest (start + m) (swept n start m))
  unfolding cusum_loop cusum_step reported
  cusum_loop-AreOnsets [] n start m h quiet =
      (m, length_of_none zs (start + m) (ap (get_elem? zs) (omega arith) ∙ sym (h 0)), quiet)
  cusum_loop-AreOnsets (z ∷ rest) n start m h quiet =
      subst (λ v. AreOnsets n start (cusum_loop zs (v ∷ rest) (start + m) (swept n start m)))
        (at_found z (start + m) (found z rest (start + m) h))
        (let c = swept n start m in
          let i = start + m in
          elim (Option-cases (alarm c i (at zs i))) [
            | inl q ↦ rw q (
                let along : start + suc m ≡ i + 1 = omega arith in
                subst (λ j. AreOnsets n start (cusum_loop zs rest j (swept n start (suc m)))) along
                  (cusum_loop-AreOnsets rest n start (suc m)
                    (λ k. next i rest h k ∙ ap (get_elem? zs) (omega arith))
                    (IsQuiet-suc n start m quiet q)))
            | inr (sign, q) ↦
                let (armed, raised) = alarm-raised n start m sign q in
                rw q (
                  m,
                  armed,
                  quiet,
                  raised,
                  record {
                    peak = found z rest i h ∙ ap some (sym (at_found z i (found z rest i h)));
                    before = backtrack-le i sign;
                    run = backtrack-run i sign;
                    first = backtrack-first i sign;
                  },
                  let along : i + 1 + 0 ≡ i + 1 = omega arith in
                      subst
                        (λ j.
                          AreOnsets (i + 3) (i + 1)
                            (cusum_loop zs rest j (swept (i + 3) (i + 1) 0)))
                        along
                        (cusum_loop-AreOnsets rest (i + 3) (i + 1) 0
                          (λ k. next i rest h k ∙ ap (get_elem? zs) (omega arith))
                          (λ k l. absurd (omega (arith, l)))),
                )
          ])

get_elem?-drop :
    {A : Type 0} (n : ℕ) (xs : List A) (k : ℕ) → get_elem? (drop n xs) k ≡ get_elem? xs (n + k)
get_elem?-drop zero xs k = ap (get_elem? xs) (omega arith)
get_elem?-drop (suc n) [] k = refl
get_elem?-drop (suc n) (x ∷ xs) k =
    get_elem?-drop n xs k ∙ ap (get_elem? (x ∷ xs)) {x = suc (n + k)} (omega arith)

-- What is reported of a signal: nothing if it is short, and else the onsets of the alarms, with sums that begin
-- at index 12.
abbrev pub AreReported : {F : Type 0} ⦃f : Float F⦄ → Arrays F → List F → List (Onset F) → Type 0
AreReported np x onsets =
    ((length x < 16) × (onsets ≡ [])) ⊎ ((16 ≤ length x) × AreOnsets (z_scores np x) 12 12 onsets)

-- A signal of fewer than 16 samples has no onsets. In any other, each onset belongs to the first
-- sample, from the one on at which the detector is armed, where the upward or else the downward sum
-- of the z-scores exceeds 5, each z-score less half a deviation and each sum never below 0; its
-- direction is that sum's, its peak the z-score there, and its index the first of the unbroken run
-- of samples that move in its direction just before. The sums begin at sample 12 and the detector
-- is armed there; after an alarm they begin anew with the next sample, and it is armed three
-- samples later. No such sample is left out, to the end of the signal.
pub cusum_onsets-AreOnsets :
    {F : Type 0} ⦃f : Float F⦄ (np : Arrays F) (x : List F) → AreReported np x (cusum_onsets np x)
unfolding cusum_onsets
cusum_onsets-AreOnsets np x = elim (Bool-cases (ltb (length x) (warmup + 4))) [
  | inl h ↦ inl (ground (arith, h), rw h refl)
  | inr h ↦ inr (
    ground (arith, h),
    rw h (
        cusum_loop-AreOnsets (z_scores np x) (drop warmup (z_scores np x)) 12 12 0
          (get_elem?-drop warmup (z_scores np x)) (λ k l. absurd (omega (arith, l)))),
  )
]
