-- ===== src/Workloads/Cooling/Armed.antt =====
-- A flush of cooling-monitor is answered by a storm, if the flag is left to the loop, and no storm comes without
-- a flag.
use mathlib.Core.Path.{subst}
use abb_accelerator_aiops.Prelude.{
  ℕ, suc, ◌+◌, ◌≤◌, ◌<◌, ◌++◌, ◌≡◌, ◌⊎◌, refl, ap, sym, Bool, true, false, String, List, [], ◌∷◌,
  arith, Bool-cases, inl, inr, if◌then◌else◌,
}
use abb_accelerator_aiops.Workloads.Cooling.{
  Cooling, booted, is_running, is_flush, do_post, advance, Happening, post, touch, clear, step,
  happen, run,
}
use abb_accelerator_aiops.Workloads.Cooling.Owed.{
  distance, is_armed, owed, at, armed_of_running, armed_again, advance-nearer, advance-owed,
  advance-storms, flag-owed, clear-owed, distance-pos, distance-le,
}

-- The steps of the loop among what happens.
abbrev pub steps : List Happening → ℕ
steps [] = 0
steps (step ∷ hs) = suc (steps hs)
steps (_ ∷ hs) = steps hs

-- How often something asks for a storm: the flushes and the touches of the flag.
abbrev pub asks : List Happening → ℕ
asks [] = 0
asks (post path ∷ hs) = (if is_flush path then 1 else 0) + asks hs
asks (touch ∷ hs) = 1 + asks hs
asks (_ ∷ hs) = asks hs

-- Nothing but the loop removes the flag.
abbrev pub is_calm : List Happening → Bool
is_calm [] = true
is_calm (clear ∷ hs) = false
is_calm (_ ∷ hs) = is_calm hs

-- A POST writes the flag, or changes nothing.
post-cases :
    (path : String) (s : Cooling)
    → ((is_flush path ≡ true) × (happen (post path) s ≡ at true s.phase s.storms))
      ⊎ (happen (post path) s ≡ s)
unfolding happen do_post
post-cases path s = elim (Bool-cases (is_running s.phase)) [
  | inl r ↦ elim (Bool-cases (is_flush path)) [
    | inl e ↦ inl (e, rw (r, e, happen) refl)
    | inr e ↦ inr (rw (r, e, happen) refl)
  ]
  | inr r ↦ inr (rw (r, happen) refl)
]

flush-at :
    (path : String) (s : Cooling)
    → is_running s.phase ≡ true
    → is_flush path ≡ true
    → happen (post path) s ≡ at true s.phase s.storms
unfolding happen do_post
flush-at path s r e = rw (r, e, happen) refl

run-append : (hs ks : List Happening) (s : Cooling) → run (hs ++ ks) s ≡ run ks (run hs s)
unfolding run
run-append [] ks s = refl
run-append (h ∷ hs) ks s = run-append hs ks (happen h s)

storms-run : (hs : List Happening) (s : Cooling) → s.storms ≤ (run hs s).storms
unfolding run happen
storms-run [] s = omega arith
storms-run (post path ∷ hs) s =
    let later = storms-run hs (happen (post path) s) in
    elim (post-cases path s) [
      | inl (_, e) ↦ omega (arith, later, ap (λ (t : Cooling). t.storms) e)
      | inr e ↦ omega (arith, later, ap (λ (t : Cooling). t.storms) e)
    ]
storms-run (touch ∷ hs) s = storms-run hs (at true s.phase s.storms)
storms-run (clear ∷ hs) s = storms-run hs (at false s.phase s.storms)
storms-run (step ∷ hs) s =
    omega (arith, storms-run hs (advance s.phase s), advance-storms s.flag s.phase s.storms)

-- While the loop goes on and nothing else removes the flag, what is armed starts.
run-starts :
    (hs : List Happening) (s : Cooling)
    → is_calm hs ≡ true
    → is_armed s.flag s.phase ≡ true
    → distance s.phase ≤ steps hs
    → s.storms < (run hs s).storms
unfolding run happen
run-starts [] s c a d = absurd (omega (arith, distance-pos s.phase, d))
run-starts (post path ∷ hs) s c a d = elim (post-cases path s) [
  | inl (_, e) ↦
      subst (λ t. s.storms < (run hs t).storms) (sym e)
        (run-starts hs (at true s.phase s.storms) c (armed_again s.flag s.phase a) d)
  | inr e ↦ subst (λ t. s.storms < (run hs t).storms) (sym e) (run-starts hs s c a d)
]
run-starts (touch ∷ hs) s c a d =
    run-starts hs (at true s.phase s.storms) c (armed_again s.flag s.phase a) d
run-starts (clear ∷ hs) s c a d = cc
run-starts (step ∷ hs) s c a d = elim (advance-nearer s.flag s.phase s.storms a) [
  | inl l ↦ omega (arith, l, storms-run hs (advance s.phase s))
  | inr (a', l) ↦ omega (
    arith,
    run-starts hs (advance s.phase s) c a' (omega (arith, d, l)),
    advance-storms s.flag s.phase s.storms,
  )
]

-- From `t` on the storms and what is owed are at most what `s` and what is asked for account for.
abbrev Settles : List Happening → Cooling → List Happening → Cooling → Type 0
Settles hs s all t =
    (run hs t).storms + owed (run hs t).flag (run hs t).phase
    ≤ s.storms + (owed s.flag s.phase + asks all)

storms-owed : (hs : List Happening) (s : Cooling) → Settles hs s hs s
unfolding run happen
storms-owed [] s = omega arith
storms-owed (post path ∷ hs) s = elim (post-cases path s) [
  | inl (f, e) ↦
      subst (Settles hs s (post path ∷ hs)) (sym e)
        (ground (arith, storms-owed hs (at true s.phase s.storms), flag-owed s.flag s.phase, f))
  | inr e ↦ subst (Settles hs s (post path ∷ hs)) (sym e) (omega (arith, storms-owed hs s))
]
storms-owed (touch ∷ hs) s =
    omega (arith, storms-owed hs (at true s.phase s.storms), flag-owed s.flag s.phase)
storms-owed (clear ∷ hs) s =
    omega (arith, storms-owed hs (at false s.phase s.storms), clear-owed s.flag s.phase)
storms-owed (step ∷ hs) s =
    omega (arith, storms-owed hs (advance s.phase s), advance-owed s.flag s.phase s.storms)

-- A POST that the handler answers, and the loop after it.
pub storms-do_post :
    (path : String) (after : List Happening) (s : Cooling)
    → is_flush path ≡ true
    → is_running s.phase ≡ true
    → is_calm after ≡ true
    → 5 ≤ steps after
    → s.storms < (run after (do_post path s).0).storms
unfolding do_post
storms-do_post path after s f r c h =
    rw (f, do_post)
      (run-starts after (at true s.phase s.storms) c (armed_of_running s.phase r)
        (omega (arith, distance-le s.phase, h)))

storms-flush :
    (path : String) (after : List Happening) (s : Cooling)
    → is_flush path ≡ true
    → is_running s.phase ≡ true
    → is_calm after ≡ true
    → 5 ≤ steps after
    → s.storms < (run (post path ∷ after) s).storms
unfolding run
storms-flush path after s f r c h =
    subst (λ t. s.storms < (run after t).storms) (sym (flush-at path s r f))
      (run-starts after (at true s.phase s.storms) c (armed_of_running s.phase r)
        (omega (arith, distance-le s.phase, h)))

-- When a POST to the flush path arrives, after anything that happened since the start and while the
-- main loop runs, and the loop makes five more steps, with any requests and touches of the flag
-- between them but no removal of it by another process, fio is started once more at least. All in
-- all it is started at most as often as the flag was there at the start, was touched, or a POST to
-- the flush path arrived.
pub run-Answers :
    (flag : Bool) (before after : List Happening) (path : String)
    → is_flush path ≡ true
    → is_running (run before (booted flag)).phase ≡ true
    → is_calm after ≡ true
    → 5 ≤ steps after
    → let all = before ++ post path ∷ after in
      ((run before (booted flag)).storms < (run all (booted flag)).storms)
      × ((run all (booted flag)).storms ≤ (if flag then 1 else 0) + asks all)
run-Answers flag before after path f r c h =
    let all = before ++ post path ∷ after in
    (
      subst (λ (t : Cooling). (run before (booted flag)).storms < t.storms)
          (sym (run-append before (post path ∷ after) (booted flag)))
          (storms-flush path after (run before (booted flag)) f r c h),
      ground (arith, storms-owed all (booted flag)),
    )
