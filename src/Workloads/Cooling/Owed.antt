-- ===== src/Workloads/Cooling/Owed.antt =====
-- The phases of cooling-monitor: how far the next storm is, and how many are owed.
use abb_accelerator_aiops.Prelude.{
  ℕ, ◌+◌, ◌≤◌, ◌<◌, ◌≡◌, ◌⊎◌, refl, Bool, true, false, arith, inl, inr,
}
use abb_accelerator_aiops.Workloads.Cooling.{
  Phase, journaling, testing, seen, removed, flushing, ended, Cooling, is_running, advance,
}

-- How many steps a storm is away, at most, when the flag is there or the loop is about to flush.
abbrev pub distance : Phase → ℕ
distance removed = 1
distance seen = 2
distance testing = 3
distance journaling = 4
distance flushing = 5
distance ended = 5

abbrev pub is_armed : Bool → Phase → Bool
is_armed flag ended = false
is_armed true phase = true
is_armed false removed = true
is_armed false _ = false

-- The storms to come of what is armed already.
abbrev pub owed : Bool → Phase → ℕ
owed true removed = 2
owed false removed = 1
owed flag ended = 0
owed true _ = 1
owed false _ = 0

abbrev pub at : Bool → Phase → ℕ → Cooling
at flag phase storms = record { flag = flag; phase = phase; storms = storms }

pub armed_of_running : (phase : Phase) → is_running phase ≡ true → is_armed true phase ≡ true
armed_of_running journaling h = refl
armed_of_running testing h = refl
armed_of_running seen h = refl
armed_of_running removed h = refl
armed_of_running flushing h = refl
armed_of_running ended h = h

-- With the flag there, what is armed stays so.
pub armed_again :
    (flag : Bool) (phase : Phase) → is_armed flag phase ≡ true → is_armed true phase ≡ true
armed_again true phase h = h
armed_again false removed h = refl
armed_again false journaling h = cc
armed_again false testing h = cc
armed_again false seen h = cc
armed_again false flushing h = cc
armed_again false ended h = cc

-- A step of the loop starts the storm or comes closer to it.
pub advance-nearer :
    (flag : Bool) (phase : Phase) (storms : ℕ)
    → is_armed flag phase ≡ true
    → let s = advance phase (at flag phase storms) in
      (storms < s.storms) ⊎ ((is_armed s.flag s.phase ≡ true) × (distance s.phase < distance phase))
unfolding advance
advance-nearer flag removed n a = inl (omega arith)
advance-nearer true seen n a = inr (refl, omega arith)
advance-nearer false seen n a = cc
advance-nearer flag ended n a = cc
advance-nearer true testing n a = inr (refl, omega arith)
advance-nearer false testing n a = cc
advance-nearer true journaling n a = inr (refl, omega arith)
advance-nearer false journaling n a = cc
advance-nearer true flushing n a = inr (refl, omega arith)
advance-nearer false flushing n a = cc

-- A step owes no more than before; a storm that starts is one that was owed.
pub advance-owed :
    (flag : Bool) (phase : Phase) (storms : ℕ)
    → let s = advance phase (at flag phase storms) in
      s.storms + owed s.flag s.phase ≤ storms + owed flag phase
unfolding advance
advance-owed true journaling n = omega arith
advance-owed false journaling n = omega arith
advance-owed true testing n = omega arith
advance-owed false testing n = omega arith
advance-owed true seen n = omega arith
advance-owed false seen n = omega arith
advance-owed true removed n = omega arith
advance-owed false removed n = omega arith
advance-owed true flushing n = omega arith
advance-owed false flushing n = omega arith
advance-owed flag ended n = omega arith

pub advance-storms :
    (flag : Bool) (phase : Phase) (storms : ℕ)
    → storms ≤ (advance phase (at flag phase storms)).storms
unfolding advance
advance-storms flag journaling n = omega arith
advance-storms flag testing n = omega arith
advance-storms flag seen n = omega arith
advance-storms flag removed n = omega arith
advance-storms flag flushing n = omega arith
advance-storms flag ended n = omega arith

pub flag-owed : (flag : Bool) (phase : Phase) → owed true phase ≤ 1 + owed flag phase
flag-owed true journaling = omega arith
flag-owed false journaling = omega arith
flag-owed true testing = omega arith
flag-owed false testing = omega arith
flag-owed true seen = omega arith
flag-owed false seen = omega arith
flag-owed true removed = omega arith
flag-owed false removed = omega arith
flag-owed true flushing = omega arith
flag-owed false flushing = omega arith
flag-owed flag ended = omega arith

pub clear-owed : (flag : Bool) (phase : Phase) → owed false phase ≤ owed flag phase
clear-owed true journaling = omega arith
clear-owed true testing = omega arith
clear-owed true seen = omega arith
clear-owed true removed = omega arith
clear-owed true flushing = omega arith
clear-owed flag ended = omega arith
clear-owed false phase = omega arith

pub distance-pos : (phase : Phase) → 0 < distance phase
distance-pos journaling = omega arith
distance-pos testing = omega arith
distance-pos seen = omega arith
distance-pos removed = omega arith
distance-pos flushing = omega arith
distance-pos ended = omega arith

pub distance-le : (phase : Phase) → distance phase ≤ 5
distance-le journaling = omega arith
distance-le testing = omega arith
distance-le seen = omega arith
distance-le removed = omega arith
distance-le flushing = omega arith
distance-le ended = omega arith
