-- ===== src/Pipeline/Events.antt =====
-- The first half of `run_pass` in correlation/engine/pipeline.py: which pods are disturbed, and when.
use abb_accelerator_aiops.Prelude.{
  ℕ, ◌+◌, ◌-◌, ◌/◌, Bool, true, false, not, ◌&&◌, String, str_eq, Option, none, some, List, [], ◌∷◌,
  ◌++◌, length, filter, any, take, drop, ltb, ◌==◌, if◌then◌else◌, Dict, get,
}
use abb_accelerator_aiops.Float.{Float, lit, ◌⊗◌, ◌⊘◌, neg, le, lt, abs, min}
use abb_accelerator_aiops.Gate.{Witness, couples}
use abb_accelerator_aiops.Graph.{Finding}
use abb_accelerator_aiops.Detectors.{Arrays, Onset, cusum_onsets, classify}
use abb_accelerator_aiops.Memory.Baselines.{Quantiles}

-- An entry of `raw_onsets`, with the vector of its pod; the onsets are never empty.
pub record Disturbed (F : Type 0) : Type 0 where
  pub pod : String
  pub vector : List F
  pub first : Onset F
  pub others : List (Onset F)

-- `peak`: the strongest z-score and the index of its onset.
pub record Centre (F : Type 0) : Type 0 where
  pub best_z : F
  pub center_idx : Option ℕ

-- `abs(i - j)` of indices
abbrev distance : ℕ → ℕ → ℕ
distance i j = (i - j) + (j - i)

module _ {F : Type 0} ⦃f : Float F⦄ where
  -- `[o for o in cusum_onsets(vec) if abs(o["zpeak"]) >= 3.0]`
  unfoldable pub strong_onsets : Arrays F → List F → List (Onset F)
  unfolding cusum_onsets
  strong_onsets np vec = filter (λ (o : Onset F). le (lit 3 0) (abs o.zpeak)) (cusum_onsets np vec)

  -- A pod whose 90th percentile is within its band, or whose band is not learned yet, is passed over.
  -- Without baselines none is.
  is_calm : Quantiles F → Option (Dict (Option F)) → String → List F → Bool
  is_calm np none pod vec = false
  is_calm np (some baselines) pod vec = elim (get pod baselines) [
    | none ↦ true
    | some thr ↦ elim thr [ none ↦ true | some t ↦ le (np.percentile_90 vec) t ]
  ]

  entry_of : Bool → String → List F → List (Onset F) → List (Disturbed F)
  entry_of calm pod vec [] = []
  entry_of calm pod vec (o ∷ ons) =
      if calm then [] else record { pod = pod; vector = vec; first = o; others = ons } ∷ []

  unfoldable pub raw_onsets :
      Arrays F → Quantiles F → Option (Dict (Option F)) → Dict (List F) → List (Disturbed F)
  unfolding strong_onsets is_calm entry_of
  raw_onsets np q baselines [] = []
  raw_onsets np q baselines ((pod, vec) ∷ vectors) =
      entry_of (is_calm q baselines pod vec) pod vec (strong_onsets np vec)
      ++ raw_onsets np q baselines vectors

  -- The entries whose pod is coupled to another disturbed pod.
  abbrev coupled_of : Witness → List (Disturbed F) → List (Disturbed F)
  coupled_of w raw =
      filter
        (λ (p : Disturbed F).
          any (λ (q : Disturbed F). not (str_eq q.pod p.pod) && couples w p.pod q.pod) raw)
        raw

  -- `max(ons, key=lambda o: abs(o["zpeak"]))`
  strongest_onset : Onset F → List (Onset F) → Onset F
  strongest_onset best [] = best
  strongest_onset best (o ∷ ons) =
      strongest_onset (if lt (abs best.zpeak) (abs o.zpeak) then o else best) ons

  centre_from : Centre F → List (Disturbed F) → Centre F
  unfolding strongest_onset
  centre_from c [] = c
  centre_from c (p ∷ raw) =
      let o = strongest_onset p.first p.others in
      centre_from
        (if lt c.best_z (abs o.zpeak)
          then record { best_z = abs o.zpeak; center_idx = some o.idx }
          else c)
        raw

  -- The event's centre: the strongest onset of the coupled pods, and failing any, of all pods.
  unfoldable pub centre_of : Witness → List (Disturbed F) → Option ℕ
  unfolding centre_from
  centre_of w raw =
      let start : Centre F = record { best_z = neg (lit 1 0); center_idx = none } in
      let c : Centre F = elim (coupled_of w raw) [
        | [] ↦ centre_from start raw
        | p ∷ ps ↦ centre_from start (p ∷ ps)
      ] in
      c.center_idx

  -- `min(ons, key=lambda o: abs(o["idx"] - center_idx))`
  nearest_onset : ℕ → Onset F → List (Onset F) → Onset F
  nearest_onset i best [] = best
  nearest_onset i best (o ∷ ons) =
      nearest_onset i (if ltb (distance o.idx i) (distance best.idx i) then o else best) ons

  -- The onset nearest the centre, and the first without a centre.
  unfoldable pub event_of : Option ℕ → Onset F → List (Onset F) → Onset F
  unfolding nearest_onset
  event_of none first others = first
  event_of (some i) first others = nearest_onset i first others

  -- `ev["idx"] * DT_S`
  abbrev pub seconds : ℕ → F
  seconds idx = lit idx 0 ⊗ lit 5 0

  -- The entry of `findings` for a disturbed pod.
  unfoldable pub finding_of : Arrays F → Dict F → Option ℕ → Disturbed F → Finding F
  unfolding event_of classify
  finding_of np caps centre p =
      let ev = event_of centre p.first p.others in
      record {
        pod = p.pod;
        shape = classify np p.vector ev.idx (get p.pod caps);
        onset_s = seconds ev.idx;
        severity = min (abs ev.zpeak ⊘ lit 10 0) (lit 1 0);
        n_onsets = length (p.first ∷ p.others);
      }

  write_onset : Option ℕ → String → List (Onset F) → Dict F
  unfolding event_of
  write_onset centre pod [] = []
  write_onset centre pod (o ∷ ons) = let ev = event_of centre o ons in (pod, seconds ev.idx) ∷ []

  -- `write_onset_s`
  unfoldable pub write_onsets : Arrays F → Option ℕ → Dict (List F) → Dict F
  unfolding write_onset strong_onsets
  write_onsets np centre [] = []
  write_onsets np centre ((pod, wv) ∷ vectors) =
      write_onset centre pod (strong_onsets np wv) ++ write_onsets np centre vectors

  -- The slice around the event: `window` is set and there is an event, or everything.
  unfoldable pub slice : Option ℕ → Option ℕ → ℕ → List F → List F
  slice (some window) (some centre) n v =
      let from_centre = centre - window / 3 in
      let lo = if ltb (n - window) from_centre then n - window else from_centre in
      if window == 0 then v else take window (drop lo v)
  slice _ _ n v = v
