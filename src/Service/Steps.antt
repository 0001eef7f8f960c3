-- ===== src/Service/Steps.antt =====
-- The rounds of `loop` in correlation/service.py and the memory: what an outage of the aggregator does to it.
use abb_accelerator_aiops.Prelude.{
  ◌≡◌, refl, ap, ◌∙◌, Bool, true, false, Dict, Option, none, some, List, [], ◌∷◌, arith, filter,
  Bool-cases, inl, inr,
}
use abb_accelerator_aiops.Float.{Float}
use abb_accelerator_aiops.Pipeline.{run_pass}
use abb_accelerator_aiops.Memory.{MemoryConfig}
use abb_accelerator_aiops.Memory.Passes.{Memory}
use abb_accelerator_aiops.Window.{Window}
use abb_accelerator_aiops.Api.{Fetched, fetched, failed}
use abb_accelerator_aiops.Service.Inputs.{Event, Observed, ServiceConfig, build_inputs}
use abb_accelerator_aiops.Service.{
  Fault, in_pass, in_memory, in_render, abandoned, if_any, Service, Round, Surroundings, pass_input,
  observed, processed, round_of, loop,
}

module _ {F : Type 0} ⦃f : Float F⦄ (cfg : MemoryConfig F) (svc : ServiceConfig F)
    (by : Surroundings F) where
  -- Both replies of the aggregator came.
  abbrev pub came : {A B : Type 0} → Fetched A → Fetched B → Bool
  came (fetched _) (fetched _) = true
  came _ _ = false

  abbrev pub is_fetched : Round F → Bool
  is_fetched r = came r.window r.events

  abbrev pub memory_of : Option (Service F) → Option (Memory F)
  memory_of none = none
  memory_of (some s) = some s.memory

  if_any-memory :
      (vectors : Dict (List F)) (s t : Service F) (s' t' : Option (Service F))
      → s.memory ≡ t.memory
      → memory_of s' ≡ memory_of t'
      → memory_of (if_any cfg svc by vectors s s') ≡ memory_of (if_any cfg svc by vectors t t')
  unfolding if_any
  if_any-memory [] s t s' t' h k = ap some h
  if_any-memory (_ ∷ _) s t s' t' h k = k

  processed-memory :
      (s t : Service F) (i : Observed F) (ts now : F) (fault : Option Fault)
      → s.memory ≡ t.memory
      → memory_of (processed cfg svc by s i ts now fault)
        ≡ memory_of (processed cfg svc by t i ts now fault)
  unfolding processed
  processed-memory s t i ts now none h = if_any-memory i.vectors s t _ _ h (
      ap
        (λ m. memory_of (
          observed cfg svc by m i ts now
            (run_pass by.np (pass_input cfg svc by m i) by.nx by.fuel)))
        h)
  processed-memory s t i ts now (some (in_pass e)) h = ap some h
  processed-memory s t i ts now (some (in_memory stage e)) h = if_any-memory i.vectors s t _ _ h (
      ap
        (λ m. memory_of (
          abandoned cfg svc by e m i ts (some stage)
            (run_pass by.np (pass_input cfg svc by m i) by.nx by.fuel)))
        h)
  processed-memory s t i ts now (some (in_render e)) h = if_any-memory i.vectors s t _ _ h (
      ap
        (λ m. memory_of (
          abandoned cfg svc by e m i ts none
            (run_pass by.np (pass_input cfg svc by m i) by.nx by.fuel)))
        h)

  -- A round reads the memory and not the graph that is served.
  round_of-memory :
      (s t : Service F) (window : Fetched (Window F)) (events : Fetched (List Event)) (ts now : F)
      (fault : Option Fault)
      → s.memory ≡ t.memory
      → memory_of (round_of cfg svc by s window events ts now fault)
        ≡ memory_of (round_of cfg svc by t window events ts now fault)
  unfolding round_of
  round_of-memory s t (failed e) events ts now fault h = ap some h
  round_of-memory s t (fetched window) (failed e) ts now fault h = ap some h
  round_of-memory s t (fetched window) (fetched events) ts now fault h =
      processed-memory s t (build_inputs svc by.np.arrays by.epoch window events) ts now fault h

  round_of_outage :
      (s : Service F) (window : Fetched (Window F)) (events : Fetched (List Event)) (ts now : F)
      (fault : Option Fault)
      → came window events ≡ false
      → memory_of (round_of cfg svc by s window events ts now fault) ≡ some s.memory
  unfolding round_of
  round_of_outage s (failed e) events ts now fault h = refl
  round_of_outage s (fetched window) (failed e) ts now fault h = refl
  round_of_outage s (fetched window) (fetched events) ts now fault h = cc

  loop_from_outages :
      (rounds : List (Round F)) (s t : Option (Service F))
      → memory_of s ≡ memory_of t
      → memory_of (loop cfg svc by rounds s)
        ≡ memory_of (loop cfg svc by (filter is_fetched rounds) t)
  unfolding loop
  loop_from_outages rounds none none h = refl
  loop_from_outages rounds none (some t) h = cc
  loop_from_outages rounds (some s) none h = cc
  loop_from_outages [] (some s) (some t) h = h
  loop_from_outages (r ∷ rounds) (some s) (some t) h = elim (Bool-cases (is_fetched r)) [
    | inl e ↦ rw e (
        loop_from_outages rounds _ _
          (round_of-memory s t r.window r.events r.ts r.now r.fault (ground (arith, h))))
    | inr e ↦ rw e (
        loop_from_outages rounds _ (some t)
          (round_of_outage s r.window r.events r.ts r.now r.fault e ∙ h))
  ]

  -- The memory after any rounds of the loop is the memory after those of them in which both
  -- requests succeed, with or without an exception later in the round; with either, a loop of the
  -- ranking runs out of fuel in both cases or in neither.
  pub loop_outages :
      (rounds : List (Round F)) (s : Service F)
      → memory_of (loop cfg svc by rounds (some s))
        ≡ memory_of (loop cfg svc by (filter is_fetched rounds) (some s))
  loop_outages rounds s = loop_from_outages rounds (some s) (some s) refl
