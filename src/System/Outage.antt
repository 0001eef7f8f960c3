-- ===== src/System/Outage.antt =====
-- What the gateway's template, _template_narrative of api/main.py, says after a round of
-- correlation/service.py in which the aggregator was not reached.
use abb_accelerator_aiops.Prelude.{ℕ, ◌≡◌, refl, String, some, ◌⊎◌, inl, inr}
use abb_accelerator_aiops.Float.{Float}
use abb_accelerator_aiops.Memory.{MemoryConfig}
use abb_accelerator_aiops.Window.{Window}
use abb_accelerator_aiops.Api.{fetched, failed, Verdict, ok, graph, normalized}
use abb_accelerator_aiops.Api.Template.{template_narrative, steady_state, number}
use abb_accelerator_aiops.Service.Inputs.{ServiceConfig}
use abb_accelerator_aiops.Service.{Service, Round, Surroundings, broken, round_of}
use abb_accelerator_aiops.System.{ask, read_graph}
use abb_accelerator_aiops.System.Stored.{asked}

module _ {F : Type 0} ⦃f : Float F⦄ (refusal : ℕ → String → String) (cfg : MemoryConfig F)
    (svc : ServiceConfig F) (by : Surroundings F) (default_signal : String) where
  -- The service keeps its memory, and the gateway calls what it serves a steady state.
  abbrev pub IsCalledSteady : Service F → Service F → Type 0
  IsCalledSteady s s' =
      (s'.memory ≡ s.memory)
      × (g : Verdict F) × (graph (ask refusal svc.signal s') ≡ ok g)
      × (template_narrative default_signal g
          ≡ "Steady state: no causal contention detected across 0 workloads.")

  broken-IsCalledSteady :
      (s : Service F) (e : String) → IsCalledSteady s (record s { graph = broken e })
  unfolding template_narrative normalized read_graph steady_state number
  broken-IsCalledSteady s e = (
    refl,
    normalized (read_graph svc.signal (broken e)),
    asked refusal svc (record s { graph = broken e }),
    refl,
  )

  -- After a round in which the window or the events were not fetched, the memory is as it was,
  -- and the gateway's `graph` answers with a verdict for which the template says that no causal
  -- contention was detected across 0 workloads, in the words of a steady state.
  pub outage-IsCalledSteady :
      (s : Service F) (r : Round F) (e : String)
      → (r.window ≡ failed e) ⊎ ((w : Window F) × (r.window ≡ fetched w) × (r.events ≡ failed e))
      → (s' : Service F) × (round_of cfg svc by s r.window r.events r.ts r.now r.fault ≡ some s')
        × IsCalledSteady s s'
  unfolding round_of
  outage-IsCalledSteady s r e (inl down) =
      (record s { graph = broken e }, rw down refl, broken-IsCalledSteady s e)
  outage-IsCalledSteady s r e (inr (w, up, down)) =
      (record s { graph = broken e }, rw (up, down) refl, broken-IsCalledSteady s e)
