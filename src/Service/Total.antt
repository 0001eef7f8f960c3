-- ===== src/Service/Total.antt =====
-- The rounds of `loop` in correlation/service.py come to a service: with enough fuel no loop of the ranking
-- runs out, whatever the aggregator replies, and the service that they come to does not depend on the fuel.
use mathlib.Core.Path.{subst}
use abb_accelerator_aiops.Prelude.{
  ℕ, ◌+◌, ◌≤◌, ◌<◌, ◌≡◌, refl, ap, ◌∙◌, String, Option, none, some, List, [], ◌∷◌, arith, length,
  All, All-of_map, All-at, Dict,
}
use abb_accelerator_aiops.Float.{Float}
use abb_accelerator_aiops.Float.Laws.{IsOrdered, IsRounded}
use abb_accelerator_aiops.Gate.{Edge}
use abb_accelerator_aiops.Graph.{CausalGraph}
use abb_accelerator_aiops.Lagcorr.Light.{AreCoefficients, RoundsWithin}
use abb_accelerator_aiops.Ranking.Ends.{Fades}
use abb_accelerator_aiops.Ranking.Built.{IsDiGraph, IsLight, need}
use abb_accelerator_aiops.Pipeline.{pass_edges, pass_meta, run_pass}
use abb_accelerator_aiops.Pipeline.Result.{run_pass-edges}
use abb_accelerator_aiops.Pipeline.Total.{run_pass_total}
use abb_accelerator_aiops.Pipeline.Witnessed.{pass_edges-AreLight}
use abb_accelerator_aiops.Memory.{MemoryConfig, EdgeRow}
use abb_accelerator_aiops.Memory.Passes.{Memory, Stage, present, observe}
use abb_accelerator_aiops.Memory.Passes.Light.{
  IsLightRow, IsLightMemory, edges-IsLight, observe_until-IsLight,
}
use abb_accelerator_aiops.Memory.Render.{bootstrap_graph, no_graph, stats}
use abb_accelerator_aiops.Memory.Render.Drawn.{drawn-All, held_edges-All}
use abb_accelerator_aiops.Memory.Render.Total.{shown, render_total, render_need}
use abb_accelerator_aiops.Api.{fetched, failed}
use abb_accelerator_aiops.Service.Inputs.{Observed, ServiceConfig, build_inputs}
use abb_accelerator_aiops.Service.{
  Fault, in_pass, in_memory, in_render, passed, bootstrapped, started, pod_names, served, abandoned,
  if_any, Service, Round, Surroundings, pass_input, observed, processed, round_of, loop,
}

-- The surroundings, with fuel.
abbrev pub fueled : {F : Type 0} → Surroundings F → ℕ → Surroundings F
fueled by fuel = record by { fuel = fuel }

module _ {F : Type 0} ⦃f : Float F⦄ (cfg : MemoryConfig F) (svc : ServiceConfig F)
    (by : Surroundings F) (o : IsOrdered F) (l : IsRounded F) (n : ℕ) (fades : Fades F n)
    (pos : 0 < n) (laws : IsDiGraph by.nx) (within : RoundsWithin F)
    (scipy : AreCoefficients by.np.stats) where
  -- A run on fuel comes to one service, whose memory holds correlations, from some fuel on.
  abbrev pub Comes : (ℕ → Option (Service F)) → Type 0
  Comes run =
      (s : Service F) × (enough : ℕ) × ((fuel : ℕ) → enough ≤ fuel → run fuel ≡ some s)
      × IsLightMemory s.memory

  -- What is drawn of light edges and light rows is light.
  shown-IsLight :
      (now : F) (edges : List (Edge F)) (pods : List String) (rows : List (EdgeRow F))
      → All IsLight edges
      → All IsLightRow rows
      → All IsLight (shown cfg by.nx o l n fades laws pos now edges pods rows)
  shown-IsLight now edges pods rows light h = All-of_map IsLight _ _ (
      drawn-All cfg IsLight now edges pods rows light (
        held_edges-All cfg IsLight pods edges rows
          (λ row s d m. within.rounded row.r (All-at IsLightRow rows h row m)) now))

  observed-Comes :
      (mem : Memory F) (i : Observed F) (ts now : F) (graph : CausalGraph F)
      → All IsLight graph.edges
      → IsLightMemory mem
      → Comes (λ fuel. observed cfg svc (fueled by fuel) mem i ts now (some graph))
  unfolding observed observe served
  observed-Comes mem i ts now graph light h =
      let after = observe cfg by.np.quantiles by.digest graph i.vectors (some i.witness) ts mem in
      let rows =
        edges-IsLight cfg within graph.edges (present i.vectors) (some i.witness) ts mem.edge_memory
          light h in
      let pods = pod_names cfg svc by i.vectors in
      let (g, k) =
        render_total cfg by.nx o l n fades laws pos now graph pods after.0.edge_memory
          (shown-IsLight now graph.edges pods after.0.edge_memory light rows) in
      (
        record {
          memory = after.0;
          graph =
              passed (pass_meta by.np (pass_input cfg svc by mem i)) g after.1
                (stats after.0.edge_memory after.0.library.cases by.open_mistakes);
        },
        render_need cfg by.nx o l n fades laws pos now graph.edges pods after.0.edge_memory,
        λ fuel enough. rw (k fuel enough) refl,
        rows,
      )

  abandoned-Comes :
      (e : String) (mem : Memory F) (i : Observed F) (ts : F) (stage : Option Stage)
      (graph : CausalGraph F)
      → All IsLight graph.edges
      → IsLightMemory mem
      → Comes (λ fuel. abandoned cfg svc (fueled by fuel) e mem i ts stage (some graph))
  unfolding abandoned observe
  abandoned-Comes e mem i ts (some stage) graph light h = (
    _,
    0,
    λ _ _. refl,
    observe_until-IsLight cfg within by.np.quantiles by.digest stage graph i.vectors
        (some i.witness) ts mem light h,
  )
  abandoned-Comes e mem i ts none graph light h = (
    _,
    0,
    λ _ _. refl,
    edges-IsLight cfg within graph.edges (present i.vectors) (some i.witness) ts mem.edge_memory
        light h,
  )

  -- A step that comes to a service for the graph of a pass does so for the pass.
  of_pass :
      (mem : Memory F) (i : Observed F) (step : ℕ → Option (CausalGraph F) → Option (Service F))
      → ((graph : CausalGraph F) → All IsLight graph.edges → Comes (λ fuel. step fuel (some graph)))
      → Comes (λ fuel. step fuel (run_pass by.np (pass_input cfg svc by mem i) by.nx fuel))
  of_pass mem i step comes =
      let input = pass_input cfg svc by mem i in
      let light = pass_edges-AreLight by.np input within scipy in
      let enough = need n (length (pass_edges by.np input)) in
      let (graph, k) = run_pass_total by.nx by.np input o l n fades laws pos light in
      let made = run_pass-edges by.np input by.nx enough graph (k enough (omega arith)) in
      let (s, more, k', h) = comes graph (subst (All IsLight) made light) in
      (
        s,
        enough + more,
        λ fuel le. ap (step fuel) (k fuel (omega (arith, le))) ∙ k' fuel (omega (arith, le)),
        h,
      )

  if_any-Comes :
      (vectors : Dict (List F)) (s : Service F) (run : ℕ → Option (Service F))
      → IsLightMemory s.memory
      → Comes run
      → Comes (λ fuel. if_any cfg svc (fueled by fuel) vectors s (run fuel))
  unfolding if_any
  if_any-Comes [] s run h comes = (s, 0, λ _ _. refl, h)
  if_any-Comes (_ ∷ _) s run h comes = comes

  processed-Comes :
      (s : Service F) (i : Observed F) (ts now : F) (fault : Option Fault)
      → IsLightMemory s.memory
      → Comes (λ fuel. processed cfg svc (fueled by fuel) s i ts now fault)
  unfolding processed
  processed-Comes s i ts now none h = if_any-Comes i.vectors s _ h (
      of_pass s.memory i (λ fuel. observed cfg svc (fueled by fuel) s.memory i ts now)
        (λ graph light. observed-Comes s.memory i ts now graph light h))
  processed-Comes s i ts now (some (in_pass e)) h = (_, 0, λ _ _. refl, h)
  processed-Comes s i ts now (some (in_memory stage e)) h = if_any-Comes i.vectors s _ h (
      of_pass s.memory i (λ fuel. abandoned cfg svc (fueled by fuel) e s.memory i ts (some stage))
        (λ graph light. abandoned-Comes e s.memory i ts (some stage) graph light h))
  processed-Comes s i ts now (some (in_render e)) h = if_any-Comes i.vectors s _ h (
      of_pass s.memory i (λ fuel. abandoned cfg svc (fueled by fuel) e s.memory i ts none)
        (λ graph light. abandoned-Comes e s.memory i ts none graph light h))

  round_of-Comes :
      (s : Service F) (r : Round F)
      → IsLightMemory s.memory
      → Comes (λ fuel. round_of cfg svc (fueled by fuel) s r.window r.events r.ts r.now r.fault)
  unfolding round_of
  round_of-Comes s r h =
      elim r.window
        as (λ w.
          Comes (λ fuel. round_of cfg svc (fueled by fuel) s w r.events r.ts r.now r.fault)) [
            | failed e ↦ (_, 0, λ _ _. refl, h)
            | fetched window ↦
                elim r.events
                  as (λ v. Comes (λ fuel.
                    round_of cfg svc (fueled by fuel) s (fetched window) v r.ts r.now r.fault)) [
                      | failed e ↦ (_, 0, λ _ _. refl, h)
                      | fetched events ↦
                          processed-Comes s (build_inputs svc by.np.arrays by.epoch window events)
                            r.ts r.now r.fault h
                    ]
          ]

  rounds-Comes :
      (rounds : List (Round F)) (s : Service F)
      → IsLightMemory s.memory
      → Comes (λ fuel. loop cfg svc (fueled by fuel) rounds (some s))
  unfolding loop
  rounds-Comes [] s h = (s, 0, λ _ _. refl, h)
  rounds-Comes (r ∷ rounds) s h =
      let (s', enough, k, h') = round_of-Comes s r h in
      let (s'', more, k', h'') = rounds-Comes rounds s' h' in
      (
        s'',
        enough + more,
        λ fuel le.
            ap (loop cfg svc (fueled by fuel) rounds) (k fuel (omega (arith, le)))
            ∙ k' fuel (omega (arith, le)),
        h'',
      )

  started-Comes :
      (ts : F) (mem : Memory F)
      → IsLightMemory mem
      → Comes (λ fuel. started cfg svc (fueled by fuel) ts mem)
  unfolding started bootstrap_graph
  started-Comes ts mem h =
      let (g, k) =
        render_total cfg by.nx o l n fades laws pos ts (no_graph cfg by.nx) [] mem.edge_memory
          (shown-IsLight ts [] [] mem.edge_memory tt h) in
      (
        record {
          memory = mem;
          graph = bootstrapped g (stats mem.edge_memory mem.library.cases by.open_mistakes);
        },
        render_need cfg by.nx o l n fades laws pos ts [] [] mem.edge_memory,
        λ fuel le. let e = k fuel le in ground (arith, e),
        h,
      )

  -- Whatever the aggregator replies in the rounds and whichever of them an exception ends, there
  -- is one service that the rounds come to with any fuel from some amount on, if the memory at
  -- the start holds correlations of at most 1. It needs that networkx builds graphs as
  -- `IsDiGraph` has it, that the coefficients of scipy are at most 1, that rounding respects
  -- that, that n fades fall below the cut, n being positive, and that the arithmetic obeys
  -- `IsOrdered` and `IsRounded`.
  pub loop_ends :
      (rounds : List (Round F)) (ts : F) (mem : Memory F)
      → IsLightMemory mem
      → (s : Service F) × (enough : ℕ) × ((fuel : ℕ)
          → enough ≤ fuel
          → loop cfg svc (fueled by fuel) rounds (started cfg svc (fueled by fuel) ts mem) ≡ some s)
  loop_ends rounds ts mem h =
      let (s, enough, k, h') = started-Comes ts mem h in
      let (s', more, k', _) = rounds-Comes rounds s h' in
      (
        s',
        enough + more,
        λ fuel le.
            ap (loop cfg svc (fueled by fuel) rounds) (k fuel (omega (arith, le)))
            ∙ k' fuel (omega (arith, le)),
      )
