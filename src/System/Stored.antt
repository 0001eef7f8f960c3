-- ===== src/System/Stored.antt =====
-- What `graph` of api/main.py answers while correlation/service.py runs.
use mathlib.Core.Path.{subst}
use abb_accelerator_aiops.Prelude.{
  ℕ, ◌≤◌, ◌<◌, ◌≡◌, refl, true, String, some, List, map, arith, has, All, All-of_map,
}
use abb_accelerator_aiops.Float.{Float}
use abb_accelerator_aiops.Float.Laws.{IsOrdered, IsRounded}
use abb_accelerator_aiops.Names.{stable_workload}
use abb_accelerator_aiops.Lagcorr.Light.{AreCoefficients, RoundsWithin}
use abb_accelerator_aiops.Ranking.Ends.{Fades}
use abb_accelerator_aiops.Ranking.Built.{IsDiGraph}
use abb_accelerator_aiops.Memory.{MemoryConfig}
use abb_accelerator_aiops.Memory.Passes.{Memory}
use abb_accelerator_aiops.Memory.Render.{RenderedEdge}
use abb_accelerator_aiops.Api.{Link, Verdict, ok, workload, graph, normalized}
use abb_accelerator_aiops.Memory.Passes.Light.{IsLightMemory}
use abb_accelerator_aiops.Service.Inputs.{ServiceConfig}
use abb_accelerator_aiops.Service.{
  Published, bootstrapped, passed, broken, Service, Round, Surroundings, loop, started, do_get,
}
use abb_accelerator_aiops.Service.Storage.{AreStoredEdges}
use abb_accelerator_aiops.Service.Storage.Rounds.{
  ServesStorage, HasStorage, KeepsStorage, served_edges-AreStored,
}
use abb_accelerator_aiops.Service.Total.{fueled, loop_ends}
use abb_accelerator_aiops.System.{ask, get_of, read_graph, link_of}

module _ {F : Type 0} ⦃f : Float F⦄ (refusal : ℕ → String → String) (svc : ServiceConfig F) where
  abbrev NamesPair : Link F → Type 0
  NamesPair x = (has x.src svc.storage ≡ true) × (has x.dst svc.storage ≡ true)

  -- Every edge names two storage workloads.
  abbrev pub NamesStorage : Verdict F → Type 0
  NamesStorage g = All NamesPair g.edges

  links-NamesPair :
      (edges : List (RenderedEdge F))
      → AreStoredEdges svc.storage edges
      → All NamesPair (
          map
            (λ (x : Link F). record x { src = workload x.src; dst = workload x.dst })
            (map link_of edges))
  unfolding workload stable_workload
  links-NamesPair edges h =
      All-of_map NamesPair _ (map link_of edges) (All-of_map _ link_of edges h)

  normalized-NamesStorage :
      (cfg : MemoryConfig F) (by : Surroundings F) (p : Published F)
      → ServesStorage cfg svc by p
      → NamesStorage (normalized (read_graph svc.signal p))
  unfolding normalized read_graph
  normalized-NamesStorage cfg by (bootstrapped g _) h = links-NamesPair g.edges h
  normalized-NamesStorage cfg by (passed _ g _ _) h = links-NamesPair g.edges h
  normalized-NamesStorage cfg by (broken e) h = tt

  -- A running engine answers, so the gateway does.
  pub asked :
      (s : Service F)
      → graph (ask refusal svc.signal s) ≡ ok (normalized (read_graph svc.signal s.graph))
  unfolding graph ask get_of do_get
  asked s = refl

  module _ (cfg : MemoryConfig F) (by : Surroundings F) (o : IsOrdered F) (l : IsRounded F) (n : ℕ)
      (fades : Fades F n) (pos : 0 < n) (laws : IsDiGraph by.nx) (within : RoundsWithin F)
      (scipy : AreCoefficients by.np.stats) where
    -- Whatever the aggregator replies in the rounds and whichever of them an exception ends,
    -- the rounds come to a service, with any fuel from some amount on, of which the gateway's
    -- `graph` answers with a verdict whose every edge names two storage workloads; if every row
    -- of the memory at the start is of storage workloads and holds a correlation of at most 1.
    -- It needs that networkx builds graphs as `IsDiGraph` has it, that the coefficients of
    -- scipy are at most 1, that rounding respects that, that n fades fall below the cut, n
    -- being positive, and that the arithmetic obeys `IsOrdered` and `IsRounded`.
    pub graph-NamesStorage :
        (rounds : List (Round F)) (ts : F) (mem : Memory F)
        → HasStorage cfg svc by mem
        → IsLightMemory mem
        → (s : Service F) × (enough : ℕ) × (g : Verdict F) × ((fuel : ℕ)
            → enough ≤ fuel
            → loop cfg svc (fueled by fuel) rounds (started cfg svc (fueled by fuel) ts mem)
              ≡ some s)
          × (graph (ask refusal svc.signal s) ≡ ok g)
          × NamesStorage g
    graph-NamesStorage rounds ts mem h light =
        let (s, enough, k) =
          loop_ends cfg svc by o l n fades pos laws within scipy rounds ts mem light in
        let spent = fueled by enough in
        let kept : KeepsStorage cfg svc spent (some s) =
          subst (KeepsStorage cfg svc spent) (k enough (omega arith))
            (served_edges-AreStored cfg svc spent rounds ts mem h) in
        (
          s,
          enough,
          normalized (read_graph svc.signal s.graph),
          k,
          asked s,
          normalized-NamesStorage cfg spent s.graph (kept.1),
        )
