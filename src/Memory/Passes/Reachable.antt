-- ===== src/Memory/Passes/Reachable.antt =====
-- The memories that correlation/engine/state.py can reach: a new database and any passes after it.
use mathlib.Core.Path.{subst}
use abb_accelerator_aiops.Memory.Passes.Kept.{observe_edges-All}
use abb_accelerator_aiops.Prelude.{
  All-always, In-append_left, sym, String, str_eq, Option, none, some, List, [], ◌∷◌, any, All,
  All-map, All-append, In, Dict, if_rule,
}
use abb_accelerator_aiops.Float.{Float}
use abb_accelerator_aiops.Float.Laws.{IsOrdered, IsRounded}
use abb_accelerator_aiops.Gate.{Edge, Witness}
use abb_accelerator_aiops.Graph.{CausalGraph}
use abb_accelerator_aiops.Memory.{MemoryConfig, EdgeRow}
use abb_accelerator_aiops.Memory.Edges.Belief.{IsBelief, IsSane, IsBelief-IsKept}
use abb_accelerator_aiops.Memory.Baselines.{Quantiles}
use abb_accelerator_aiops.Memory.Similarity.{CaseKey}
use abb_accelerator_aiops.Memory.Cases.{
  CaseLibrary, Observation, Promotion, Register, recurrence, variant, novel,
}
use abb_accelerator_aiops.Memory.Cases.Outcome.{ids, grown, Outcome, promote_case-Outcome}
use abb_accelerator_aiops.Memory.Passes.{
  Memory, empty_memory, Stage, baselined, edged, promoted, present, shared_pairs, observe,
  observe_until, observe_edges,
}

module _ {F : Type 0} ⦃f : Float F⦄ (cfg : MemoryConfig F) (np : Quantiles F)
    (digest : CaseKey → String) where
  -- A memory that passes lead to, from a new database.
  pub data Reachable : Memory F → Type 0 where
    created : Reachable empty_memory
    passed :
        {mem : Memory F} (graph : CausalGraph F) (vectors : Dict (List F))
        (witness : Option Witness) (ts : F)
        → Reachable mem
        → Reachable (observe cfg np digest graph vectors witness ts mem).0
    -- an exception ends the pass
    interrupted :
        {mem : Memory F} (stage : Stage) (graph : CausalGraph F) (vectors : Dict (List F))
        (witness : Option Witness) (ts : F)
        → Reachable mem
        → Reachable (observe_until cfg np digest stage graph vectors witness ts mem)

  module _ (o : IsOrdered F) (l : IsRounded F) (sane : IsSane cfg) where
    observe_edges-IsBelief :
        (edges : List (Edge F)) (pods_present : List String) (witness : Option Witness) (ts : F)
        (rows : List (EdgeRow F))
        → All IsBelief rows
        → All IsBelief (observe_edges cfg edges pods_present witness ts rows)
    observe_edges-IsBelief edges ps witness ts rows h =
        observe_edges-All (IsBelief-IsKept o l cfg sane) edges ps witness ts rows
          (All-always (λ _. tt) edges) (All-always (λ _. tt) (shared_pairs witness)) h

    -- In every memory that passes, whole ones and ones that an exception ended between their
    -- writes, lead to from a new database, every row of edge_memory has its confidence and its
    -- floor between 0 and 1, if alpha, decay, prior and floor_frac are, and the arithmetic
    -- obeys `IsOrdered` and `IsRounded`.
    pub Reachable-IsBelief : {mem : Memory F} → Reachable mem → All IsBelief mem.edge_memory
    unfolding observe observe_until
    Reachable-IsBelief created = tt
    Reachable-IsBelief (passed {mem} graph vectors witness ts h) =
        observe_edges-IsBelief graph.edges (present vectors) witness ts mem.edge_memory
          (Reachable-IsBelief h)
    Reachable-IsBelief (interrupted baselined graph vectors witness ts h) = Reachable-IsBelief h
    Reachable-IsBelief (interrupted {mem} edged graph vectors witness ts h) =
        observe_edges-IsBelief graph.edges (present vectors) witness ts mem.edge_memory
          (Reachable-IsBelief h)
    Reachable-IsBelief (interrupted {mem} promoted graph vectors witness ts h) =
        observe_edges-IsBelief graph.edges (present vectors) witness ts mem.edge_memory
          (Reachable-IsBelief h)

  In-grown :
      (register : Register) (new id : String) (known : List String)
      → In id known
      → In id (grown register new known)
  In-grown recurrence new id known h = h
  In-grown variant new id known h =
      if_rule (In id) (any (λ k. str_eq k new) known) h (In-append_left id known (new ∷ []) h)
  In-grown novel new id known h =
      if_rule (In id) (any (λ k. str_eq k new) known) h (In-append_left id known (new ∷ []) h)

  -- The case of every observation is in the case table.
  abbrev pub IsLinked : CaseLibrary F → Type 0
  IsLinked lib = All (λ (seen : Observation F). In seen.case_id (ids lib.cases)) lib.observations

  Outcome-IsLinked :
      (lib lib' : CaseLibrary F) (promotion : Option (Promotion F))
      → Outcome lib (lib', promotion)
      → IsLinked lib
      → IsLinked lib'
  Outcome-IsLinked lib lib' none same h = subst IsLinked (sym same) h
  Outcome-IsLinked lib lib' (some q) recorded h =
      let (seen, appended, named) = recorded.observed in
      let known = recorded.known in
      let old : All (λ (seen : Observation F). In seen.case_id (ids lib'.cases)) lib.observations =
        All-map
          (λ s m.
            subst (In s.case_id) (sym recorded.cases)
              (In-grown q.case_register q.case_id s.case_id _ m))
          lib.observations h in
      subst (All (λ (seen : Observation F). In seen.case_id (ids lib'.cases))) (sym appended) (
        All-append _ lib.observations (seen ∷ []) old
          (subst (λ id. In id (ids lib'.cases)) (sym named) known, tt))

  -- In every memory that passes, whole ones and ones that an exception ended between their
  -- writes, lead to from a new database, every observation is of a case that is in the case
  -- table. The order obeys `IsOrdered`.
  pub Reachable-IsLinked : (o : IsOrdered F) {mem : Memory F} → Reachable mem → IsLinked mem.library
  unfolding observe observe_until
  Reachable-IsLinked o created = tt
  Reachable-IsLinked o (passed {mem} graph vectors witness ts h) =
      Outcome-IsLinked mem.library _ _ (promote_case-Outcome cfg digest o graph ts mem.library)
        (Reachable-IsLinked o h)
  Reachable-IsLinked o (interrupted baselined graph vectors witness ts h) = Reachable-IsLinked o h
  Reachable-IsLinked o (interrupted edged graph vectors witness ts h) = Reachable-IsLinked o h
  Reachable-IsLinked o (interrupted {mem} promoted graph vectors witness ts h) =
      Outcome-IsLinked mem.library _ _ (promote_case-Outcome cfg digest o graph ts mem.library)
        (Reachable-IsLinked o h)
