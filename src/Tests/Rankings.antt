-- ===== src/Tests/Rankings.antt =====
-- Runs of correlation/engine/ranking.py: the best impact, which comes late, and the order of a ranking.
use abb_accelerator_aiops.Prelude.{◌≡◌, refl, some, List, [], ◌∷◌, String, All, Dict, get, put}
use abb_accelerator_aiops.Float.{lit}
use abb_accelerator_aiops.Float.Milli.{ℤ, pos, milli, milli-IsOrdered, milli-IsRounded, milli_flips}
use abb_accelerator_aiops.Float.Laws.{◌≼◌}
use abb_accelerator_aiops.Graph.{Impact}
use abb_accelerator_aiops.Ranking.{Attr, blast_radius, forward_impact}
use abb_accelerator_aiops.Ranking.Best.{IsBest, forward_impact-IsBest}
use abb_accelerator_aiops.Ranking.Top.{IsTop, rank_root_causes-IsTop}
use abb_accelerator_aiops.Tests.Graphs.{out_of_rule, causes, causes_of_chain}
use abb_accelerator_aiops.Tests.Fixtures.{Adjacency, digraph, chain}

abbrev edge_of : ℤ → Attr ℤ
edge_of w = record { weight = w; lag_s = 5; evidence = [] }

-- The weak edge from the archiver to the ingest is found before the strong path over the database.
abbrev diamond : Adjacency
diamond =
    (
      "log-archiver",
      ("telemetry-ingest", edge_of (pos 300)) ∷ ("timescaledb", edge_of (pos 900)) ∷ [],
    )
    ∷ ("timescaledb", ("telemetry-ingest", edge_of (pos 900)) ∷ [])
    ∷ ("telemetry-ingest", ("dashboard", edge_of (pos 800)) ∷ [])
    ∷ ("dashboard", [])
    ∷ []

abbrev best : Dict ℤ
best = ("telemetry-ingest", pos 396) ∷ ("timescaledb", pos 630) ∷ ("dashboard", pos 221) ∷ []

impact_of_diamond : forward_impact digraph diamond 9 "log-archiver" ≡ some best
unfolding forward_impact get put
impact_of_diamond = refl

forward_impact-IsBest_example : IsBest digraph diamond "log-archiver" best
forward_impact-IsBest_example =
    forward_impact-IsBest digraph diamond "log-archiver" milli-IsOrdered refl milli-IsRounded refl
      (out_of_rule (All (λ (e : String × Attr ℤ). lit 0 0 ≼ e.1.weight)) diamond tt
        ((refl, (refl, tt)), ((refl, tt), ((refl, tt), (tt, tt)))))
      9 best impact_of_diamond

rank_root_causes-IsTop_example : IsTop digraph chain 6 ("telemetry-ingest" ∷ []) [] causes
rank_root_causes-IsTop_example =
    rank_root_causes-IsTop digraph chain 6 ("telemetry-ingest" ∷ []) [] milli-IsOrdered milli_flips
      causes refl causes_of_chain

-- `blast_radius` keeps the first impact that reaches the ingest, which is too weak to reach the
-- dashboard, although a better one does.
abbrev first_seen : List (Impact ℤ)
first_seen =
    record { pod = "timescaledb"; impact = pos 630; eta_s = 5 }
    ∷ record { pod = "telemetry-ingest"; impact = pos 210; eta_s = 5 }
    ∷ []

blast_of_diamond : blast_radius digraph diamond 9 "log-archiver" ≡ some first_seen
unfolding blast_radius get put
blast_of_diamond = refl
