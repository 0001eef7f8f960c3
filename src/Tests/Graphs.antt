-- ===== src/Tests/Graphs.antt =====
-- Runs of correlation/engine/ranking.py on a chain of two edges.
use abb_accelerator_aiops.Prelude.{
  ◌≤◌, ◌≡◌, refl, inl, inr, some, List, [], ◌∷◌, String, arith, length, All, Dict, none, sorted,
  get, put, Bool-cases, str_eq,
}
use abb_accelerator_aiops.Float.{lit}
use abb_accelerator_aiops.Float.Milli.{ℤ, pos, milli, milli-IsOrdered, milli-IsRounded}
use abb_accelerator_aiops.Float.Laws.{◌≼◌}
use abb_accelerator_aiops.Graph.{Impact, RootCause}
use abb_accelerator_aiops.Ranking.{rank_root_causes, explain, Attr, forward_impact, blast_radius}
use abb_accelerator_aiops.Ranking.Ends.{Fades, IsBounded, forward_impact_ends}
use abb_accelerator_aiops.Ranking.Blast.{IsReached, blast_radius-IsReached}
use abb_accelerator_aiops.Ranking.Counts.{count, pods}
use abb_accelerator_aiops.Ranking.Once.{blast_radius_once}
use abb_accelerator_aiops.Tests.Fixtures.{Adjacency, out_of, digraph, chain}

-- 0.7 to the sixth is below 0.15.
abbrev pub fades : Fades ℤ 6
fades = record { fade_nonneg = refl; cut_nonneg = refl; below = refl }

-- What holds of the edges of every entry, and of no edges, holds of the edges out of any node.
pub out_of_rule :
    (P : Dict (Attr ℤ) → Type 0) (g : Adjacency)
    → P []
    → All (λ (e : String × Dict (Attr ℤ)). P e.1) g
    → (u : String) → P (out_of g u)
unfolding get
out_of_rule P [] p h u = p
out_of_rule P ((v, edges) ∷ g) p (q, qs) u = elim (Bool-cases (str_eq v u)) [
  | inl e ↦ rw (e, out_of) q
  | inr e ↦ rw (e, out_of) (out_of_rule P g p qs u)
]

chain-IsBounded : IsBounded milli-IsOrdered milli-IsRounded 1 6 fades digraph chain
chain-IsBounded = record {
  degree =
      out_of_rule (λ edges. length edges ≤ 1) chain (omega arith)
        (omega arith, (omega arith, (omega arith, tt)));
  light =
      out_of_rule (All (λ (e : String × Attr ℤ). e.1.weight ≼ lit 1 0)) chain tt
        ((refl, tt), ((refl, tt), (tt, tt)));
}

abbrev victims : List (Impact ℤ)
victims =
    record { pod = "timescaledb"; impact = pos 630; eta_s = 15 }
    ∷ record { pod = "telemetry-ingest"; impact = pos 352; eta_s = 20 }
    ∷ []

blast_radius_of_chain : blast_radius digraph chain 4 "log-archiver" ≡ some victims
unfolding blast_radius put get
blast_radius_of_chain = refl

forward_impact_ends_example :
    (imp : Dict ℤ) × (forward_impact digraph chain 6 "log-archiver" ≡ some imp)
forward_impact_ends_example =
    forward_impact_ends milli-IsOrdered milli-IsRounded 1 6 fades digraph chain 6 "log-archiver"
      (omega arith) chain-IsBounded (omega arith)

blast_radius-IsReached_example : All (IsReached digraph chain "log-archiver") victims
blast_radius-IsReached_example =
    blast_radius-IsReached digraph chain "log-archiver" 4 victims blast_radius_of_chain

blast_radius_once_example : count "timescaledb" ("log-archiver" ∷ pods victims) ≤ 1
blast_radius_once_example =
    blast_radius_once digraph chain "log-archiver" "timescaledb" 4 victims blast_radius_of_chain

-- The archiver explains more of the slow ingest than the database, which stands downstream of it.
abbrev pub causes : List (RootCause ℤ)
causes =
    record { pod = "log-archiver"; score = pos 556; onset_s = none }
    ∷ record { pod = "timescaledb"; score = pos 443; onset_s = none }
    ∷ []

pub causes_of_chain : rank_root_causes digraph chain 6 ("telemetry-ingest" ∷ []) [] ≡ some causes
unfolding rank_root_causes get put forward_impact explain sorted
causes_of_chain = refl
