-- ===== src/Tests/Fixtures.antt =====
-- Stand-ins for the libraries that the code calls, and the data of the concrete runs.
use abb_accelerator_aiops.Prelude.{
  ℕ, ◌+◌, String, none, some, List, [], ◌∷◌, ◌++◌, map, length, filter, has, Dict, get, put,
}
use abb_accelerator_aiops.Float.Milli.{ℤ, pos, milli}
use abb_accelerator_aiops.Gate.{Edge, Witness, stat, pvc}
use abb_accelerator_aiops.Graph.{CausalGraph}
use abb_accelerator_aiops.Lagcorr.{Stats}
use abb_accelerator_aiops.Detectors.{Arrays}
use abb_accelerator_aiops.Ranking.{Attr, DiGraph}
use abb_accelerator_aiops.Memory.{MemoryConfig, default_config}
use abb_accelerator_aiops.Memory.Baselines.{Quantiles}
use abb_accelerator_aiops.Memory.Similarity.{CaseKey}
use abb_accelerator_aiops.Memory.Cases.{CaseLibrary}

-- A graph as its nodes with the edges out of each.
abbrev pub Adjacency : Type 0
Adjacency = Dict (Dict (Attr ℤ))

abbrev pub out_of : Adjacency → String → Dict (Attr ℤ)
out_of g u = elim (get u g) [ none ↦ [] | some edges ↦ edges ]

abbrev pub with_node : String → Adjacency → Adjacency
with_node u g = elim (get u g) [ none ↦ g ++ (u, []) ∷ [] | some _ ↦ g ]

abbrev pub with_edge : String → String → Attr ℤ → Adjacency → Adjacency
with_edge u v a g = let h = with_node v (with_node u g) in put u (put v a (out_of h u)) h

abbrev pub names : Adjacency → List String
names g = map (λ (e : String × Dict (Attr ℤ)). e.0) g

abbrev sum : List ℕ → ℕ
sum [] = 0
sum (n ∷ ns) = n + sum ns

abbrev pub digraph : DiGraph ℤ
digraph = record {
  Graph = Adjacency;
  empty = [];
  add_edge = with_edge;
  nodes = names;
  out_edges = out_of;
  in_degree = λ g v.
      length
        (filter (λ (e : String × Dict (Attr ℤ)). has v (map (λ (a : String × Attr ℤ). a.0) e.1)) g);
  number_of_edges = λ g. sum (map (λ (e : String × Dict (Attr ℤ)). length e.1) g);
}

-- In place of an order statistic: the first sample.
abbrev first_of : List ℤ → ℤ
first_of [] = pos 0
first_of (x ∷ xs) = x

abbrev pub quantiles : Quantiles ℤ
quantiles = record { median = first_of; percentile_90 = first_of }

abbrev pub stats : Stats ℤ
stats = record {
  mean = first_of;
  std = λ x. pos 1000;
  skew = λ x. pos 0;
  pearsonr = λ a b. some (pos 900);
  spearmanr = λ a b. none;
}

abbrev pub arrays : Arrays ℤ
arrays = record {
  median = λ x. pos 100;
  maximum = first_of;
  minimum = first_of;
  ptp = first_of;
  slope = first_of;
  trend_r = first_of;
  sign_changes = λ x. 0;
}

abbrev pub config : MemoryConfig ℤ
config = default_config

abbrev pub digest : CaseKey → String
digest key = "1f0c"

abbrev pub storm_edge : Edge ℤ
storm_edge = record {
  src = "log-archiver-7d9f-x1";
  dst = "timescaledb-5c4b-q2";
  r = pos 900;
  lag_s = 15;
  evidence = stat ∷ pvc ∷ [];
}

abbrev pub disk : Witness
disk = record {
  ebpf_edges = [];
  psi_copressure = [];
  shared_relation = ("timescaledb-5c4b-q2", "log-archiver-7d9f-x1") ∷ [];
}

abbrev pub incident : CausalGraph ℤ
incident = record {
  findings = [];
  edges = storm_edge ∷ [];
  root_cause_ranking =
      record { pod = "log-archiver-7d9f-x1"; score = pos 1000; onset_s = some (pos 60000) } ∷ [];
  blast_radius = record { pod = "timescaledb-5c4b-q2"; impact = pos 630; eta_s = 15 } ∷ [];
}

abbrev pub no_cases : CaseLibrary ℤ
no_cases = record { cases = []; observations = [] }

-- The log archiver slows the database, and the database the ingest.
abbrev pub chain : Adjacency
chain =
    ("log-archiver", ("timescaledb", record { weight = pos 900; lag_s = 15; evidence = [] }) ∷ [])
    ∷ (
      "timescaledb",
      ("telemetry-ingest", record { weight = pos 800; lag_s = 5; evidence = [] }) ∷ [],
    )
    ∷ ("telemetry-ingest", [])
    ∷ []

-- Twelve samples of a quiet database.
abbrev pub idle : List ℤ
idle =
    pos 100
    ∷ pos 120
    ∷ pos 100
    ∷ pos 90
    ∷ pos 100
    ∷ pos 110
    ∷ pos 100
    ∷ pos 100
    ∷ pos 100
    ∷ pos 100
    ∷ pos 110
    ∷ pos 100
    ∷ []
