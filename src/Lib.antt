-- ===== src/Lib.antt =====
-- The correlation engine of the ABB Accelerator AIOps repository: from the stall signals of pods to a
-- causal graph, and from the graphs of many passes to a memory of couplings and incident cases.
--
-- A pass (correlation/engine/pipeline.py) detects the onsets of each pod (detectors.py), correlates the
-- pods that a physical witness couples (lagcorr.py), accepts or refuses each edge (gate.py), and ranks
-- the root causes of the graph (ranking.py). The memory (state.py) then confirms the edges that the pass
-- saw, decays those that it did not, files the incident as a case, and learns each workload's normal.
-- Pods are named by ephemeral hashes; the memory keeps workloads. The service (service.py) makes the
-- vectors and the witness of a pass out of the aggregator's window, round after round, and serves the graph
-- with the edges that the memory holds; the gateway (api/main.py) serves it, with workloads for pods, with an
-- operator's sentence and with the levels of the pods. The observed workloads of the simulated factory are
-- programs of their own.
--
-- Files, and the code that they model:
--   Names              stable_workload of correlation/engine/state.py
--   Lagcorr            correlation/engine/lagcorr.py: lag_profile, best_directed, adjacent_support
--   Gate               correlation/engine/gate.py: Witness.kinds, Witness.couples, accept_edge
--   Graph              the dicts of the causal graph as records
--   Detectors          correlation/engine/detectors.py: ewma, cusum_onsets, classify, forecast_to_limit
--   Ranking            correlation/engine/ranking.py: build_graph, _forward_impact, rank_root_causes,
--                      blast_radius
--   Pipeline           correlation/engine/pipeline.py: Events has the choice of the disturbed pods and of
--                      the event's centre, Edges has _writer_edge, _edge_pref and the loops over pairs
--   Memory             correlation/engine/state.py: MemoryConfig and the tables; Edges has
--                      _seed_structural, _confirm_edge and _decay_absent_edges; Similarity has _jaccard,
--                      _case_sim, _dominant_witness and _lead_time; Cases has _promote_case; Baselines has
--                      update_baselines and baseline_threshold; Passes has observe; Render has _render,
--                      stats and bootstrap_graph; Database has the file, its migration, model versions and
--                      mistakes; Edges/View is the specification of edge_memory as a map
--   Window             the aggregator's window: samples by namespace, pod and signal
--   Service            correlation/service.py: Inputs has build_inputs; this file has the rounds of loop
--                      and do_GET; Steps has what the rounds do to the memory
--   Api                api/main.py: Template has _template_narrative; Narrative has _verdict_signature,
--                      _ollama and narrative; Telemetry has pods and signal; this file the other handlers
--   System             the gateway in front of the others: graph of api/main.py on what do_GET of
--                      correlation/service.py answers, and trigger on what do_POST of
--                      workloads/cooling-monitor/main.py answers
--   Workloads          workloads/telemetry-ingest/main.py (Ingest), workloads/cooling-monitor/main.py
--                      (Cooling) and workloads/vision-qc/main.py (Vision)
--   Prelude            shared names, tests on numbers and texts, lists, dicts, a stable sort, and the choice of
--                      one element for each class
--   Float              the arithmetic of Python's float
--   Tests              concrete runs
--
-- How the code is read. A dict is a list of its entries in the order of insertion, a table the list of
-- its rows in the order of their rowids, and a set a list read by membership. An operation that writes a
-- table is a function from rows to rows; an early return or a missing value is an Option. Pod names are
-- texts, indices and counts natural numbers, lags whole seconds.
--
-- Parameters. `Float` stands for double precision: its operations are parameters, its orders and its
-- literals too. Where a theorem needs laws it names them: `IsOrdered`, a total order, which is that of
-- doubles without NaN, and `IsRounded`, monotone rounding, which holds of products, sums and differences
-- in IEEE arithmetic. Float/Milli gives numbers that obey both, for the runs. numpy and scipy stand as
-- the records `Stats`, `Arrays` and `Quantiles` of the functions that are called, networkx.DiGraph as
-- `DiGraph`, and the sha1 digest of a case's key as a function. What the libraries document, and a theorem
-- needs, stands in records: `IsDiGraph` of networkx, that adding an edge adds that edge only, and its ends
-- to the nodes, `AreCoefficients` of scipy, that a coefficient is at most 1, `RoundsWithin` of the
-- rounding of such a number, and `RoundsToDecimal` of rounding to decimals, that it is monotone and leaves a
-- decimal as it is.
--
-- Loops. Those over vectors, edges and rows are recursions on lists. The two worklists of ranking.py run
-- on fuel. blast_radius queues a node when it first sees it, so one round more than there are nodes is
-- enough. _forward_impact queues a node again whenever it finds a better impact; an impact is multiplied
-- by 0.7 at each step and dropped below 0.15, so no entry is more than n steps from the root, where n
-- factors fall below the cut, and 1 + b + … + b^(n-1) rounds are enough for at most b edges out of a node.
-- A graph of k edges has at most k of them out of a node and at most 2k nodes, so fuel that is enough can be
-- told from the number of edges of a pass and of the rendered graph.
--
-- Other services. A request is the value that it comes to, `Fetched`: a payload or an exception with its text.
-- A handler is a function from such values to a `Response`. The reply of the language model is one of them,
-- so nothing is assumed of its texts. The two threads of the ingest and of the cooling monitor are steps in
-- any order; the flag of the cooling monitor lies on a volume, where other processes may touch and remove it. The reading of time stamps (_epoch), str.upper and the JSON of the parameters are functions that
-- the definitions take.
--
-- Not modelled: an exception inside one of the memory's groups of writes (one between them is), the lock and the
-- sleep of the loop, requests for the narrative at the same time, which share its cache (they come one after
-- the other here), a commit of the ingest that raises after the database has stored the rows (the commit and
-- its count are one step), the text of the prompt, the opening of the SQLite file and the
-- JSON of its columns, the metrics, MQTT and fio of the workloads, analytics-batch, the Go aggregator, the
-- dashboard and the deployment, which are input and output around these programs or programs of their own.
pub mod Prelude
pub mod Float
pub mod Names
pub mod Lagcorr
pub mod Gate
pub mod Graph
pub mod Ranking
pub mod Detectors
pub mod Pipeline
pub mod Memory
pub mod Api
pub mod Service
pub mod System
pub mod Workloads
pub mod Window
mod Tests
