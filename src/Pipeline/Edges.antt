-- ===== src/Pipeline/Edges.antt =====
-- The second half of `run_pass` in correlation/engine/pipeline.py: the edges between coupled pods
-- (`_writer_edge`, `_edge_pref`, and the loops that call the gate).
pub mod Rule
pub mod Coupled
pub mod Deduped
pub mod Idle
pub mod Light
pub mod Preferred
use abb_accelerator_aiops.Prelude.{
  ℕ, zero, suc, Bool, true, false, not, ◌&&◌, ◌||◌, String, str_eq, Option, none, some, List, [],
  ◌∷◌, ◌++◌, map, filter, any, has, sorted, str_lt, ltb, if◌then◌else◌, Dict, get,
}
use abb_accelerator_aiops.Prelude.Choice
use abb_accelerator_aiops.Float.{Float, lit, ◌⊕◌, le, lt, abs, round}
use abb_accelerator_aiops.Lagcorr.{
  Stats, Profile, Directed, adjacent_support, lag_profile, best_directed,
}
use abb_accelerator_aiops.Gate.{
  Evidence, write, Edge, Witness, same_set, kinds, is_coupling, couples, r_adj, temporal_tol_s,
  temporal_evidence, accept_edge,
}

-- `itertools.combinations(xs, 2)`
unfoldable pub combinations : List String → List (String × String)
combinations [] = []
combinations (x ∷ xs) = map (λ y. (x, y)) xs ++ combinations xs

-- `"write" in e["evidence"]`
abbrev pub is_write : Evidence → Bool
is_write write = true
is_write _ = false

-- The keys of a dict, sorted
abbrev pub sorted_keys : {V : Type 0} → Dict V → List String
sorted_keys {V = V} d = sorted str_lt (map (λ (e : String × V). e.0) d)

module _ {F : Type 0} ⦃f : Float F⦄ where
  -- `_edge_pref`, whose pairs Python compares lexicographically.
  unfoldable pub edge_pref : Edge F → ℕ × F
  edge_pref e = (if any is_write e.evidence then 1 else 0, abs e.r)

  -- `_edge_pref(e) > _edge_pref(c)`
  unfoldable pub is_preferred : Edge F → Edge F → Bool
  unfolding edge_pref
  is_preferred e c =
      let (i, r) = edge_pref e in let (j, s) = edge_pref c in ltb j i || (not (ltb i j) && lt s r)

  -- `max(prof.items(), key=lambda kv: kv[1])`
  largest_from : ℕ × F → Profile F → ℕ × F
  largest_from b [] = b
  largest_from b (e ∷ p) = largest_from (if lt b.1 e.1 then e else b) p

  -- `w_onset > v_onset + TEMPORAL_TOL_S`, where both are known
  starts_after : Option F → Option F → Bool
  starts_after (some w) (some v) = lt (v ⊕ temporal_tol_s) w
  starts_after _ _ = false

  -- `_writer_edge` with a profile of at least one entry, which is not empty where the lag 0 fits.
  writer_edge_of :
      String → String → List Evidence → Profile F → Option F → Option F → Option (Edge F)
  unfolding largest_from starts_after
  writer_edge_of src dst [] prof w_onset v_onset = none
  writer_edge_of src dst (k ∷ ks) [] w_onset v_onset = none
  writer_edge_of src dst (k ∷ ks) (e ∷ p) w_onset v_onset =
      let (lag, r) = largest_from e p in
      if lt r (lit 5 1) || not (adjacent_support (e ∷ p) lag r_adj)
      then none
      else if starts_after w_onset v_onset
      then none
      else some (record {
        src = src;
        dst = dst;
        r = round 3 r;
        lag_s = lag;
        evidence = write ∷ ((k ∷ ks) ++ temporal_evidence w_onset v_onset);
      })

  unfoldable pub writer_edge :
      Stats F → String → String → List F → List F → Witness → Option F → Option F → Option (Edge F)
  unfolding writer_edge_of
  writer_edge st src dst wsrc vdst witness w_onset v_onset =
      writer_edge_of src dst (filter is_coupling (kinds witness src dst)) (lag_profile st wsrc vdst)
        w_onset v_onset

  -- `vectors[p]`, for a key of the dict
  abbrev pub vector_of : Dict (List F) → String → List F
  vector_of vectors p = elim (get p vectors) [ none ↦ [] | some v ↦ v ]

  -- An edge that a test may have refused.
  abbrev pub listed : Option (Edge F) → List (Edge F)
  listed none = []
  listed (some e) = e ∷ []

  -- Nothing for a writer without an onset.
  abbrev pub if_started : Option F → List (Edge F) → List (Edge F)
  if_started none edges = []
  if_started (some _) edges = edges

  module _ (st : Stats F) (witness : Witness) (active : List String) (onset_s : Dict F) where
    -- `disturbed`
    abbrev pub is_disturbed : Bool
    is_disturbed = elim active [ [] ↦ false | _ ∷ _ ↦ true ]

    -- One round of the loop over the pairs of pods.
    unfoldable pub psi_edge : Dict (List F) → String × String → List (Edge F)
    psi_edge cvec (a, b) =
        let d = best_directed st (vector_of cvec a) (vector_of cvec b) in
        let src = if d.forward then a else b in
        let dst = if d.forward then b else a in
        if not (couples witness a b)
          || (not (has a active) && (not (has b active) && not is_disturbed))
        then []
        else listed (accept_edge src dst d.r d.lag_s d.profile witness onset_s)

    unfoldable pub psi_edges : Dict (List F) → List (String × String) → List (Edge F)
    unfolding psi_edge
    psi_edges cvec [] = []
    psi_edges cvec (pair ∷ pairs) = psi_edge cvec pair ++ psi_edges cvec pairs

    -- `write_act.get(p, 0.0)`, with `np.max(np.abs(·))` for the activity of a vector
    abbrev pub activity : (List F → F) → Dict (List F) → String → F
    activity max_abs write_cvec p = elim (get p write_cvec) [
      | none ↦ lit 0 0
      | some wv ↦ max_abs wv
    ]

    -- One round of the inner loop: the victim `v` of the writer `w`.
    unfoldable pub source_edge :
        (List F → F) → Dict (List F) → Dict (List F) → Dict F → String → String → List (Edge F)
    unfolding writer_edge
    source_edge max_abs write_cvec cvec write_onset_s w v =
        if str_eq v w || not (couples witness w v)
        then []
        else if not (has v active) && not is_disturbed
        then []
        else if le (activity max_abs write_cvec w) (activity max_abs write_cvec v)
        then []
        else listed (
            writer_edge st w v (vector_of write_cvec w) (vector_of cvec v) witness
              (get w write_onset_s) (get v onset_s))

    unfoldable pub victims_edges :
        (List F → F) → Dict (List F) → Dict (List F) → Dict F → String → List String → List (Edge F)
    unfolding source_edge
    victims_edges max_abs write_cvec cvec write_onset_s w [] = []
    victims_edges max_abs write_cvec cvec write_onset_s w (v ∷ vs) =
        source_edge max_abs write_cvec cvec write_onset_s w v
        ++ victims_edges max_abs write_cvec cvec write_onset_s w vs

    -- The loop over the writers; one without a write onset is skipped.
    unfoldable pub source_edges :
        (List F → F) → Dict (List F) → Dict (List F) → Dict F → List String → List (Edge F)
    unfolding victims_edges
    source_edges max_abs write_cvec cvec write_onset_s [] = []
    source_edges max_abs write_cvec cvec write_onset_s (w ∷ ws) =
        if_started (get w write_onset_s)
          (victims_edges max_abs write_cvec cvec write_onset_s w (sorted_keys cvec))
        ++ source_edges max_abs write_cvec cvec write_onset_s ws

  -- `chosen`, in the order of insertion: one edge per unordered pair.
  abbrev pub same_pods : Edge F → Edge F → Bool
  same_pods e c = same_set e.src e.dst (c.src, c.dst)

  unfoldable pub choose_all : List (Edge F) → List (Edge F) → List (Edge F)
  unfolding Choice.choose_all is_preferred
  choose_all edges chosen = Choice.choose_all same_pods is_preferred edges chosen

  -- `key=lambda e: (e["src"], e["dst"])` in order
  abbrev pub edge_lt : Edge F → Edge F → Bool
  edge_lt a b = str_lt a.src b.src || (str_eq a.src b.src && str_lt a.dst b.dst)

  -- The deduplication, which a pass without write vectors skips.
  unfoldable pub settled : Dict (List F) → List (Edge F) → List (Edge F) → List (Edge F)
  unfolding choose_all sorted
  settled [] edges sources = edges
  settled (_ ∷ _) edges sources = sorted edge_lt (choose_all (edges ++ sources) [])
