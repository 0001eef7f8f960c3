-- ===== src/Memory/Edges.antt =====
-- The table edge_memory of correlation/engine/state.py: `_seed_structural`, `_confirm_edge` and
-- `_decay_absent_edges`.
pub mod Rows
pub mod Belief
pub mod Table
pub mod Seeding
pub mod View
pub mod Climb
pub mod Absence
use abb_accelerator_aiops.Prelude.{
  ℕ, ◌+◌, Bool, true, false, not, ◌&&◌, ◌||◌, String, str_eq, Option, none, some, List, [], ◌∷◌,
  ◌++◌, map, any, if◌then◌else◌, has, str_lt,
}
use abb_accelerator_aiops.Float.{Float, lit, ◌⊕◌, ◌⊖◌, ◌⊗◌, le, lt, max}
use abb_accelerator_aiops.Names.{stable_workload}
use abb_accelerator_aiops.Gate.{Evidence, pvc, Edge, Witness}
use abb_accelerator_aiops.Memory.{
  MemoryConfig, EdgeRow, EdgeState, active, confirming, steady, decaying, hidden,
}

-- A primary key: source, destination, signal.
abbrev pub Key : Type 0
Key = String × String × String

abbrev pub key_eq : Key → Key → Bool
key_eq (a, b, c) (x, y, z) = str_eq a x && (str_eq b y && str_eq c z)

-- The two elements of a pair in order.
abbrev pub smaller : String → String → String
smaller a b = if str_lt b a then b else a

abbrev pub larger : String → String → String
larger a b = if str_lt b a then a else b

module _ {F : Type 0} where
  abbrev pub key_of : EdgeRow F → Key
  key_of row = (row.src, row.dst, row.signal)

  -- SELECT … WHERE src=? AND dst=? AND signal=?
  unfoldable pub find : Key → List (EdgeRow F) → Option (EdgeRow F)
  find k [] = none
  find k (row ∷ rows) = if key_eq (key_of row) k then some row else find k rows

  -- DELETE of the row that an INSERT OR REPLACE displaces
  unfoldable pub without : Key → List (EdgeRow F) → List (EdgeRow F)
  without k [] = []
  without k (row ∷ rows) =
      let rest = without k rows in if key_eq (key_of row) k then rest else row ∷ rest

  -- INSERT OR REPLACE: the new row gets the last rowid.
  unfoldable pub insert_or_replace : EdgeRow F → List (EdgeRow F) → List (EdgeRow F)
  insert_or_replace row rows = without (key_of row) rows ++ row ∷ []

  -- UPDATE edge_memory SET base_conf=? WHERE …
  unfoldable pub set_base : Key → F → List (EdgeRow F) → List (EdgeRow F)
  set_base k base [] = []
  set_base k base (row ∷ rows) =
      (if key_eq (key_of row) k then record row { base_conf = base } else row)
      ∷ set_base k base rows

module _ {F : Type 0} ⦃f : Float F⦄ (cfg : MemoryConfig F) where
  -- `_confirm_edge`: the row that is written, from the values that its two branches compute.
  written : Edge F → F → F → F → ℕ → F → Bool → EdgeRow F
  written edge ts prev_base conf hits first_seen visible = record {
    src = stable_workload edge.src;
    dst = stable_workload edge.dst;
    signal = cfg.signal;
    confidence = conf;
    r = edge.r;
    lag_s = edge.lag_s;
    evidence = edge.evidence;
    hits = hits;
    visible = visible;
    state = if visible then active else confirming;
    first_seen_ts = first_seen;
    last_seen_ts = ts;
    updated_ts = ts;
    base_conf = max prev_base (cfg.floor_frac ⊗ conf);
  }

  unfoldable pub confirmed : Option (EdgeRow F) → Edge F → F → EdgeRow F
  unfolding written
  confirmed none edge ts = written edge ts (lit 0 0) cfg.alpha 1 ts (le cfg.show cfg.alpha)
  confirmed (some row) edge ts =
      let conf = row.confidence ⊕ cfg.alpha ⊗ (lit 1 0 ⊖ row.confidence) in
      written edge ts row.base_conf conf (row.hits + 1) row.first_seen_ts
        (row.visible || le cfg.show conf)

  abbrev pub edge_key : Edge F → Key
  edge_key edge = (stable_workload edge.src, stable_workload edge.dst, cfg.signal)

  unfoldable pub confirm_edge : Edge F → F → List (EdgeRow F) → List (EdgeRow F)
  unfolding confirmed insert_or_replace
  confirm_edge edge ts rows = insert_or_replace (confirmed (find (edge_key edge) rows) edge ts) rows

  -- `for edge in current_edges: self._confirm_edge(edge, ts)`
  unfoldable pub confirm_edges : List (Edge F) → F → List (EdgeRow F) → List (EdgeRow F)
  unfolding confirm_edge
  confirm_edges [] ts rows = rows
  confirm_edges (edge ∷ edges) ts rows = confirm_edges edges ts (confirm_edge edge ts rows)

  -- `_decay_absent_edges`: the update of one row.
  unfoldable pub decayed : F → EdgeRow F → EdgeRow F
  decayed ts row =
      let conf = max row.base_conf (row.confidence ⊗ (lit 1 0 ⊖ cfg.decay)) in
      let visible = row.visible && le cfg.hide conf in
      let at_floor = le conf (row.base_conf ⊕ lit 1 9) && lt (lit 0 0) row.base_conf in
      record row {
        confidence = conf;
        visible = visible;
        state = if at_floor then steady else if visible then decaying else hidden;
        updated_ts = ts;
      }

  -- The rows that the loop does not skip: of this signal, not seen, and both workloads present.
  abbrev pub is_absent : List Key → List String → EdgeRow F → Bool
  is_absent seen pods_present row =
      str_eq row.signal cfg.signal
      && (not (any (key_eq (key_of row)) seen)
          && (has row.src pods_present && has row.dst pods_present))

  unfoldable pub decay_row : List Key → List String → F → EdgeRow F → EdgeRow F
  unfolding decayed
  decay_row seen pods_present ts row =
      if is_absent seen pods_present row then decayed ts row else row

  unfoldable pub decay_absent_edges :
      List Key → List String → F → List (EdgeRow F) → List (EdgeRow F)
  decay_absent_edges seen pods_present ts [] = []
  decay_absent_edges seen pods_present ts (row ∷ rows) =
      decay_row seen pods_present ts row ∷ decay_absent_edges seen pods_present ts rows

  -- `_seed_structural`: the row of a witnessed pair that has none yet.
  unfoldable pub seeded : String → String → F → EdgeRow F
  seeded a b ts = record {
    src = a;
    dst = b;
    signal = cfg.signal;
    confidence = cfg.prior;
    r = lit 0 0;
    lag_s = 0;
    evidence = pvc ∷ [];
    hits = 0;
    visible = false;
    state = steady;
    first_seen_ts = ts;
    last_seen_ts = ts;
    updated_ts = ts;
    base_conf = cfg.prior;
  }

  seed_row : String → String → F → Option (EdgeRow F) → List (EdgeRow F) → List (EdgeRow F)
  seed_row a b ts none rows = rows ++ seeded a b ts ∷ []
  seed_row a b ts (some row) rows =
      if lt row.base_conf cfg.prior then set_base (a, b, cfg.signal) cfg.prior rows else rows

  -- `len(wls) != 2 or wls[0] not in pods_present or wls[1] not in pods_present`
  abbrev pub is_skipped : List String → String → String → Bool
  is_skipped pods_present a b = str_eq a b || (not (has a pods_present) || not (has b pods_present))

  -- `wls = sorted({stable_workload(p) for p in pair})`
  unfoldable pub seed_pair : List String → F → String × String → List (EdgeRow F) → List (EdgeRow F)
  unfolding seed_row seeded set_base
  seed_pair pods_present ts (p, q) rows =
      let a = smaller (stable_workload p) (stable_workload q) in
      let b = larger (stable_workload p) (stable_workload q) in
      if is_skipped pods_present a b
      then rows
      else seed_row a b ts (find (a, b, cfg.signal) rows) rows

  unfoldable pub seed_structural :
      List (String × String) → List String → F → List (EdgeRow F) → List (EdgeRow F)
  unfolding seed_pair
  seed_structural [] pods_present ts rows = rows
  seed_structural (pair ∷ pairs) pods_present ts rows =
      seed_structural pairs pods_present ts (seed_pair pods_present ts pair rows)
