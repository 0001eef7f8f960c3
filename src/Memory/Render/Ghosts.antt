-- ===== src/Memory/Render/Ghosts.antt =====
-- The held edges of `_render` in correlation/engine/state.py: never a pod that is not running, and never
-- a pair that is shown live.
use mathlib.Core.Path.{subst}
use abb_accelerator_aiops.Prelude.{
  ◌≡◌, refl, true, false, not, ◌&&◌, String, str_eq, str_eq_iff, Option, none, some, List, [], ◌∷◌,
  arith, filter, filter-All, All, All-map, All-append, All-In, In, Dict, get, put, get-put,
  Bool-cases, inl, inr,
}
use abb_accelerator_aiops.Prelude.Choice.{choose_all-All}
use abb_accelerator_aiops.Float.{Float}
use abb_accelerator_aiops.Names.{stable_workload}
use abb_accelerator_aiops.Gate.{Edge}
use abb_accelerator_aiops.Memory.{MemoryConfig, EdgeRow}
use abb_accelerator_aiops.Memory.Render.{
  RenderedEdge, pods_by_workload, is_live, is_shown, same_workloads, stronger, candidates,
  kept_rows, held_edge, held_from, held_edges,
}

-- The pod is one of the running ones, and of this workload.
abbrev pub Runs : List String → String → String → Type 0
Runs pods wl p = In p pods × (stable_workload p ≡ wl)

pods_by_workload-Runs :
    (pods : List String) (acc : Dict String) (rest : List String)
    → All (λ p. In p pods) rest
    → ((wl p : String) → get wl acc ≡ some p → Runs pods wl p)
    → (wl p : String) → get wl (pods_by_workload acc rest) ≡ some p
    → Runs pods wl p
unfolding pods_by_workload
pods_by_workload-Runs pods acc [] _ h = h
pods_by_workload-Runs pods acc (q ∷ rest) (m, ms) h =
    pods_by_workload-Runs pods (put (stable_workload q) q acc) rest ms (λ wl p e.
      elim (Bool-cases (str_eq (stable_workload q) wl)) [
        | inl s ↦
            let same : q ≡ p = ground (arith, get-put (stable_workload q) wl q acc, e, s) in
            subst (Runs pods wl) same (m, (str_eq_iff (stable_workload q) wl).0 s)
        | inr s ↦ h wl p (ground (arith, get-put (stable_workload q) wl q acc, e, s))
      ])

no_pod : (wl p : String) → get {V = String} wl [] ≡ some p → ⊥
unfolding get
no_pod wl p e = cc

module _ {F : Type 0} ⦃f : Float F⦄ (cfg : MemoryConfig F) where
  module _ (pods : List String) (edges : List (Edge F)) (rows : List (EdgeRow F)) where
    -- A row that may be shown: visible or with a floor, and not of a pair that is live.
    abbrev pub IsCandidate : EdgeRow F → Type 0
    IsCandidate row = In row rows × (is_shown cfg row ≡ true) × (is_live cfg edges row ≡ false)

    pub kept_rows-IsCandidate : All IsCandidate (kept_rows cfg edges rows)
    unfolding kept_rows
    kept_rows-IsCandidate =
        let test = λ (row : EdgeRow F). is_shown cfg row && not (is_live cfg edges row) in
        choose_all-All (same_workloads cfg) (stronger cfg) IsCandidate (candidates cfg edges rows)
          []
          (All-map (λ row (m, t). (m, ground (arith, t), ground (arith, t))) (filter test rows)
            (filter-All test rows))
          tt

    -- A held edge stands for a row, between two running pods of the row's workloads.
    abbrev pub IsBacked : RenderedEdge F → Type 0
    IsBacked h =
        (row : EdgeRow F) × IsCandidate row
        × Runs pods row.src h.edge.src
        × Runs pods row.dst h.edge.dst

    held_edge-IsBacked :
        (now : F) (row : EdgeRow F) (src dst : Option String)
        → IsCandidate row
        → ((p : String) → src ≡ some p → Runs pods row.src p)
        → ((p : String) → dst ≡ some p → Runs pods row.dst p)
        → All IsBacked (held_edge cfg now row src dst)
    unfolding held_edge
    held_edge-IsBacked now row (some p) (some q) c s d = ((row, c, s p refl, d q refl), tt)
    held_edge-IsBacked now row none q c s d = tt
    held_edge-IsBacked now row (some p) none c s d = tt

    held_from-IsBacked :
        (now : F) (wl_pod : Dict String) (kept : List (EdgeRow F))
        → ((wl p : String) → get wl wl_pod ≡ some p → Runs pods wl p)
        → All IsCandidate kept
        → All IsBacked (held_from cfg now wl_pod kept)
    unfolding held_from
    held_from-IsBacked now wl_pod [] h _ = tt
    held_from-IsBacked now wl_pod (row ∷ kept) h (c, cs) =
        All-append IsBacked (held_edge cfg now row (get row.src wl_pod) (get row.dst wl_pod)) _
          (held_edge-IsBacked now row (get row.src wl_pod) (get row.dst wl_pod) c (h row.src)
            (h row.dst))
          (held_from-IsBacked now wl_pod kept h cs)

    -- Every held edge of the rendered graph stands for a row of edge_memory that is of the
    -- signal and visible or with a floor, and whose pair of workloads has no live edge; its
    -- ends are pods that run, and of the row's workloads.
    pub held_edges-IsBacked : (now : F) → All IsBacked (held_edges cfg now pods edges rows)
    unfolding held_edges
    held_edges-IsBacked now =
        held_from-IsBacked now (pods_by_workload [] pods) (kept_rows cfg edges rows)
          (pods_by_workload-Runs pods [] pods (All-In pods) (λ wl p e. absurd (no_pod wl p e)))
          kept_rows-IsCandidate
