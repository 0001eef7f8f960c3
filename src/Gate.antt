-- ===== src/Gate.antt =====
-- correlation/engine/gate.py: the physical witness, and the gate that every edge passes.
pub mod Clauses
pub mod Pairs
use abb_accelerator_aiops.Prelude.{
  ℕ, ◌*◌, Bool, true, false, not, ◌||◌, ◌&&◌, String, str_eq, Option, none, some, List, [], ◌∷◌,
  ◌++◌, ltb, if◌then◌else◌, any, Dict, get,
}
use abb_accelerator_aiops.Float.{Float, lit, ◌⊕◌, ◌⊖◌, lt, round}
use abb_accelerator_aiops.Lagcorr.{Profile, adjacent_support}

-- The strings of an edge's evidence list.
pub data Evidence : Type 0 where
  stat temporal write ebpf psi pvc : Evidence

-- A frozenset of two pods stands as a pair, read in either order.
pub record Witness : Type 0 where
  pub ebpf_edges : List (String × String)
  pub psi_copressure : List (String × String)
  pub shared_relation : List (String × String)

-- The dict of an edge, with the keys that the engine's passes write.
pub record Edge (F : Type 0) : Type 0 where
  pub src : String
  pub dst : String
  pub r : F
  pub lag_s : ℕ
  pub evidence : List Evidence

-- `(a, b) == p`
abbrev pub same_pair : String → String → String × String → Bool
same_pair a b (x, y) = str_eq x a && str_eq y b

-- `frozenset((a, b)) == frozenset(p)`
abbrev pub same_set : String → String → String × String → Bool
same_set a b p = same_pair a b p || same_pair b a p

unfoldable pub kinds : Witness → String → String → List Evidence
kinds w src dst =
    (if any (same_pair src dst) w.ebpf_edges || any (same_pair dst src) w.ebpf_edges
      then ebpf ∷ []
      else [])
    ++ ((if any (same_set src dst) w.psi_copressure then psi ∷ [] else [])
        ++ (if any (same_set src dst) w.shared_relation then pvc ∷ [] else []))

-- `k in COUPLING_KINDS`
abbrev pub is_coupling : Evidence → Bool
is_coupling ebpf = true
is_coupling pvc = true
is_coupling _ = false

unfoldable pub couples : Witness → String → String → Bool
couples w src dst = any is_coupling (kinds w src dst)

module _ {F : Type 0} ⦃f : Float F⦄ where
  abbrev pub r_peak : F
  r_peak = lit 6 1

  abbrev pub r_adj : F
  r_adj = lit 4 1

  abbrev pub temporal_tol_s : F
  temporal_tol_s = lit 10 0

  -- Clause 3: the two early returns, where both onsets are known.
  unfoldable pub out_of_order : ℕ → Option F → Option F → Bool
  out_of_order lag_s (some t_src) (some t_dst) =
      lt (t_dst ⊕ temporal_tol_s) t_src
      || (ltb 0 lag_s && lt (lit (4 * lag_s) 0 ⊕ temporal_tol_s) (t_dst ⊖ t_src))
  out_of_order lag_s _ _ = false

  abbrev pub temporal_evidence : Option F → Option F → List Evidence
  temporal_evidence (some _) (some _) = temporal ∷ []
  temporal_evidence _ _ = []

  unfoldable pub accept_edge :
      String → String → F → ℕ → Profile F → Witness → Dict F → Option (Edge F)
  accept_edge src dst r lag_s profile witness onset_s =
      if lt r r_peak || not (adjacent_support profile lag_s r_adj)
      then none
      else let ks = kinds witness src dst in
        if not (any is_coupling ks)
        then none
        else let t_src = get src onset_s in
          let t_dst = get dst onset_s in
          if out_of_order lag_s t_src t_dst
          then none
          else some (record {
            src = src;
            dst = dst;
            r = round 3 r;
            lag_s = lag_s;
            evidence = stat ∷ (ks ++ temporal_evidence t_src t_dst);
          })
