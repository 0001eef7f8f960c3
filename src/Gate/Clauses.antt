-- ===== src/Gate/Clauses.antt =====
-- What the gate of correlation/engine/gate.py decides: which pairs are coupled, and which edges pass.
use abb_accelerator_aiops.Prelude.{
  ℕ, ◌*◌, ◌<◌, ◌≡◌, refl, ◌↔◌, ◌⊎◌, inl, inr, true, false, ◌||◌, String, str_eq_iff, Option, none,
  some, List, [], ◌∷◌, ◌++◌, arith, any, In, Dict, get, or_iff, ltb, ltb→lt, Bool-cases,
}
use abb_accelerator_aiops.Float.{Float, lit, ◌⊕◌, ◌⊖◌, lt, round}
use abb_accelerator_aiops.Lagcorr.{Profile, adjacent_support}
use abb_accelerator_aiops.Gate.{
  Witness, Edge, same_pair, same_set, kinds, couples, out_of_order, accept_edge, temporal_evidence,
  r_peak, r_adj, temporal_tol_s, stat,
}

-- The pair stands in a list of pairs, in one order or the other.
abbrev pub Linked : List (String × String) → String → String → Type 0
Linked ps a b = In (a, b) ps ⊎ In (b, a) ps

-- The two pods share a real resource: a network dependency or a disk.
abbrev pub Coupled : Witness → String → String → Type 0
Coupled w a b = Linked w.ebpf_edges a b ⊎ Linked w.shared_relation a b

same_pair_iff :
    (a b : String) (p : String × String)
    → (same_pair a b p ≡ true) ↔ ◌≡◌ {A = String × String} (a, b) p
same_pair_iff a b (x, y) = (
  λ h. ground (arith, str_eq_iff x a, str_eq_iff y b),
  λ h. ground (arith, str_eq_iff x a, str_eq_iff y b),
)

any-same_pair_iff :
    (a b : String) (ps : List (String × String)) → (any (same_pair a b) ps ≡ true) ↔ In (a, b) ps
any-same_pair_iff a b [] = (λ h. absurd (ground arith), λ h. elim h [ ])
any-same_pair_iff a b (p ∷ ps) =
    or_iff (same_pair a b p) (any (same_pair a b) ps) (same_pair_iff a b p)
      (any-same_pair_iff a b ps)

any-Linked_iff :
    (a b : String) (ps : List (String × String))
    → ((any (same_pair a b) ps || any (same_pair b a) ps) ≡ true) ↔ Linked ps a b
any-Linked_iff a b ps =
    or_iff (any (same_pair a b) ps) (any (same_pair b a) ps) (any-same_pair_iff a b ps)
      (any-same_pair_iff b a ps)

any-same_set :
    (a b : String) (ps : List (String × String))
    → any (same_set a b) ps ≡ (any (same_pair a b) ps || any (same_pair b a) ps)
any-same_set a b [] = refl
any-same_set a b (p ∷ ps) = ground (arith, any-same_set a b ps)

couples_lem :
    (w : Witness) (a b : String)
    → couples w a b ≡ (
        (any (same_pair a b) w.ebpf_edges || any (same_pair b a) w.ebpf_edges)
        || (any (same_pair a b) w.shared_relation || any (same_pair b a) w.shared_relation))
unfolding couples kinds
couples_lem w a b = ground (arith, any-same_set a b w.shared_relation)

-- Two pods are coupled exactly when the witness has them in a network dependency or on a shared
-- disk, in either order; the PSI co-pressure of the witness has no say.
pub couples_iff : (w : Witness) (a b : String) → (couples w a b ≡ true) ↔ Coupled w a b
couples_iff w a b =
    rw (couples_lem w a b)
      (or_iff _ _ (any-Linked_iff a b w.ebpf_edges) (any-Linked_iff a b w.shared_relation))

module _ {F : Type 0} ⦃f : Float F⦄ where
  -- The onsets of the two pods fit an edge of this lag: the source does not start more than the
  -- tolerance after the target, nor, at a positive lag, more than four lags and the tolerance before.
  abbrev pub InOrder : ℕ → Option F → Option F → Type 0
  InOrder lag_s (some t_src) (some t_dst) =
      (lt (t_dst ⊕ temporal_tol_s) t_src ≡ false)
      × (0 < lag_s → lt (lit (4 * lag_s) 0 ⊕ temporal_tol_s) (t_dst ⊖ t_src) ≡ false)
  InOrder lag_s _ _ = Unit

  InOrder-iff :
      (lag_s : ℕ) (t_src t_dst : Option F)
      → (out_of_order lag_s t_src t_dst ≡ false) ↔ InOrder lag_s t_src t_dst
  unfolding out_of_order
  InOrder-iff lag_s (some a) (some b) = (
    λ h. (ground arith, λ p. ground arith),
    λ (g, h). elim (Bool-cases (ltb 0 lag_s)) [
      | inl e ↦ ground (arith, h (ltb→lt 0 lag_s e))
      | inr e ↦ ground arith
    ],
  )
  InOrder-iff lag_s none b = (λ _. tt, λ _. refl)
  InOrder-iff lag_s (some a) none = (λ _. tt, λ _. refl)

  -- The three clauses that the gate promises to check.
  pub record Passes (src dst : String) (r : F) (lag_s : ℕ) (profile : Profile F) (w : Witness)
      (onset_s : Dict F) : Type 0 where
    pub strong : lt r r_peak ≡ false
    pub supported : adjacent_support profile lag_s r_adj ≡ true
    pub coupled : Coupled w src dst
    pub ordered : InOrder lag_s (get src onset_s) (get dst onset_s)

  module _ (src dst : String) (r : F) (lag_s : ℕ) (profile : Profile F) (w : Witness)
      (onset_s : Dict F) where
    -- The edge that the gate makes of its arguments.
    abbrev pub accepted : Edge F
    accepted = record {
      src = src;
      dst = dst;
      r = round 3 r;
      lag_s = lag_s;
      evidence = stat ∷ (kinds w src dst ++ temporal_evidence (get src onset_s) (get dst onset_s));
    }

    -- The gate returns an edge exactly when the three clauses hold, and then it is the edge
    -- from `src` to `dst` with the rounded peak, its lag, and the evidence of each clause.
    pub accept_edge_iff :
        (e : Edge F)
        → (accept_edge src dst r lag_s profile w onset_s ≡ some e)
          ↔ (Passes src dst r lag_s profile w onset_s × (accepted ≡ e))
    unfolding accept_edge couples
    accept_edge_iff e =
        let c = couples_iff w src dst in
        let o = InOrder-iff lag_s (get src onset_s) (get dst onset_s) in
        (
          λ h. (
            record {
              strong = ground arith;
              supported = ground arith;
              coupled = c.0 (ground arith);
              ordered = o.0 (ground arith);
            },
            ground arith,
          ),
          λ (p, q). ground (arith, p.strong, p.supported, c.1 p.coupled, o.1 p.ordered),
        )
