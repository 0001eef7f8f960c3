-- ===== src/Pipeline/Edges/Coupled.antt =====
-- The edges of a pass in correlation/engine/pipeline.py join coupled pods only.
use mathlib.Core.Path.{subst}
use abb_accelerator_aiops.Prelude.{ℕ, ◌≡◌, sym, true, String, Option, some, List, arith, All, Dict}
use abb_accelerator_aiops.Float.{Float}
use abb_accelerator_aiops.Lagcorr.{Stats, Profile}
use abb_accelerator_aiops.Gate.{Edge, Witness, couples, accept_edge}
use abb_accelerator_aiops.Gate.Clauses.{Coupled, couples_iff, accept_edge_iff}
use abb_accelerator_aiops.Pipeline.Edges.{writer_edge_of, writer_edge, psi_edges, source_edges}
use abb_accelerator_aiops.Pipeline.Edges.Rule.{psi_edges-All, source_edges-All}

module _ {F : Type 0} ⦃f : Float F⦄ where
  -- The ends of an edge share a real resource.
  abbrev pub IsCoupled : Witness → Edge F → Type 0
  IsCoupled w e = Coupled w e.src e.dst

  accept_edge-IsCoupled :
      (src dst : String) (r : F) (lag_s : ℕ) (profile : Profile F) (w : Witness) (onset_s : Dict F)
      (e : Edge F)
      → accept_edge src dst r lag_s profile w onset_s ≡ some e
      → IsCoupled w e
  accept_edge-IsCoupled src dst r lag_s profile w onset_s e h =
      let (passes, made) = (accept_edge_iff src dst r lag_s profile w onset_s e).0 h in
      subst (IsCoupled w) made passes.coupled

  writer_edge-ends :
      (st : Stats F) (src dst : String) (wsrc vdst : List F) (w : Witness) (a b : Option F)
      (e : Edge F)
      → writer_edge st src dst wsrc vdst w a b ≡ some e
      → (e.src ≡ src) × (e.dst ≡ dst)
  unfolding writer_edge writer_edge_of
  writer_edge-ends st src dst wsrc vdst w a b e h = ground arith

  writer_edge-IsCoupled :
      (st : Stats F) (src dst : String) (x y : List F) (w : Witness) (a b : Option F) (e : Edge F)
      → couples w src dst ≡ true
      → writer_edge st src dst x y w a b ≡ some e
      → IsCoupled w e
  writer_edge-IsCoupled st src dst x y w a b e joined h =
      let (p, q) = writer_edge-ends st src dst x y w a b e h in
      subst (λ a. Coupled w a e.dst) (sym p)
        (subst (λ b. Coupled w src b) (sym q) ((couples_iff w src dst).0 joined))

  module _ (st : Stats F) (w : Witness) (active : List String) (onset_s : Dict F) where
    pub psi_edges-IsCoupled :
        (cvec : Dict (List F)) (pairs : List (String × String))
        → All (IsCoupled w) (psi_edges st w active onset_s cvec pairs)
    psi_edges-IsCoupled cvec pairs =
        psi_edges-All (IsCoupled w) st w active onset_s cvec pairs
          (λ src dst x y. accept_edge-IsCoupled src dst _ _ _ w onset_s)

    pub source_edges-IsCoupled :
        (max_abs : List F → F) (write_cvec cvec : Dict (List F)) (write_onset_s : Dict F)
        (ws : List String)
        → All
            (IsCoupled w)
            (source_edges st w active onset_s max_abs write_cvec cvec write_onset_s ws)
    source_edges-IsCoupled max_abs write_cvec cvec write_onset_s ws =
        source_edges-All (IsCoupled w) st w active onset_s max_abs write_cvec cvec write_onset_s
          (λ src dst x y. writer_edge-IsCoupled st src dst x y w) ws
