-- ===== src/Pipeline/Edges/Rule.antt =====
-- What the loops over pairs in correlation/engine/pipeline.py collect: a predicate that every edge of the gate
-- and every writer's edge has is had by every edge of the pass.
use abb_accelerator_aiops.Prelude.{
  ◌≡◌, refl, Bool, true, false, not, ◌&&◌, ◌||◌, String, str_eq, Option, none, some, List, [], ◌∷◌,
  ◌++◌, arith, All, All-append, All-sorted, has, Dict, get, if◌then◌else◌,
}
use abb_accelerator_aiops.Prelude.Choice.{choose_all-All}
use abb_accelerator_aiops.Float.{Float, le}
use abb_accelerator_aiops.Lagcorr.{Stats, best_directed}
use abb_accelerator_aiops.Gate.{Edge, Witness, couples, accept_edge}
use abb_accelerator_aiops.Pipeline.Edges.{
  writer_edge, vector_of, listed, is_disturbed, psi_edge, psi_edges, activity, source_edge,
  victims_edges, source_edges, sorted_keys, same_pods, choose_all, edge_lt, settled, if_started,
  is_preferred,
}

module _ {F : Type 0} ⦃f : Float F⦄ where
  listed_rule :
      (P : Edge F → Type 0) (o : Option (Edge F))
      → ((e : Edge F) → o ≡ some e → P e)
      → All P (listed o)
  listed_rule P none h = tt
  listed_rule P (some e) h = (h e refl, tt)

  -- The edges that a guard lets through.
  guard_rule :
      (P : Edge F → Type 0) (b : Bool) (edges : List (Edge F))
      → (b ≡ false → All P edges)
      → All P (if b then [] else edges)
  guard_rule P true edges h = tt
  guard_rule P false edges h = h refl

  if_started_rule :
      (P : Edge F → Type 0) (onset : Option F) (edges : List (Edge F))
      → All P edges
      → All P (if_started onset edges)
  if_started_rule P none edges h = tt
  if_started_rule P (some _) edges h = h

  module _ (P : Edge F → Type 0) (st : Stats F) (w : Witness) (active : List String)
      (onset_s : Dict F) where
    pub psi_edges-All :
        (cvec : Dict (List F)) (pairs : List (String × String))
        → ((src dst : String) (x y : List F) (e : Edge F)
            → let d = best_directed st x y in
              accept_edge src dst d.r d.lag_s d.profile w onset_s ≡ some e → P e)
        → All P (psi_edges st w active onset_s cvec pairs)
    unfolding psi_edges psi_edge
    psi_edges-All cvec [] h = tt
    psi_edges-All cvec ((a, b) ∷ pairs) h =
        let d = best_directed st (vector_of cvec a) (vector_of cvec b) in
        let src = if d.forward then a else b in
        let dst = if d.forward then b else a in
        let edge = accept_edge src dst d.r d.lag_s d.profile w onset_s in
        All-append P (psi_edge st w active onset_s cvec (a, b)) _
          (guard_rule P
            (not (couples w a b)
              || (not (has a active)
                  && (not (has b active) && not (is_disturbed st w active onset_s))))
            (listed edge)
            (λ _. listed_rule P edge (h src dst (vector_of cvec a) (vector_of cvec b))))
          (psi_edges-All cvec pairs h)

    module _ (max_abs : List F → F) (write_cvec cvec : Dict (List F)) (write_onset_s : Dict F)
        (h : (src dst : String) (x y : List F) (a b : Option F) (e : Edge F)
          → couples w src dst ≡ true
          → writer_edge st src dst x y w a b ≡ some e
          → P e) where
      source_edge-All :
          (src dst : String)
          → All P (source_edge st w active onset_s max_abs write_cvec cvec write_onset_s src dst)
      unfolding source_edge
      source_edge-All src dst =
          let edge =
            writer_edge st src dst (vector_of write_cvec src) (vector_of cvec dst) w
              (get src write_onset_s) (get dst onset_s) in
          guard_rule P (str_eq dst src || not (couples w src dst)) _ (λ joined.
            guard_rule P (not (has dst active) && not (is_disturbed st w active onset_s)) _ (λ _.
              guard_rule P
                (le (activity st w active onset_s max_abs write_cvec src)
                  (activity st w active onset_s max_abs write_cvec dst))
                (listed edge)
                (λ _. listed_rule P edge (λ e k. h src dst _ _ _ _ e (ground (arith, joined)) k))))

      victims_edges-All :
          (src : String) (vs : List String)
          → All P (victims_edges st w active onset_s max_abs write_cvec cvec write_onset_s src vs)
      unfolding victims_edges
      victims_edges-All src [] = tt
      victims_edges-All src (v ∷ vs) =
          All-append P (source_edge st w active onset_s max_abs write_cvec cvec write_onset_s src v)
            _ (source_edge-All src v) (victims_edges-All src vs)

      pub source_edges-All :
          (ws : List String)
          → All P (source_edges st w active onset_s max_abs write_cvec cvec write_onset_s ws)
      unfolding source_edges
      source_edges-All [] = tt
      source_edges-All (src ∷ ws) =
          All-append P
            (if_started (get src write_onset_s) (
              victims_edges st w active onset_s max_abs write_cvec cvec write_onset_s src
                (sorted_keys cvec)))
            _
            (if_started_rule P (get src write_onset_s) _ (victims_edges-All src (sorted_keys cvec)))
            (source_edges-All ws)

  pub settled-All :
      (P : Edge F → Type 0) (vectors : Dict (List F)) (edges sources : List (Edge F))
      → All P edges
      → All P sources
      → All P (settled vectors edges sources)
  unfolding settled choose_all
  settled-All P [] edges sources h k = h
  settled-All P (_ ∷ _) edges sources h k =
      All-sorted edge_lt P (choose_all (edges ++ sources) []) (
        choose_all-All same_pods is_preferred P (edges ++ sources) []
          (All-append P edges sources h k) tt)
