-- ===== src/Memory/Edges/Absence.antt =====
-- An edge that pass after pass leaves absent, in correlation/engine/state.py: what its row is after any number
-- of decays.
use mathlib.Core.Option
use abb_accelerator_aiops.Prelude.{
  ◌≡◌, refl, ap, ◌∙◌, true, ◌&&◌, String, some, List, [], ◌∷◌, arith, All, if_rule,
}
use abb_accelerator_aiops.Float.{Float, lit, ◌⊖◌, ◌⊗◌, le, lt, max}
use abb_accelerator_aiops.Float.Laws.{◌≼◌, IsOrdered, IsRounded, le-max_left, le-max_right, max-le}
use abb_accelerator_aiops.Memory.{MemoryConfig, EdgeRow}
use abb_accelerator_aiops.Memory.Edges.{
  Key, find, decayed, decay_row, is_absent, decay_absent_edges,
}
use abb_accelerator_aiops.Memory.Edges.Belief.{IsBelief, IsSane, IsUnit, IsUnit-complement}
use abb_accelerator_aiops.Memory.Edges.Table.{find-decay_absent_edges}

module _ {F : Type 0} ⦃f : Float F⦄ (cfg : MemoryConfig F) where
  -- The keys that a pass saw, the workloads that run in it, and its time.
  abbrev pub Pass : Type 0
  Pass = List Key × List String × F

  -- The decays of these passes, and nothing between them.
  abbrev pub decay_at : List Pass → List (EdgeRow F) → List (EdgeRow F)
  decay_at [] rows = rows
  decay_at ((seen, pods, ts) ∷ later) rows =
      decay_at later (decay_absent_edges cfg seen pods ts rows)

  -- The edge of the row is of the signal and absent from each of the passes, while its workloads run.
  abbrev pub IsMissed : EdgeRow F → List Pass → Type 0
  IsMissed row passes = All (λ (p : Pass). is_absent cfg p.0 p.1 row ≡ true) passes

  -- What decay leaves of a confidence that nothing holds up.
  abbrev pub worn : F → List Pass → F
  worn c [] = c
  worn c (_ ∷ later) = worn (c ⊗ (lit 1 0 ⊖ cfg.decay)) later

  -- What a row has become of an older one whose confidence has worn to c.
  pub record IsWorn (old : EdgeRow F) (c : F) (row : EdgeRow F) : Type 0 where
    pub floor : old.base_conf ≼ row.confidence
    pub bound : row.confidence ≼ max old.base_conf c
    pub visible : row.visible ≡ (old.visible && le cfg.hide row.confidence)
    pub base_conf : row.base_conf ≡ old.base_conf
    pub hits : row.hits ≡ old.hits

  find_missed :
      (seen : List Key) (pods : List String) (ts : F) (k : Key) (rows : List (EdgeRow F))
      (row : EdgeRow F)
      → is_absent cfg seen pods row ≡ true
      → find k rows ≡ some row
      → find k (decay_absent_edges cfg seen pods ts rows) ≡ some (decayed cfg ts row)
  unfolding decay_row
  find_missed seen pods ts k rows row missed e =
      find-decay_absent_edges cfg seen pods ts k rows
      ∙ ap (Option.map (decay_row cfg seen pods ts)) e
      ∙ rw missed refl

  module _ (o : IsOrdered F) (l : IsRounded F) (sane : IsSane cfg) where
    abbrev kept : F
    kept = lit 1 0 ⊖ cfg.decay

    -- The larger of the floor and c, worn once more, is at most the larger of the floor and c worn once more.
    max-worn : (b c : F) → IsUnit b → max b c ⊗ kept ≼ max b (c ⊗ kept)
    unfolding max
    max-worn b c u =
        let (k0, k1) = IsUnit-complement o l cfg sane cfg.decay sane.decay in
        if_rule (λ x. x ⊗ kept ≼ max b (c ⊗ kept)) (lt b c) (le-max_right o b (c ⊗ kept))
          (o.le_trans _ _ _ (l.mul-le_left b kept u.0 k1) (le-max_left o b (c ⊗ kept)))

    decayed-IsWorn :
        (old row : EdgeRow F) (c ts : F)
        → IsUnit old.base_conf
        → IsWorn old c row
        → IsWorn old (c ⊗ kept) (decayed cfg ts row)
    unfolding decayed
    decayed-IsWorn old row c ts u w =
        let (k0, k1) = IsUnit-complement o l cfg sane cfg.decay sane.decay in
        let next = max old.base_conf (row.confidence ⊗ kept) in
        let nonneg = o.le_trans _ _ _ u.0 w.floor in
        let lower : next ≼ row.confidence =
          max-le o _ _ _ w.floor (l.mul-le_left row.confidence kept nonneg k1) in
        let bound : next ≼ max old.base_conf (c ⊗ kept) =
          max-le o _ _ _ (le-max_left o _ _)
            (o.le_trans _ _ _ (l.mul_mono_left _ _ kept k0 w.bound) (max-worn old.base_conf c u)) in
        record {
          floor = rw w.base_conf (le-max_left o old.base_conf (row.confidence ⊗ kept));
          bound = rw w.base_conf bound;
          visible =
              rw w.base_conf
                (ground (arith, w.visible, o.le_trans cfg.hide next row.confidence, lower));
          base_conf = w.base_conf;
          hits = w.hits;
        }

    decay_at-IsWorn :
        (k : Key) (old row : EdgeRow F) (c : F) (passes : List Pass) (rows : List (EdgeRow F))
        → IsUnit old.base_conf
        → IsWorn old c row
        → IsMissed row passes
        → find k rows ≡ some row
        → (last : EdgeRow F) × (find k (decay_at passes rows) ≡ some last)
          × IsWorn old (worn c passes) last
    unfolding decayed
    decay_at-IsWorn k old row c [] rows u w missed e = (row, e, w)
    decay_at-IsWorn k old row c ((seen, pods, ts) ∷ later) rows u w (m, ms) e =
        decay_at-IsWorn k old (decayed cfg ts row) (c ⊗ kept) later
          (decay_absent_edges cfg seen pods ts rows) u (decayed-IsWorn old row c ts u w) ms
          (find_missed seen pods ts k rows row m e)

    -- A row whose numbers lie between 0 and 1, after one or more passes that miss its edge
    -- while its workloads run: its confidence is at the floor or above, and at most the larger
    -- of the floor and what the decays alone leave of the old confidence; it is visible exactly
    -- if it was and that confidence is still at `hide` or above; the floor and the hits are as
    -- they were. The configuration is sane, and the arithmetic obeys `IsOrdered` and
    -- `IsRounded`.
    pub find-decay_at :
        (k : Key) (pass : Pass) (later : List Pass) (rows : List (EdgeRow F)) (row : EdgeRow F)
        → IsBelief row
        → IsMissed row (pass ∷ later)
        → find k rows ≡ some row
        → (last : EdgeRow F) × (find k (decay_at (pass ∷ later) rows) ≡ some last)
          × IsWorn row (worn row.confidence (pass ∷ later)) last
    unfolding decayed
    find-decay_at k (seen, pods, ts) later rows row b (m, ms) e =
        decay_at-IsWorn k row (decayed cfg ts row) (row.confidence ⊗ kept) later
          (decay_absent_edges cfg seen pods ts rows) b.floor
          (record {
            floor = le-max_left o _ _;
            bound = o.le_refl _;
            visible = refl;
            base_conf = refl;
            hits = refl;
          })
          ms (find_missed seen pods ts k rows row m e)
