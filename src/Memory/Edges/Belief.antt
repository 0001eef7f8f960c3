-- ===== src/Memory/Edges/Belief.antt =====
-- The numbers of edge_memory stay beliefs: every confidence and every floor lies between 0 and 1
-- whatever the engine writes, and what one confirmation or one decay does to a row.
use abb_accelerator_aiops.Prelude.{◌≡◌, refl, ◌&&◌, ◌||◌, ◌+◌, Option, none, some}
use abb_accelerator_aiops.Float.{Float, lit, ◌⊕◌, ◌⊖◌, ◌⊗◌, le, max}
use abb_accelerator_aiops.Float.Laws.{IsOrdered, IsRounded, ◌≼◌, le-max_left, le-max_right, max-le}
use abb_accelerator_aiops.Gate.{Edge}
use abb_accelerator_aiops.Memory.{MemoryConfig, EdgeRow}
use abb_accelerator_aiops.Memory.Edges.{confirmed, decayed, seeded}
use abb_accelerator_aiops.Memory.Edges.Rows.{IsKept}

module _ {F : Type 0} ⦃f : Float F⦄ where
  abbrev pub IsUnit : F → Type 0
  IsUnit x = (lit 0 0 ≼ x) × (x ≼ lit 1 0)

  pub record IsBelief (row : EdgeRow F) : Type 0 where
    pub confidence : IsUnit row.confidence
    pub floor : IsUnit row.base_conf

  -- What the environment variables of the service must be.
  pub record IsSane (cfg : MemoryConfig F) : Type 0 where
    pub alpha : IsUnit cfg.alpha
    pub decay : IsUnit cfg.decay
    pub prior : IsUnit cfg.prior
    pub floor_frac : IsUnit cfg.floor_frac

module _ {F : Type 0} ⦃f : Float F⦄ (o : IsOrdered F) (l : IsRounded F) (cfg : MemoryConfig F)
    (sane : IsSane cfg) where
  IsUnit-mul : (x y : F) → IsUnit x → IsUnit y → IsUnit (x ⊗ y)
  IsUnit-mul x y (x0, x1) (y0, y1) =
      (l.mul_nonneg x y x0 y0, o.le_trans _ _ _ (l.mul-le_left x y x0 y1) x1)

  IsUnit-max : (x y : F) → IsUnit x → IsUnit y → IsUnit (max x y)
  IsUnit-max x y (x0, x1) (y0, y1) =
      (o.le_trans _ _ _ x0 (le-max_left o x y), max-le o x y (lit 1 0) x1 y1)

  pub IsUnit-complement : (x : F) → IsUnit x → IsUnit (lit 1 0 ⊖ x)
  IsUnit-complement x (x0, x1) = (l.sub_nonneg _ _ x1, l.sub-le _ _ x0)

  -- The move towards 1 by the fraction alpha never falls and never passes 1.
  step_up :
      (c : F)
      → IsUnit c
      → (c ≼ c ⊕ cfg.alpha ⊗ (lit 1 0 ⊖ c)) × IsUnit (c ⊕ cfg.alpha ⊗ (lit 1 0 ⊖ c))
  step_up c (c0, c1) =
      let (d0, d1) = IsUnit-complement c (c0, c1) in
      let (a0, a1) = sane.alpha in
      let up = l.le-add c _ (l.mul_nonneg cfg.alpha (lit 1 0 ⊖ c) a0 d0) in
      (
        up,
        (
          o.le_trans _ _ _ c0 up,
          o.le_trans _ _ _ (l.add_mono_right c _ _ (l.mul-le_right cfg.alpha (lit 1 0 ⊖ c) d0 a1))
              (l.complement c c0 c1),
        ),
      )

  zero-IsUnit : IsUnit {F = F} (lit 0 0)
  zero-IsUnit = (o.le_refl (lit 0 0), l.zero-le-one)

  confirmed-IsBelief :
      (old : Option (EdgeRow F)) (edge : Edge F) (ts : F)
      → ((row : EdgeRow F) → old ≡ some row → IsBelief row)
      → IsBelief (confirmed cfg old edge ts)
  unfolding confirmed
  confirmed-IsBelief none edge ts h = record {
    confidence = sane.alpha;
    floor = IsUnit-max _ _ zero-IsUnit (IsUnit-mul _ _ sane.floor_frac sane.alpha);
  }
  confirmed-IsBelief (some row) edge ts h =
      let b = h row refl in
      let (up, unit) = step_up row.confidence b.confidence in
      record {
        confidence = unit;
        floor = IsUnit-max _ _ b.floor (IsUnit-mul _ _ sane.floor_frac unit);
      }

  decayed-IsBelief : (ts : F) (row : EdgeRow F) → IsBelief row → IsBelief (decayed cfg ts row)
  unfolding decayed
  decayed-IsBelief ts row b = record {
    confidence =
        IsUnit-max _ _ b.floor (IsUnit-mul _ _ b.confidence (IsUnit-complement _ sane.decay));
    floor = b.floor;
  }

  pub IsBelief-IsKept : IsKept cfg IsBelief (λ _. Unit {0}) (λ _ _. Unit {0})
  unfolding seeded
  IsBelief-IsKept = record {
    confirm = λ old edge ts _ h. confirmed-IsBelief old edge ts h;
    decay = decayed-IsBelief;
    raise = λ row b. record { confidence = b.confidence; floor = sane.prior };
    seed = λ a b ts _. record { confidence = sane.prior; floor = sane.prior };
  }

  -- One confirmation of a row whose numbers lie between 0 and 1: its confidence and its floor do
  -- not fall, a visible row stays visible, any other becomes visible exactly when the new
  -- confidence reaches `show`, and one more hit counts. The configuration is sane, and the
  -- arithmetic obeys `IsOrdered` and `IsRounded`.
  pub confirmed_row :
      (row : EdgeRow F) (edge : Edge F) (ts : F)
      → IsBelief row
      → let row' = confirmed cfg (some row) edge ts in
        (row.confidence ≼ row'.confidence)
        × (row.base_conf ≼ row'.base_conf)
        × (row'.visible ≡ (row.visible || le cfg.show row'.confidence))
        × (row'.hits ≡ row.hits + 1)
  unfolding confirmed
  confirmed_row row edge ts b =
      ((step_up row.confidence b.confidence).0, le-max_left o _ _, refl, refl)

  -- One decay of a row whose numbers lie between 0 and 1: the confidence ends between the floor
  -- and the larger of the floor and its old value, the floor and the hits stay, and the row is
  -- visible after it exactly when it was visible and its confidence is still at least `hide`. The
  -- configuration is sane, and the arithmetic obeys `IsOrdered` and `IsRounded`.
  pub decayed_row :
      (row : EdgeRow F) (ts : F)
      → IsBelief row
      → let row' = decayed cfg ts row in
        (row.base_conf ≼ row'.confidence)
        × (row'.confidence ≼ max row.base_conf row.confidence)
        × (row'.base_conf ≡ row.base_conf)
        × (row'.hits ≡ row.hits)
        × (row'.visible ≡ (row.visible && le cfg.hide row'.confidence))
  unfolding decayed
  decayed_row row ts b = (
    le-max_left o _ _,
    max-le o _ _ _ (le-max_left o _ _) (
        o.le_trans _ _ _
          (l.mul-le_left row.confidence (lit 1 0 ⊖ cfg.decay) b.confidence.0
            (IsUnit-complement cfg.decay sane.decay).1)
          (le-max_right o row.base_conf row.confidence)),
    refl,
    refl,
    refl,
  )
