-- ===== src/Memory/Edges/Climb.antt =====
-- An edge that pass after pass confirms, in correlation/engine/state.py: what its row is after any number of
-- confirmations.
use abb_accelerator_aiops.Prelude.{
  ℕ, ◌+◌, ◌≡◌, refl, ap, ◌∙◌, Bool, ◌||◌, none, some, List, [], ◌∷◌, arith, length,
}
use abb_accelerator_aiops.Float.{Float, lit, ◌⊕◌, ◌⊖◌, ◌⊗◌, le}
use abb_accelerator_aiops.Gate.{Edge}
use abb_accelerator_aiops.Memory.{MemoryConfig, EdgeRow}
use abb_accelerator_aiops.Memory.Edges.{edge_key, find, confirmed, confirm_edge}
use abb_accelerator_aiops.Memory.Edges.Table.{key_eq_iff, find-confirm_edge}

module _ {F : Type 0} ⦃f : Float F⦄ (cfg : MemoryConfig F) (edge : Edge F) where
  -- The confirmations at these times, and nothing between them.
  abbrev pub confirm_at : List F → List (EdgeRow F) → List (EdgeRow F)
  confirm_at [] rows = rows
  confirm_at (ts ∷ later) rows = confirm_at later (confirm_edge cfg edge ts rows)

  -- The confidence moves by alpha of what is left to 1.
  abbrev pub climb : F → F
  climb c = c ⊕ cfg.alpha ⊗ (lit 1 0 ⊖ c)

  abbrev pub climbed : F → List F → F
  climbed c [] = c
  climbed c (_ ∷ later) = climbed (climb c) later

  -- Whether the confidence has come to `show`, now or later.
  abbrev pub shown : Bool → F → List F → Bool
  shown v c [] = v
  shown v c (_ ∷ later) = shown (v || le cfg.show (climb c)) (climb c) later

  -- What the numbers of the row are.
  pub record IsClimbed (conf : F) (seen : Bool) (n : ℕ) (first : F) (row : EdgeRow F) : Type 0 where
    pub confidence : row.confidence ≡ conf
    pub visible : row.visible ≡ seen
    pub hits : row.hits ≡ n
    pub first_seen : row.first_seen_ts ≡ first

  find_own :
      (ts : F) (rows : List (EdgeRow F))
      → find (edge_key cfg edge) (confirm_edge cfg edge ts rows)
        ≡ some (confirmed cfg (find (edge_key cfg edge) rows) edge ts)
  find_own ts rows = ground (
    arith,
    find-confirm_edge cfg edge ts (edge_key cfg edge) rows,
    key_eq_iff (edge_key cfg edge) (edge_key cfg edge),
  )

  climb-IsClimbed :
      (later : List F) (rows : List (EdgeRow F)) (row : EdgeRow F)
      → find (edge_key cfg edge) rows ≡ some row
      → (last : EdgeRow F) × (find (edge_key cfg edge) (confirm_at later rows) ≡ some last)
        × IsClimbed
            (climbed row.confidence later)
            (shown row.visible row.confidence later)
            (row.hits + length later)
            row.first_seen_ts
            last
  unfolding confirmed
  climb-IsClimbed [] rows row e =
      (row, e, record { confidence = refl; visible = refl; hits = omega arith; first_seen = refl })
  climb-IsClimbed (ts ∷ later) rows row e =
      let next = confirmed cfg (some row) edge ts in
      let found = find_own ts rows ∙ ap (λ o. some (confirmed cfg o edge ts)) e in
      let (last, at, c) = climb-IsClimbed later (confirm_edge cfg edge ts rows) next found in
      (
        last,
        at,
        record {
          confidence = c.confidence;
          visible = c.visible;
          hits = omega (arith, c.hits);
          first_seen = c.first_seen;
        },
      )

  -- An edge without a row is confirmed at a first time and then at others. Its row has the
  -- confidence that alpha grows to when each later time moves it by alpha of what is left to 1;
  -- it is visible exactly if one of these confidences was at least `show`; it counts one hit for
  -- each time, and keeps the first as its `first_seen_ts`.
  pub find-confirm_at :
      (ts : F) (later : List F) (rows : List (EdgeRow F))
      → find (edge_key cfg edge) rows ≡ none
      → (last : EdgeRow F) × (find (edge_key cfg edge) (confirm_at (ts ∷ later) rows) ≡ some last)
        × IsClimbed
            (climbed cfg.alpha later)
            (shown (le cfg.show cfg.alpha) cfg.alpha later)
            (1 + length later)
            ts
            last
  unfolding confirmed
  find-confirm_at ts later rows e =
      climb-IsClimbed later (confirm_edge cfg edge ts rows) (confirmed cfg none edge ts)
        (find_own ts rows ∙ ap (λ o. some (confirmed cfg o edge ts)) e)
