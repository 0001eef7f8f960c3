-- ===== src/Api/Template/Cites.antt =====
-- The edge that the template of api/main.py cites.
use mathlib.Core.Path.{subst}
use abb_accelerator_aiops.Prelude.{
  ◌≡◌, refl, sym, false, String, str_eq, str_eq_iff, List, [], ◌∷◌, filter-All, All, All-at, In,
  Bool-cases, inl, inr, ◌⊎◌, if◌then◌else◌,
}
use abb_accelerator_aiops.Float.{Float, lt, abs}
use abb_accelerator_aiops.Float.Laws.{IsOrdered, lt_asym, lt_irrefl, not-lt_trans}
use abb_accelerator_aiops.Api.{Link, Root, Verdict}
use abb_accelerator_aiops.Api.Template.{
  strongest_link, leaving, cited, contention, steady_state, or_else, template_narrative,
}

module _ {F : Type 0} ⦃f : Float F⦄ (o : IsOrdered F) where
  -- No edge of the list is stronger.
  abbrev pub IsStrongest : Link F → List (Link F) → Type 0
  IsStrongest e links = All (λ (x : Link F). lt (abs e.r) (abs x.r) ≡ false) links

  abbrev IsAmong : List (Link F) → Link F → Type 0
  IsAmong links c = In c links × IsStrongest c links

  -- The fold returns one of its arguments, and none is stronger.
  strongest_link-IsAmong :
      (best : Link F) (links : List (Link F)) → IsAmong (best ∷ links) (strongest_link best links)
  unfolding strongest_link
  strongest_link-IsAmong best [] = (inl refl, (lt_irrefl o (abs best.r), tt))
  strongest_link-IsAmong best (e ∷ es) = elim (Bool-cases (lt (abs best.r) (abs e.r))) [
    | inl up ↦
        let next : e ≡ (if lt (abs best.r) (abs e.r) then e else best) = rw up refl in
        let (m, (top, rest)) = strongest_link-IsAmong e es in
        subst (λ n. IsAmong (best ∷ e ∷ es) (strongest_link n es)) next
          (
            inr m,
            (
              not-lt_trans o (abs best.r) (abs e.r) (abs (strongest_link e es).r)
                  (lt_asym o (abs best.r) (abs e.r) up) top,
              (top, rest),
            ),
          )
    | inr stay ↦
        let next : best ≡ (if lt (abs best.r) (abs e.r) then e else best) = rw stay refl in
        let (m, (top, rest)) = strongest_link-IsAmong best es in
        subst (λ n. IsAmong (best ∷ e ∷ es) (strongest_link n es)) next
          (
            elim m [ inl q ↦ inl q | inr q ↦ inr (inr q) ],
            (
              top,
              (
                not-lt_trans o (abs e.r) (abs best.r) (abs (strongest_link best es).r) stay top,
                rest,
              ),
            ),
          )
  ]

  -- What the sentence of a verdict says: a steady state, or its first root cause and an edge.
  pub record Cites (cause : String) (links : List (Link F)) (c : Link F) : Type 0 where
    pub listed : In c links
    -- Either it leaves the cause and none that does is stronger, or no edge leaves the cause and
    -- none at all is stronger.
    pub chosen :
        ((c.src ≡ cause) × IsStrongest c (leaving cause links))
        ⊎ ((leaving cause links ≡ []) × IsStrongest c links)

  cited-Cites :
      (cause : String) (e : Link F) (es : List (Link F)) → Cites cause (e ∷ es) (cited cause e es)
  unfolding cited
  cited-Cites cause e es = cited_among (leaving cause (e ∷ es)) refl
    where
      cited_among :
          (out : List (Link F))
          → leaving cause (e ∷ es) ≡ out
          → Cites cause
              (e ∷ es)
              (elim out [ [] ↦ strongest_link e es | x ∷ xs ↦ strongest_link x xs ])
      cited_among [] none_leaves =
          let (m, top) = strongest_link-IsAmong e es in
          record { listed = m; chosen = inr (none_leaves, top) }
      cited_among (x ∷ xs) some_leave =
          let (m, top) = strongest_link-IsAmong x xs in
          let (listed, leaves) =
            All-at _ (leaving cause (e ∷ es))
              (filter-All (λ (e : Link F). str_eq e.src cause) (e ∷ es)) (strongest_link x xs)
              (subst (In (strongest_link x xs)) (sym some_leave) m) in
          record {
            listed = listed;
            chosen = inl (
              (str_eq_iff _ cause).0 leaves,
              subst (IsStrongest (strongest_link x xs)) (sym some_leave) top,
            );
          }

  -- What the sentence of a verdict is.
  abbrev pub IsSentence : String → Verdict F → String → Type 0
  IsSentence signal g text = elim g.root [
    | [] ↦ text ≡ steady_state (or_else g.meta.pods 0)
    | cause ∷ _ ↦ elim g.edges [
      | [] ↦ text ≡ steady_state (or_else g.meta.pods 0)
      | e ∷ es ↦
          (c : Link F) × Cites cause.pod (e ∷ es) c
          × (text ≡ contention (or_else g.meta.signal signal) cause.pod c g)
    ]
  ]

  IsSentence-cases :
      (signal : String) (root : List (Root F)) (edges : List (Link F)) (g : Verdict F)
      → let g' : Verdict F = record g { root = root; edges = edges } in
        IsSentence signal g' (template_narrative signal g')
  unfolding template_narrative
  IsSentence-cases signal [] edges g = refl
  IsSentence-cases signal (cause ∷ _) [] g = refl
  IsSentence-cases signal (cause ∷ _) (e ∷ es) g =
      (cited cause.pod e es, cited-Cites cause.pod e es, refl)

  -- The sentence of a verdict without a root cause or without edges is the steady state of its
  -- pods. Any other names the first root cause and cites an edge of the verdict: one that leaves
  -- the cause, and none that leaves it is stronger; or, if none leaves it, one than which no edge
  -- is stronger. The order obeys `IsOrdered`.
  pub template_narrative-IsSentence :
      (signal : String) (g : Verdict F) → IsSentence signal g (template_narrative signal g)
  template_narrative-IsSentence signal g = IsSentence-cases signal g.root g.edges g
