-- ===== src/Api/Template.antt =====
-- The template of the operator's sentence in api/main.py.
pub mod Cites
use Prim.Native.String
use abb_accelerator_aiops.Prelude.{
  ℕ, zero, suc, ◌/◌, ◌%◌, String, str_eq, Option, none, some, List, [], ◌∷◌, filter, ltb, get_elem?,
  has, if◌then◌else◌,
}
use abb_accelerator_aiops.Float.{Float, lt, abs}
use abb_accelerator_aiops.Api.{Link, Victim, Verdict}

-- `str(n)` of a number: the digits, at most as many as the fuel.
decimal : ℕ → ℕ → String
decimal zero n = String.[]
decimal (suc fuel) n =
    let digit : String =
      elim (get_elem? {A = String} ("0" ∷ "1" ∷ "2" ∷ "3" ∷ "4" ∷ "5" ∷ "6" ∷ "7" ∷ "8" ∷ "9" ∷ [])
        (n % 10)) [ none ↦ String.[] | some d ↦ d ] in
    let rest = decimal fuel (n / 10) in if ltb n 10 then digit else String.◌++◌ rest digit

unfoldable pub number : ℕ → String
unfolding decimal
number n = decimal (suc n) n

-- The pieces of an f-string.
abbrev pub text_of : List String → String
text_of [] = String.[]
text_of (s ∷ ss) = String.◌++◌ s (text_of ss)

-- `", ".join(parts)`
unfoldable pub listed : List String → String
listed [] = String.[]
listed (p ∷ []) = p
listed (p ∷ q ∷ ps) = String.◌++◌ p (String.◌++◌ ", " (listed (q ∷ ps)))

impact_text : String → Option ℕ → String
impact_text victim none = String.[]
impact_text victim (some zero) = String.[]
impact_text victim (some (suc eta)) =
    text_of (", with impact on " ∷ victim ∷ " expected in ~" ∷ number (suc eta) ∷ "s" ∷ [])

register_text : Option String → String
register_text none = String.[]
register_text (some reg) =
    if has reg ("recurrence" ∷ "variant" ∷ [])
    then text_of (" (recognised as a " ∷ reg ∷ " of a known case)" ∷ [])
    else String.[]

-- `", ".join(e.get("evidence") or []) or "correlation"`
evidence_text : List String → String
evidence_text evidence = let t = listed evidence in if str_eq t String.[] then "correlation" else t

abbrev or_else : {A : Type 0} → Option A → A → A
or_else none a = a
or_else (some a) _ = a

unfoldable pub steady_state : ℕ → String
steady_state pods =
    text_of
      ("Steady state: no causal contention detected across " ∷ number pods ∷ " workloads." ∷ [])

module _ {F : Type 0} ⦃f : Float F⦄ where
  -- `max(out, key=lambda x: abs(x["r"]))`: the first of the strongest.
  unfoldable pub strongest_link : Link F → List (Link F) → Link F
  strongest_link best [] = best
  strongest_link best (e ∷ es) = strongest_link (if lt (abs best.r) (abs e.r) then e else best) es

  -- `[e for e in edges if e["src"] == cause] or edges`
  abbrev pub leaving : String → List (Link F) → List (Link F)
  leaving cause edges = filter (λ (e : Link F). str_eq e.src cause) edges

  -- The edge that the sentence cites, for a list of edges that is not empty.
  unfoldable pub cited : String → Link F → List (Link F) → Link F
  unfolding strongest_link
  cited cause e es = elim (leaving cause (e ∷ es)) [
    | [] ↦ strongest_link e es
    | x ∷ xs ↦ strongest_link x xs
  ]

  -- The last entry of the blast radius with the name, as a dict comprehension has it.
  eta_from : Option ℕ → String → List (Victim F) → Option ℕ
  eta_from eta victim [] = eta
  eta_from eta victim (b ∷ bs) =
      eta_from (if str_eq b.pod victim then some b.eta_s else eta) victim bs

  pub contention : String → String → Link F → Verdict F → String
  unfolding eta_from impact_text register_text evidence_text
  contention signal cause e g = text_of (
      cause
      ∷ " is the likely root cause of "
      ∷ signal
      ∷ " contention: its activity correlates with "
      ∷ e.dst
      ∷ " over "
      ∷ evidence_text e.evidence
      ∷ impact_text e.dst (eta_from none e.dst g.blast_radius)
      ∷ register_text g.meta.case_register
      ∷ "."
      ∷ [])

  -- `_template_narrative`; the first argument is the signal of the gateway's environment.
  unfoldable pub template_narrative : String → Verdict F → String
  unfolding steady_state contention cited
  template_narrative default_signal g = elim g.root [
    | [] ↦ steady_state (or_else g.meta.pods 0)
    | cause ∷ _ ↦ elim g.edges [
      | [] ↦ steady_state (or_else g.meta.pods 0)
      | e ∷ es ↦
          contention (or_else g.meta.signal default_signal) cause.pod (cited cause.pod e es) g
    ]
  ]
