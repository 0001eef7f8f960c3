-- ===== src/Api/Narrative/Faithful.antt =====
-- The answers of `narrative` in api/main.py over any sequence of requests: a text from the cache was written
-- by the model for a verdict of the same shape.
use Prim.Native.String
use abb_accelerator_aiops.Prelude.{
  ap, All-at, str_eq_iff, ◌≤◌, ◌≡◌, ◌⊎◌, refl, true, String, Option, none, some, List, [], ◌∷◌,
  length, arith, All, All-map, In, Bool-cases, Option-cases, inl, inr,
}
use abb_accelerator_aiops.Float.{Float}
use abb_accelerator_aiops.Api.{
  Fetched, fetched, failed, Response, ok, http_error, Verdict, relayed, normalized, graph,
}
use abb_accelerator_aiops.Api.Template.{template_narrative}
use abb_accelerator_aiops.Api.Narrative.{
  Signature, Triple, option_eq, triple_eq, triples_eq, signature_eq, verdict_signature, ollama, llm,
  fallback, Narrative, Cache, cached, Env, Poll, narrative,
}

option_eq_sound : (s t : Option String) → option_eq s t ≡ true → s ≡ t
option_eq_sound none none h = refl
option_eq_sound none (some t) h = cc
option_eq_sound (some s) none h = cc
option_eq_sound (some s) (some t) h = ap some ((str_eq_iff s t).0 h)

triple_eq_sound : (s t : Triple) → triple_eq s t ≡ true → s ≡ t
triple_eq_sound (a, b, s) (c, d, t) h =
    ground (arith, str_eq_iff a c, str_eq_iff b d, option_eq_sound s t, h)

triples_eq_sound : (ss ts : List Triple) → triples_eq ss ts ≡ true → ss ≡ ts
triples_eq_sound [] [] h = refl
triples_eq_sound [] (t ∷ ts) h = cc
triples_eq_sound (s ∷ ss) [] h = cc
triples_eq_sound (s ∷ ss) (t ∷ ts) h =
    ground (arith, triple_eq_sound s t, triples_eq_sound ss ts, h)

signature_eq_sound : (a b : Signature) → signature_eq a b ≡ true → a ≡ b
signature_eq_sound a b h = ground (
  arith,
  option_eq_sound a.root b.root,
  triples_eq_sound a.edges b.edges,
  option_eq_sound a.register b.register,
  h,
)

-- A text that is found is an entry for the signature.
cached-In :
    (sig : Signature) (cache : Cache) (out : Narrative)
    → cached sig cache ≡ some out
    → In (sig, out) cache
unfolding cached
cached-In sig [] out h = cc
cached-In sig ((s, o) ∷ cache) out h = elim (Bool-cases (signature_eq s sig)) [
  | inl e ↦ inl (ground (arith, signature_eq_sound s sig e, h))
  | inr e ↦ inr (cached-In sig cache out (ground (arith, h)))
]

module _ {F : Type 0} ⦃f : Float F⦄ (env : Env) where
  -- The requests so far, the last one first, and the cache after them.
  pub data Polled : List (Poll F) → Cache → Type 0 where
    started : Polled [] []
    polled :
        {polls : List (Poll F)} {cache : Cache} (poll : Poll F)
        → Polled polls cache
        → Polled (poll ∷ polls) (narrative env poll cache).1

  -- At the poll the engine's verdict had the shape `sig`, and the model's text was that of `out`.
  pub record WroteAt (poll : Poll F) (sig : Signature) (out : Narrative) : Type 0 where
    pub seen : Verdict F
    pub verdict : graph poll.engine ≡ ok seen
    pub signature : verdict_signature seen ≡ some sig
    pub text : ollama env.has_host poll.reply ≡ some out.text
    pub source : out.source ≡ llm
    pub model : out.model ≡ some env.model
    pub ts : out.ts ≡ poll.ts

  abbrev pub IsWritten : List (Poll F) → Signature → Narrative → Type 0
  IsWritten polls sig out = (poll : Poll F) × In poll polls × WroteAt poll sig out

  -- What the handler may answer, after the requests `polls`.
  pub data IsAnswer (polls : List (Poll F)) (poll : Poll F) : Response Narrative → Type 0 where
    -- the engine is not reached
    refused :
        (e : String)
        → poll.engine ≡ failed e
        → IsAnswer polls poll
            (http_error 503 (String.◌++◌ "engine" (String.◌++◌ " unreachable: " e)))
    -- the states of the verdict's edges cannot be compared
    raised :
        (g : Verdict F)
        → graph poll.engine ≡ ok g
        → verdict_signature g ≡ none
        → IsAnswer polls poll (http_error 500 "Internal Server Error")
    -- a text of the model for a verdict of this shape
    written :
        (g : Verdict F) (sig : Signature) (out : Narrative)
        → graph poll.engine ≡ ok g
        → verdict_signature g ≡ some sig
        → IsWritten (poll ∷ polls) sig out
        → IsAnswer polls poll (ok out)
    -- the template, where the model has no text
    templated :
        (g : Verdict F)
        → graph poll.engine ≡ ok g
        → ollama env.has_host poll.reply ≡ none
        → IsAnswer polls poll (
            ok (record {
              text = template_narrative env.signal g;
              source = fallback;
              model = none;
              ts = poll.ts;
            }))

  -- Every entry of the cache was written for its shape, and there is at most one.
  abbrev pub IsKept : List (Poll F) → Cache → Type 0
  IsKept polls cache =
      (length cache ≤ 1) × All (λ (e : Signature × Narrative). IsWritten polls e.0 e.1) cache

  IsKept-poll :
      (polls : List (Poll F)) (poll : Poll F) (cache : Cache)
      → IsKept polls cache
      → IsKept (poll ∷ polls) cache
  IsKept-poll polls poll cache (l, h) = (l, All-map (λ e (p, m, w). (p, inr m, w)) cache h)

  graph-cases :
      (reply : Fetched (Verdict F))
      → ((e : String) × (reply ≡ failed e)
          × (graph reply ≡ http_error 503 (String.◌++◌ "engine" (String.◌++◌ " unreachable: " e))))
        ⊎ ((g : Verdict F) × (graph reply ≡ ok g))
  unfolding graph relayed
  graph-cases (fetched g) = inr (normalized g, refl)
  graph-cases (failed e) = inl (e, refl, refl)

  narrative-Answers :
      (polls : List (Poll F)) (poll : Poll F) (cache : Cache)
      → IsKept polls cache
      → IsAnswer polls poll (narrative env poll cache).0
        × IsKept (poll ∷ polls) (narrative env poll cache).1
  unfolding narrative
  narrative-Answers polls poll cache k = elim (graph-cases poll.engine) [
    | inl (e, h, r) ↦ rw (r, narrative) (refused e h, IsKept-poll polls poll cache k)
    | inr (g, r) ↦ elim (Option-cases (verdict_signature g)) [
      | inl s ↦ rw (r, s, narrative) (raised g r s, IsKept-poll polls poll cache k)
      | inr (sig, s) ↦ elim (Option-cases (cached sig cache)) [
        | inr (out, c) ↦
            let kept = IsKept-poll polls poll cache k in
            rw (r, s, c, narrative)
              (
                written g sig out r s (
                    All-at (λ (e : Signature × Narrative). IsWritten (poll ∷ polls) e.0 e.1) cache
                      kept.1 (sig, out) (cached-In sig cache out c)),
                kept,
              )
        | inl c ↦ elim (Option-cases (ollama env.has_host poll.reply)) [
          | inl o ↦ rw (r, s, c, o, narrative) (templated g r o, IsKept-poll polls poll cache k)
          | inr (t, o) ↦
              let out : Narrative = record {
                text = t;
                source = llm;
                model = some env.model;
                ts = poll.ts;
              } in
              let wrote : WroteAt poll sig out = record {
                seen = g;
                verdict = r;
                signature = s;
                text = o;
                source = refl;
                model = refl;
                ts = refl;
              } in
              rw (r, s, c, o, narrative)
                (
                  written g sig out r s (poll, inl refl, wrote),
                  (omega arith, ((poll, inl refl, wrote), tt)),
                )
        ]
      ]
    ]
  ]

  Polled-IsKept : {polls : List (Poll F)} {cache : Cache} → Polled polls cache → IsKept polls cache
  Polled-IsKept started = (omega arith, tt)
  Polled-IsKept (polled {polls} {cache} poll h) =
      (narrative-Answers polls poll cache (Polled-IsKept h)).1

  -- After any sequence of requests to the narrative, the answer to the next one is: status 503
  -- with the engine's exception, if the engine was not reached; status 500, if the states of the
  -- verdict's edges cannot be compared; the template of the verdict, if the model has no text; or
  -- a text that the model wrote, at this or an earlier request, for a verdict with the same
  -- signature. The cache never has more than one text.
  pub narrative-IsAnswer :
      {polls : List (Poll F)} {cache : Cache}
      → Polled polls cache
      → (poll : Poll F)
      → IsAnswer polls poll (narrative env poll cache).0 × (length (narrative env poll cache).1 ≤ 1)
  narrative-IsAnswer {polls} {cache} h poll =
      let (answer, kept) = narrative-Answers polls poll cache (Polled-IsKept h) in (answer, kept.0)
