-- ===== src/Api/Narrative.antt =====
-- The operator's sentence of api/main.py: the signature of a verdict, the language model, and the cache of
-- its texts.
pub mod Faithful
use Prim.Native.Char.{Char, code}
use Prim.Native.String
use abb_accelerator_aiops.Prelude.{
  ℕ, zero, suc, ◌/◌, ◌%◌, Bool, true, false, not, ◌&&◌, ◌||◌, String, str_eq, str_lt, Option, none,
  some, List, [], ◌∷◌, map, filter, any, ltb, leb, ◌==◌, get_elem?, has, sorted, if◌then◌else◌,
}
use abb_accelerator_aiops.Float.{Float, lt, abs}
use abb_accelerator_aiops.Api.Template.{template_narrative}
use abb_accelerator_aiops.Api.{
  Fetched, fetched, failed, Response, ok, http_error, Root, Link, Victim, Verdict, graph,
}

-- What `_verdict_signature` dumps as JSON; equal signatures have equal texts.
pub record Signature : Type 0 where
  pub root : Option String
  pub edges : List (String × String × Option String)
  pub register : Option String

abbrev pub Triple : Type 0
Triple = String × String × Option String

abbrev pub option_eq : Option String → Option String → Bool
option_eq none none = true
option_eq (some a) (some b) = str_eq a b
option_eq _ _ = false

abbrev pub triple_eq : Triple → Triple → Bool
triple_eq (a, b, s) (c, d, t) = str_eq a c && (str_eq b d && option_eq s t)

abbrev pub triples_eq : List Triple → List Triple → Bool
triples_eq [] [] = true
triples_eq (x ∷ xs) (y ∷ ys) = triple_eq x y && triples_eq xs ys
triples_eq _ _ = false

abbrev pub signature_eq : Signature → Signature → Bool
signature_eq a b =
    option_eq a.root b.root && (triples_eq a.edges b.edges && option_eq a.register b.register)

-- The order of tuples; that of two states is asked for only where both are texts.
abbrev state_lt : Option String → Option String → Bool
state_lt (some s) (some t) = str_lt s t
state_lt _ _ = false

abbrev triple_lt : Triple → Triple → Bool
triple_lt (a, b, s) (c, d, t) =
    str_lt a c || (str_eq a c && (str_lt b d || (str_eq b d && state_lt s t)))

-- Two edges between the same workloads, one with a state and one without: `sorted` raises a TypeError.
abbrev clashes : Triple → Triple → Bool
clashes (a, b, none) (c, d, some _) = str_eq a c && str_eq b d
clashes (a, b, some _) (c, d, none) = str_eq a c && str_eq b d
clashes _ _ = false

abbrev is_comparable : List Triple → Bool
is_comparable [] = true
is_comparable (x ∷ xs) = not (any (clashes x) xs) && is_comparable xs

module _ {F : Type 0} where
  -- `_verdict_signature`; `none` is the TypeError.
  unfoldable pub verdict_signature : Verdict F → Option Signature
  verdict_signature g =
      let triples = map (λ (e : Link F). (e.src, e.dst, e.state)) g.edges in
      if is_comparable triples
      then some (record {
        root = elim g.root [ [] ↦ none | r ∷ _ ↦ some r.pod ];
        edges = sorted triple_lt triples;
        register = g.meta.case_register;
      })
      else none

-- White space, as `str.strip` has it.
abbrev is_space : Char → Bool
is_space c =
    let n = code c in
    (leb 9 n && leb n 13)
    || ((leb 28 n && leb n 32)
        || (n == 133
            || (n == 160
                || (n == 5760
                    || ((leb 8192 n && leb n 8202)
                        || (n == 8232
                            || (n == 8233 || (n == 8239 || (n == 8287 || n == 12288)))))))))

lstrip : String → String
lstrip String.[] = String.[]
lstrip (String.◌∷◌ c s) = let rest = lstrip s in if is_space c then rest else String.◌∷◌ c s

rstrip : String → String
rstrip String.[] = String.[]
rstrip (String.◌∷◌ c s) =
    let rest = rstrip s in
    if is_space c && str_eq rest String.[] then String.[] else String.◌∷◌ c rest

-- `(json.load(r).get("response") or "").strip() or None`
answer : Option String → Option String
unfolding lstrip rstrip
answer none = none
answer (some response) =
    let t = rstrip (lstrip response) in if str_eq t String.[] then none else some t

-- `_ollama`: no text without a host or on an exception. The reply has the entry "response".
unfoldable pub ollama : Bool → Fetched (Option String) → Option String
unfolding answer
ollama false reply = none
ollama true (failed e) = none
ollama true (fetched response) = answer response

pub data TextSource : Type 0 where
  llm fallback : TextSource

pub record Narrative : Type 0 where
  pub text : String
  pub source : TextSource
  pub model : Option String
  pub ts : String

-- `_NARR_CACHE`, a dict.
abbrev pub Cache : Type 0
Cache = List (Signature × Narrative)

unfoldable pub cached : Signature → Cache → Option Narrative
cached sig [] = none
cached sig ((s, out) ∷ cache) = if signature_eq s sig then some out else cached sig cache

-- The gateway's environment: OLLAMA_HOST is set, OLLAMA_MODEL, ENGINE_SIGNAL.
pub record Env : Type 0 where
  pub has_host : Bool
  pub model : String
  pub signal : String

-- What the model's text, or its absence, comes to: `out`, and the cache after it.
unfoldable pub rendered :
    Env → Signature → String → String → Option String → Cache → Narrative × Cache
rendered env sig template ts none cache =
    (record { text = template; source = fallback; model = none; ts = ts }, cache)
rendered env sig template ts (some t) cache =
    let out : Narrative = record { text = t; source = llm; model = some env.model; ts = ts } in
    (out, (sig, out) ∷ [])

-- One GET of the narrative: the engine's graph, the model's reply (used where the cache has no text), and
-- the time.
pub record Poll (F : Type 0) : Type 0 where
  pub engine : Fetched (Verdict F)
  pub reply : Fetched (Option String)
  pub ts : String

module _ {F : Type 0} ⦃f : Float F⦄ (env : Env) where
  -- One request, from its first to its last access of the cache; requests at the same time are not modelled.
  unfoldable pub narrative : Poll F → Cache → Response Narrative × Cache
  unfolding graph rendered
  narrative poll cache = elim (graph poll.engine) [
    | http_error status detail ↦ (http_error status detail, cache)
    | ok g ↦ elim (verdict_signature g) [
      | none ↦ (http_error 500 "Internal Server Error", cache)
      | some sig ↦ elim (cached sig cache) [
        | some out ↦ (ok out, cache)
        | none ↦
            let p =
              rendered env sig (template_narrative env.signal g) poll.ts
                (ollama env.has_host poll.reply) cache in
            (ok p.0, p.1)
      ]
    ]
  ]
