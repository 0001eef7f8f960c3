-- ===== src/Window.antt =====
-- The aggregator's window, as correlation/service.py and api/main.py read it: samples by the key
-- "namespace/pod/signal".
use Prim.Native.Char.{Char, code}
use abb_accelerator_aiops.Prelude.{
  String, Option, none, some, List, [], ◌∷◌, ◌==◌, Dict, if◌then◌else◌,
}

pub record Sample (F : Type 0) : Type 0 where
  pub ts : String
  pub value : F

abbrev pub Window : Type 0 → Type 0
Window F = Dict (List (Sample F))

-- `key.split("/")`
grow : Char → List String → List String
grow c [] = String.◌∷◌ c String.[] ∷ []
grow c (p ∷ ps) = String.◌∷◌ c p ∷ ps

pub split_key : String → List String
unfolding grow
split_key String.[] = String.[] ∷ []
split_key (String.◌∷◌ c s) =
    if code c == b'/' then String.[] ∷ split_key s else grow c (split_key s)

-- The parts of a key that are read: the first, the second and the last.
pub record Series : Type 0 where
  pub namespace : String
  pub pod : String
  pub signal : String

last_from : String → List String → String
last_from p [] = p
last_from p (q ∷ ps) = last_from q ps

series_from : List String → Option Series
unfolding last_from
series_from (ns ∷ pod ∷ p ∷ ps) =
    some (record { namespace = ns; pod = pod; signal = last_from p ps })
series_from _ = none

-- `len(parts) < 3` is `none`.
unfoldable pub series_of : String → Option Series
unfolding split_key series_from
series_of key = series_from (split_key key)
