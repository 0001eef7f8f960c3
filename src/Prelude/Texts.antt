-- ===== src/Prelude/Texts.antt =====
-- Orders and sets of texts.
use Prim.Native.Nat.{Ordering}
use Prim.Native.String.{String, compare}
use mathlib.Core.Bool.{Bool, true, false}
use mathlib.Core.List.{List}
use text.Mathlib.Text.{◌==◌ as str_eq}
use abb_accelerator_aiops.Prelude.Lists.{any}

-- `a < b`, by code points.
abbrev pub str_lt : String → String → Bool
str_lt a b = elim (compare a b) [ Ordering.lt ↦ true | _ ↦ false ]

-- `x in xs`
abbrev pub has : String → List String → Bool
has x xs = any (str_eq x) xs
