-- ===== src/Common/Text.antt =====
-- Texts: their ASCII bytes, and lists of texts as sets.
use Prim.Native.Char.{code}
use Prim.Native.Nat.{ℕ}
use Prim.Native.String.{String}
use mathlib.Core.Bool.{Bool}
use mathlib.Core.List.{List, [], ◌∷◌}
use text.Mathlib.Text.{◌==◌ as str_eq}
use watermarks_po_c.Common.Lists.{any}

-- `text.encode("utf-8")` of an ASCII text.
abbrev pub ascii : String → List ℕ
ascii String.[] = []
ascii (String.◌∷◌ c s) = code c ∷ ascii s

-- `text in texts`
abbrev pub contains : List String → String → Bool
contains texts text' = any (λ t. str_eq text' t) texts
