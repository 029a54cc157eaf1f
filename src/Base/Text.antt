-- ===== src/Base/Text.antt =====
-- The texts of the source: a string literal is the list of its characters with a NUL at the end.
use Prim.Native.Char.{code}
use Prim.Native.String.{String}
use Prim.Native.Nat.{ℕ}
use mathlib.Core.List.{List, [], ◌∷◌, ◌++◌}

abbrev pub codes : String → List ℕ
codes String.[] = []
codes (String.◌∷◌ c s) = code c ∷ codes s

abbrev pub text : String → List ℕ
text s = codes s ++ (0 ∷ [])
