-- ===== src/Base/Text.antt =====
-- String literals of the C++ implementation, as bytes.
use Prim.Native.Nat.{ℕ}
use Prim.Native.Char.{code}
use Prim.Native.String.{String}
use mathlib.Core.List.{List, [], ◌∷◌}

unfoldable pub text : String → List ℕ
text String.[] = []
text (String.◌∷◌ c literal) = code c ∷ text literal
