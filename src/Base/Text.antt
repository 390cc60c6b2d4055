-- ===== src/Base/Text.antt =====
-- The code points of a text, for texts that the source cuts or measures.
use Prim.Native.Nat.{ℕ}
use Prim.Native.Char.{code}
use Prim.Native.String.{String}
use mathlib.Core.List.{List, [], ◌∷◌}

abbrev pub codes : String → List ℕ
codes String.[] = []
codes (String.◌∷◌ first text) = code first ∷ codes text
