-- ===== src/Prelude/Text.antt =====
-- Whole texts are native strings; texts that the program walks are lists of code units.
use Prim.Native.Nat.{ℕ}
use Prim.Native.Char.{code}
use Prim.Native.String
use Prim.Native.String.{String}
use mathlib.Core.List.{List, [], ◌∷◌}
use mathlib.Core.Bool.{Bool}
use text.Mathlib.Text.{◌==◌}

infixr 65 ◌<>◌
abbrev pub ◌<>◌ : String → String → String
a <> b = String.◌++◌ a b

-- `===` on texts
infix 50 ◌===◌
abbrev pub ◌===◌ : String → String → Bool
a === b = a == b

-- The code units of an ASCII literal. `String` has its own `[]` and `∷`.
abbrev pub codes : String → List ℕ
codes String.[] = []
codes (String.◌∷◌ c s) = code c ∷ codes s
