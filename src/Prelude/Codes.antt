-- ===== src/Prelude/Codes.antt =====
-- The characters of a text by their numbers.
use Prim.Native.Nat.{ℕ}
use Prim.Native.Char.{code}
use Prim.Native.String.{String, [], ◌∷◌}
use mathlib.Core.List as Lists

unfoldable pub codes : String → Lists.List ℕ
codes [] = Lists.[]
codes (c ∷ s) = Lists.◌∷◌ (code c) (codes s)
