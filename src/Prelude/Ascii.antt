-- ===== src/Prelude/Ascii.antt =====
-- Comparing texts and writing them in small letters, as the standard library does.
use Prim.Native.Nat.{ℕ, ◌+◌}
use mathlib.Core.Bool.{Bool, true, false, ◌&&◌}
use mathlib.Core.List.{List, [], ◌∷◌, map}
use promscale_extension.Prelude.Tests.{leb, ◌==◌, if◌then◌else◌}

unfoldable pub same_text : List ℕ → List ℕ → Bool
same_text [] [] = true
same_text [] (d ∷ t) = false
same_text (c ∷ s) [] = false
same_text (c ∷ s) (d ∷ t) = c == d && same_text s t

abbrev pub lowercase : ℕ → ℕ
lowercase c = if leb 65 c && leb c 90 then c + 32 else c

abbrev pub to_ascii_lowercase : List ℕ → List ℕ
to_ascii_lowercase s = map lowercase s
