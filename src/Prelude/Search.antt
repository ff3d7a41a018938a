-- ===== src/Prelude/Search.antt =====
-- Texts as lists of code points: Python's `startswith`, `in` and `lower`, and SQLite's order.
use Prim.Native.Char.{code}
use Prim.Native.Nat.{ℕ, ◌+◌}
use Prim.Native.String.{String}
use mathlib.Core.Bool.{Bool, true, false, ◌&&◌, ◌||◌}
use mathlib.Core.Option.{Option, none, some}
use mathlib.Core.List.{List, [], ◌∷◌, map}
use resu_align_lite.Prelude.Tests.{ltb, leb, ◌==◌, if◌then◌else◌}

abbrev pub codes : String → List ℕ
codes String.[] = []
codes (String.◌∷◌ c s) = code c ∷ codes s

-- The case of ASCII letters.
abbrev pub fold_case : ℕ → ℕ
fold_case c = if leb b'A' c && leb c b'Z' then c + 32 else c

-- What follows a prefix, when the text has it.
abbrev pub after_prefix : List ℕ → List ℕ → Option (List ℕ)
after_prefix [] s = some s
after_prefix (c ∷ p) [] = none
after_prefix (c ∷ p) (d ∷ s) = let rest = after_prefix p s in if c == d then rest else none

abbrev pub starts_with : List ℕ → List ℕ → Bool
starts_with p s = elim (after_prefix p s) [ none ↦ false | some rest ↦ true ]

-- `p in s`
abbrev pub contains : List ℕ → List ℕ → Bool
contains p [] = starts_with p []
contains p (c ∷ s) = starts_with p (c ∷ s) || contains p s

-- Whether a text is not after another in the order of code points.
abbrev pub not_after : List ℕ → List ℕ → Bool
not_after [] t = true
not_after (c ∷ s) [] = false
not_after (c ∷ s) (d ∷ t) = ltb c d || (c == d && not_after s t)

-- `s.lower()`, as far as the ASCII letters of the result are concerned.
abbrev pub lower : List ℕ → List ℕ
lower s = map fold_case s

abbrev pub same_codes : List ℕ → List ℕ → Bool
same_codes [] [] = true
same_codes (c ∷ s) (d ∷ t) = c == d && same_codes s t
same_codes _ _ = false
