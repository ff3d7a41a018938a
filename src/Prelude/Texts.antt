-- ===== src/Prelude/Texts.antt =====
-- Python's operations on texts: `strip`, truth of a text, and `or` with a default.
use Prim.Native.Char.{Char, code}
use Prim.Native.Nat.{ℕ}
use Prim.Native.String.{String, [], ◌∷◌}
use mathlib.Core.Path.{◌≡◌, refl}
use mathlib.Core.Logic.{inl, inr}
use mathlib.Core.Bool.{Bool, true, false, ◌&&◌, ◌||◌}
use mathlib.Core.Option.{Option, none, some}
use native.Mathlib.Omega.{arith}
use resu_align_lite.Prelude.Tests.{leb, ◌==◌, if◌then◌else◌, Bool-cases}

-- `str.isspace` of one code point
abbrev pub is_space_code : ℕ → Bool
is_space_code n =
    (leb 9 n && leb n 13)
    || (leb 28 n && leb n 32)
    || n == 133
    || n == 160
    || n == 5760
    || (leb 8192 n && leb n 8202)
    || n == 8232
    || n == 8233
    || n == 8239
    || n == 8287
    || n == 12288

-- `str.isspace` of one character
abbrev pub is_space : Char → Bool
is_space c = is_space_code (code c)

abbrev pub is_empty : String → Bool
is_empty [] = true
is_empty (c ∷ s) = false

unfoldable pub lstrip : String → String
lstrip [] = []
lstrip (c ∷ s) = let rest = lstrip s in if is_space c then rest else c ∷ s

unfoldable pub rstrip : String → String
rstrip [] = []
rstrip (c ∷ s) = let rest = rstrip s in if is_space c && is_empty rest then [] else c ∷ rest

-- `text.strip()`
unfoldable pub strip : String → String
strip s = rstrip (lstrip s)

-- `text or default`, where the text may be `None`
abbrev pub or_text : Option String → String → String
or_text none d = d
or_text (some s) d = if is_empty s then d else s

-- no space in front
unfoldable starts : String → Bool
starts [] = true
starts (c ∷ s) = if is_space c then false else true

starts-lstrip : (s : String) → starts (lstrip s) ≡ true
unfolding starts lstrip
starts-lstrip [] = refl
starts-lstrip (c ∷ s) = elim (Bool-cases (is_space c)) [
  | inl e ↦ rw e (starts-lstrip s)
  | inr e ↦ rw (e, e) refl
]

lstrip-none : (s : String) → starts s ≡ true → lstrip s ≡ s
unfolding starts lstrip
lstrip-none [] h = refl
lstrip-none (c ∷ s) h = ground arith

starts-rstrip : (s : String) → starts s ≡ true → starts (rstrip s) ≡ true
unfolding starts rstrip
starts-rstrip [] h = refl
starts-rstrip (c ∷ s) h = ground arith

pub rstrip_idem : (s : String) → rstrip (rstrip s) ≡ rstrip s
unfolding rstrip
rstrip_idem [] = refl
rstrip_idem (c ∷ s) = elim (Bool-cases (is_space c && is_empty (rstrip s))) [
  | inl e ↦ rw e refl
  | inr e ↦ rw (e, rstrip_idem s, e) refl
]

pub strip_idem : (s : String) → strip (strip s) ≡ strip s
unfolding strip
strip_idem s =
    rw (lstrip-none (rstrip (lstrip s)) (starts-rstrip (lstrip s) (starts-lstrip s)))
      (rstrip_idem (lstrip s))

pub or_text_full :
    (o : Option String) (d : String) → is_empty d ≡ false → is_empty (or_text o d) ≡ false
or_text_full none d h = h
or_text_full (some s) d h = elim (Bool-cases (is_empty s)) [ inl e ↦ rw e h | inr e ↦ rw e e ]
