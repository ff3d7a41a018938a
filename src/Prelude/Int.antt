-- ===== src/Prelude/Int.antt =====
-- Signed integers over the native numbers: differences of two clock readings.
use Prim.Native.Nat.{ℕ, suc, ◌+◌, ◌-◌, ◌*◌, ◌/◌, ◌%◌, ◌≤◌}
use mathlib.Core.Bool.{Bool}
use resu_align_lite.Prelude.Tests.{leb, ltb, if◌then◌else◌}

-- `negsuc n` is -(n + 1).
pub data ℤ : Type 0 where
  pos : ℕ → ℤ
  negsuc : ℕ → ℤ

abbrev pub pos_part : ℤ → ℕ
pos_part (pos n) = n
pos_part (negsuc n) = 0

abbrev pub neg_part : ℤ → ℕ
neg_part (pos n) = 0
neg_part (negsuc n) = suc n

-- a - b, as an integer.
abbrev pub sub_ℕ : ℕ → ℕ → ℤ
sub_ℕ a b = if leb b a then pos (a - b) else negsuc (b - a - 1)

infix 50 ◌≤ℤ◌
abbrev pub ◌≤ℤ◌ : ℤ → ℤ → Type 0
a ≤ℤ b = pos_part a + neg_part b ≤ pos_part b + neg_part a

abbrev pub leb_ℤ : ℤ → ℤ → Bool
leb_ℤ a b = leb (pos_part a + neg_part b) (pos_part b + neg_part a)

-- `round` to a multiple of the unit, a tie to the even one.
unfoldable pub round_to : ℕ → ℕ → ℕ
round_to unit n =
    let low = n / unit in
    let rest = 2 * (n % unit) in
    if ltb rest unit
    then unit * low
    else if ltb unit rest
    then unit * (low + 1)
    else unit * (low + low % 2)

unfoldable pub round_to_ℤ : ℕ → ℤ → ℤ
unfolding round_to
round_to_ℤ unit (pos n) = pos (round_to unit n)
round_to_ℤ unit (negsuc n) = sub_ℕ 0 (round_to unit (suc n))
