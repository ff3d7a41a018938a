-- ===== src/Prelude/Booleans.antt =====
-- Laws of the Boolean connectives that the tests of rows use.
use mathlib.Core.Path.{◌≡◌}
use mathlib.Core.Bool.{Bool, true, false, ◌&&◌, ◌||◌}
use native.Mathlib.Omega.{arith}

pub or_false : (b : Bool) → (b || false) ≡ b
or_false b = ground arith

pub or_true : (b : Bool) → (b || true) ≡ true
or_true b = ground arith

pub or_left : (a b : Bool) → a ≡ true → (a || b) ≡ true
or_left a b h = ground arith

pub or_right : (a b : Bool) → b ≡ true → (a || b) ≡ true
or_right a b h = ground arith

pub left_false : (a b : Bool) → (a || b) ≡ false → a ≡ false
left_false a b h = ground arith

pub right_false : (a b : Bool) → (a || b) ≡ false → b ≡ false
right_false a b h = ground arith

pub and_false : (b : Bool) → (b && false) ≡ false
and_false b = ground arith

pub and_true : (b : Bool) → (b && true) ≡ b
and_true b = ground arith

pub and_left : (a b : Bool) → (a && b) ≡ true → a ≡ true
and_left a b h = ground arith

pub and_right : (a b : Bool) → (a && b) ≡ true → b ≡ true
and_right a b h = ground arith
