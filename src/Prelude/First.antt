-- ===== src/Prelude/First.antt =====
-- The first row of a table that satisfies a test, after a write and under a predicate.
use resu_align_lite.Prelude.Tests.{Bool-cases}
use mathlib.Core.Path.{◌≡◌, refl}
use mathlib.Core.Logic.{inl, inr}
use mathlib.Core.Bool.{Bool, true, false}
use mathlib.Core.Option.{some}
use mathlib.Core.List.{List, [], ◌∷◌}
use native.Mathlib.Omega.{arith}
use resu_align_lite.Prelude.Table.{All, update, first}

pub first-update-hidden :
    {A : Type 0} (q p : A → Bool) (f : A → A)
    (hidden : (x : A) → p x ≡ true → (q x ≡ false) × (q (f x) ≡ false)) (xs : List A)
    → first q (update p f xs) ≡ first q xs
first-update-hidden q p f hidden [] = refl
first-update-hidden q p f hidden (x ∷ xs) = elim (Bool-cases (p x)) [
  | inl e ↦ rw (e, (hidden x e).0, (hidden x e).1, first-update-hidden q p f hidden xs) refl
  | inr e ↦ rw (e, first-update-hidden q p f hidden xs) refl
]

pub All-first :
    {A : Type 0} (P : A → Type 0) (q : A → Bool) (xs : List A) {x : A}
    → All P xs
    → first q xs ≡ some x
    → P x
All-first P q [] h e = cc
All-first P q (y ∷ xs) {x} h e = elim (Bool-cases (q y)) [
  | inl k ↦ let m : some y ≡ some x = (rw k at e) in ground (arith, h.0)
  | inr k ↦ All-first P q xs h.1 (rw k at e)
]
