-- ===== src/Prelude/Sort.antt =====
-- `ORDER BY key ASC, rowid ASC`: a stable insertion sort on a numeric key.
use Prim.Native.Nat.{ℕ, suc, ◌≤◌}
use mathlib.Core.List.{List, [], ◌∷◌, Perm}
use mathlib.Core.List.Perm
use mathlib.Core.Logic.{inl, inr}
use native.Mathlib.Omega.{arith}
use resu_align_lite.Prelude.Tests.{leb, if◌then◌else◌, Bool-cases}
use resu_align_lite.Prelude.Table.{All, any}
use resu_align_lite.Prelude.Lists.{length}
use mathlib.Core.Bool.{Bool, ◌||◌}
use mathlib.Core.Path.{◌≡◌, refl}

module _ {ℓ} {A : Type ℓ} (key : A → ℕ) where
  unfoldable pub insert_by : A → List A → List A
  insert_by x [] = x ∷ []
  insert_by x (y ∷ ys) = if leb (key x) (key y) then x ∷ y ∷ ys else y ∷ insert_by x ys

  unfoldable pub sort_by : List A → List A
  unfolding insert_by
  sort_by [] = []
  sort_by (x ∷ xs) = insert_by x (sort_by xs)

  abbrev pub IsSorted : List A → Type 0
  IsSorted [] = Unit
  IsSorted (x ∷ xs) = All (λ y. key x ≤ key y) xs × IsSorted xs

  All-insert_by {κ} :
      (P : A → Type κ) (x : A) (xs : List A) → P x → All P xs → All P (insert_by x xs)
  unfolding insert_by
  All-insert_by P x [] hx h = (hx, tt)
  All-insert_by P x (y ∷ ys) hx h = elim (Bool-cases (leb (key x) (key y))) [
    | inl e ↦ rw e (hx, h)
    | inr e ↦ rw e (h.0, All-insert_by P x ys hx h.1)
  ]

  All-above : (m n : ℕ) (xs : List A) → m ≤ n → All (λ y. n ≤ key y) xs → All (λ y. m ≤ key y) xs
  All-above m n [] h a = tt
  All-above m n (x ∷ xs) h a = (omega arith, All-above m n xs h a.1)

  insert_by-IsSorted : (x : A) (xs : List A) → IsSorted xs → IsSorted (insert_by x xs)
  unfolding insert_by
  insert_by-IsSorted x [] s = (tt, tt)
  insert_by-IsSorted x (y ∷ ys) s = elim (Bool-cases (leb (key x) (key y))) [
    | inl e ↦
        let below : key x ≤ key y = ground arith in
        rw e ((below, All-above (key x) (key y) ys below s.0), s)
    | inr e ↦
        let above : key y ≤ key x = ground arith in
        rw e (All-insert_by (λ z. key y ≤ key z) x ys above s.0, insert_by-IsSorted x ys s.1)
  ]

  pub sort_by-IsSorted : (xs : List A) → IsSorted (sort_by xs)
  unfolding sort_by
  sort_by-IsSorted [] = tt
  sort_by-IsSorted (x ∷ xs) = insert_by-IsSorted x (sort_by xs) (sort_by-IsSorted xs)

  insert_by-perm : (x : A) (xs : List A) → Perm (insert_by x xs) (x ∷ xs)
  unfolding insert_by
  insert_by-perm x [] = Perm.refl _
  insert_by-perm x (y ∷ ys) = elim (Bool-cases (leb (key x) (key y))) [
    | inl e ↦ rw e (Perm.refl _)
    | inr e ↦ rw e (Perm.trans (Perm.cons y (insert_by-perm x ys)) (Perm.swap x y ys))
  ]

  pub sort_by-perm : (xs : List A) → Perm (sort_by xs) xs
  unfolding sort_by
  sort_by-perm [] = Perm.refl _
  sort_by-perm (x ∷ xs) = Perm.trans (insert_by-perm x (sort_by xs)) (Perm.cons x (sort_by-perm xs))

  pub All-sort_by {κ} : (P : A → Type κ) (xs : List A) → All P xs → All P (sort_by xs)
  unfolding sort_by
  All-sort_by P [] h = tt
  All-sort_by P (x ∷ xs) h = All-insert_by P x (sort_by xs) h.0 (All-sort_by P xs h.1)

  length-insert_by : (x : A) (xs : List A) → length (insert_by x xs) ≡ suc (length xs)
  unfolding insert_by
  length-insert_by x [] = refl
  length-insert_by x (y ∷ ys) = ground (arith, length-insert_by x ys)

  pub length-sort_by : (xs : List A) → length (sort_by xs) ≡ length xs
  unfolding sort_by
  length-sort_by [] = refl
  length-sort_by (x ∷ xs) = omega (arith, length-insert_by x (sort_by xs), length-sort_by xs)

  any-insert_by : (q : A → Bool) (x : A) (xs : List A) → any q (insert_by x xs) ≡ q x || any q xs
  unfolding insert_by
  any-insert_by q x [] = refl
  any-insert_by q x (y ∷ ys) = ground (arith, any-insert_by q x ys)

  pub any-sort_by : (q : A → Bool) (xs : List A) → any q (sort_by xs) ≡ any q xs
  unfolding sort_by
  any-sort_by q [] = refl
  any-sort_by q (x ∷ xs) = ground (arith, any-insert_by q x (sort_by xs), any-sort_by q xs)
