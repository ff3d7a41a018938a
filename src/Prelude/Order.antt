-- ===== src/Prelude/Order.antt =====
-- ORDER BY and `sort` with a Boolean order: a stable insertion sort, and what it keeps.
use mathlib.Core.Path.{◌≡◌, refl}
use mathlib.Core.Logic.{inl, inr}
use mathlib.Core.Bool.{Bool, true, false, ◌&&◌, ◌||◌}
use mathlib.Core.List.{List, [], ◌∷◌}
use native.Mathlib.Omega.{arith}
use resu_align_lite.Prelude.Tests.{if◌then◌else◌, Bool-cases}
use resu_align_lite.Prelude.Table.{All, All-map, filter, update, any}

pub any-filter :
    {A : Type 0} (q p : A → Bool) (xs : List A) → any q (filter p xs) ≡ any (λ x. p x && q x) xs
any-filter q p [] = refl
any-filter q p (x ∷ xs) = ground (arith, any-filter q p xs)

module _ {ℓ} {A : Type ℓ} (le : A → A → Bool) where
  unfoldable pub insert_with : A → List A → List A
  insert_with x [] = x ∷ []
  insert_with x (y ∷ ys) = let rest = insert_with x ys in if le x y then x ∷ y ∷ ys else y ∷ rest

  unfoldable pub sort_with : List A → List A
  unfolding insert_with
  sort_with [] = []
  sort_with (x ∷ xs) = insert_with x (sort_with xs)

  abbrev pub Above : A → List A → Type 0
  Above x ys = All (λ y. le x y ≡ true) ys

  abbrev pub InOrder : List A → Type 0
  InOrder [] = Unit
  InOrder (x ∷ xs) = Above x xs × InOrder xs

  All-insert_with {κ} :
      (P : A → Type κ) (x : A) (xs : List A) → P x → All P xs → All P (insert_with x xs)
  unfolding insert_with
  All-insert_with P x [] hx h = (hx, tt)
  All-insert_with P x (y ∷ ys) hx h = elim (Bool-cases (le x y)) [
    | inl e ↦ rw e (hx, h)
    | inr e ↦ rw e (h.0, All-insert_with P x ys hx h.1)
  ]

  pub All-sort_with {κ} : (P : A → Type κ) (xs : List A) → All P xs → All P (sort_with xs)
  unfolding sort_with
  All-sort_with P [] h = tt
  All-sort_with P (x ∷ xs) h = All-insert_with P x (sort_with xs) h.0 (All-sort_with P xs h.1)

  any-insert_with :
      (q : A → Bool) (x : A) (xs : List A) → any q (insert_with x xs) ≡ q x || any q xs
  unfolding insert_with
  any-insert_with q x [] = refl
  any-insert_with q x (y ∷ ys) = elim (Bool-cases (le x y)) [
    | inl e ↦ rw e refl
    | inr e ↦ rw (e, any-insert_with q x ys) (ground arith)
  ]

  pub any-sort_with : (q : A → Bool) (xs : List A) → any q (sort_with xs) ≡ any q xs
  unfolding sort_with
  any-sort_with q [] = refl
  any-sort_with q (x ∷ xs) = rw (any-insert_with q x (sort_with xs), any-sort_with q xs) refl

  -- A write that does not move a row in the order commutes with sorting.
  module _ (p : A → Bool) (f : A → A)
      (same_place : (x y : A) → le (if p x then f x else x) (if p y then f y else y) ≡ le x y) where
    insert_with-update :
        (x : A) (ys : List A)
        → insert_with (if p x then f x else x) (update p f ys) ≡ update p f (insert_with x ys)
    unfolding insert_with
    insert_with-update x [] = refl
    insert_with-update x (y ∷ ys) = elim (Bool-cases (le x y)) [
      | inl e ↦ rw (same_place x y, e) refl
      | inr e ↦ rw (same_place x y, e, insert_with-update x ys) refl
    ]

    pub sort_with-update : (xs : List A) → sort_with (update p f xs) ≡ update p f (sort_with xs)
    unfolding sort_with
    sort_with-update [] = refl
    sort_with-update (x ∷ xs) = rw (sort_with-update xs) (insert_with-update x (sort_with xs))

  module _ (total : (x y : A) → le x y ≡ false → le y x ≡ true)
      (trans : (x y z : A) → le x y ≡ true → le y z ≡ true → le x z ≡ true) where
    Above-trans : (x y : A) (zs : List A) → le x y ≡ true → Above y zs → Above x zs
    Above-trans x y zs h = All-map (λ z. le y z ≡ true) (λ z. le x z ≡ true) (λ z. trans x y z h) zs

    insert_with-InOrder : (x : A) (xs : List A) → InOrder xs → InOrder (insert_with x xs)
    unfolding insert_with
    insert_with-InOrder x [] s = (tt, tt)
    insert_with-InOrder x (y ∷ ys) s = elim (Bool-cases (le x y)) [
      | inl e ↦ rw e ((e, Above-trans x y ys e s.0), s)
      | inr e ↦ rw e (
        All-insert_with (λ z. le y z ≡ true) x ys (total x y e) s.0,
        insert_with-InOrder x ys s.1,
      )
    ]

    pub sort_with-InOrder : (xs : List A) → InOrder (sort_with xs)
    unfolding sort_with
    sort_with-InOrder [] = tt
    sort_with-InOrder (x ∷ xs) = insert_with-InOrder x (sort_with xs) (sort_with-InOrder xs)

    insert_with-Above : (x : A) (ys : List A) → Above x ys → insert_with x ys ≡ x ∷ ys
    unfolding insert_with
    insert_with-Above x [] h = refl
    insert_with-Above x (y ∷ ys) h = rw (h.0) refl

    All-filter_of {κ} :
        (P : A → Type κ) (q : A → Bool) (xs : List A) → All P xs → All P (filter q xs)
    All-filter_of P q [] h = tt
    All-filter_of P q (x ∷ xs) h = elim (Bool-cases (q x)) [
      | inl e ↦ rw e (h.0, All-filter_of P q xs h.1)
      | inr e ↦ rw e (All-filter_of P q xs h.1)
    ]

    filter-insert_with :
        (q : A → Bool) (x : A) (ys : List A)
        → InOrder ys
        → filter q (insert_with x ys) ≡ (if q x then insert_with x (filter q ys) else filter q ys)
    unfolding insert_with
    filter-insert_with q x [] s = elim (Bool-cases (q x)) [ inl e ↦ rw e refl | inr e ↦ rw e refl ]
    filter-insert_with q x (y ∷ ys) s = elim (Bool-cases (le x y)) [
      | inl e ↦
          let above : Above x (filter q (y ∷ ys)) =
            All-filter_of (λ z. le x z ≡ true) q (y ∷ ys) (e, Above-trans x y ys e s.0) in
          rw (e, insert_with-Above x (filter q (y ∷ ys)) above) refl
      | inr e ↦
          rw (e, filter-insert_with q x ys s.1)
            (elim (Bool-cases (q x)) [
              | inl k ↦ elim (Bool-cases (q y)) [
                | inl m ↦ rw (k, m, e) refl
                | inr m ↦ rw (k, m) refl
              ]
              | inr k ↦ rw k refl
            ])
    ]

    -- A selection commutes with sorting.
    pub filter-sort_with :
        (q : A → Bool) (xs : List A) → filter q (sort_with xs) ≡ sort_with (filter q xs)
    unfolding sort_with
    filter-sort_with q [] = refl
    filter-sort_with q (x ∷ xs) =
        rw (filter-insert_with q x (sort_with xs) (sort_with-InOrder xs), filter-sort_with q xs)
          (elim (Bool-cases (q x)) [ inl e ↦ rw e refl | inr e ↦ rw e refl ])
