-- ===== src/Prelude/Table.antt =====
-- A SQL table as the list of its rows in `rowid` order: UPDATE, DELETE and SELECT with a WHERE
-- clause as functions of a Boolean test, and what they do to the row of a key.
use Prim.Native.Nat.{ℕ, suc, ◌≤◌}
use Prim.Native.String.{String}
use mathlib.Core.Path.{◌≡◌, refl, sym}
use mathlib.Core.Logic.{inl, inr, ite}
use mathlib.Core.Bool.{Bool, true, false, not, ◌&&◌, ◌||◌}
use mathlib.Core.Option.{Option, none, some}
use mathlib.Core.List.{List, [], ◌∷◌, ◌++◌}
use native.Mathlib.Omega.{arith}
use resu_align_lite.Prelude.Tests.{if◌then◌else◌, String_discrete, Bool-cases}
use resu_align_lite.Prelude.Lists.{length}

-- `a = b` of two texts.
abbrev pub same : String → String → Bool
same a b = ite (String_discrete a b) true false

pub same_eq : (a b : String) → same a b ≡ true → b ≡ a
same_eq a b h = elim (String_discrete a b) [ yes p ↦ sym p | no np ↦ ground arith ]

pub same_refl : (a : String) → same a a ≡ true
same_refl a = elim (String_discrete a a) as (λ d. ite d true false ≡ true) [
  | yes p ↦ refl
  | no np ↦ absurd (np refl)
]

pub same_sym : (a b : String) → same a b ≡ same b a
unfolding String_discrete
same_sym a b = ground arith

module _ {ℓ} {A : Type ℓ} where
  abbrev pub All {κ} : (A → Type κ) → List A → Type κ
  All P [] = Unit
  All P (x ∷ xs) = P x × All P xs

  -- `SELECT ... WHERE p`, and with the complement of `p` what `DELETE` leaves.
  abbrev pub filter : (A → Bool) → List A → List A
  filter p [] = []
  filter p (x ∷ xs) = let rest = filter p xs in if p x then x ∷ rest else rest

  -- `UPDATE ... SET f WHERE p`
  abbrev pub update : (A → Bool) → (A → A) → List A → List A
  update p f [] = []
  update p f (x ∷ xs) = (if p x then f x else x) ∷ update p f xs

  -- `rowcount > 0`, `EXISTS`
  abbrev pub any : (A → Bool) → List A → Bool
  any p [] = false
  any p (x ∷ xs) = p x || any p xs

  -- `SELECT COUNT(*) ... WHERE p`
  abbrev pub count : (A → Bool) → List A → ℕ
  count p [] = 0
  count p (x ∷ xs) = let rest = count p xs in if p x then suc rest else rest

  pub All-filter {κ μ} :
      (P : A → Type κ) (Q : A → Type μ) (p : A → Bool)
      → ((x : A) → p x ≡ true → P x → Q x)
      → (xs : List A) → All P xs
      → All Q (filter p xs)
  All-filter P Q p keep [] h = tt
  All-filter P Q p keep (x ∷ xs) h = elim (Bool-cases (p x)) [
    | inl e ↦ rw e (keep x e h.0, All-filter P Q p keep xs h.1)
    | inr e ↦ rw e (All-filter P Q p keep xs h.1)
  ]

  pub All-update {κ} :
      (P : A → Type κ) (p : A → Bool) (f : A → A)
      → ((x : A) → p x ≡ true → P x → P (f x))
      → (xs : List A) → All P xs
      → All P (update p f xs)
  All-update P p f keep [] h = tt
  All-update P p f keep (x ∷ xs) h = elim (Bool-cases (p x)) [
    | inl e ↦ rw e (keep x e h.0, All-update P p f keep xs h.1)
    | inr e ↦ rw e (h.0, All-update P p f keep xs h.1)
  ]

  pub All-append {κ} :
      (P : A → Type κ) (xs : List A) (x : A) → All P xs → P x → All P (xs ++ x ∷ [])
  All-append P [] x h hx = (hx, tt)
  All-append P (y ∷ xs) x h hx = (h.0, All-append P xs x h.1 hx)

  pub All-map {κ μ} :
      (P : A → Type κ) (Q : A → Type μ)
      → ((x : A) → P x → Q x)
      → (xs : List A) → All P xs
      → All Q xs
  All-map P Q f [] h = tt
  All-map P Q f (x ∷ xs) h = (f x h.0, All-map P Q f xs h.1)

  pub length-filter-le : (p : A → Bool) (xs : List A) → length (filter p xs) ≤ length xs
  length-filter-le p [] = omega arith
  length-filter-le p (x ∷ xs) = ground (arith, length-filter-le p xs)

  pub length-update : (p : A → Bool) (f : A → A) (xs : List A) → length (update p f xs) ≡ length xs
  length-update p f [] = refl
  length-update p f (x ∷ xs) = omega (arith, length-update p f xs)

-- Which tests still hold of some row after a write.
module _ {ℓ} {A : Type ℓ} where
  pub any-filter-not :
      (q r : A → Bool) (xs : List A)
      → any q xs ≡ true
      → any (λ x. q x && r x) xs ≡ false
      → any q (filter (λ x. not (r x)) xs) ≡ true
  any-filter-not q r [] h n = cc
  any-filter-not q r (x ∷ xs) h n = ground (arith, any-filter-not q r xs)

  pub any_none : (q : A → Bool) (xs : List A) → ((x : A) → q x ≡ false) → any q xs ≡ false
  any_none q [] h = refl
  any_none q (x ∷ xs) h = rw (h x) (any_none q xs h)

  pub any-append : (q : A → Bool) (xs : List A) (x : A) → any q (xs ++ x ∷ []) ≡ any q xs || q x
  any-append q [] x = ground arith
  any-append q (y ∷ xs) x = ground (arith, any-append q xs x)

  pub any-update :
      (q p : A → Bool) (f : A → A) (keeps : (x : A) → q (f x) ≡ q x) (xs : List A)
      → any q (update p f xs) ≡ any q xs
  any-update q p f keeps [] = refl
  any-update q p f keeps (x ∷ xs) = ground (arith, keeps x, any-update q p f keeps xs)

  pub any-update_where :
      (q p : A → Bool) (f : A → A) (keeps : (x : A) → p x ≡ true → q (f x) ≡ q x) (xs : List A)
      → any q (update p f xs) ≡ any q xs
  any-update_where q p f keeps [] = refl
  any-update_where q p f keeps (x ∷ xs) = elim (Bool-cases (p x)) [
    | inl e ↦ rw (e, keeps x e, any-update_where q p f keeps xs) refl
    | inr e ↦ rw (e, any-update_where q p f keeps xs) refl
  ]

  -- A write leaves the rows alone that the filter keeps.
  pub filter-update :
      (q p : A → Bool) (f : A → A)
      (hidden : (x : A) → p x ≡ true → (q x ≡ false) × (q (f x) ≡ false)) (xs : List A)
      → filter q (update p f xs) ≡ filter q xs
  filter-update q p f hidden [] = refl
  filter-update q p f hidden (x ∷ xs) = elim (Bool-cases (p x)) [
    | inl e ↦ rw (e, (hidden x e).0, (hidden x e).1) (filter-update q p f hidden xs)
    | inr e ↦ rw (e, filter-update q p f hidden xs) refl
  ]

  pub update_none :
      (p : A → Bool) (f : A → A) (xs : List A) → ((x : A) → p x ≡ false) → update p f xs ≡ xs
  update_none p f [] h = refl
  update_none p f (x ∷ xs) h = rw (h x, update_none p f xs h) refl

  -- Two writes in a row as one.
  pub update-update :
      (p q r : A → Bool) (f g k : A → A)
      (fuses : (x : A)
        → (if q (if p x then f x else x)
            then g (if p x then f x else x)
            else (if p x then f x else x))
          ≡ (if r x then k x else x))
      (xs : List A)
      → update q g (update p f xs) ≡ update r k xs
  update-update p q r f g k fuses [] = refl
  update-update p q r f g k fuses (x ∷ xs) = rw (fuses x, update-update p q r f g k fuses xs) refl

  -- Two writes that agree on every row.
  pub update-congr :
      (p q : A → Bool) (f : A → A) (xs : List A)
      → All (λ x. p x ≡ q x) xs
      → update p f xs ≡ update q f xs
  update-congr p q f [] h = refl
  update-congr p q f (x ∷ xs) h = rw (h.0, update-congr p q f xs h.1) refl

  -- The row that `SELECT ... WHERE p` fetches first.
  abbrev pub first : (A → Bool) → List A → Option A
  first p [] = none
  first p (x ∷ xs) = let rest = first p xs in if p x then some x else rest

  abbrev pub on_row : (A → A) → Option A → Option A
  on_row f none = none
  on_row f (some x) = some (f x)

  pub first-update :
      (p : A → Bool) (f : A → A) (keeps : (x : A) → p (f x) ≡ p x) (xs : List A)
      → first p (update p f xs) ≡ on_row f (first p xs)
  first-update p f keeps [] = refl
  first-update p f keeps (x ∷ xs) = elim (Bool-cases (p x)) [
    | inl e ↦ rw (e, keeps x, e) refl
    | inr e ↦ rw (e, e) (first-update p f keeps xs)
  ]

-- Rows with a primary key.
module _ {ℓ} {A : Type ℓ} (key : A → String) where
  -- `SELECT ... WHERE key = k`
  abbrev pub find : String → List A → Option A
  find k [] = none
  find k (x ∷ xs) = ite (String_discrete (key x) k) (some x) (find k xs)

  abbrev pub Distinct : List A → Type ℓ
  Distinct [] = Unit
  Distinct (x ∷ xs) = (find (key x) xs ≡ none) × Distinct xs

  pub find-filter :
      (p : A → Bool) (k : String) (xs : List A)
      → Distinct xs
      → find k (filter p xs)
        ≡ elim (find k xs) [ none ↦ none | some x ↦ if p x then some x else none ]
  find-filter p k [] d = refl
  find-filter p k (x ∷ xs) d = ground (arith, find-filter p k xs d.1)

  pub find-filter-none :
      (p : A → Bool) (k : String) (xs : List A) → find k xs ≡ none → find k (filter p xs) ≡ none
  find-filter-none p k [] h = refl
  find-filter-none p k (x ∷ xs) h = ground (arith, find-filter-none p k xs)

  pub Distinct-filter : (p : A → Bool) (xs : List A) → Distinct xs → Distinct (filter p xs)
  Distinct-filter p [] d = tt
  Distinct-filter p (x ∷ xs) d =
      ground (arith, Distinct-filter p xs d.1, find-filter-none p (key x) xs d.0)

  pub find-append :
      (k : String) (xs : List A) (x : A)
      → find k (xs ++ x ∷ []) ≡ elim (find k xs) [
        | none ↦ ite (String_discrete (key x) k) (some x) none
        | some y ↦ some y
      ]
  find-append k [] x = refl
  find-append k (y ∷ xs) x = ground (arith, find-append k xs x)

  pub Distinct-append :
      (xs : List A) (x : A) → Distinct xs → find (key x) xs ≡ none → Distinct (xs ++ x ∷ [])
  Distinct-append [] x d h = (refl, tt)
  Distinct-append (y ∷ xs) x d h =
      ground (arith, Distinct-append xs x d.1, find-append (key y) xs x)

  -- A test of the key together with another holds of some row when it holds of the key's row.
  pub any_of_key :
      (q : A → Bool) (k : String) (xs : List A)
      → Distinct xs
      → any (λ x. same (key x) k && q x) xs ≡ elim (find k xs) [ none ↦ false | some x ↦ q x ]
  any_of_key q k [] d = refl
  any_of_key q k (x ∷ xs) d = ground (arith, any_of_key q k xs d.1)

  module _ (p : A → Bool) (f : A → A) (keeps : (x : A) → key (f x) ≡ key x) where
    pub find-update :
        (k : String) (xs : List A)
        → find k (update p f xs)
          ≡ elim (find k xs) [ none ↦ none | some x ↦ some (if p x then f x else x) ]
    find-update k [] = refl
    find-update k (x ∷ xs) = ground (arith, keeps x, find-update k xs)

    pub Distinct-update : (xs : List A) → Distinct xs → Distinct (update p f xs)
    Distinct-update [] d = tt
    Distinct-update (x ∷ xs) d =
        ground (arith, keeps x, Distinct-update xs d.1, find-update (key x) xs)

  -- No row has the key exactly when the lookup fails.
  pub find-any :
      (k : String) (xs : List A) → any (λ x. same (key x) k) xs ≡ false → find k xs ≡ none
  find-any k [] h = refl
  find-any k (x ∷ xs) h = ground (arith, find-any k xs)

  pub any-find :
      (k : String) (xs : List A) {x : A} → find k xs ≡ some x → any (λ y. same (key y) k) xs ≡ true
  any-find k [] h = cc
  any-find k (y ∷ xs) {x} h = ground (arith, any-find k xs {x = x})

  pub find_key : (k : String) (xs : List A) {x : A} → find k xs ≡ some x → key x ≡ k
  find_key k [] h = cc
  find_key k (y ∷ xs) {x} h = ground (arith, find_key k xs {x = x})
