-- ===== src/Nodes/Promotion.antt =====
-- Deleting a node of engine/llm_nodes.py leaves the tenant with an active node when any is left.
use resu_align_lite.Prelude.{
  ℕ, String, ◌≡◌, refl, sym, ◌∙◌, inl, inr, Bool, true, false, not, ◌&&◌, Option, none, some, List,
  [], ◌∷◌, arith, Bool-cases, Option-cases,
}
use resu_align_lite.Prelude.Table.{
  same, same_eq, same_refl, All, filter, update, any, any-filter-not, any-update, find, Distinct,
}
use resu_align_lite.Prelude.Table.{first}
use resu_align_lite.Prelude.Order.{sort_with, any-sort_with, All-sort_with}
use resu_align_lite.Prelude.Booleans.{and_left, and_right, and_false}
use resu_align_lite.Nodes.{Node, NodeStore, is_node, is_active_of, of_tenant, created_order, head}
use resu_align_lite.Nodes.Writes.{set_active, promote, delete_row, delete_node}

any-imp :
    {A : Type 0} (q r : A → Bool) (xs : List A)
    → ((x : A) → q x ≡ true → r x ≡ true)
    → any q xs ≡ true
    → any r xs ≡ true
any-imp q r [] h e = e
any-imp q r (x ∷ xs) h e = ground (arith, h x, any-imp q r xs h)

find-none-any :
    (q : Node → Bool) (t i : String) (xs : List Node)
    → find (λ n. n.node_id) i xs ≡ none
    → any (λ n. q n && is_node t i n) xs ≡ false
find-none-any q t i [] h = refl
find-none-any q t i (x ∷ xs) h = ground (arith, find-none-any q t i xs)

-- A test fails at every row of a key when it fails at the first, keys being unique.
any-own_row :
    (q : Node → Bool) (t i : String) (xs : List Node) {row : Node}
    → Distinct (λ n. n.node_id) xs
    → first (is_node t i) xs ≡ some row
    → q row ≡ false
    → any (λ n. q n && is_node t i n) xs ≡ false
any-own_row q t i [] d e h = refl
any-own_row q t i (x ∷ xs) {row} d e h = elim (Bool-cases (is_node t i x)) [
  | inl k ↦
      let m : some x ≡ some row = (rw k at e) in
      let off : q x ≡ false = ground (arith, h) in
      let others : any (λ n. q n && is_node t i n) xs ≡ false =
        find-none-any q t i xs
          (rw (same_eq x.node_id i (and_right (same x.tenant_id t) (same x.node_id i) k)) d.0) in
      rw (off, others) refl
  | inr k ↦ rw (k, any-own_row q t i xs d.1 (rw k at e) h, and_false (q x)) refl
]

head-any :
    (q : Node → Bool) (xs : List Node) {n : Node} → head xs ≡ some n → q n ≡ true → any q xs ≡ true
head-any q [] e h = cc
head-any q (x ∷ xs) {n} e h = ground arith

head-none : (q : Node → Bool) (xs : List Node) → head xs ≡ none → any q xs ≡ false
head-none q [] e = refl
head-none q (x ∷ xs) e = cc

head-All : (P : Node → Type 0) (xs : List Node) {n : Node} → All P xs → head xs ≡ some n → P n
head-All P [] h e = cc
head-All P (x ∷ xs) {n} h e = ground (arith, h.0)

any-filter-le : (q p : Node → Bool) (xs : List Node) → any q (filter p xs) ≡ true → any q xs ≡ true
any-filter-le q p [] h = h
any-filter-le q p (x ∷ xs) h = ground (arith, any-filter-le q p xs)

any-filter_self : (p : Node → Bool) (xs : List Node) → any p (filter p xs) ≡ any p xs
any-filter_self p [] = refl
any-filter_self p (x ∷ xs) = ground (arith, any-filter_self p xs)

All-filter_self : (p : Node → Bool) (xs : List Node) → All (λ x. p x ≡ true) (filter p xs)
All-filter_self p [] = tt
All-filter_self p (x ∷ xs) = elim (Bool-cases (p x)) [
  | inl e ↦ rw e (e, All-filter_self p xs)
  | inr e ↦ rw e (All-filter_self p xs)
]

abbrev oldest : String → List Node → Option Node
oldest t xs = head (sort_with created_order (filter (of_tenant t) xs))

oldest-is_node :
    (t : String) (xs : List Node) {n : Node}
    → oldest t xs ≡ some n
    → any (is_node t n.node_id) xs ≡ true
oldest-is_node t xs {n} e =
    let here : same n.tenant_id t ≡ true =
      head-All (λ x. same x.tenant_id t ≡ true) (sort_with created_order (filter (of_tenant t) xs))
        (All-sort_with created_order (λ x. same x.tenant_id t ≡ true) (filter (of_tenant t) xs)
          (All-filter_self (of_tenant t) xs))
        e in
    any-filter-le (is_node t n.node_id) (of_tenant t) xs (
      rw (any-sort_with created_order (is_node t n.node_id) (filter (of_tenant t) xs)) at (
        head-any (is_node t n.node_id) (sort_with created_order (filter (of_tenant t) xs)) e
          (rw (here, same_refl n.node_id) refl)))

oldest-none : (t : String) (xs : List Node) → oldest t xs ≡ none → any (of_tenant t) xs ≡ false
oldest-none t xs e =
    sym (any-filter_self (of_tenant t) xs)
    ∙ (sym (any-sort_with created_order (of_tenant t) (filter (of_tenant t) xs))
        ∙ head-none (of_tenant t) (sort_with created_order (filter (of_tenant t) xs)) e)

any-set_active :
    (t i : String) (now : ℕ) (xs : List Node)
    → any (is_node t i) xs ≡ true
    → any (is_active_of t) (update (is_node t i) (set_active now) xs) ≡ true
any-set_active t i now [] h = h
any-set_active t i now (x ∷ xs) h = ground (arith, any-set_active t i now xs)

active→tenant :
    (t : String) (xs : List Node) → any (is_active_of t) xs ≡ true → any (of_tenant t) xs ≡ true
active→tenant t xs h =
    any-imp (is_active_of t) (of_tenant t) xs (λ x e. and_left (same x.tenant_id t) x.is_active e) h

promote-active :
    (t : String) (now : ℕ) (xs : List Node)
    → any (of_tenant t) xs ≡ true
    → any (is_active_of t) (promote t now (oldest t xs) xs) ≡ true
promote-active t now xs h = elim (Option-cases (oldest t xs)) [
  | inl e ↦ let none_left : any (of_tenant t) xs ≡ false = oldest-none t xs e in cc
  | inr (n, e) ↦ rw e (any-set_active t n.node_id now xs (oldest-is_node t xs e))
]

any-promote :
    (t : String) (now : ℕ) (o : Option Node) (xs : List Node)
    → any (of_tenant t) (promote t now o xs) ≡ any (of_tenant t) xs
any-promote t now none xs = refl
any-promote t now (some n) xs =
    any-update (of_tenant t) (is_node t n.node_id) (set_active now) (λ x. refl) xs

-- The tenant after the row of a node has been deleted.
deleted :
    (t i : String) (now : ℕ) (s : NodeStore) (row : Node)
    → first (is_node t i) s.nodes ≡ some row
    → Distinct (λ n. n.node_id) s.nodes
    → any (is_active_of t) s.nodes ≡ true
    → any (of_tenant t) (delete_row t i now (some row) s).0.nodes ≡ true
    → any (is_active_of t) (delete_row t i now (some row) s).0.nodes ≡ true
deleted t i now s row e d active left = elim (Bool-cases row.is_active) [
  | inl k ↦ rw k (
      promote-active t now _ (
        sym (any-promote t now (oldest t (filter (λ n. not (is_node t i n)) s.nodes)) _)
        ∙ (rw k at left)))
  | inr k ↦
      let idle : is_active_of t row ≡ false = rw (k, and_false (same row.tenant_id t)) refl in
      rw k (
        any-filter-not (is_active_of t) (is_node t i) s.nodes active
          (any-own_row (is_active_of t) t i s.nodes d e idle))
]

-- When the ids of nodes are unique and the tenant has an active node, deleting one of its nodes
-- leaves the tenant with an active node if it leaves the tenant with any.
pub delete_node-active :
    (t i : String) (now : ℕ) (s : NodeStore)
    → Distinct (λ n. n.node_id) s.nodes
    → any (is_active_of t) s.nodes ≡ true
    → any (of_tenant t) (delete_node t i now s).0.nodes ≡ true
    → any (is_active_of t) (delete_node t i now s).0.nodes ≡ true
unfolding delete_node
delete_node-active t i now s d active left = elim (Option-cases (first (is_node t i) s.nodes)) [
  | inl e ↦ rw e active
  | inr (row, e) ↦ rw e (deleted t i now s row e d active (rw e at left))
]
