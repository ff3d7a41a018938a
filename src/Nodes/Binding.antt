-- ===== src/Nodes/Binding.antt =====
-- What `get_role_binding` of engine/llm_nodes.py finds after `set_role_binding`.
use resu_align_lite.Prelude.{
  ℕ, String, ◌≡◌, refl, ap, inl, inr, Bool, true, false, ◌&&◌, none, some, List, [], ◌∷◌, ◌++◌,
  arith, if◌then◌else◌, Bool-cases, String_discrete,
}
use resu_align_lite.Prelude.Table.{same, same_eq, same_refl, any}
use resu_align_lite.Prelude.Table.{first, first-update}
use resu_align_lite.Prelude.Booleans.{and_left, and_right, and_false, left_false, right_false}
use resu_align_lite.Delivery.Vocabulary.{member}
use resu_align_lite.Nodes.{Assignment, NodeStore, is_node, llm_roles}
use resu_align_lite.Nodes.Bindings.{
  is_binding, node_of, upsert_binding, set_role_binding, get_role_binding,
}
use resu_align_lite.Prelude.First.{first-update-hidden}

-- A role of the program, and a node of the tenant.
abbrev pub is_bindable : String → String → String → NodeStore → Bool
is_bindable t role id s = member role llm_roles && any (is_node t id) s.nodes

binding_apart :
    (t r u v : String) (a : Assignment)
    → (same t u && same r v) ≡ false
    → is_binding t r a ≡ true
    → is_binding u v a ≡ false
unfolding String_discrete
binding_apart t r u v a h e = ground arith

first-append_none :
    {A : Type 0} (q : A → Bool) (xs : List A) (x : A)
    → any q xs ≡ false
    → q x ≡ true
    → first q (xs ++ x ∷ []) ≡ some x
first-append_none q [] x h e = rw e refl
first-append_none q (y ∷ xs) x h e =
    rw (left_false (q y) (any q xs) h, first-append_none q xs x (right_false (q y) (any q xs) h) e)
      refl

first-append_apart :
    {A : Type 0} (q : A → Bool) (xs : List A) (x : A)
    → q x ≡ false
    → first q (xs ++ x ∷ []) ≡ first q xs
first-append_apart q [] x e = rw e refl
first-append_apart q (y ∷ xs) x e = rw (first-append_apart q xs x e) refl

first_of_any :
    {A : Type 0} (q : A → Bool) (xs : List A) → any q xs ≡ true → (x : A) × (first q xs ≡ some x)
first_of_any q [] h = cc
first_of_any q (y ∷ xs) h = elim (Bool-cases (q y)) [
  | inl e ↦ (y, rw e refl)
  | inr e ↦ let found = first_of_any q xs (rw e at h) in (found.0, rw e (found.1))
]

module _ (t r id : String) (now : ℕ) (rows : List Assignment) where
  upsert_own : node_of (first (is_binding t r) (upsert_binding t r id now rows)) ≡ some id
  upsert_own = elim (Bool-cases (any (is_binding t r) rows)) [
    | inl e ↦
        let found = first_of_any (is_binding t r) rows e in
        rw
          (
            e,
            first-update (is_binding t r) (λ a. record a { assigned_node = id; assigned_at = now })
                (λ a. refl) rows,
            found.1,
          )
          refl
    | inr e ↦
        rw
          (
            e,
            first-append_none (is_binding t r) rows
                (record { assigned_tenant = t; role = r; assigned_node = id; assigned_at = now }) e
                (rw (same_refl t, same_refl r) refl),
          )
          refl
  ]

  upsert_apart :
      (u v : String)
      → (same t u && same r v) ≡ false
      → first (is_binding u v) (upsert_binding t r id now rows) ≡ first (is_binding u v) rows
  upsert_apart u v h = elim (Bool-cases (any (is_binding t r) rows)) [
    | inl e ↦ rw e (
        first-update-hidden (is_binding u v) (is_binding t r)
          (λ a. record a { assigned_node = id; assigned_at = now })
          (λ a k. (binding_apart t r u v a h k, binding_apart t r u v a h k)) rows)
    | inr e ↦ rw e (first-append_apart (is_binding u v) rows _ h)
  ]

-- After a role has been bound, a request of that role finds the node if the role is one of the
-- program and the tenant has the node, and any other request finds what it would have found before.
pub get_role_binding-set_role_binding :
    (t r id : String) (now : ℕ) (s : NodeStore) (u v : String)
    → get_role_binding u v (set_role_binding t r id now s).0
      ≡ (if (same t u && same r v) && is_bindable t r id s then some id else get_role_binding u v s)
unfolding get_role_binding set_role_binding
get_role_binding-set_role_binding t r id now s u v = elim (Bool-cases (member r llm_roles)) [
  | inl m ↦ elim (Bool-cases (any (is_node t id) s.nodes)) [
    | inl k ↦ elim (Bool-cases (same t u && same r v)) [
      | inl e ↦
          rw
            (
              e,
              same_eq t u (and_left (same t u) (same r v) e),
              same_eq r v (and_right (same t u) (same r v) e),
              m,
              k,
            )
            (upsert_own t r id now s.assignments)
      | inr e ↦
          rw (m, k, e)
            (ap (λ o. if member v llm_roles then node_of o else none)
              (upsert_apart t r id now s.assignments u v e))
    ]
    | inr k ↦ rw (m, k, and_false (same t u && same r v)) refl
  ]
  | inr m ↦ rw (m, and_false (same t u && same r v)) refl
]
