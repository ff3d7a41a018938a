-- ===== src/Nodes/Serving.antt =====
-- Which node `resolve_node_for_role` of engine/llm_nodes.py serves a role with.
use resu_align_lite.Prelude.{
  String, ◌≡◌, refl, sym, ◌∙◌, inl, inr, Bool, true, false, not, ◌&&◌, Option, none, some, List, [],
  ◌∷◌, map, arith, if◌then◌else◌, Bool-cases, Option-cases,
}
use resu_align_lite.Prelude.Table.{same, All, filter, any}
use resu_align_lite.Delivery.Vocabulary.{member}
use resu_align_lite.Prelude.Table.{first}
use resu_align_lite.Prelude.Booleans.{and_left, or_false, left_false, right_false}
use resu_align_lite.Prelude.Order.{
  any-filter, sort_with, InOrder, any-sort_with, All-sort_with, sort_with-InOrder,
}
use resu_align_lite.Nodes.{
  Node, NodeStore, is_node, is_usable, is_local_node, quality_sensitive_roles, created_order,
  priority_order, row_to_dict, get_node, get_usable_nodes,
}
use resu_align_lite.Prelude.First.{All-first}
use resu_align_lite.Nodes.Ordering.{priority_order_total, priority_order_trans}
use resu_align_lite.Nodes.Bindings.{
  get_role_binding, delete_role_binding, preferred, choose, resolve_row, resolve_bound, or_choose,
  resolve_node_for_role,
}

first-holds : {A : Type 0} (q : A → Bool) (xs : List A) {x : A} → first q xs ≡ some x → q x ≡ true
first-holds q [] e = cc
first-holds q (y ∷ xs) {x} e = elim (Bool-cases (q y)) [
  | inl k ↦ let m : some y ≡ some x = (rw k at e) in ground arith
  | inr k ↦ first-holds q xs (rw k at e)
]

-- Of the tenant and not disabled.
abbrev pub may_serve : String → Node → Bool
may_serve t n = same n.tenant_id t && not n.auto_disabled

-- A node that may serve, or none when no node of the tenant is usable.
abbrev pub is_fair : String → NodeStore → Option Node → Bool
is_fair t s none = not (any (is_usable t) s.nodes)
is_fair t s (some n) = may_serve t n

-- The kind of node that a role prefers: remote when it is sensitive to quality, else local.
unfoldable pub is_preferred : String → Node → Bool
is_preferred role n =
    if member role quality_sensitive_roles then not (is_local_node n) else is_local_node n

abbrev pub serves_preferred : String → Option Node → Bool
serves_preferred role none = false
serves_preferred role (some n) = is_preferred role n

abbrev pub is_served : Option Node → Bool
is_served none = false
is_served (some n) = true

choose-may_serve :
    (t : String) (s : NodeStore) (role : String) (ns : List Node)
    → All (λ n. may_serve t n ≡ true) ns
    → any (is_usable t) ns ≡ any (is_usable t) s.nodes
    → is_fair t s (choose role ns) ≡ true
choose-may_serve t s role [] h e = rw (sym e) refl
choose-may_serve t s role (n ∷ []) h e = h.0
choose-may_serve t s role (n ∷ m ∷ ns) h e =
    elim (Bool-cases (member role quality_sensitive_roles)) [
      | inl q ↦ elim (Option-cases (first (λ k. not (is_local_node k)) (n ∷ m ∷ ns))) [
        | inl f ↦ rw (q, f) (h.0)
        | inr (k, f) ↦
            rw (q, f)
              (All-first (λ k. may_serve t k ≡ true) (λ k. not (is_local_node k)) (n ∷ m ∷ ns) h f)
      ]
      | inr q ↦ rw q (h.0)
    ]

module _ (d : Option String → Option String) (t role : String) where
  any-dicts :
      (q : Node → Bool) (keeps : (n : Node) → q (row_to_dict d n) ≡ q n) (ns : List Node)
      → any q (map (row_to_dict d) ns) ≡ any q ns
  any-dicts q keeps [] = refl
  any-dicts q keeps (n ∷ ns) = rw (keeps n, any-dicts q keeps ns) refl

  pub any-usable :
      (q : Node → Bool) (keeps : (n : Node) → q (row_to_dict d n) ≡ q n) (s : NodeStore)
      → any q (get_usable_nodes d t s) ≡ any q (filter (is_usable t) s.nodes)
  unfolding get_usable_nodes
  any-usable q keeps s =
      rw
        (
          any-sort_with priority_order q
              (map (row_to_dict d) (sort_with created_order (filter (is_usable t) s.nodes))),
          any-dicts q keeps (sort_with created_order (filter (is_usable t) s.nodes)),
          any-sort_with created_order q (filter (is_usable t) s.nodes),
        )
        refl

  All-dicts :
      (ns : List Node)
      → All (λ n. may_serve t n ≡ true) ns
      → All (λ n. may_serve t n ≡ true) (map (row_to_dict d) ns)
  All-dicts [] h = tt
  All-dicts (n ∷ ns) h = (h.0, All-dicts ns h.1)

  usable-may_serve : (ns : List Node) → All (λ n. may_serve t n ≡ true) (filter (is_usable t) ns)
  usable-may_serve [] = tt
  usable-may_serve (n ∷ ns) = elim (Bool-cases (is_usable t n)) [
    | inl e ↦ rw e (ground arith, usable-may_serve ns)
    | inr e ↦ rw e (usable-may_serve ns)
  ]

  get_usable_nodes-may_serve :
      (s : NodeStore) → All (λ n. may_serve t n ≡ true) (get_usable_nodes d t s)
  unfolding get_usable_nodes
  get_usable_nodes-may_serve s =
      All-sort_with priority_order (λ n. may_serve t n ≡ true)
        (map (row_to_dict d) (sort_with created_order (filter (is_usable t) s.nodes)))
        (All-dicts (sort_with created_order (filter (is_usable t) s.nodes)) (
          All-sort_with created_order (λ n. may_serve t n ≡ true) (filter (is_usable t) s.nodes)
            (usable-may_serve s.nodes)))

  any-both : (p : Node → Bool) (xs : List Node) → any (λ x. p x && p x) xs ≡ any p xs
  any-both p [] = refl
  any-both p (x ∷ xs) = ground (arith, any-both p xs)

  choose_usable : (s : NodeStore) → is_fair t s (choose role (get_usable_nodes d t s)) ≡ true
  choose_usable s =
      choose-may_serve t s role (get_usable_nodes d t s) (get_usable_nodes-may_serve s) (
        any-usable (is_usable t) (λ n. refl) s
        ∙ (any-filter (is_usable t) (is_usable t) s.nodes ∙ any-both (is_usable t) s.nodes))

  nodes-delete_role_binding : (s : NodeStore) → (delete_role_binding t role s).0.nodes ≡ s.nodes
  unfolding delete_role_binding
  nodes-delete_role_binding s = ground arith

  fair-nodes :
      (s r : NodeStore) (o : Option Node)
      → r.nodes ≡ s.nodes
      → is_fair t r o ≡ true
      → is_fair t s o ≡ true
  fair-nodes s r none e h = rw (sym e) h
  fair-nodes s r (some n) e h = h

  bound-is_node :
      (id : String) (s : NodeStore) {n : Node}
      → get_node d t id s ≡ some n
      → same n.tenant_id t ≡ true
  unfolding get_node
  bound-is_node id s {n} e = elim (Option-cases (first (is_node t id) s.nodes)) [
    | inl f ↦ let m : none ≡ some n = (rw f at e) in cc
    | inr (row, f) ↦
        let m : some (row_to_dict d row) ≡ some n = (rw f at e) in
        let own : is_node t id row ≡ true = first-holds (is_node t id) s.nodes f in
        ground (arith, and_left (same row.tenant_id t) (same row.node_id id) own)
  ]

  by_row :
      (s : NodeStore) (o : Option Node)
      → ((n : Node) → o ≡ some n → same n.tenant_id t ≡ true)
      → is_fair t s (
          or_choose role
            (get_usable_nodes d t (resolve_row t role o s).0)
            (resolve_row t role o s).1)
        ≡ true
  by_row s none own =
      fair-nodes s (delete_role_binding t role s).0 _ (nodes-delete_role_binding s)
        (choose_usable (delete_role_binding t role s).0)
  by_row s (some n) own = elim (Bool-cases n.auto_disabled) [
    | inl k ↦ rw k (choose_usable s)
    | inr k ↦ rw (k, own n refl) refl
  ]

  by_binding :
      (s : NodeStore) (o : Option String)
      → is_fair t s (
          or_choose role
            (get_usable_nodes d t (resolve_bound d t role o s).0)
            (resolve_bound d t role o s).1)
        ≡ true
  by_binding s none = choose_usable s
  by_binding s (some id) = by_row s (get_node d t id s) (λ n. bound-is_node id s {n = n})

  -- The node that serves a role is a node of the tenant that the breaker has not disabled, and there
  -- is one unless no node of the tenant is usable.
  pub resolve_node_for_role-fair :
      (s : NodeStore) → is_fair t s (resolve_node_for_role d t role s).1 ≡ true
  unfolding resolve_node_for_role
  resolve_node_for_role-fair s = by_binding s (get_role_binding t role s)

  -- A node that is not local before every node.
  local_first :
      (n : Node) (ns : List Node)
      → All (λ m. priority_order n m ≡ true) ns
      → is_local_node n ≡ any is_local_node (n ∷ ns)
  unfolding priority_order
  local_first n ns h = elim (Bool-cases (is_local_node n)) [
    | inl e ↦ rw e refl
    | inr e ↦ rw (e, remote ns h e) refl
  ]
    where
      remote :
          (ns : List Node)
          → All (λ m. priority_order n m ≡ true) ns
          → is_local_node n ≡ false
          → any is_local_node ns ≡ false
      remote [] h e = refl
      remote (m ∷ ns) h e = rw (remote ns h.1 e) (ground (arith, h.0))

  usable-InOrder : (s : NodeStore) → InOrder priority_order (get_usable_nodes d t s)
  unfolding get_usable_nodes
  usable-InOrder s =
      sort_with-InOrder priority_order priority_order_total priority_order_trans
        (map (row_to_dict d) (sort_with created_order (filter (is_usable t) s.nodes)))

  any-first-none : (q : Node → Bool) (xs : List Node) → first q xs ≡ none → any q xs ≡ false
  any-first-none q [] e = refl
  any-first-none q (x ∷ xs) e = ground (arith, any-first-none q xs)

  any-first-some :
      (q : Node → Bool) (xs : List Node) {x : Node} → first q xs ≡ some x → any q xs ≡ true
  any-first-some q [] e = cc
  any-first-some q (y ∷ xs) {x} e = ground (arith, any-first-some q xs {x = x})

  any-congr : (q r : Node → Bool) (xs : List Node) → ((x : Node) → q x ≡ r x) → any q xs ≡ any r xs
  any-congr q r [] h = refl
  any-congr q r (x ∷ xs) h = rw (h x, any-congr q r xs h) refl

  choose-remote :
      (n : Node) (ns : List Node)
      → member role quality_sensitive_roles ≡ true
      → serves_preferred role (preferred true n ns) ≡ any (λ k. not (is_local_node k)) (n ∷ ns)
  unfolding is_preferred
  choose-remote n ns q = elim (Option-cases (first (λ k. not (is_local_node k)) (n ∷ ns))) [
    | inl f ↦
        let locals : any (λ k. not (is_local_node k)) (n ∷ ns) ≡ false =
          any-first-none (λ k. not (is_local_node k)) (n ∷ ns) f in
        rw
          (
            f,
            q,
            left_false (not (is_local_node n)) (any (λ k. not (is_local_node k)) ns) locals,
            right_false (not (is_local_node n)) (any (λ k. not (is_local_node k)) ns) locals,
          )
          refl
    | inr (k, f) ↦
        rw
          (
            f,
            q,
            any-first-some (λ k. not (is_local_node k)) (n ∷ ns) f,
            first-holds (λ k. not (is_local_node k)) (n ∷ ns) f,
          )
          refl
  ]

  by_tier :
      (b : Bool) (n : Node) (ns : List Node)
      → member role quality_sensitive_roles ≡ b
      → InOrder priority_order (n ∷ ns)
      → serves_preferred role (preferred b n ns) ≡ any (is_preferred role) (n ∷ ns)
  unfolding is_preferred
  by_tier true n ns q h =
      choose-remote n ns q
      ∙ sym (any-congr (is_preferred role) (λ k. not (is_local_node k)) (n ∷ ns) (λ k. rw q refl))
  by_tier false n ns q h =
      rw q (local_first n ns h.0)
      ∙ sym (any-congr (is_preferred role) is_local_node (n ∷ ns) (λ k. rw q refl))

  choose-preferred :
      (ns : List Node)
      → InOrder priority_order ns
      → serves_preferred role (choose role ns) ≡ any (is_preferred role) ns
  choose-preferred [] h = refl
  choose-preferred (n ∷ []) h = sym (or_false (is_preferred role n))
  choose-preferred (n ∷ m ∷ ns) h = by_tier (member role quality_sensitive_roles) n (m ∷ ns) refl h

  preferred-is_served : (b : Bool) (n : Node) (ns : List Node) → is_served (preferred b n ns) ≡ true
  preferred-is_served true n ns =
      elim (Option-cases (first (λ k. not (is_local_node k)) (n ∷ ns))) [
        | inl f ↦ rw f refl
        | inr (k, f) ↦ rw f refl
      ]
  preferred-is_served false n ns = refl

  choose-is_served : (ns : List Node) → is_served (choose role ns) ≡ any (λ n. true) ns
  choose-is_served [] = refl
  choose-is_served (n ∷ []) = refl
  choose-is_served (n ∷ m ∷ ns) =
      preferred-is_served (member role quality_sensitive_roles) n (m ∷ ns)

  any-usable_some :
      (s : NodeStore) → any (λ n. true) (get_usable_nodes d t s) ≡ any (is_usable t) s.nodes
  any-usable_some s =
      any-usable (λ n. true) (λ n. refl) s
      ∙ (any-filter (λ n. true) (is_usable t) s.nodes
          ∙ any-congr (λ n. is_usable t n && true) (is_usable t) s.nodes (λ n. ground arith))

  -- A role that is bound to no node is served by some node when the tenant has a usable one, and by
  -- none otherwise. The node is remote when the role is sensitive to quality and a usable remote node
  -- exists, and local when the role is sensitive and none does; for another role it is local exactly
  -- when a usable local node exists.
  pub resolve_node_for_role-preferred :
      (s : NodeStore)
      → get_role_binding t role s ≡ none
      → (is_served (resolve_node_for_role d t role s).1 ≡ any (is_usable t) s.nodes)
        × (serves_preferred role (resolve_node_for_role d t role s).1
            ≡ any (λ n. is_usable t n && is_preferred role n) s.nodes)
  unfolding resolve_node_for_role is_preferred
  resolve_node_for_role-preferred s e = rw e (
    choose-is_served (get_usable_nodes d t s) ∙ any-usable_some s,
    choose-preferred (get_usable_nodes d t s) (usable-InOrder s)
        ∙ (any-usable (is_preferred role) (λ n. refl) s
            ∙ any-filter (is_preferred role) (is_usable t) s.nodes),
  )
