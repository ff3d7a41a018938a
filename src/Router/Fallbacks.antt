-- ===== src/Router/Fallbacks.antt =====
-- A failed first attempt changes nothing for the other nodes of engine/role_router.py: neither the
-- cooldown of its node nor its breaker alters which of them are tried, and in which order.
use resu_align_lite.Prelude.{
  ℕ, String, ◌≡◌, refl, sym, ap, subst, ◌∙◌, inl, inr, Bool, true, false, not, ◌||◌, Option, none,
  some, List, [], ◌∷◌, map, arith, if◌then◌else◌, Bool-cases,
}
use resu_align_lite.Prelude.Table.{same, same_eq, filter, update}
use resu_align_lite.Prelude.Table.{first}
use resu_align_lite.Prelude.Texts.{is_empty, or_text}
use resu_align_lite.Prelude.Booleans.{or_right}
use resu_align_lite.Prelude.Order.{sort_with, filter-sort_with}
use resu_align_lite.Delivery.Vocabulary.{member}
use resu_align_lite.Nodes.{
  Node, NodeStore, is_node, is_usable, created_order, priority_order, row_to_dict, get_usable_nodes,
}
use resu_align_lite.Nodes.Ordering.{
  created_order_total, created_order_trans, priority_order_total, priority_order_trans,
}
use resu_align_lite.Nodes.Breaker.{
  breaker_counted_codes, set_breaker, update_of, breaker_update, record_call_failure,
  record_call_success,
}
use resu_align_lite.Router.Warmth.{is_skipped, seen_next, pick}
use resu_align_lite.Router.Calls.{report_at}

-- The other nodes.
abbrev pub off : String → Node → Bool
off id n = not (same n.node_id id)

seen_after :
    (b : Bool) (id x : String) (seen : List String)
    → member id seen ≡ true
    → member id (if b then seen else x ∷ seen) ≡ true
seen_after true id x seen h = h
seen_after false id x seen h = or_right (same x id) (member id seen) h

module _ (id : String) (full : is_empty id ≡ false) where
  pub pick-filter :
      (cold : String → Bool) (seen : List String) (ns : List Node)
      → member id seen ≡ true
      → pick cold seen ns ≡ pick cold seen (filter (off id) ns)
  unfolding pick
  pick-filter cold seen [] h = refl
  pick-filter cold seen (n ∷ ns) h = elim (Bool-cases (same n.node_id id)) [
    | inl e ↦
        rw
          (
            e,
            subst (λ k. is_empty k ≡ false) (same_eq n.node_id id e) full,
            subst (λ k. member k seen ≡ true) (same_eq n.node_id id e) h,
          )
          (pick-filter cold seen ns h)
    | inr e ↦
        ap (λ rest. if is_skipped cold seen n then rest else n ∷ rest)
          (pick-filter cold (seen_next cold seen n) ns
            (seen_after (is_empty n.node_id || is_skipped cold seen n) id n.node_id seen h))
        ∙ rw e refl
  ]

  pub pick-congr :
      (f g : String → Bool) (seen : List String) (ns : List Node)
      → ((k : String) → same id k ≡ false → f k ≡ g k)
      → member id seen ≡ true
      → pick f seen ns ≡ pick g seen ns
  unfolding pick
  pick-congr f g seen [] h m = refl
  pick-congr f g seen (n ∷ ns) h m = elim (Bool-cases (same id n.node_id)) [
    | inl e ↦
        rw
          (
            subst (λ k. is_empty k ≡ false) (sym (same_eq id n.node_id e)) full,
            subst (λ k. member k seen ≡ true) (sym (same_eq id n.node_id e)) m,
          )
          (pick-congr f g seen ns h m)
    | inr e ↦ rw (h n.node_id e) (
        ap (λ rest. if is_skipped g seen n then rest else n ∷ rest)
          (pick-congr f g (seen_next g seen n) ns h
            (seen_after (is_empty n.node_id || is_skipped g seen n) id n.node_id seen m)))
  ]

filter-filter-update :
    {A : Type 0} (q u p : A → Bool) (f : A → A)
    → ((x : A) → p x ≡ true → (q x ≡ false) × (q (f x) ≡ false))
    → (xs : List A) → filter q (filter u (update p f xs)) ≡ filter q (filter u xs)
filter-filter-update q u p f hidden [] = refl
filter-filter-update q u p f hidden (x ∷ xs) = elim (Bool-cases (p x)) [
  | inl e ↦ elim (Bool-cases (u (f x))) [
    | inl a ↦ elim (Bool-cases (u x)) [
      | inl b ↦
          rw (e, a, b, (hidden x e).0, (hidden x e).1) (filter-filter-update q u p f hidden xs)
      | inr b ↦ rw (e, a, b, (hidden x e).1) (filter-filter-update q u p f hidden xs)
    ]
    | inr a ↦ elim (Bool-cases (u x)) [
      | inl b ↦ rw (e, a, b, (hidden x e).0) (filter-filter-update q u p f hidden xs)
      | inr b ↦ rw (e, a, b) (filter-filter-update q u p f hidden xs)
    ]
  ]
  | inr e ↦ elim (Bool-cases (u x)) [
    | inl b ↦ rw (e, b, filter-filter-update q u p f hidden xs) refl
    | inr b ↦ rw (e, b, filter-filter-update q u p f hidden xs) refl
  ]
]

module _ (t id : String) where
  own_is_off : (n : Node) → is_node t id n ≡ true → off id n ≡ false
  own_is_off n h = ground arith

  -- The rows of the other nodes that are usable.
  abbrev pub others : List Node → List Node
  others ns = filter (off id) (filter (is_usable t) ns)

  others-set_breaker :
      (k : ℕ) (d : Bool) (ns : List Node)
      → others (update (is_node t id) (set_breaker k d) ns) ≡ others ns
  others-set_breaker k d ns =
      filter-filter-update (off id) (is_usable t) (is_node t id) (set_breaker k d)
        (λ x h. (own_is_off x h, own_is_off x h)) ns

  others-update_of :
      (threshold : ℕ) (c : Bool) (o : Option Node) (ns : List Node)
      → others (update_of threshold c t id o ns).0 ≡ others ns
  others-update_of threshold c none ns = refl
  others-update_of threshold true (some row) ns = others-set_breaker _ _ ns
  others-update_of threshold false (some row) ns = others-set_breaker _ _ ns

  module _ (d : Option String → Option String) where
    filter-dicts :
        (ns : List Node)
        → filter (off id) (map (row_to_dict d) ns) ≡ map (row_to_dict d) (filter (off id) ns)
    filter-dicts [] = refl
    filter-dicts (n ∷ ns) = elim (Bool-cases (same n.node_id id)) [
      | inl e ↦ rw (e, filter-dicts ns) refl
      | inr e ↦ rw (e, filter-dicts ns) refl
    ]

    usable-others :
        (s : NodeStore)
        → filter (off id) (get_usable_nodes d t s)
          ≡ sort_with priority_order
              (map (row_to_dict d) (sort_with created_order (others s.nodes)))
    unfolding get_usable_nodes
    usable-others s =
        rw
          (
            filter-sort_with priority_order priority_order_total priority_order_trans (off id)
                (map (row_to_dict d) (sort_with created_order (filter (is_usable t) s.nodes))),
            filter-dicts (sort_with created_order (filter (is_usable t) s.nodes)),
            filter-sort_with created_order created_order_total created_order_trans (off id)
                (filter (is_usable t) s.nodes),
          )
          refl

    pub usable-same_others :
        (s r : NodeStore)
        → others s.nodes ≡ others r.nodes
        → filter (off id) (get_usable_nodes d t s) ≡ filter (off id) (get_usable_nodes d t r)
    usable-same_others s r e =
        usable-others s
        ∙ (ap (λ ns. sort_with priority_order (map (row_to_dict d) (sort_with created_order ns))) e
            ∙ sym (usable-others r))

pub others-report_at :
    (threshold : ℕ) (t : String) (code : Option String) (n : Node) (s : NodeStore)
    → others t n.node_id (report_at threshold t code (some n) s).nodes ≡ others t n.node_id s.nodes
unfolding record_call_failure record_call_success breaker_update
others-report_at threshold t code n s = elim (Bool-cases (is_empty n.node_id)) [
  | inl e ↦ rw e refl
  | inr e ↦ rw e (by_code code)
]
  where
    by_code :
        (code : Option String)
        → others t n.node_id (elim code [
          | none ↦ record_call_success threshold t n.node_id s.nodes
          | some c ↦ record_call_failure threshold t n.node_id (or_text (some c) "other") s.nodes
        ])
          ≡ others t n.node_id s.nodes
    by_code none =
        others-update_of t n.node_id threshold false (first (is_node t n.node_id) s.nodes) s.nodes
    by_code (some c) = elim (Bool-cases (member (or_text (some c) "other") breaker_counted_codes)) [
      | inl k ↦ rw k (
          others-update_of t n.node_id threshold true (first (is_node t n.node_id) s.nodes) s.nodes)
      | inr k ↦ rw k refl
    ]
