-- ===== src/Router/Once.antt =====
-- Each node is tried at most once by a call with a role of engine/role_router.py.
use resu_align_lite.Prelude.{
  ℕ, suc, String, ◌≡◌, refl, sym, ap, subst, ◌∙◌, ◌≢◌, inl, inr, Bool, true, false, not, ◌&&◌, ◌||◌,
  Option, none, some, List, [], ◌∷◌, if◌then◌else◌, Bool-cases,
}
use resu_align_lite.Prelude.Table.{same, same_eq, any, count}
use resu_align_lite.Prelude.Texts.{is_empty}
use resu_align_lite.Prelude.Booleans.{and_false, or_false}
use resu_align_lite.Delivery.Vocabulary.{member}
use resu_align_lite.Nodes.{Node, NodeStore, is_usable, get_usable_nodes}
use resu_align_lite.Nodes.Serving.{any-usable}
use resu_align_lite.Prelude.Order.{any-filter}
use resu_align_lite.Router.{Config}
use resu_align_lite.Router.Cooldown.{
  Cooled, candidates_from, Candidate, at_node, at_config, at_nodes, seen_at_first,
  usable_active_nodes, fallback_candidates,
}
use resu_align_lite.Router.Warmth.{is_skipped, seen_next, pick, is_cold, candidates_from-pick}

abbrev pub has_id : String → Node → Bool
has_id k n = same n.node_id k

abbrev pub once_if : Bool → ℕ
once_if b = if b then 1 else 0

module _ (k : String) (full : is_empty k ≡ false) (cold : String → Bool) where
  member-seen_next :
      (b : Bool) (x : String) (seen : List String)
      → same x k ≡ false
      → member k (if b then seen else x ∷ seen) ≡ member k seen
  member-seen_next true x seen h = refl
  member-seen_next false x seen h = rw h refl

  other :
      (b : Bool) (n : Node) (seen : List String) (ns : List Node)
      → same n.node_id k ≡ false
      → count (has_id k) (if b then pick cold seen ns else n ∷ pick cold seen ns)
        ≡ count (has_id k) (pick cold seen ns)
  other true n seen ns h = refl
  other false n seen ns h = rw h refl

  known_none :
      (seen : List String) (ns : List Node)
      → member k seen ≡ true
      → count (has_id k) (pick cold seen ns)
        ≡ once_if (any (has_id k) ns && (not (member k seen) && not (cold k)))
      → count (has_id k) (pick cold seen ns) ≡ 0
  known_none seen ns m ih = ih ∙ rw (m, and_false (any (has_id k) ns)) refl

  cold_none :
      (seen : List String) (ns : List Node)
      → cold k ≡ true
      → count (has_id k) (pick cold seen ns)
        ≡ once_if (any (has_id k) ns && (not (member k seen) && not (cold k)))
      → count (has_id k) (pick cold seen ns) ≡ 0
  cold_none seen ns c ih =
      ih ∙ rw (c, and_false (not (member k seen)), and_false (any (has_id k) ns)) refl

  count-pick :
      (seen : List String) (ns : List Node)
      → count (has_id k) (pick cold seen ns)
        ≡ once_if (any (has_id k) ns && (not (member k seen) && not (cold k)))
  unfolding pick
  count-pick seen [] = refl
  count-pick seen (n ∷ ns) = elim (Bool-cases (same n.node_id k)) [
    | inl e ↦
        let own : k ≡ n.node_id = same_eq n.node_id k e in
        let named : is_empty n.node_id ≡ false = subst (λ x. is_empty x ≡ false) own full in
        elim (Bool-cases (member k seen)) [
          | inl m ↦
              rw (named, subst (λ x. member x seen ≡ true) own m, e, m)
                (known_none seen ns m (count-pick seen ns))
          | inr m ↦ elim (Bool-cases (cold k)) [
            | inl c ↦
                rw
                  (
                    named,
                    subst (λ x. member x seen ≡ false) own m,
                    subst (λ x. cold x ≡ true) own c,
                    e,
                    m,
                    c,
                  )
                  (cold_none seen ns c (count-pick seen ns))
            | inr c ↦
                rw
                  (
                    named,
                    subst (λ x. member x seen ≡ false) own m,
                    subst (λ x. cold x ≡ false) own c,
                    e,
                    m,
                    c,
                  )
                  (ap suc (
                    known_none (n.node_id ∷ seen) ns (rw e refl)
                      (count-pick (n.node_id ∷ seen) ns)))
          ]
        ]
    | inr e ↦
        other (is_skipped cold seen n) n (seen_next cold seen n) ns e
        ∙ (count-pick (seen_next cold seen n) ns
            ∙ rw
                (
                  e,
                  member-seen_next (is_empty n.node_id || is_skipped cold seen n) n.node_id seen e,
                )
                refl)
  ]

abbrev pub is_first : String → Option Node → Bool
is_first k none = false
is_first k (some n) = same n.node_id k

abbrev pub tries_node : String → Candidate → Bool
tries_node k (at_node n) = same n.node_id k
tries_node k (at_config c) = false

count-at_nodes :
    (k : String) (ns : List Node) → count (tries_node k) (at_nodes ns) ≡ count (has_id k) ns
count-at_nodes k [] = refl
count-at_nodes k (n ∷ ns) = rw (count-at_nodes k ns) refl

member-seen_at_first :
    (k : String) (o : Option Node) → is_empty k ≡ false → member k (seen_at_first o) ≡ is_first k o
member-seen_at_first k none h = refl
member-seen_at_first k (some n) h = elim (Bool-cases (is_empty n.node_id)) [
  | inl e ↦ elim (Bool-cases (same n.node_id k)) [
    | inl m ↦ absurd (clash (sym (ap is_empty (same_eq n.node_id k m) ∙ e) ∙ h))
    | inr m ↦ rw (e, m) refl
  ]
  | inr e ↦ rw e (or_false (same n.node_id k))
]
  where
    clash : true ≢ false
    clash p = cc

once_without_default :
    (k : String) (d : Option String → Option String) (t : String) (now : ℕ) (primary : Option Node)
    (s : NodeStore) (cs : List Cooled)
    → is_empty k ≡ false
    → count (tries_node k) (fallback_candidates d t now primary none s cs).1
      ≡ once_if (
          any (λ n. is_usable t n && has_id k n) s.nodes
          && (not (is_first k primary) && not (is_cold t now cs k)))
unfolding fallback_candidates usable_active_nodes
once_without_default k d t now primary s cs full =
    count-at_nodes k (candidates_from t now (seen_at_first primary) cs (get_usable_nodes d t s)).1
    ∙ (ap (count (has_id k))
          (candidates_from-pick t now (seen_at_first primary) cs (get_usable_nodes d t s))
        ∙ (count-pick k full (is_cold t now cs) (seen_at_first primary) (get_usable_nodes d t s)
            ∙ rw
                (
                  any-usable d t "" (has_id k) (λ n. refl) s,
                  any-filter (has_id k) (is_usable t) s.nodes,
                  member-seen_at_first k primary full,
                )
                refl))

abbrev pub is_given : Option Config → Bool
is_given none = false
is_given (some c) = true

-- After the first attempt, no node is a candidate where a default configuration is given. Without
-- one, each node with an id is a candidate once if it is usable, is not the node of the first attempt
-- and is not cooled down, and is no candidate otherwise.
pub fallback_candidates-once :
    (k : String) (d : Option String → Option String) (t : String) (now : ℕ) (primary : Option Node)
    (default : Option Config) (s : NodeStore) (cs : List Cooled)
    → is_empty k ≡ false
    → count (tries_node k) (fallback_candidates d t now primary default s cs).1
      ≡ once_if (
          not (is_given default)
          && (any (λ n. is_usable t n && has_id k n) s.nodes
              && (not (is_first k primary) && not (is_cold t now cs k))))
unfolding fallback_candidates
fallback_candidates-once k d t now primary none s cs full =
    once_without_default k d t now primary s cs full
fallback_candidates-once k d t now primary (some c) s cs full = refl
