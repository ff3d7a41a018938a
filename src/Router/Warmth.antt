-- ===== src/Router/Warmth.antt =====
-- The candidates of engine/role_router.py without the clean-up of the cooldown dict: which nodes are
-- picked depends only on which ids are cooled down.
use resu_align_lite.Prelude.{
  ℕ, String, ◌≡◌, refl, sym, ap, ◌∙◌, inl, inr, Bool, true, false, not, ◌&&◌, ◌||◌, Option, none,
  some, List, [], ◌∷◌, ◌++◌, arith, leb, if◌then◌else◌, Bool-cases, Option-cases, String_discrete,
}
use resu_align_lite.Prelude.Table.{same, same_eq}
use resu_align_lite.Prelude.Table.{first}
use resu_align_lite.Prelude.Texts.{is_empty}
use resu_align_lite.Prelude.Booleans.{and_false}
use resu_align_lite.Delivery.Vocabulary.{member}
use resu_align_lite.Nodes.{Node}
use resu_align_lite.Router.Cooldown.{
  Cooled, is_key, without, cooldown_of, is_node_cooled_down, cool_down_node, candidates_from,
}

-- The nodes that are picked, given which ids are cold.
abbrev pub is_skipped : (String → Bool) → List String → Node → Bool
is_skipped cold seen n = not (is_empty n.node_id) && (member n.node_id seen || cold n.node_id)

abbrev pub seen_next : (String → Bool) → List String → Node → List String
seen_next cold seen n =
    if is_empty n.node_id || is_skipped cold seen n then seen else n.node_id ∷ seen

unfoldable pub pick : (String → Bool) → List String → List Node → List Node
pick cold seen [] = []
pick cold seen (n ∷ ns) =
    let rest = pick cold (seen_next cold seen n) ns in
    if is_skipped cold seen n then rest else n ∷ rest

module _ (t : String) (now : ℕ) where
  -- Whether an id is cooled down.
  abbrev pub is_cold : List Cooled → String → Bool
  is_cold cs k = (is_node_cooled_down t k now cs).1

  key_apart :
      (j k : String) (c : Cooled) → same j k ≡ false → is_key t j c ≡ true → is_key t k c ≡ false
  unfolding String_discrete
  key_apart j k c h e = ground arith

  first-without :
      (j k : String) (cs : List Cooled)
      → same j k ≡ false
      → first (is_key t k) (without t j cs) ≡ first (is_key t k) cs
  first-without j k [] h = refl
  first-without j k (c ∷ cs) h = elim (Bool-cases (is_key t j c)) [
    | inl e ↦ rw (e, key_apart j k c h e) (first-without j k cs h)
    | inr e ↦ elim (Bool-cases (is_key t k c)) [
      | inl m ↦ rw (e, m) refl
      | inr m ↦ rw (e, m) (first-without j k cs h)
    ]
  ]

  first-without-none : (j : String) (cs : List Cooled) → first (is_key t j) (without t j cs) ≡ none
  first-without-none j [] = refl
  first-without-none j (c ∷ cs) = elim (Bool-cases (is_key t j c)) [
    | inl e ↦ rw e (first-without-none j cs)
    | inr e ↦ rw (e, e) (first-without-none j cs)
  ]

  abbrev cold_row : Option Cooled → Bool
  cold_row none = false
  cold_row (some c) = not (leb c.expires_at now)

  is_cold-row : (k : String) (cs : List Cooled) → is_cold cs k ≡ cold_row (first (is_key t k) cs)
  unfolding is_node_cooled_down
  is_cold-row k cs = by_row (first (is_key t k) cs)
    where
      by_row : (o : Option Cooled) → (cooldown_of t k now o cs).1 ≡ cold_row o
      by_row none = refl
      by_row (some c) = elim (Bool-cases (leb c.expires_at now)) [
        | inl m ↦ rw m refl
        | inr m ↦ rw m refl
      ]

  is_cold-without :
      (j k : String) (cs : List Cooled)
      → (same j k ≡ true → is_cold cs j ≡ false)
      → is_cold (without t j cs) k ≡ is_cold cs k
  is_cold-without j k cs warm = elim (Bool-cases (same j k)) [
    | inl e ↦
        rw (same_eq j k e)
          (is_cold-row j (without t j cs) ∙ (ap cold_row (first-without-none j cs) ∙ sym (warm e)))
    | inr e ↦
        is_cold-row k (without t j cs)
        ∙ (ap cold_row (first-without j k cs e) ∙ sym (is_cold-row k cs))
  ]

  -- A clean-up changes no answer.
  is_cold-check :
      (j k : String) (cs : List Cooled)
      → is_cold (is_node_cooled_down t j now cs).0 k ≡ is_cold cs k
  unfolding is_node_cooled_down
  is_cold-check j k cs = elim (Option-cases (first (is_key t j) cs)) [
    | inl e ↦ rw e refl
    | inr (c, e) ↦ elim (Bool-cases (leb c.expires_at now)) [
      | inl m ↦ rw (e, m) (is_cold-without j k cs (λ h. is_cold-row j cs ∙ rw (e, m) refl))
      | inr m ↦ rw (e, m) refl
    ]
  ]

  first-append-apart :
      (q : Cooled → Bool) (cs : List Cooled) (c : Cooled)
      → q c ≡ false
      → first q (cs ++ c ∷ []) ≡ first q cs
  first-append-apart q [] c h = rw h refl
  first-append-apart q (x ∷ cs) c h = rw (first-append-apart q cs c h) refl

  pub is_cold-cool_down_node :
      (j k : String) (later : ℕ) (cs : List Cooled)
      → same j k ≡ false
      → is_cold (cool_down_node t j later cs) k ≡ is_cold cs k
  unfolding cool_down_node
  is_cold-cool_down_node j k later cs h =
      is_cold-row k (cool_down_node t j later cs)
      ∙ (ap cold_row (
            first-append-apart (is_key t k) (without t j cs) _ (rw h (and_false (same t t)))
            ∙ first-without j k cs h)
          ∙ sym (is_cold-row k cs))

  same_pick :
      (seen : List String) (ns : List Node) (k : String) (cs : List Cooled)
      → pick (is_cold (is_node_cooled_down t k now cs).0) seen ns ≡ pick (is_cold cs) seen ns
  same_pick seen ns k cs = ap (λ f. pick f seen ns) (λ i j. is_cold-check k j cs i)

  pub candidates_from-pick :
      (seen : List String) (cs : List Cooled) (ns : List Node)
      → (candidates_from t now seen cs ns).1 ≡ pick (is_cold cs) seen ns
  unfolding candidates_from pick
  candidates_from-pick seen cs [] = refl
  candidates_from-pick seen cs (n ∷ ns) = elim (Bool-cases (is_empty n.node_id)) [
    | inl e ↦ rw (e, candidates_from-pick seen cs ns) refl
    | inr e ↦ elim (Bool-cases (member n.node_id seen)) [
      | inl m ↦ rw (e, m, candidates_from-pick seen cs ns) refl
      | inr m ↦ elim (Bool-cases (is_cold cs n.node_id)) [
        | inl b ↦
            rw (e, m, b)
              (candidates_from-pick seen (is_node_cooled_down t n.node_id now cs).0 ns
                ∙ same_pick seen ns n.node_id cs)
        | inr b ↦
            rw (e, m, b)
              (ap (λ r. n ∷ r)
                (candidates_from-pick (n.node_id ∷ seen) (is_node_cooled_down t n.node_id now cs).0
                    ns
                  ∙ same_pick (n.node_id ∷ seen) ns n.node_id cs))
      ]
    ]
  ]
