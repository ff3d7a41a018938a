-- ===== src/Rules/First.antt =====
-- Which rule rejects a job in rules.py, whatever order the rules were created in.
use resu_align_lite.Prelude.{
  ℕ, ◌≤◌, String, ◌≡◌, refl, sym, ap, subst, ◌∙◌, ◌≢◌, inl, inr, Bool, true, false, ◌&&◌, ◌||◌,
  Option, none, some, List, [], ◌∷◌, map, arith, if◌then◌else◌, Bool-cases,
}
use resu_align_lite.Prelude.Table.{same, same_eq, All, filter, any, All-map}
use resu_align_lite.Prelude.Sort.{sort_by, IsSorted, sort_by-IsSorted}
use resu_align_lite.Rules.{
  Rule, JobMeta, Verdict, accepted, rejected, precedence, check_blacklist, check_city, check_salary,
  first_hit, city_verdict, salary_verdict, matches_city, is_below, is_none, is_falsy, is_empty,
  normalize_city, split_rule_value, haystack, check_rule, or_next, first_rejection, check_rules,
}
use resu_align_lite.Prelude.Search.{codes, contains}
use resu_align_lite.Prelude.Texts.{strip, or_text}
use resu_align_lite.Prelude.Booleans.{and_false}
use resu_align_lite.Prelude.Order.{any-filter}
use resu_align_lite.Prelude.Sort.{any-sort_by}
use resu_align_lite.Rules.Store.{is_listed, list_rules, check}

-- The type of the rule that rejects.
abbrev pub type_of : {F : Type 0} → Verdict F → Option String
type_of accepted = none
type_of (rejected t r) = some t

abbrev pub is_rejected : {F : Type 0} → Verdict F → Bool
is_rejected accepted = false
is_rejected (rejected t r) = true

module _ {F : Type 0} (float : String → Option F) (below : F → F → Bool) (lower : List ℕ → List ℕ)
    (preflight : Bool) (m : JobMeta F) where
  -- Whether a rule of a type rejects the job.
  abbrev pub rejects : String → Rule → Bool
  rejects kind r = same r.rule_type kind && is_rejected (check_rule float below lower preflight m r)

  -- The first of the types that rejects, in the order of the documentation.
  abbrev pub first_type : (String → Bool) → Option String
  first_type p =
      if p "blacklist"
      then some "blacklist"
      else if p "city_whitelist"
      then some "city_whitelist"
      else if p "min_salary"
      then some "min_salary"
      else none

  Typed : String → Verdict F → Type 0
  Typed t v = type_of v ≡ (if is_rejected v then some t else none)

  first_hit-Typed :
      (text : List ℕ) (ks : List (List ℕ)) → Typed "blacklist" (first_hit float below lower text ks)
  unfolding Typed first_hit
  first_hit-Typed text [] = refl
  first_hit-Typed text (k ∷ ks) = elim (Bool-cases (is_empty (lower k))) [
    | inl e ↦ rw e (first_hit-Typed text ks)
    | inr e ↦ elim (Bool-cases (contains (lower k) text)) [
      | inl h ↦ rw (e, h) refl
      | inr h ↦ rw (e, h) (first_hit-Typed text ks)
    ]
  ]

  city_verdict-Typed :
      (location : String) (cs : List (List ℕ))
      → Typed "city_whitelist" (city_verdict float below lower location cs)
  unfolding Typed
  city_verdict-Typed location [] = refl
  city_verdict-Typed location (c ∷ cs) = elim (Bool-cases (same location "")) [
    | inl e ↦ rw e refl
    | inr e ↦
        elim (Bool-cases
          (any (matches_city float below lower (normalize_city (codes location))) (c ∷ cs))) [
            | inl h ↦ rw (e, h) refl
            | inr h ↦ rw (e, h) refl
          ]
  ]

  salary_verdict-Typed :
      (o low high : Option F) → Typed "min_salary" (salary_verdict float below lower o low high)
  unfolding Typed
  salary_verdict-Typed none low high = refl
  salary_verdict-Typed (some threshold) low high = elim (Bool-cases (is_none low && is_none high)) [
    | inl e ↦ rw e refl
    | inr e ↦
        elim (Bool-cases
          (is_below float below lower threshold high || is_below float below lower threshold low)) [
            | inl h ↦ rw (e, h) refl
            | inr h ↦ rw (e, h) refl
          ]
  ]

  abbrev verdict : Rule → Verdict F
  verdict r = check_rule float below lower preflight m r

  accepts-Typed :
      (t : String) (b : Bool) (v : Verdict F) → Typed t v → Typed t (if b then accepted else v)
  unfolding Typed
  accepts-Typed t true v h = refl
  accepts-Typed t false v h = h

  abbrev by_type : String → Verdict F → Verdict F → Verdict F → Verdict F
  by_type t u v w =
      if same t "blacklist"
      then u
      else if same t "city_whitelist"
      then v
      else if same t "min_salary"
      then w
      else accepted

  by_type-Typed :
      (t : String) (u v w : Verdict F)
      → Typed "blacklist" u
      → Typed "city_whitelist" v
      → Typed "min_salary" w
      → Typed t (by_type t u v w)
  unfolding Typed
  by_type-Typed t u v w hu hv hw = elim (Bool-cases (same t "blacklist")) [
    | inl a ↦ rw a (subst (λ k. Typed k u) (same_eq t "blacklist" a) hu)
    | inr a ↦ elim (Bool-cases (same t "city_whitelist")) [
      | inl b ↦ rw (a, b) (subst (λ k. Typed k v) (same_eq t "city_whitelist" b) hv)
      | inr b ↦ elim (Bool-cases (same t "min_salary")) [
        | inl c ↦ rw (a, b, c) (subst (λ k. Typed k w) (same_eq t "min_salary" c) hw)
        | inr c ↦ rw (a, b, c) refl
      ]
    ]
  ]

  -- A rule that rejects does so as a rule of its type.
  verdict-Typed : (r : Rule) → Typed r.rule_type (verdict r)
  unfolding check_rule check_blacklist check_city check_salary
  verdict-Typed r =
      by_type-Typed r.rule_type _ _ _
        (first_hit-Typed (haystack float below lower m) (split_rule_value r.value))
        (accepts-Typed "city_whitelist" (preflight && is_falsy float below lower m.location) _ (
          city_verdict-Typed (strip (or_text m.location ""))
            (map normalize_city (split_rule_value r.value))))
        (accepts-Typed "min_salary" (preflight && (is_none m.salary_min && is_none m.salary_max)) _
          (salary_verdict-Typed (float r.value) m.salary_min m.salary_max))

  -- A rule of no type that rejects accepts.
  unknown_accepts :
      (r : Rule)
      → same r.rule_type "blacklist" ≡ false
      → same r.rule_type "city_whitelist" ≡ false
      → same r.rule_type "min_salary" ≡ false
      → verdict r ≡ accepted
  unfolding check_rule
  unknown_accepts r a b c = rw (a, b, c) refl

  above_blacklist :
      (rs : List Rule) → All (λ y. 1 ≤ precedence y) rs → any (rejects "blacklist") rs ≡ false
  unfolding precedence
  above_blacklist [] h = refl
  above_blacklist (y ∷ rs) h = elim (Bool-cases (same y.rule_type "blacklist")) [
    | inl a ↦ absurd (not_above (rw a at h.0))
    | inr a ↦ rw (a, above_blacklist rs h.1) refl
  ]
    where
      not_above : 1 ≤ 0 → ⊥
      not_above k = omega arith

  above_city :
      (rs : List Rule) → All (λ y. 2 ≤ precedence y) rs → any (rejects "city_whitelist") rs ≡ false
  unfolding precedence
  above_city [] h = refl
  above_city (y ∷ rs) h = elim (Bool-cases (same y.rule_type "city_whitelist")) [
    | inl a ↦ absurd (not_above (precedence y) (low (same y.rule_type "blacklist") a) (h.0))
    | inr a ↦ rw (a, above_city rs h.1) refl
  ]
    where
      not_above : (n : ℕ) → n ≤ 1 → 2 ≤ n → ⊥
      not_above n k l = omega arith

      low : (b : Bool) → same y.rule_type "city_whitelist" ≡ true → precedence y ≤ 1
      low b a = elim (Bool-cases (same y.rule_type "blacklist")) [
        | inl k ↦ rw k (omega arith)
        | inr k ↦ rw (k, a) (omega arith)
      ]

  first_type-congr :
      (p q : String → Bool)
      → p "blacklist" ≡ q "blacklist"
      → p "city_whitelist" ≡ q "city_whitelist"
      → p "min_salary" ≡ q "min_salary"
      → first_type p ≡ first_type q
  first_type-congr p q a b c = rw (a, b, c) refl

  -- A rule that accepts rejects as no type.
  passed :
      (r : Rule) (rs : List Rule)
      → is_rejected (verdict r) ≡ false
      → first_type (λ k. any (rejects k) rs) ≡ first_type (λ k. any (rejects k) (r ∷ rs))
  passed r rs e =
      first_type-congr (λ k. any (rejects k) rs) (λ k. any (rejects k) (r ∷ rs)) (skips "blacklist")
        (skips "city_whitelist") (skips "min_salary")
    where
      skips : (k : String) → any (rejects k) rs ≡ any (rejects k) (r ∷ rs)
      skips k = rw (e, and_false (same r.rule_type k)) refl

  -- A rule that rejects, before rules that come no earlier in the order.
  stopped :
      (r : Rule) (rs : List Rule)
      → is_rejected (verdict r) ≡ true
      → All (λ y. precedence r ≤ precedence y) rs
      → some r.rule_type ≡ first_type (λ k. any (rejects k) (r ∷ rs))
  unfolding precedence
  stopped r rs e h = elim (Bool-cases (same r.rule_type "blacklist")) [
    | inl a ↦ rw (a, e) (ap some (sym (same_eq r.rule_type "blacklist" a)))
    | inr a ↦ elim (Bool-cases (same r.rule_type "city_whitelist")) [
      | inl b ↦
          rw (a, above_blacklist rs (rw (a, b) at h), b, e)
            (ap some (sym (same_eq r.rule_type "city_whitelist" b)))
      | inr b ↦ elim (Bool-cases (same r.rule_type "min_salary")) [
        | inl c ↦
            let two : All (λ y. 2 ≤ precedence y) rs = (rw (a, b, c) at h) in
            rw
              (
                a,
                above_blacklist rs (
                    All-map (λ y. 2 ≤ precedence y) (λ y. 1 ≤ precedence y) (λ y k. omega arith) rs
                      two),
                b,
                above_city rs two,
                c,
                e,
              )
              (ap some (sym (same_eq r.rule_type "min_salary" c)))
        | inr c ↦ absurd (clash (sym e ∙ ap is_rejected (unknown_accepts r a b c)))
      ]
    ]
  ]
    where
      clash : true ≢ false
      clash p = cc

  by_verdict :
      (r : Rule) (rs : List Rule) (v : Verdict F)
      → verdict r ≡ v
      → Typed r.rule_type v
      → IsSorted precedence (r ∷ rs)
      → type_of (first_rejection float below lower preflight m rs)
        ≡ first_type (λ k. any (rejects k) rs)
      → type_of (or_next float below lower v (first_rejection float below lower preflight m rs))
        ≡ first_type (λ k. any (rejects k) (r ∷ rs))
  unfolding Typed
  by_verdict r rs accepted e t s ih = ih ∙ passed r rs (ap is_rejected e)
  by_verdict r rs (rejected k why) e t s ih = t ∙ stopped r rs (ap is_rejected e) s.0

  first_rejection-type :
      (rs : List Rule)
      → IsSorted precedence rs
      → type_of (first_rejection float below lower preflight m rs)
        ≡ first_type (λ k. any (rejects k) rs)
  unfolding first_rejection
  first_rejection-type [] s = refl
  first_rejection-type (r ∷ rs) s =
      by_verdict r rs (verdict r) refl (verdict-Typed r) s (first_rejection-type rs s.1)

  -- A job is rejected exactly when some enabled rule of the tenant rejects it on its own, and then as
  -- a blacklist rule if one of those rejects it, else as a city rule, else as a salary rule, whatever
  -- the order in which the rules were created.
  pub check-type :
      (tenant : String) (rs : List Rule)
      → type_of (check float below lower tenant m preflight rs)
        ≡ first_type (λ k. any (λ r. is_listed tenant true r && rejects k r) rs)
  unfolding check check_rules list_rules
  check-type tenant rs =
      let listed = list_rules tenant true rs in
      first_rejection-type (sort_by precedence listed) (sort_by-IsSorted precedence listed)
      ∙ first_type-congr (λ k. any (rejects k) (sort_by precedence listed))
          (λ k. any (λ r. is_listed tenant true r && rejects k r) rs) (moved "blacklist")
          (moved "city_whitelist") (moved "min_salary")
    where
      moved :
          (k : String)
          → any (rejects k) (sort_by precedence (list_rules tenant true rs))
            ≡ any (λ r. is_listed tenant true r && rejects k r) rs
      moved k =
          any-sort_by precedence (rejects k) (list_rules tenant true rs)
          ∙ (any-sort_by (λ r. r.created_at) (rejects k) (filter (is_listed tenant true) rs)
              ∙ any-filter (rejects k) (is_listed tenant true) rs)
