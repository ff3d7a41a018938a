-- ===== src/Rules/Sound.antt =====
-- Every stored automation rule is one that rules.py can apply.
use resu_align_lite.Prelude.{
  ℕ, String, ◌≡◌, refl, sym, ap, subst, inl, inr, Bool, true, false, not, ◌&&◌, ◌||◌, Option, none,
  some, List, [], ◌∷◌, arith, Bool-cases, Option-cases,
}
use resu_align_lite.Prelude.Table.{
  same, same_eq, All, update, All-filter, All-append, find, Distinct, Distinct-filter,
  Distinct-append, Distinct-update,
}
use resu_align_lite.Prelude.Table.{first}
use resu_align_lite.Prelude.Texts.{strip, is_empty, strip_idem}
use resu_align_lite.Prelude.Booleans.{and_left}
use resu_align_lite.Delivery.Vocabulary.{member}
use resu_align_lite.Rules.{Rule}
use resu_align_lite.Rules.Store.{
  rule_types, is_rule, get_rule, delete_rule, positive, validate_min_salary_value, create_rule,
  set_rule, update_row, update_rule,
}

pub data Call : Type 0 where
  creates : (id : String) (now : ℕ) (tenant kind value : String) → Option String → Bool → Call
  updates : (tenant id : String) (now : ℕ) → Option String → Option String → Option Bool → Call
  deletes : (tenant id : String) → Call

module _ {F : Type 0} (float : String → Option F) (at_most : F → F → Bool) (zero_pay : F) where
  unfoldable pub apply : Call → List Rule → List Rule
  unfolding create_rule update_rule delete_rule
  apply (creates id now tenant kind value label enabled) rs =
      (create_rule float at_most zero_pay id now tenant kind value label enabled rs).0
  apply (updates tenant id now value label enabled) rs =
      (update_rule float at_most zero_pay tenant id now value label enabled rs).0
  apply (deletes tenant id) rs = (delete_rule tenant id rs).0

  unfoldable pub run : List Call → List Rule → List Rule
  unfolding apply
  run [] rs = rs
  run (c ∷ cs) rs = run cs (apply c rs)

  -- A type of the program, a value, and for a minimal salary a number that is not `<= 0`.
  abbrev pub is_sound : Rule → Bool
  is_sound r =
      member r.rule_type rule_types
      && (not (is_empty r.value)
          && (not (same r.rule_type "min_salary")
              || positive float at_most zero_pay (float r.value)))

  abbrev pub Sound : List Rule → Type 0
  Sound rs = All (λ r. is_sound r ≡ true) rs

  sound_fields :
      (kind value : String) (a b c : Bool)
      → a ≡ true
      → b ≡ false
      → c ≡ false
      → (a && (not b && (not c || false))) ≡ true
  sound_fields kind value a b c h k l = ground arith

  valid_value :
      (salary : Bool) (value : String)
      → (salary && not (validate_min_salary_value float at_most zero_pay (strip value))) ≡ false
      → (not salary || positive float at_most zero_pay (float (strip value))) ≡ true
  unfolding validate_min_salary_value
  valid_value salary value h =
      let h2 : (salary && not (positive float at_most zero_pay (float (strip value)))) ≡ false =
        (rw (strip_idem value) at h) in
      ground arith

  create-Sound :
      (id : String) (now : ℕ) (tenant kind value : String) (label : Option String) (enabled : Bool)
      (rs : List Rule)
      → Sound rs
      → Sound (create_rule float at_most zero_pay id now tenant kind value label enabled rs).0
  unfolding create_rule
  create-Sound id now tenant kind value label enabled rs h =
      elim (Bool-cases (member (strip kind) rule_types)) [
        | inr a ↦ rw a h
        | inl a ↦ elim (Bool-cases (is_empty (strip value))) [
          | inl b ↦ rw (a, b) h
          | inr b ↦
              elim (Bool-cases (
                same (strip kind) "min_salary"
                && not (validate_min_salary_value float at_most zero_pay (strip value)))) [
                  | inl c ↦ rw (a, b, c) h
                  | inr c ↦
                      rw (a, b, c)
                        (All-append (λ r. is_sound r ≡ true) rs _ h
                          (rw (a, b) (valid_value (same (strip kind) "min_salary") value c)))
                ]
        ]
      ]

  abbrev rule_key : Rule → String
  rule_key r = r.rule_id

  or_rule : Option Rule → Rule → Rule
  or_rule none r = r
  or_rule (some q) r = q

  find-none-update :
      (t id : String) (f : Rule → Rule) (rs : List Rule)
      → find rule_key id rs ≡ none
      → update (is_rule t id) f rs ≡ rs
  find-none-update t id f [] h = refl
  find-none-update t id f (r ∷ rs) h = elim (Bool-cases (same r.rule_id id)) [
    | inl e ↦ ground arith
    | inr e ↦ rw (e, find-none-update t id f rs (ground arith)) refl
  ]

  -- A new value that passed the checks of the rule's type.
  sound_value :
      (now : ℕ) (value : String) (label : Option String) (enabled : Option Bool) (r : Rule)
      → is_empty (strip value) ≡ false
      → (same r.rule_type "min_salary"
          && not (validate_min_salary_value float at_most zero_pay (strip value)))
        ≡ false
      → is_sound r ≡ true
      → is_sound (set_rule float at_most zero_pay now (some (strip value)) label enabled r) ≡ true
  sound_value now value label enabled r e c h =
      rw
        (
          and_left (member r.rule_type rule_types) _ h,
          e,
          valid_value (same r.rule_type "min_salary") value c,
        )
        refl

  -- Keys being unique, the row of a key is the first one with it.
  Sound-update_own :
      (t id : String) (f : Rule → Rule) (rs : List Rule) {row : Rule}
      → Distinct rule_key rs
      → first (is_rule t id) rs ≡ some row
      → Sound rs
      → (is_sound row ≡ true → is_sound (f row) ≡ true)
      → Sound (update (is_rule t id) f rs)
  unfolding or_rule
  Sound-update_own t id f [] d e h k = tt
  Sound-update_own t id f (r ∷ rs) {row} d e h k = elim (Bool-cases (is_rule t id r)) [
    | inl a ↦
        let m : some r ≡ some row = (rw a at e) in
        let p : r ≡ row = ap (λ o. or_rule o r) m in
        let others : update (is_rule t id) f rs ≡ rs =
          find-none-update t id f rs
            (rw (same_eq r.rule_id id (and_left (same r.rule_id id) (same r.tenant_id t) a)) d.0) in
        rw (a, others)
          (
            subst (λ x. is_sound (f x) ≡ true) (sym p) (k (subst (λ x. is_sound x ≡ true) p h.0)),
            h.1,
          )
    | inr a ↦ rw a (h.0, Sound-update_own t id f rs d.1 (rw a at e) h.1 k)
  ]

  update-Sound :
      (t id : String) (now : ℕ) (value label : Option String) (enabled : Option Bool)
      (rs : List Rule)
      → Distinct rule_key rs
      → Sound rs
      → Sound (update_rule float at_most zero_pay t id now value label enabled rs).0
  unfolding update_rule get_rule
  update-Sound t id now value label enabled rs d h = elim (Option-cases (first (is_rule t id) rs)) [
    | inl e ↦ rw e h
    | inr (row, e) ↦ rw e (by_value value row e)
  ]
    where
      by_value :
          (value : Option String) (row : Rule)
          → first (is_rule t id) rs ≡ some row
          → Sound (update_row float at_most zero_pay t id now value label enabled rs (some row)).0
      by_value none row e =
          Sound-update_own t id (set_rule float at_most zero_pay now none label enabled) rs d e h
            (λ s. s)
      by_value (some value) row e = elim (Bool-cases (is_empty (strip value))) [
        | inl a ↦ rw a h
        | inr a ↦
            elim (Bool-cases (
              same row.rule_type "min_salary"
              && not (validate_min_salary_value float at_most zero_pay (strip value)))) [
                | inl c ↦ rw (a, c) h
                | inr c ↦
                    rw (a, c)
                      (Sound-update_own t id
                        (set_rule float at_most zero_pay now (some (strip value)) label enabled) rs
                        d e h (sound_value now value label enabled row a c))
              ]
      ]

  -- Keys unique and every rule sound.
  abbrev pub IsSound : List Rule → Type 0
  IsSound rs = Distinct rule_key rs × Sound rs

  -- A created rule has a fresh id.
  abbrev pub IsFresh : Call → List Rule → Type 0
  IsFresh (creates id now tenant kind value label enabled) rs = find rule_key id rs ≡ none
  IsFresh _ rs = Unit

  abbrev pub AllFresh : List Call → List Rule → Type 0
  AllFresh [] rs = Unit
  AllFresh (c ∷ cs) rs = IsFresh c rs × AllFresh cs (apply c rs)

  create-Distinct :
      (id : String) (now : ℕ) (tenant kind value : String) (label : Option String) (enabled : Bool)
      (rs : List Rule)
      → find rule_key id rs ≡ none
      → Distinct rule_key rs
      → Distinct rule_key
          (create_rule float at_most zero_pay id now tenant kind value label enabled rs).0
  unfolding create_rule
  create-Distinct id now tenant kind value label enabled rs f d =
      elim (Bool-cases (member (strip kind) rule_types)) [
        | inr a ↦ rw a d
        | inl a ↦ elim (Bool-cases (is_empty (strip value))) [
          | inl b ↦ rw (a, b) d
          | inr b ↦
              elim (Bool-cases (
                same (strip kind) "min_salary"
                && not (validate_min_salary_value float at_most zero_pay (strip value)))) [
                  | inl c ↦ rw (a, b, c) d
                  | inr c ↦ rw (a, b, c) (Distinct-append rule_key rs _ d f)
                ]
        ]
      ]

  update-Distinct :
      (t id : String) (now : ℕ) (value label : Option String) (enabled : Option Bool)
      (rs : List Rule)
      → Distinct rule_key rs
      → Distinct rule_key (update_rule float at_most zero_pay t id now value label enabled rs).0
  unfolding update_rule
  update-Distinct t id now value label enabled rs d = by_row value (get_rule t id rs)
    where
      written :
          (v : Option String)
          → Distinct rule_key
              (update (is_rule t id) (set_rule float at_most zero_pay now v label enabled) rs)
      written v =
          Distinct-update rule_key (is_rule t id)
            (set_rule float at_most zero_pay now v label enabled) (λ r. refl) rs d

      by_row :
          (value : Option String) (o : Option Rule)
          → Distinct rule_key
              (update_row float at_most zero_pay t id now value label enabled rs o).0
      by_row value none = d
      by_row none (some row) = written none
      by_row (some value) (some row) = elim (Bool-cases (is_empty (strip value))) [
        | inl a ↦ rw a d
        | inr a ↦
            elim (Bool-cases (
              same row.rule_type "min_salary"
              && not (validate_min_salary_value float at_most zero_pay (strip value)))) [
                | inl c ↦ rw (a, c) d
                | inr c ↦ rw (a, c) (written (some (strip value)))
              ]
      ]

  apply-IsSound : (c : Call) (rs : List Rule) → IsFresh c rs → IsSound rs → IsSound (apply c rs)
  unfolding apply delete_rule
  apply-IsSound (creates id now tenant kind value label enabled) rs f v = (
    create-Distinct id now tenant kind value label enabled rs f v.0,
    create-Sound id now tenant kind value label enabled rs v.1,
  )
  apply-IsSound (updates tenant id now value label enabled) rs f v = (
    update-Distinct tenant id now value label enabled rs v.0,
    update-Sound tenant id now value label enabled rs v.0 v.1,
  )
  apply-IsSound (deletes tenant id) rs f v = (
    Distinct-filter rule_key (λ r. not (is_rule tenant id r)) rs v.0,
    All-filter (λ r. is_sound r ≡ true) (λ r. is_sound r ≡ true) (λ r. not (is_rule tenant id r))
        (λ r e s. s) rs v.1,
  )

  -- Whatever rules are created with fresh ids, updated and deleted, ids stay unique, each stored rule
  -- has a type of the program and a value, and `float` reads the value of a minimal salary as a number
  -- of which `<= 0` is false, if all this held before. Such a number is positive, or NaN, of which every
  -- comparison is false.
  pub run-IsSound :
      (cs : List Call) (rs : List Rule) → AllFresh cs rs → IsSound rs → IsSound (run cs rs)
  unfolding run
  run-IsSound [] rs f v = v
  run-IsSound (c ∷ cs) rs f v = run-IsSound cs (apply c rs) f.1 (apply-IsSound c rs f.0 v)
