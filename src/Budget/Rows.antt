-- ===== src/Budget/Rows.antt =====
-- What the writes of llm_usage.py do to the row of a tenant and day, and to those of others.
use resu_align_lite.Prelude.Booleans.{or_left}
use resu_align_lite.Prelude.{
  String, ◌≡◌, refl, sym, subst, ◌∙◌, inl, inr, Bool, true, false, ◌&&◌, ◌||◌, List, [], ◌∷◌, ◌++◌,
  if◌then◌else◌, Bool-cases,
}
use resu_align_lite.Prelude.Table.{update, any}
use resu_align_lite.Budget.Usage.{Usage, is_usage, new_usage, get_usage}

abbrev pub has : String → String → List Usage → Bool
has t d us = any (is_usage t d) us

true_is_not_false : ¬ (true ≡ false)
true_is_not_false h = cc

pub get_usage-none :
    (t d : String) (us : List Usage) → has t d us ≡ false → get_usage t d us ≡ new_usage t d 0
unfolding get_usage
get_usage-none t d [] h = refl
get_usage-none t d (u ∷ us) h = elim (Bool-cases (is_usage t d u)) [
  | inl e ↦
      absurd (true_is_not_false (sym (or_left (is_usage t d u) (any (is_usage t d) us) e) ∙ h))
  | inr e ↦ rw e (get_usage-none t d us (subst (λ b. (b || any (is_usage t d) us) ≡ false) e h))
]

-- The row of the key once its rows have been updated where `p` holds.
pub get_usage-update :
    (t d : String) (p : Usage → Bool) (f : Usage → Usage) (us : List Usage)
    → ((u : Usage) → is_usage t d (f u) ≡ is_usage t d u)
    → has t d us ≡ true
    → get_usage t d (update (λ u. is_usage t d u && p u) f us)
      ≡ (if p (get_usage t d us) then f (get_usage t d us) else get_usage t d us)
unfolding get_usage
get_usage-update t d p f [] keeps h = cc
get_usage-update t d p f (u ∷ us) keeps h = elim (Bool-cases (is_usage t d u)) [
  | inl e ↦ elim (Bool-cases (p u)) [
    | inl k ↦ rw (e, k, keeps u, e) refl
    | inr k ↦ rw (e, k, e) refl
  ]
  | inr e ↦
      rw (e, e)
        (get_usage-update t d p f us keeps (subst (λ b. (b || any (is_usage t d) us) ≡ true) e h))
]

pub get_usage-append :
    (t d : String) (new : Usage) (us : List Usage)
    → is_usage t d new ≡ true
    → has t d us ≡ false
    → get_usage t d (us ++ new ∷ []) ≡ new
unfolding get_usage
get_usage-append t d new [] m h = rw m refl
get_usage-append t d new (u ∷ us) m h = elim (Bool-cases (is_usage t d u)) [
  | inl e ↦
      absurd (true_is_not_false (sym (or_left (is_usage t d u) (any (is_usage t d) us) e) ∙ h))
  | inr e ↦
      rw e (get_usage-append t d new us m (subst (λ b. (b || any (is_usage t d) us) ≡ false) e h))
]

-- Writes to rows of another key.
pub get_usage-update_other :
    (t d : String) (p : Usage → Bool) (f : Usage → Usage) (us : List Usage)
    → ((u : Usage) → is_usage t d (f u) ≡ is_usage t d u)
    → ((u : Usage) → p u ≡ true → is_usage t d u ≡ false)
    → get_usage t d (update p f us) ≡ get_usage t d us
unfolding get_usage
get_usage-update_other t d p f [] keeps away = refl
get_usage-update_other t d p f (u ∷ us) keeps away = elim (Bool-cases (p u)) [
  | inl e ↦ rw (e, keeps u, away u e) (get_usage-update_other t d p f us keeps away)
  | inr e ↦ rw (e, get_usage-update_other t d p f us keeps away) refl
]

pub get_usage-append_other :
    (t d : String) (new : Usage) (us : List Usage)
    → is_usage t d new ≡ false
    → get_usage t d (us ++ new ∷ []) ≡ get_usage t d us
unfolding get_usage
get_usage-append_other t d new [] m = rw m refl
get_usage-append_other t d new (u ∷ us) m = rw (get_usage-append_other t d new us m) refl

pub get_usage-update_own :
    (t d : String) (f : Usage → Usage) (us : List Usage)
    → ((u : Usage) → is_usage t d (f u) ≡ is_usage t d u)
    → get_usage t d (update (is_usage t d) f us)
      ≡ (if has t d us then f (get_usage t d us) else get_usage t d us)
unfolding get_usage
get_usage-update_own t d f [] keeps = refl
get_usage-update_own t d f (u ∷ us) keeps = elim (Bool-cases (is_usage t d u)) [
  | inl e ↦ rw (e, keeps u, e) refl
  | inr e ↦ rw (e, e) (get_usage-update_own t d f us keeps)
]
