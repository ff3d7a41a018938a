-- ===== src/Budget/Effects.antt =====
-- What each write of llm_usage.py does to the calls committed for its key, and to those of others.
use resu_align_lite.Prelude.Booleans.{and_left}
use resu_align_lite.Prelude.{
  ℕ, ◌+◌, ◌-◌, ◌≤◌, String, ◌≡◌, refl, ap, inl, inr, Bool, true, false, ◌&&◌, Option, List, arith,
  ltb, ◌==◌, if◌then◌else◌, ltb→lt, Bool-cases, String_discrete,
}
use resu_align_lite.Prelude.Table.{same_refl, same}
use resu_align_lite.Prelude.Int.{ℤ, negsuc, pos, pos_part, leb_ℤ}
use resu_align_lite.Budget.Usage.{
  Usage, is_usage, new_usage, upsert, taken, reserve_call, release_call, record_call, get_usage,
  token_count,
}
use resu_align_lite.Budget.Rows.{
  has, get_usage-none, get_usage-update, get_usage-append, get_usage-update_other,
  get_usage-append_other, get_usage-update_own,
}
use resu_align_lite.Budget.Calls.{committed}

-- Rows of different keys.
is_usage-apart :
    (t d u e : String) (x : Usage)
    → (same u t && same e d) ≡ false
    → is_usage u e x ≡ true
    → is_usage t d x ≡ false
unfolding String_discrete
is_usage-apart t d u e x h k = ground arith

module _ (t d : String) (new : Usage) (p : Usage → Bool) (f : Usage → Usage)
    (keeps : (u : Usage) → is_usage t d (f u) ≡ is_usage t d u)
    (own : is_usage t d new ≡ true) where
  pub upsert-own :
      (us : List Usage)
      → get_usage t d (upsert t d new p f us) ≡ (
          if has t d us
          then (if p (get_usage t d us) then f (get_usage t d us) else get_usage t d us)
          else new)
  upsert-own us = elim (Bool-cases (has t d us)) [
    | inl e ↦ rw e (get_usage-update t d p f us keeps e)
    | inr e ↦ rw e (get_usage-append t d new us own e)
  ]

upsert_other :
    (t d u e : String) (new : Usage) (p : Usage → Bool) (f : Usage → Usage) (us : List Usage)
    → ((x : Usage) → is_usage t d (f x) ≡ is_usage t d x)
    → (same u t && same e d) ≡ false
    → is_usage u e new ≡ true
    → get_usage t d (upsert u e new p f us) ≡ get_usage t d us
upsert_other t d u e new p f us keeps h own = elim (Bool-cases (has u e us)) [
  | inl k ↦ rw k (
      get_usage-update_other t d (λ x. is_usage u e x && p x) f us keeps
        (λ x m. is_usage-apart t d u e x h (and_left (is_usage u e x) (p x) m)))
  | inr k ↦ rw k (get_usage-append_other t d new us (is_usage-apart t d u e new h own))
]

pub own_key : (t d : String) → (same t t && same d d) ≡ true
own_key t d = rw (same_refl t, same_refl d) refl

-- The row of a key after a reservation, a release and a recorded call of that key.
reserved_row :
    (b : Bool) (x : Usage) (t d : String) (now n : ℕ) (cap : ℤ)
    → taken x ≤ n
    → pos_part cap ≤ n
    → leb_ℤ cap (pos 0) ≡ false
    → taken (
        if b
        then (if ltb (taken x) (pos_part cap)
            then record x { reserves = x.reserves + 1; updated_at = now }
            else x)
        else record (new_usage t d now) { reserves = 1 })
      ≤ n
reserved_row true x t d now n cap h k l = elim (Bool-cases (ltb (taken x) (pos_part cap))) [
  | inl e ↦ rw e (omega (arith, ltb→lt (taken x) (pos_part cap) e))
  | inr e ↦ rw e h
]
reserved_row false x t d now n (pos m) h k l = ground arith
reserved_row false x t d now n (negsuc m) h k l = ground arith

pub reserve-own :
    (t d : String) (limit : ℤ) (now n : ℕ) (us : List Usage)
    → committed t d us ≤ n
    → pos_part limit ≤ n
    → committed t d (reserve_call t limit d now us).0 ≤ n
unfolding reserve_call
reserve-own t d limit now n us h k = elim (Bool-cases (leb_ℤ limit (pos 0))) [
  | inl e ↦ rw e h
  | inr e ↦
      rw
        (
          e,
          upsert-own t d (record (new_usage t d now) { reserves = 1 })
              (λ u. ltb (taken u) (pos_part limit))
              (λ u. record u { reserves = u.reserves + 1; updated_at = now }) (λ u. refl)
              (own_key t d) us,
        )
        (reserved_row (has t d us) (get_usage t d us) t d now n limit h k e)
]

released_row :
    (b : Bool) (x : Usage) (now n : ℕ)
    → taken x ≤ n
    → taken (if b then record x { reserves = x.reserves - 1; updated_at = now } else x) ≤ n
released_row true x now n h = omega arith
released_row false x now n h = h

pub release-own :
    (t d : String) (now n : ℕ) (us : List Usage)
    → committed t d us ≤ n
    → committed t d (release_call t d now us) ≤ n
unfolding release_call
release-own t d now n us h =
    rw
      (get_usage-update_own t d (λ u. record u { reserves = u.reserves - 1; updated_at = now }) us
        (λ u. refl))
      (released_row (has t d us) (get_usage t d us) now n h)

-- What a recorded call may add: nothing where a reservation was waiting.
spent_row :
    (b : Bool) (x y new : Usage) (n : ℕ)
    → taken x ≤ n
    → y.calls ≡ x.calls + 1
    → y.reserves ≡ x.reserves - 1
    → taken new ≡ 1
    → (b ≡ false → x.reserves ≡ 0)
    → taken (if b then y else new) ≤ n + (if x.reserves == 0 then 1 else 0)
spent_row true x y new n h hc hr hn z = ground arith
spent_row false x y new n h hc hr hn z = let e = z refl in ground arith

pub record_call-own :
    (t d : String) (cost : ℕ) (tokens_in tokens_out : Option ℤ) (now n : ℕ) (us : List Usage)
    → committed t d us ≤ n
    → committed t d (record_call t d cost tokens_in tokens_out now us)
      ≤ n + (if (get_usage t d us).reserves == 0 then 1 else 0)
unfolding record_call
record_call-own t d cost tokens_in tokens_out now n us h =
    let x = get_usage t d us in
    let new : Usage = record (new_usage t d now) {
      calls = 1;
      estimated_cost = cost;
      tokens_in = token_count tokens_in;
      tokens_out = token_count tokens_out;
    } in
    let f : Usage → Usage = λ u. record u {
      calls = u.calls + 1;
      estimated_cost = u.estimated_cost + cost;
      reserves = u.reserves - 1;
      tokens_in = u.tokens_in + token_count tokens_in;
      tokens_out = u.tokens_out + token_count tokens_out;
      updated_at = now;
    } in
    rw (upsert-own t d new (λ u. true) f (λ u. refl) (own_key t d) us) (
      spent_row (has t d us) x (f x) new n h refl refl refl
        (λ e. ap (λ u. u.reserves) (get_usage-none t d us e)))

-- Writes of another key leave the row alone.
module _ (t d u e : String) (now : ℕ) (us : List Usage)
    (apart : (same u t && same e d) ≡ false) where
  pub reserve_other :
      (limit : ℤ) → get_usage t d (reserve_call u limit e now us).0 ≡ get_usage t d us
  unfolding reserve_call
  reserve_other limit = elim (Bool-cases (leb_ℤ limit (pos 0))) [
    | inl z ↦ rw z refl
    | inr z ↦ rw z (
        upsert_other t d u e (record (new_usage u e now) { reserves = 1 })
          (λ x. ltb (taken x) (pos_part limit))
          (λ x. record x { reserves = x.reserves + 1; updated_at = now }) us (λ x. refl) apart
          (own_key u e))
  ]

  pub release_other : get_usage t d (release_call u e now us) ≡ get_usage t d us
  unfolding release_call
  release_other =
      get_usage-update_other t d (is_usage u e)
        (λ x. record x { reserves = x.reserves - 1; updated_at = now }) us (λ x. refl)
        (λ x m. is_usage-apart t d u e x apart m)

  pub spend_other :
      (cost : ℕ) (tokens_in tokens_out : Option ℤ)
      → get_usage t d (record_call u e cost tokens_in tokens_out now us) ≡ get_usage t d us
  unfolding record_call
  spend_other cost tokens_in tokens_out =
      upsert_other t d u e _ (λ x. true) _ us (λ x. refl) apart (own_key u e)
