-- ===== src/Budget/Admission.antt =====
-- Which tasks the guard of cost_guard.py admits.
use resu_align_lite.Prelude.Booleans.{or_false}
use resu_align_lite.Prelude.{
  ℕ, String, ◌≡◌, refl, sym, ap, inl, inr, Bool, true, false, not, ◌&&◌, ◌||◌, Option, none, some,
  List, [], ◌∷◌, arith, ltb, Bool-cases,
}
use resu_align_lite.Prelude.Table.{same_eq, any}
use resu_align_lite.Prelude.Int.{ℤ, negsuc, pos, pos_part, leb_ℤ}
use resu_align_lite.Budget.Usage.{Usage, is_usage, taken, reserve_call, get_usage}
use resu_align_lite.Budget.Rows.{has, get_usage-none}
use resu_align_lite.Budget.Guard.{
  CostSettings, llm_daily_status, is_blocked, check_daily_llm_cap, enforce_cap_of,
  enforce_daily_llm_cap,
}

-- The primary key of the table: no two rows for one tenant and day.
abbrev pub IsKeyed : List Usage → Type 0
IsKeyed [] = Unit
IsKeyed (u ∷ us) = (has u.tenant_id u.usage_date us ≡ false) × IsKeyed us

only_own :
    (t d : String) (u : Usage) (us : List Usage)
    → is_usage t d u ≡ true
    → has u.tenant_id u.usage_date us ≡ false
    → has t d us ≡ false
only_own t d u us m h =
    let ht = same_eq u.tenant_id t (ground arith) in
    let hd = same_eq u.usage_date d (ground arith) in rw (ht, hd) h

none_of_key :
    (t d : String) (p : Usage → Bool) (us : List Usage)
    → has t d us ≡ false
    → any (λ u. is_usage t d u && p u) us ≡ false
none_of_key t d p [] h = refl
none_of_key t d p (u ∷ us) h = ground (arith, none_of_key t d p us)

-- A test of the rows of a key is a test of the row `get_usage` returns.
any-is_usage :
    (t d : String) (p : Usage → Bool) (us : List Usage)
    → IsKeyed us
    → any (λ u. is_usage t d u && p u) us ≡ (has t d us && p (get_usage t d us))
unfolding get_usage
any-is_usage t d p [] k = refl
any-is_usage t d p (u ∷ us) k = elim (Bool-cases (is_usage t d u)) [
  | inl e ↦ rw (e, none_of_key t d p us (only_own t d u us e k.0)) (or_false (p u))
  | inr e ↦ rw e (any-is_usage t d p us k.1)
]

-- The reservation of a row as it stands, against the test of the fast check.
claim :
    (b : Bool) (x : Usage) (limit : ℤ)
    → (b ≡ false → taken x ≡ 0)
    → leb_ℤ limit (pos 0) ≡ false
    → (not b || (b && ltb (taken x) (pos_part limit))) ≡ not (leb_ℤ limit (pos (taken x)))
claim true x (pos n) z h = ground arith
claim true x (negsuc n) z h = ground arith
claim false x (pos n) z h = let e = z refl in ground arith
claim false x (negsuc n) z h = let e = z refl in ground arith

blocked_low : (limit : ℤ) (n : ℕ) → leb_ℤ limit (pos 0) ≡ true → not (leb_ℤ limit (pos n)) ≡ false
blocked_low (pos m) n h = ground arith
blocked_low (negsuc m) n h = ground arith

enforce_cap_of-blocked :
    (limit : Option ℤ) (t d : String) (now : ℕ) (us : List Usage)
    → IsKeyed us
    → (enforce_cap_of limit t d now us).1 ≡ not (is_blocked limit (taken (get_usage t d us)))
unfolding reserve_call
enforce_cap_of-blocked none t d now us k = refl
enforce_cap_of-blocked (some limit) t d now us k = elim (Bool-cases (leb_ℤ limit (pos 0))) [
  | inl e ↦ rw e (sym (blocked_low limit (taken (get_usage t d us)) e))
  | inr e ↦
      rw (e, any-is_usage t d (λ u. ltb (taken u) (pos_part limit)) us k)
        (claim (has t d us) (get_usage t d us) limit
          (λ h. ap (λ u. taken u) (get_usage-none t d us h)) e)
]

-- The fast check of a tenant's cap lets a request through exactly when the check that reserves a call
-- does, on a table with one row for each tenant and day.
pub check_daily_llm_cap-enforce :
    (settings : CostSettings) (t d : String) (now : ℕ) (us : List Usage)
    → IsKeyed us
    → check_daily_llm_cap settings t d us ≡ (enforce_daily_llm_cap settings t d now us).1
unfolding check_daily_llm_cap llm_daily_status enforce_daily_llm_cap
check_daily_llm_cap-enforce settings t d now us k =
    sym (enforce_cap_of-blocked settings.daily_llm_cap t d now us k)
