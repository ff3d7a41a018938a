-- ===== src/Budget/Cap.antt =====
-- The daily cap of llm_usage.py under any interleaving of its writes.
use resu_align_lite.Prelude.Booleans.{and_left, and_right}
use resu_align_lite.Prelude.{
  ℕ, ◌+◌, ◌≤◌, String, ◌≡◌, refl, subst, inl, inr, true, ◌&&◌, List, [], ◌∷◌, arith, ◌==◌,
  if◌then◌else◌, leb→le, Bool-cases,
}
use resu_align_lite.Prelude.Table.{same_eq, same, All, All-map}
use resu_align_lite.Prelude.Int.{pos_part}
use resu_align_lite.Budget.Usage.{Usage, reserve_call, release_call, record_call, get_usage}
use resu_align_lite.Budget.Calls.{
  Call, reserve, release, spend, run_call, run_calls, committed, caps, unreserved, count_unreserved,
}
use resu_align_lite.Budget.Effects.{
  reserve-own, release-own, record_call-own, reserve_other, release_other, spend_other,
}

-- A statement of a key holds of an equal one.
same_keys :
    (P : String → String → Type 0) (t d u e : String)
    → (same u t && same e d) ≡ true
    → P t d
    → P u e
same_keys P t d u e m h =
    let pu = same_eq u t (and_left (same u t) (same e d) m) in
    let pe = same_eq e d (and_right (same u t) (same e d) m) in
    subst (λ v. P v e) pu (subst (λ w. P t w) pe h)

-- One write, of whatever key.
run_call_bound :
    (t d : String) (now n : ℕ) (c : Call) (us : List Usage)
    → committed t d us ≤ n
    → caps n (now, c) ≡ true
    → committed t d (run_call now c us) ≤ n + unreserved t d c us
run_call_bound t d now n (reserve u limit e) us h k = elim (Bool-cases (same u t && same e d)) [
  | inl m ↦
      same_keys (λ v w. committed t d (reserve_call v limit w now us).0 ≤ n + 0) t d u e m
        (omega (arith, reserve-own t d limit now n us h (leb→le (pos_part limit) n k)))
  | inr m ↦ rw (reserve_other t d u e now us m limit) (omega (arith, h))
]
run_call_bound t d now n (release u e) us h k = elim (Bool-cases (same u t && same e d)) [
  | inl m ↦
      same_keys (λ v w. committed t d (release_call v w now us) ≤ n + 0) t d u e m
        (omega (arith, release-own t d now n us h))
  | inr m ↦ rw (release_other t d u e now us m) (omega (arith, h))
]
run_call_bound t d now n (spend u e cost tokens_in tokens_out) us h k =
    elim (Bool-cases (same u t && same e d)) [
      | inl m ↦ rw m (
          same_keys
            (λ v w.
              committed t d (record_call v w cost tokens_in tokens_out now us)
              ≤ n + (if (get_usage t d us).reserves == 0 then 1 else 0))
            t d u e m (record_call-own t d cost tokens_in tokens_out now n us h))
      | inr m ↦ rw (m, spend_other t d u e now us m cost tokens_in tokens_out) (omega (arith, h))
    ]

caps_mono :
    (c n : ℕ) (cs : List (ℕ × Call))
    → c ≤ n
    → All (λ x. caps c x ≡ true) cs
    → All (λ x. caps n x ≡ true) cs
caps_mono c n cs le h = All-map (λ x. caps c x ≡ true) (λ x. caps n x ≡ true) (λ x k. one x k) cs h
  where
    one : (x : ℕ × Call) → caps c x ≡ true → caps n x ≡ true
    one (now, reserve u limit e) k = ground arith
    one (now, release u e) k = refl
    one (now, spend u e cost tokens_in tokens_out) k = refl

-- In any order of reservations, releases and recorded calls of any tenants and days, the calls made
-- and promised for a tenant on a day stay within the cap, or go over it by no more than the calls
-- recorded without a reservation waiting, if every reservation asks for at most that cap and the cap
-- held before.
pub run_calls_bound :
    (t d : String) (cap_value : ℕ) (cs : List (ℕ × Call)) (us : List Usage)
    → committed t d us ≤ cap_value
    → All (λ c. caps cap_value c ≡ true) cs
    → committed t d (run_calls cs us) ≤ cap_value + count_unreserved t d cs us
unfolding run_calls count_unreserved
run_calls_bound t d n [] us h k = omega (arith, h)
run_calls_bound t d n (c ∷ cs) us h k =
    let m = n + unreserved t d c.1 us in
    let next =
      run_calls_bound t d m cs (run_call c.0 c.1 us) (run_call_bound t d c.0 n c.1 us h k.0)
        (caps_mono n m cs (omega arith) k.1) in
    omega (arith, next)
