-- ===== src/Registry/Capacity.antt =====
-- The row cap of jobs.py: the loop of `_enforce_cap` ends below the cap unless only unfinished work
-- is left, spares that work, and evicts the oldest finished rows first.
use resu_align_lite.Prelude.{
  ◌≢◌, ℕ, Option, zero, suc, ◌≤◌, ◌<◌, ◌≡◌, refl, ◌⊎◌, inl, inr, String, Bool, true, false, not,
  none, some, List, [], ◌∷◌, arith, length, leb, leb→le, Option-cases, Bool-cases, if◌then◌else◌,
  String_discrete,
}
use resu_align_lite.Prelude.Table.{
  same, All, any, filter, Distinct, find, All-filter, find-filter, find_key, length-filter-le,
}
use resu_align_lite.Registry.Rows.{Status, Job, Registry, job_key, in_flight}
use resu_align_lite.Registry.Methods.{create, insert_job, new_job}
use resu_align_lite.Registry.Housekeeping.{
  purge_expired, earlier, oldest, delete_rows, enforce_cap_loop, enforce_cap,
}
use resu_align_lite.Registry.Invariant.{IsValid, delete_rows-IsValid}

oldest-cons :
    (q : Status → Bool) (j : Job) (js : List Job)
    → oldest q (j ∷ js) ≡ (if q j.status then earlier j (oldest q js) else oldest q js)
unfolding oldest
oldest-cons q j js = refl

-- The row found passes the test and stands in the table.
oldest_found :
    (q : Status → Bool) (js : List Job) {o : Job}
    → oldest q js ≡ some o
    → (q o.status ≡ true) × (any (λ k. same k.job_id o.job_id) js ≡ true)
oldest_found q [] e = unfold oldest in cc
oldest_found q (j ∷ js) {o} e = ground (arith, oldest-cons q j js, oldest_found q js {o = o})

oldest_at :
    (q : Status → Bool) (js : List Job) {o : Job}
    → Distinct job_key js
    → oldest q js ≡ some o
    → find job_key o.job_id js ≡ some o
oldest_at q [] d e = unfold oldest in cc
oldest_at q (j ∷ js) {o} d e = ground (arith, oldest-cons q j js, oldest_at q js {o = o} d.1)

-- None is found only if none passes.
oldest-none :
    (q : Status → Bool) (js : List Job) → oldest q js ≡ none → any (λ k. q k.status) js ≡ false
oldest-none q [] e = refl
oldest-none q (j ∷ js) e = ground (arith, oldest-cons q j js, oldest-none q js)

-- Rows that pass the test are no older than `t`.
abbrev pub Younger : (Status → Bool) → ℕ → List Job → Type 0
Younger q t = All (λ k. q k.status ≡ true → t ≤ k.created_at)

Younger-mono :
    (q : Status → Bool) (s t : ℕ) (js : List Job) → s ≤ t → Younger q t js → Younger q s js
Younger-mono q s t [] h a = tt
Younger-mono q s t (j ∷ js) h a =
    (λ p. let old : t ≤ j.created_at = a.0 p in omega arith, Younger-mono q s t js h a.1)

Younger-none :
    (q : Status → Bool) (t : ℕ) (js : List Job) → any (λ k. q k.status) js ≡ false → Younger q t js
Younger-none q t [] h = tt
Younger-none q t (j ∷ js) h = (λ p. ground arith, Younger-none q t js (ground arith))

oldest_first :
    (q : Status → Bool) (js : List Job) {o : Job} → oldest q js ≡ some o → Younger q o.created_at js
oldest_first q [] e = tt
oldest_first q (j ∷ js) {o} e = elim (Option-cases (oldest q js)) [
  | inl nobody ↦ (
    λ p. ground (arith, oldest-cons q j js),
    Younger-none q o.created_at js (oldest-none q js nobody),
  )
  | inr (k, found) ↦
      let older : o.created_at ≤ k.created_at = ground (arith, oldest-cons q j js) in
      (
        λ p. ground (arith, oldest-cons q j js),
        Younger-mono q o.created_at k.created_at js older (oldest_first q js found),
      )
]

-- Fewer rows: what makes the number of rows fuel enough.
shrinks :
    (p : Job → Bool) (js : List Job)
    → any p js ≡ true
    → length (filter (λ j. not (p j)) js) < length js
shrinks p [] h = cc
shrinks p (j ∷ js) h = ground (arith, shrinks p js, length-filter-le (λ k. not (p k)) js)

abbrev finished : Status → Bool
finished s = not (in_flight s)

-- Every row left is unfinished work, or no older than `t`.
abbrev pub Fresher : ℕ → List Job → Type 0
Fresher = Younger finished

module _ (id : String) where
  evicted :
      (o : Job) (reg : Registry) (j : Job)
      → IsValid reg
      → find job_key id reg.jobs ≡ some j
      → o.job_id ≢ id
      → find job_key id (delete_rows o.job_id reg).jobs ≡ some j
  unfolding delete_rows
  evicted o reg j v at other = ground (
    arith,
    find_key job_key id reg.jobs at,
    find-filter job_key (λ k. not (same k.job_id o.job_id)) id reg.jobs v.jobs_unique,
  )

  loop-Fresher :
      (t fuel : ℕ) (reg : Registry)
      → Fresher t reg.jobs
      → Fresher t (enforce_cap_loop fuel reg).jobs
  unfolding enforce_cap_loop
  loop-Fresher t zero reg h = h
  loop-Fresher t (suc fuel) reg h = elim (Bool-cases (leb (length reg.jobs) reg.max_jobs)) [
    | inl fits ↦ rw (fits, enforce_cap_loop) h
    | inr over ↦ elim (Option-cases (oldest finished reg.jobs)) [
      | inl nobody ↦ rw (over, nobody, enforce_cap_loop) h
      | inr (o, e) ↦
          rw (over, e, enforce_cap_loop)
            (loop-Fresher t fuel (delete_rows o.job_id reg) (
              unfold delete_rows in
              All-filter _ _ (λ k. not (same k.job_id o.job_id)) (λ k kept young. young) reg.jobs
                h))
    ]
  ]

  loop-order :
      (fuel : ℕ) (reg : Registry) (j : Job)
      → IsValid reg
      → find job_key id reg.jobs ≡ some j
      → find job_key id (enforce_cap_loop fuel reg).jobs ≡ none
      → (finished j.status ≡ true) × Fresher j.created_at (enforce_cap_loop fuel reg).jobs
  unfolding enforce_cap_loop
  loop-order zero reg j v at gone = cc
  loop-order (suc fuel) reg j v at gone = elim (Bool-cases (leb (length reg.jobs) reg.max_jobs)) [
    | inl fits ↦ absurd (ground (arith, fits))
    | inr over ↦ elim (Option-cases (oldest finished reg.jobs)) [
      | inl nobody ↦ absurd (ground (arith, nobody))
      | inr (o, e) ↦
          let next : enforce_cap_loop (suc fuel) reg
              ≡ enforce_cap_loop fuel (delete_rows o.job_id reg) =
            rw (over, e, enforce_cap_loop) in
          elim (String_discrete o.job_id id) [
            | yes this ↦
                let row : o ≡ j = ground (arith, oldest_at finished reg.jobs v.jobs_unique e) in
                rw (next, ← row)
                  (
                    (oldest_found finished reg.jobs e).0,
                    loop-Fresher o.created_at fuel (delete_rows o.job_id reg) (
                        unfold delete_rows in
                        All-filter _ _ (λ k. not (same k.job_id o.job_id)) (λ k kept young. young)
                          reg.jobs (oldest_first finished reg.jobs e)),
                  )
            | no other ↦ rw next (
                loop-order fuel (delete_rows o.job_id reg) j (delete_rows-IsValid o.job_id reg v)
                  (evicted o reg j v at other) (rw next at gone))
          ]
    ]
  ]

loop_bound :
    (fuel : ℕ) (reg : Registry)
    → length reg.jobs ≤ fuel
    → (length (enforce_cap_loop fuel reg).jobs ≤ (enforce_cap_loop fuel reg).max_jobs)
      ⊎ (any (λ k. finished k.status) (enforce_cap_loop fuel reg).jobs ≡ false)
unfolding enforce_cap_loop
loop_bound zero reg h = inl (omega arith)
loop_bound (suc fuel) reg h = elim (Bool-cases (leb (length reg.jobs) reg.max_jobs)) [
  | inl fits ↦ rw (fits, enforce_cap_loop) (inl (leb→le _ _ fits))
  | inr over ↦ elim (Option-cases (oldest finished reg.jobs)) [
    | inl nobody ↦ rw (over, nobody, enforce_cap_loop) (inr (oldest-none finished reg.jobs nobody))
    | inr (o, e) ↦
        rw (over, e, enforce_cap_loop)
          (loop_bound fuel (delete_rows o.job_id reg) (
            unfold delete_rows in
            omega (
              arith,
              shrinks (λ k. same k.job_id o.job_id) reg.jobs (oldest_found finished reg.jobs e).1,
            )))
  ]
]

enforce_cap_bound :
    (reg : Registry)
    → (length (enforce_cap reg).jobs ≤ (enforce_cap reg).max_jobs)
      ⊎ (any (λ k. not (in_flight k.status)) (enforce_cap reg).jobs ≡ false)
unfolding enforce_cap
enforce_cap_bound reg = loop_bound (length reg.jobs) reg (omega arith)

-- After a job has been created, the table holds no more rows than the cap, or only queued and running
-- ones: the loop of `_enforce_cap` never gives up early.
pub create_bound :
    (now : ℕ) (id payload : String) (tenant application request_id current : Option String)
    (reg : Registry) (j : Job)
    → let after = create now id payload tenant application request_id current reg in
      after.1 ≡ some j
      → (length after.0.jobs ≤ after.0.max_jobs)
        ⊎ (any (λ k. not (in_flight k.status)) after.0.jobs ≡ false)
unfolding create
create_bound now id payload tenant application request_id current reg j h =
    elim (Option-cases (
      insert_job (new_job now id tenant request_id current) payload application
        (purge_expired now reg))) [
          | inl e ↦ let m : none ≡ some j = (rw (e, create) at h) in cc
          | inr (inserted, e) ↦ rw (e, create) (enforce_cap_bound inserted)
        ]

-- A row that the cap evicts was finished, never queued or running, and every finished row that is
-- left was created no earlier.
pub enforce_cap_order :
    (id : String) (reg : Registry) (j : Job)
    → IsValid reg
    → find job_key id reg.jobs ≡ some j
    → find job_key id (enforce_cap reg).jobs ≡ none
    → (not (in_flight j.status) ≡ true)
      × All
          (λ k. not (in_flight k.status) ≡ true → j.created_at ≤ k.created_at)
          (enforce_cap reg).jobs
unfolding enforce_cap
enforce_cap_order id reg j v at gone = loop-order id (length reg.jobs) reg j v at gone
