-- ===== src/Watchdog/Sweep.antt =====
-- What a sweep of api/services/watchdog.py does to the rows of jobs.py.
use resu_align_lite.Prelude.Booleans.{or_false, and_false, and_true}
use resu_align_lite.Prelude.{
  ℕ, String, ◌≡◌, refl, sym, ap, ◌∙◌, inl, inr, Bool, false, ◌&&◌, Option, none, some, List, [],
  ◌∷◌, arith, if◌then◌else◌, Bool-cases, String_discrete,
}
use resu_align_lite.Prelude.Table.{
  same_refl, same_eq, same_sym, update_none, update-update, update-congr, same, same_eq, same_refl,
  same_sym, All, filter, update, any, All-map, find, Distinct,
}
use resu_align_lite.Prelude.Sort.{sort_by, any-sort_by}
use resu_align_lite.Prelude.Int.{ℤ, sub_ℕ}
use resu_align_lite.Registry.Rows.{
  Status, queued, running, succeeded, failed, canceled, Job, Registry, in_flight, is_running,
  selects, job_key,
}
use resu_align_lite.Registry.Methods.{fail}
use resu_align_lite.Registry.Reads.{stale_running_jobs, started_by, started}
use resu_align_lite.Watchdog.{timeout_error, scan_loop, scan_once, max_runtime_seconds}

-- The row of a job that was timed out.
abbrev pub timed_out : String → (String → ℕ) → Job → Job
timed_out error clock j = record j {
  status = failed;
  error = some error;
  finished_at = some (clock j.job_id);
}

abbrev listed : List Job → Job → Bool
listed rows j = any (λ r. same j.job_id r.job_id) rows

abbrev pub is_stale : ℤ → Job → Bool
is_stale cutoff j = is_running j.status && started_by cutoff j.started_at

-- A row once the job `r` has been failed.
abbrev after_one : String → (String → ℕ) → Job → Job → Job
after_one error clock r x =
    if selects r.job_id in_flight x
    then record x { status = failed; error = some error; finished_at = some (clock r.job_id) }
    else x

-- One job failed, then the rest of the list, on one row.
fuses :
    (error : String) (clock : String → ℕ) (r : Job) (rows : List Job) (x : Job)
    → (if in_flight (after_one error clock r x).status && listed rows (after_one error clock r x)
        then timed_out error clock (after_one error clock r x)
        else (after_one error clock r x))
      ≡ (if in_flight x.status && listed (r ∷ rows) x then timed_out error clock x else x)
fuses error clock r rows x = elim (Bool-cases (in_flight x.status)) [
  | inl e ↦ elim (Bool-cases (same x.job_id r.job_id)) [
    | inl m ↦
        rw (e, m)
          (ap
            (λ id. record x { status = failed; error = some error; finished_at = some (clock id) })
            (same_eq x.job_id r.job_id m))
    | inr m ↦ rw (e, m, e) refl
  ]
  | inr e ↦ rw (e, and_false (same x.job_id r.job_id), e) refl
]

module _ (member : String → String → Option String) (error : String) (clock : String → ℕ) where
  -- The loop fails exactly the unfinished rows of the jobs it is given.
  scan_loop-jobs :
      (rows : List Job) (reg : Registry)
      → (scan_loop member error clock rows reg).0.jobs
        ≡ update (λ j. in_flight j.status && listed rows j) (timed_out error clock) reg.jobs
  unfolding scan_loop fail
  scan_loop-jobs [] reg = sym (
      update_none (λ j. in_flight j.status && false) (timed_out error clock) reg.jobs
        (λ j. and_false (in_flight j.status)))
  scan_loop-jobs (r ∷ rows) reg =
      let f : Job → Job = λ x. record x {
        status = failed;
        error = some error;
        finished_at = some (clock r.job_id);
      } in
      let next : Registry = record reg { jobs = update (selects r.job_id in_flight) f reg.jobs } in
      let fused =
        update-update (selects r.job_id in_flight) (λ j. in_flight j.status && listed rows j)
          (λ j. in_flight j.status && listed (r ∷ rows) j) f (timed_out error clock)
          (timed_out error clock) (fuses error clock r rows) reg.jobs in
      elim (Bool-cases (any (selects r.job_id in_flight) reg.jobs)) [
        | inl e ↦ rw e (scan_loop-jobs rows next ∙ fused)
        | inr e ↦ rw e (scan_loop-jobs rows next ∙ fused)
      ]

-- Different keys for all others.
key_apart :
    (x : Job) (xs : List Job)
    → find job_key x.job_id xs ≡ none
    → All (λ y. same y.job_id x.job_id ≡ false) xs
unfolding String_discrete
key_apart x [] h = tt
key_apart x (y ∷ xs) h = ground (arith, key_apart x xs)

-- Under unique keys, the row of a key that passes a test is the row itself.
none_apart :
    (q : Job → Bool) (x : Job) (xs : List Job)
    → All (λ y. same y.job_id x.job_id ≡ false) xs
    → any (λ r. same x.job_id r.job_id && q r) xs ≡ false
none_apart q x [] h = refl
none_apart q x (y ∷ xs) h = rw (same_sym x.job_id y.job_id, h.0) (none_apart q x xs h.1)

skip :
    (q : Job → Bool) (x : Job) (all ys : List Job)
    → All (λ y. same y.job_id x.job_id ≡ false) ys
    → All (λ y. any (λ r. same y.job_id r.job_id && q r) all ≡ q y) ys
    → All (λ y. any (λ r. same y.job_id r.job_id && q r) (x ∷ all) ≡ q y) ys
skip q x all [] h k = tt
skip q x all (y ∷ ys) h k = (rw h.0 k.0, skip q x all ys h.1 k.1)

own_row :
    (q : Job → Bool) (xs : List Job)
    → Distinct job_key xs
    → All (λ y. any (λ r. same y.job_id r.job_id && q r) xs ≡ q y) xs
own_row q [] d = tt
own_row q (x ∷ xs) d =
    let apart = key_apart x xs d.0 in
    (
      rw (same_refl x.job_id, none_apart q x xs apart) (or_false (q x)),
      skip q x xs xs apart (own_row q xs d.1),
    )

any-filter : (p q : Job → Bool) (xs : List Job) → any q (filter p xs) ≡ any (λ x. q x && p x) xs
any-filter p q [] = refl
any-filter p q (x ∷ xs) = elim (Bool-cases (p x)) [
  | inl e ↦ rw (e, and_true (q x), any-filter p q xs) refl
  | inr e ↦ rw (e, and_false (q x)) (any-filter p q xs)
]

runs_unfinished :
    (s : Status) (b : Bool) → (in_flight s && (is_running s && b)) ≡ (is_running s && b)
runs_unfinished queued b = refl
runs_unfinished running b = refl
runs_unfinished succeeded b = refl
runs_unfinished failed b = refl
runs_unfinished canceled b = refl

-- An unfinished row is among the stale ones exactly when it is stale.
listed_stale :
    (cutoff : ℤ) (reg : Registry)
    → Distinct job_key reg.jobs
    → All
        (λ j. (in_flight j.status && listed (stale_running_jobs cutoff reg) j) ≡ is_stale cutoff j)
        reg.jobs
unfolding stale_running_jobs
listed_stale cutoff reg d =
    All-map
      (λ j. any (λ r. same j.job_id r.job_id && is_stale cutoff r) reg.jobs ≡ is_stale cutoff j)
      (λ j. (in_flight j.status && listed (stale_running_jobs cutoff reg) j) ≡ is_stale cutoff j)
      (λ j h.
        rw
          (
            any-sort_by started (λ r. same j.job_id r.job_id) (filter (is_stale cutoff) reg.jobs),
            any-filter (is_stale cutoff) (λ r. same j.job_id r.job_id) reg.jobs,
            h,
          )
          (runs_unfinished j.status (started_by cutoff j.started_at)))
      reg.jobs (own_row (is_stale cutoff) reg.jobs d)

filter-update_none :
    (p : Job → Bool) (f : Job → Job) (xs : List Job)
    → ((x : Job) → p (f x) ≡ false)
    → filter p (update p f xs) ≡ []
filter-update_none p f [] h = refl
filter-update_none p f (x ∷ xs) h = elim (Bool-cases (p x)) [
  | inl e ↦ rw (e, h x) (filter-update_none p f xs h)
  | inr e ↦ rw (e, e) (filter-update_none p f xs h)
]

module _ (member : String → String → Option String) (float_of : String → Option ℤ) (raw : String)
    (clock : String → ℕ) (now cap : ℕ) (reg : Registry)
    (enabled : max_runtime_seconds float_of raw ≡ some cap)
    (unique : Distinct job_key reg.jobs) where
  -- A sweep, where the watchdog is enabled and ids are unique, writes exactly the running rows that
  -- started a cap or longer ago: each becomes failed with the timeout error and the time it was
  -- failed, and every other row stays as it was.
  pub scan_once-jobs :
      (scan_once member float_of raw clock now reg).0.jobs
      ≡ update (is_stale (sub_ℕ now cap)) (timed_out (timeout_error cap) clock) reg.jobs
  unfolding scan_once
  scan_once-jobs = rw enabled (
      scan_loop-jobs member (timeout_error cap) clock (stale_running_jobs (sub_ℕ now cap) reg) reg
      ∙ update-congr (λ j. in_flight j.status && listed (stale_running_jobs (sub_ℕ now cap) reg) j)
          (is_stale (sub_ℕ now cap)) (timed_out (timeout_error cap) clock) reg.jobs
          (listed_stale (sub_ℕ now cap) reg unique))

  -- After a sweep, where the watchdog is enabled and ids are unique, a second look with the same
  -- clock finds no job to time out.
  pub scan_once-clears :
      stale_running_jobs (sub_ℕ now cap) (scan_once member float_of raw clock now reg).0 ≡ []
  unfolding stale_running_jobs sort_by
  scan_once-clears =
      rw
        (
          scan_once-jobs,
          filter-update_none (is_stale (sub_ℕ now cap)) (timed_out (timeout_error cap) clock)
              reg.jobs (λ x. refl),
        )
        refl
