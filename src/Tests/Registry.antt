-- ===== src/Tests/Registry.antt =====
-- The job table of jobs.py at a small registry: one running, one finished and one queued job.
use resu_align_lite.Prelude.{
  Option, length, map, ◌+◌, ◌≤◌, ◌≡◌, refl, ◌⊎◌, true, false, not, none, some, List, [], ◌∷◌, arith,
  String_discrete,
}
use resu_align_lite.Prelude.Sort.{sort_by}
use resu_align_lite.Prelude.Table.{any, find}
use resu_align_lite.Registry.Rows.{queued, running, succeeded, Job, Registry, job_key, in_flight}
use resu_align_lite.Registry.Housekeeping.{
  oldest, delete_rows, purge_expired, enforce_cap, purge_expired, enforce_cap,
}
use resu_align_lite.Registry.Methods.{
  create, new_job, claim_running, fail, succeed, cancel, update_progress,
}
use resu_align_lite.Registry.Reads.{get}
use resu_align_lite.Registry.FailStreak.{like, job_pattern, recent_fail_streak}
use resu_align_lite.Prelude.Search.{codes}
use resu_align_lite.Registry.Operations.{
  Call, claims, progresses, succeeds, fails, cancels, step, run,
}
use resu_align_lite.Registry.Invariant.{IsValid}
use resu_align_lite.Registry.Preservation.{run-IsValid}
use resu_align_lite.Registry.Lifecycle.{Follows, step-Follows}
use resu_align_lite.Registry.Traces.{terminal_frozen, claim_exclusive}
use resu_align_lite.Registry.Capacity.{create_bound}
use resu_align_lite.Registry.Visibility.{get_scoped}

abbrev working : Job
working = record {
  job_id = "w";
  status = running;
  stage = "jd";
  message = "";
  tenant_id = "t";
  created_at = 5;
  started_at = some 6;
  finished_at = none;
  result_json = none;
  error = none;
  request_id = "";
}

abbrev done : Job
done = record working {
  job_id = "d";
  status = succeeded;
  created_at = 2;
  finished_at = some 9;
  result_json = some "{}";
}

abbrev waiting : Job
waiting = record working { job_id = "q"; status = queued; created_at = 7; started_at = none }

abbrev start : Registry
start = record {
  max_jobs = 2;
  ttl_seconds = 10;
  terminal_retention_seconds = 100;
  jobs = working ∷ done ∷ waiting ∷ [];
  payloads =
      record {
        payload_job_id = "w";
        payload_tenant_id = "t";
        payload_json = "{\"library_job_id\":\"L1\"}";
        application_id = none;
        payload_created_at = 5;
      }
      ∷ [];
}

start-IsValid : IsValid start
unfolding String_discrete
start-IsValid = record {
  jobs_unique = (refl, (refl, (refl, tt)));
  payloads_unique = (refl, tt);
  owned = (refl, tt);
  sound = ground arith;
}

abbrev calls : List Call
calls =
    progresses "w" "gap" ""
    ∷ fails 20 "w" "boom" (some "editor")
    ∷ succeeds 21 "w" (some "{}")
    ∷ claims 22 "q"
    ∷ cancels 23 "d"
    ∷ []

run-IsValid_example : IsValid (run start calls)
run-IsValid_example = run-IsValid start calls start-IsValid

step-Follows_example : Follows false working (find job_key "w" (step start (cancels 8 "w")).jobs)
unfolding String_discrete
step-Follows_example = step-Follows "w" working start start-IsValid refl (cancels 8 "w") refl

terminal_frozen_example :
    (find job_key "d" (run start calls).jobs ≡ none)
    ⊎ (find job_key "d" (run start calls).jobs ≡ some done)
unfolding String_discrete
terminal_frozen_example =
    terminal_frozen "d" start calls done start-IsValid refl refl
      (refl, (refl, (refl, (refl, (refl, tt)))))

claim_exclusive_example : (claim_running 30 "q" (run (claim_running 8 "q" start).0 calls)).1 ≡ false
claim_exclusive_example =
    claim_exclusive "q" start calls 8 30 start-IsValid (refl, (refl, (refl, (refl, (refl, tt)))))

-- The first claim of the queued job succeeds.
first_claim : (claim_running 8 "q" start).1 ≡ true
unfolding claim_running String_discrete
first_claim = refl

get_scoped_example :
    (working.job_id ≡ "w")
    × (working.tenant_id ≡ "t")
    × (12 ≤ 5 + start.ttl_seconds)
    × (find job_key "w" start.jobs ≡ some working)
unfolding get String_discrete
get_scoped_example = get_scoped 12 "w" "t" start working start-IsValid refl

-- The query finds a payload by its library job, also where the case of the key differs.
finds_key : like (job_pattern "l1") (codes "{\"x\":1,\"library_job_id\":\"L1\"}") ≡ true
unfolding like
finds_key = refl

misses_longer_key : like (job_pattern "L1") (codes "{\"library_job_id\":\"L12\"}") ≡ false
unfolding like
misses_longer_key = refl

streak_after_failure : recent_fail_streak "t" "L1" (run start calls) ≡ 1
unfolding recent_fail_streak sort_by run step claim_running fail succeed cancel update_progress
    String_discrete
streak_after_failure = refl

-- A third job under a cap of two rows: the finished one goes.
abbrev full_table : Registry
full_table = record start { max_jobs = 2 }

abbrev created_job : Registry × Option Job
created_job = create 10 "n" "{}" (some "t") none none none full_table

create_evicts : map job_key created_job.0.jobs ≡ "w" ∷ "q" ∷ "n" ∷ []
unfolding create enforce_cap oldest delete_rows purge_expired String_discrete
create_evicts = refl

is_created : created_job.1 ≡ some (new_job 10 "n" (some "t") none none)
unfolding create enforce_cap oldest delete_rows purge_expired String_discrete
is_created = refl

create_bound_example :
    (length created_job.0.jobs ≤ created_job.0.max_jobs)
    ⊎ (any (λ k. not (in_flight k.status)) created_job.0.jobs ≡ false)
create_bound_example =
    create_bound 10 "n" "{}" (some "t") none none none full_table
      (new_job 10 "n" (some "t") none none) is_created
