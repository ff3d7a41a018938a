-- ===== src/Tests/Budget.antt =====
-- A day of one tenant's LLM calls, and the theorems of llm_usage.py and cost_guard.py at it.
use resu_align_lite.Prelude.{
  ℕ, String, ◌+◌, ◌≤◌, ◌≡◌, refl, none, some, List, [], ◌∷◌, arith, String_discrete,
}
use resu_align_lite.Prelude.Int.{pos, round_to}
use resu_align_lite.Registry.Rows.{Registry, Job, Payload, failed}
use resu_align_lite.Prelude.Sort.{sort_by}
use resu_align_lite.Registry.FailStreak.{recent_fail_streak, like}
use resu_align_lite.Budget.Usage.{
  Usage, new_usage, estimate_call_cost, get_usage, reserve_call, release_call, record_call,
}
use resu_align_lite.Budget.Guard.{
  CostSettings, enforce_daily_llm_cap, check_daily_llm_cap, enforce_llm_task_entry,
  repeated_failures,
}
use resu_align_lite.Budget.Calls.{
  Call, reserve, release, spend, committed, run_calls, count_unreserved,
}
use resu_align_lite.Budget.Cap.{run_calls_bound}
use resu_align_lite.Budget.Admission.{check_daily_llm_cap-enforce}

abbrev usage_rows : List Usage
usage_rows = record (new_usage "t" "2026-03-01" 1) { calls = 1 } ∷ []

abbrev day_calls : List (ℕ × Call)
day_calls =
    (2, reserve "t" (pos 2) "2026-03-01")
    ∷ (3, reserve "t" (pos 2) "2026-03-01")
    ∷ (4, reserve "u" (pos 1) "2026-03-01")
    ∷ (5, spend "t" "2026-03-01" 8 none none)
    ∷ (6, spend "t" "2026-03-01" 8 none none)
    ∷ (7, release "t" "2026-03-01")
    ∷ []

-- The second reservation is refused, and the second recorded call had none: three calls of two.
day_total : committed "t" "2026-03-01" (run_calls day_calls usage_rows) ≡ 3
unfolding run_calls get_usage reserve_call release_call record_call String_discrete
day_total = refl

-- 2000 and 1000 tokens at 3 and 15 units per thousand.
cost : estimate_call_cost (some (pos 3)) (some (pos 15)) none none ≡ 21
unfolding estimate_call_cost round_to
cost = refl

usage_low : committed "t" "2026-03-01" usage_rows ≤ 2
unfolding get_usage String_discrete
usage_low = omega arith

run_calls_bound_example :
    committed "t" "2026-03-01" (run_calls day_calls usage_rows)
    ≤ 2 + count_unreserved "t" "2026-03-01" day_calls usage_rows
run_calls_bound_example =
    run_calls_bound "t" "2026-03-01" 2 day_calls usage_rows usage_low
      (refl, (refl, (refl, (refl, (refl, (refl, tt))))))

abbrev two_calls : CostSettings
two_calls = record {
  daily_llm_cap = some (pos 2);
  llm_cost_per_1k_in = none;
  llm_cost_per_1k_out = none;
}

abbrev no_runs : Registry
no_runs = record {
  max_jobs = 5;
  ttl_seconds = 60;
  terminal_retention_seconds = 60;
  jobs = [];
  payloads = [];
}

check_daily_llm_cap-enforce_example :
    check_daily_llm_cap two_calls "t" "2026-03-01" usage_rows
    ≡ (enforce_daily_llm_cap two_calls "t" "2026-03-01" 9 usage_rows).1
check_daily_llm_cap-enforce_example =
    check_daily_llm_cap-enforce two_calls "t" "2026-03-01" 9 usage_rows (refl, tt)

abbrev failed_run : Job
failed_run = record {
  job_id = "a";
  status = failed;
  stage = "";
  message = "";
  tenant_id = "t";
  created_at = 1;
  started_at = none;
  finished_at = some 2;
  result_json = none;
  error = some "no answer";
  request_id = "";
}

abbrev payload_of : String → Payload
payload_of id = record {
  payload_job_id = id;
  payload_tenant_id = "t";
  payload_json = "{\"library_job_id\":\"lib\"}";
  application_id = none;
  payload_created_at = 1;
}

-- Three runs of the key, all failed.
abbrev failed_runs : Registry
failed_runs = record no_runs {
  jobs = failed_run ∷ record failed_run { job_id = "b" } ∷ record failed_run { job_id = "c" } ∷ [];
  payloads = payload_of "a" ∷ payload_of "b" ∷ payload_of "c" ∷ [];
}

third_failure_refuses :
    (enforce_llm_task_entry two_calls "t" (some "lib") "2026-03-01" 9 failed_runs usage_rows).1
    ≡ repeated_failures
unfolding enforce_llm_task_entry enforce_daily_llm_cap reserve_call recent_fail_streak like
    String_discrete sort_by
third_failure_refuses = refl
