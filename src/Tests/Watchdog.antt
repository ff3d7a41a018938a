-- ===== src/Tests/Watchdog.antt =====
-- A stuck job and a fresh one, swept by api/services/watchdog.py, and the theorems at them.
use resu_align_lite.Prelude.{ℕ, String, ◌≡◌, refl, Option, none, some, [], ◌∷◌, String_discrete}
use resu_align_lite.Prelude.Table.{update, Distinct}
use resu_align_lite.Prelude.Int.{ℤ, pos, sub_ℕ}
use resu_align_lite.Prelude.Texts.{strip, lstrip, rstrip}
use resu_align_lite.Registry.Rows.{running, Job, Registry, job_key}
use resu_align_lite.Registry.Reads.{stale_running_jobs}
use resu_align_lite.Watchdog.{timeout_error, max_runtime_seconds, scan_once}
use resu_align_lite.Watchdog.Sweep.{is_stale, timed_out, scan_once-jobs, scan_once-clears}

abbrev stuck : Job
stuck = record {
  job_id = "s";
  status = running;
  stage = "";
  message = "";
  tenant_id = "t";
  created_at = 1;
  started_at = some 2;
  finished_at = none;
  result_json = none;
  error = none;
  request_id = "";
}

abbrev busy : Registry
busy = record {
  max_jobs = 5;
  ttl_seconds = 60;
  terminal_retention_seconds = 60;
  jobs = stuck ∷ record stuck { job_id = "f"; started_at = some 95 } ∷ [];
  payloads =
      record {
        payload_job_id = "s";
        payload_tenant_id = "t";
        payload_json = "{}";
        application_id = some "app";
        payload_created_at = 1;
      }
      ∷ [];
}

abbrev no_member : String → String → Option String
no_member json key = none

abbrev ten_ticks : String → Option ℤ
ten_ticks raw = some (pos 10)

abbrev failed_at : String → ℕ
failed_at id = 101

cap_is_ten : max_runtime_seconds ten_ticks "0.01" ≡ some 10
unfolding max_runtime_seconds strip lstrip rstrip
cap_is_ten = refl

message :
    timeout_error 1800000
    ≡ "任务超时：运行超过 1800 秒仍未完成，已标记失败（可重新对齐）。若本地模型较慢，可调大 RESUALIGN_JOB_MAX_RUNTIME_S。"
unfolding timeout_error
message = refl

busy-Distinct : Distinct job_key busy.jobs
unfolding String_discrete
busy-Distinct = (refl, (refl, tt))

scan_once-jobs_example :
    (scan_once no_member ten_ticks "0.01" failed_at 100 busy).0.jobs
    ≡ update (is_stale (sub_ℕ 100 10)) (timed_out (timeout_error 10) failed_at) busy.jobs
scan_once-jobs_example =
    scan_once-jobs no_member ten_ticks "0.01" failed_at 100 10 busy cap_is_ten busy-Distinct

scan_once-clears_example :
    stale_running_jobs (sub_ℕ 100 10) (scan_once no_member ten_ticks "0.01" failed_at 100 busy).0
    ≡ []
scan_once-clears_example =
    scan_once-clears no_member ten_ticks "0.01" failed_at 100 10 busy cap_is_ten busy-Distinct
