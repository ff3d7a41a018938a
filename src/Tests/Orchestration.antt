-- ===== src/Tests/Orchestration.antt =====
-- A batch of two rows over a registry of two jobs, and the theorems of api/services/batch.py at it.
use resu_align_lite.Prelude.{
  ℕ, ◌+◌, false, String, ◌≡◌, refl, true, false, Option, none, some, [], ◌∷◌, String_discrete,
}
use resu_align_lite.Prelude.Table.{All, same, count, Distinct-update}
use resu_align_lite.Registry.Rows.{queued, failed, Job, Registry, is_queued, selects, job_key}
use resu_align_lite.Batch
use resu_align_lite.Batch.{Batch, BatchRow, BatchAlignStore, in_status, prune}
use resu_align_lite.Orchestration.{
  Context, Moment, after_refresh, before_update, before_get, before_cancel, sync_rows, cancel_rows,
  cancel_batch_align, is_over, pending_library_jobs,
}
use resu_align_lite.Orchestration.Sync.{looked, agrees, sync_rows-agree}
use resu_align_lite.Orchestration.Waiting.{
  waits, IsKeyed, IsQuiet, is_taken, any-update-false, and_false,
}
use resu_align_lite.Orchestration.Cancel.{cancel_rows-none_waits}
use resu_align_lite.Registry.Methods.{claim_running}

abbrev waiting_job : Job
waiting_job = record {
  job_id = "j1";
  status = queued;
  stage = "";
  message = "";
  tenant_id = "t";
  created_at = 5;
  started_at = none;
  finished_at = none;
  result_json = none;
  error = none;
  request_id = "";
}

abbrev failed_job : Job
failed_job = record waiting_job { job_id = "j2"; status = failed; error = some "no answer" }

abbrev registry : Registry
registry = record {
  max_jobs = 10;
  ttl_seconds = 100;
  terminal_retention_seconds = 100;
  jobs = waiting_job ∷ failed_job ∷ [];
  payloads = [];
}

abbrev waiting_row : BatchRow
waiting_row = record {
  job_id = "a";
  status = some "queued";
  analysis_job_id = some "j1";
  summary_score = none;
  row_error = none;
}

abbrev running_row : BatchRow
running_row = record waiting_row {
  job_id = "b";
  status = some "running";
  analysis_job_id = some "j2";
}

abbrev pair : Batch
pair = record {
  batch_id = "x";
  tenant_id = "t";
  master_resume_id = "r";
  granularity = "fine";
  prompt_focus = "balanced";
  custom_prompt = none;
  created_at = 6;
  rows = waiting_row ∷ running_row ∷ [];
}

abbrev desk : Context
desk = record { batches = record { ttl_seconds = 100; batches = pair ∷ [] }; registry = registry }

abbrev no_score : Option String → ℕ
no_score result = 0

-- No other thread runs.
abbrev alone : Moment → Context → Context
alone m c = c

-- A worker claims the job of the first row after it was read.
abbrev claimed_between : Moment → Context → Context
claimed_between (before_cancel left) c = record c { registry = (claim_running 9 "j1" c.registry).0 }
claimed_between after_refresh c = c
claimed_between before_update c = c
claimed_between (before_get left) c = c

one_is_canceled :
    (cancel_batch_align alone no_score 9 "x" "t" desk).1
    ≡ some (record { canceled_rows = 1; failed_rows = 0; total_rows = 2 })
unfolding cancel_batch_align Batch.get prune String_discrete
one_is_canceled = refl

canceled_is_over :
    elim (Batch.get 9 "x" "t" (cancel_batch_align alone no_score 9 "x" "t" desk).0.batches).1 [
      | none ↦ false
      | some b ↦ is_over b.rows
    ]
    ≡ true
unfolding cancel_batch_align is_over Batch.get prune String_discrete
canceled_is_over = refl

-- The row whose job was claimed in between stays queued, and nothing is canceled.
claimed_is_kept :
    (cancel_batch_align claimed_between no_score 9 "x" "t" desk).1
    ≡ some (record { canceled_rows = 0; failed_rows = 0; total_rows = 2 })
unfolding cancel_batch_align Batch.get prune claim_running String_discrete
claimed_is_kept = refl

failed_is_pending :
    (pending_library_jobs 9 "t"
      (record {
        library_job_id = "a";
        alignment_status = some "queued";
        workbench_job_id = some "j2";
      }
        ∷ [])
      registry).1
    ≡ record {
      library_job_id = "a";
      alignment_status = some "queued";
      workbench_job_id = some "j2";
    }
      ∷ []
unfolding pending_library_jobs String_discrete
failed_is_pending = refl

sync_rows-agree_example :
    All
      (λ r.
        agrees 9 "t" no_score (looked 9 "t" (sync_rows no_score 9 "t" pair.rows registry).0) r
        ≡ true)
      (sync_rows no_score 9 "t" pair.rows registry).1.0
sync_rows-agree_example = sync_rows-agree 9 "t" no_score pair.rows registry

claims-waits :
    (k : String) (reg : Registry)
    → waits k reg ≡ false
    → waits k (claim_running 9 "j1" reg).0 ≡ false
unfolding claim_running
claims-waits k reg h =
    any-update-false (selects k is_queued) (selects "j1" is_queued) _
      (λ j e. and_false (same j.job_id k)) reg.jobs h

claims-IsKeyed : (reg : Registry) → IsKeyed reg → IsKeyed (claim_running 9 "j1" reg).0
unfolding claim_running
claims-IsKeyed reg h = Distinct-update job_key (selects "j1" is_queued) _ (λ j. refl) reg.jobs h

claimed_between-IsQuiet : IsQuiet claimed_between
claimed_between-IsQuiet = record { queues_none = queues; keeps_keys = keys }
  where
    queues :
        (m : Moment) (c : Context) (k : String)
        → waits k c.registry ≡ false
        → waits k (claimed_between m c).registry ≡ false
    queues (before_cancel left) c k h = claims-waits k c.registry h
    queues after_refresh c k h = h
    queues before_update c k h = h
    queues (before_get left) c k h = h

    keys : (m : Moment) (c : Context) → IsKeyed c.registry → IsKeyed (claimed_between m c).registry
    keys (before_cancel left) c h = claims-IsKeyed c.registry h
    keys after_refresh c h = h
    keys before_update c h = h
    keys (before_get left) c h = h

desk-IsKeyed : IsKeyed desk.registry
unfolding String_discrete
desk-IsKeyed = (refl, (refl, tt))

cancel_rows-none_waits_example :
    All
      (λ r. is_taken (cancel_rows claimed_between 9 "t" pair.rows desk).0.registry r ≡ true)
      (cancel_rows claimed_between 9 "t" pair.rows desk).1.0
    × (count (in_status "canceled") (cancel_rows claimed_between 9 "t" pair.rows desk).1.0
        ≡ count (in_status "canceled") pair.rows
          + (cancel_rows claimed_between 9 "t" pair.rows desk).1.1.0)
    × (count (in_status "failed") (cancel_rows claimed_between 9 "t" pair.rows desk).1.0
        ≡ count (in_status "failed") pair.rows
          + (cancel_rows claimed_between 9 "t" pair.rows desk).1.1.1)
cancel_rows-none_waits_example =
    cancel_rows-none_waits 9 "t" claimed_between claimed_between-IsQuiet pair.rows desk desk-IsKeyed
