-- ===== src/Registry/Methods.antt =====
-- The methods of `JobRegistry` that write. The lock makes each of them one step on the tables; a
-- method returns the registry after it and its result. Log events change no table.
use resu_align_lite.Prelude.{
  ℕ, String, Bool, false, not, ◌&&◌, ◌||◌, Option, none, some, [], ◌∷◌, ◌++◌, if◌then◌else◌,
}
use resu_align_lite.Prelude.Table.{same, filter, update, any}
use resu_align_lite.Registry.Rows.{
  Status, queued, running, succeeded, failed, canceled, Job, Payload, Registry, is_queued,
  is_running, in_flight, selects, or_text,
}
use resu_align_lite.Registry.Housekeeping.{purge_expired, delete_rows, enforce_cap}

abbrev pub is_some_text : Option String → Bool
is_some_text none = false
is_some_text (some s) = not (same s "")

-- One conditional UPDATE, and `rowcount > 0`.
abbrev pub update_job : String → (Status → Bool) → (Job → Job) → Registry → Registry × Bool
update_job id q f reg =
    (record reg { jobs = update (selects id q) f reg.jobs }, any (selects id q) reg.jobs)

-- The row that `create` inserts: the request's id, or the caller's, or none.
unfoldable pub new_job : ℕ → String → Option String → Option String → Option String → Job
new_job now id tenant request_id current = record {
  job_id = id;
  status = queued;
  stage = "";
  message = "";
  tenant_id = or_text tenant "";
  created_at = now;
  started_at = none;
  finished_at = none;
  result_json = none;
  error = none;
  request_id = or_text request_id (or_text current "");
}

abbrev pub new_payload : Job → String → Option String → Payload
new_payload j payload application = record {
  payload_job_id = j.job_id;
  payload_tenant_id = j.tenant_id;
  payload_json = payload;
  application_id = application;
  payload_created_at = j.created_at;
}

abbrev pub with_job : Job → Payload → Registry → Registry
with_job j p reg = record reg { jobs = reg.jobs ++ j ∷ []; payloads = reg.payloads ++ p ∷ [] }

-- The two INSERT statements; a key that is taken raises, and the transaction is rolled back.
unfoldable pub insert_job : Job → String → Option String → Registry → Option Registry
insert_job j payload application reg =
    if any (λ k. same k.job_id j.job_id) reg.jobs
      || any (λ p. same p.payload_job_id j.job_id) reg.payloads
    then none
    else some (with_job j (new_payload j payload application) reg)

-- `create`, given the clock, the fresh id of `uuid4` and the caller's request id. The result is
-- `none` where the INSERT raises: the purge stands, the cap is not enforced.
unfoldable pub create :
    ℕ
    → String
    → String
    → Option String
    → Option String
    → Option String
    → Option String
    → Registry
    → Registry × Option Job
unfolding new_job insert_job
create now id payload tenant application request_id current reg =
    let purged = purge_expired now reg in
    let job = new_job now id tenant request_id current in
    elim (insert_job job payload application purged) [
      | none ↦ (purged, none)
      | some inserted ↦ (enforce_cap inserted, some job)
    ]

unfoldable pub delete_payload : String → Registry → Registry
delete_payload id reg = record reg {
  payloads = filter (λ p. not (same p.payload_job_id id)) reg.payloads;
}

-- `claim_running`, and `mark_running`, which drops the result.
unfoldable pub claim_running : ℕ → String → Registry → Registry × Bool
claim_running now id =
    update_job id is_queued (λ j. record j { status = running; started_at = some now })

unfoldable pub mark_running : ℕ → String → Registry → Registry
unfolding claim_running
mark_running now id reg = (claim_running now id reg).0

unfoldable pub requeue_interrupted : String → Option String → Registry → Registry × Bool
requeue_interrupted id none =
    update_job id is_running (λ j. record j { status = queued; started_at = none })
requeue_interrupted id (some rid) =
    update_job id is_running
      (λ j. record j { status = queued; started_at = none; request_id = rid })

unfoldable pub update_progress : String → String → String → Registry → Registry
update_progress id stage message reg =
    (update_job id is_running (λ j. record j { stage = stage; message = message }) reg).0

unfoldable pub succeed : ℕ → String → Option String → Registry → Registry
succeed now id result reg =
    (update_job id in_flight
      (λ j. record j { status = succeeded; result_json = result; finished_at = some now }) reg).0

-- The second statement of `fail`, made if the first changed a row and a stage is given.
abbrev pub set_stage : String → String → Registry → Registry
set_stage id stage reg = record reg {
  jobs = update (λ j. same j.job_id id) (λ j. record j { stage = stage }) reg.jobs;
}

abbrev pub fail_stage : String → Option String → Registry × Bool → Registry × Bool
fail_stage id none out = out
fail_stage id (some stage) (reg, updated) =
    (if updated && not (same stage "") then set_stage id stage reg else reg, updated)

unfoldable pub fail : ℕ → String → String → Option String → Registry → Registry × Bool
fail now id error stage reg = fail_stage id stage (
    update_job id in_flight
      (λ j. record j { status = failed; error = some error; finished_at = some now }) reg)

unfoldable pub cancel : ℕ → String → Registry → Registry × Bool
cancel now id =
    update_job id is_queued
      (λ j. record j { status = canceled; error = some "Canceled by user"; finished_at = some now })

-- `delete`; an empty tenant is no tenant.
unfoldable pub delete : String → Option String → Registry → Registry × Bool
delete id tenant reg =
    if is_some_text tenant
      && not (any (λ j. same j.job_id id && same j.tenant_id (or_text tenant "")) reg.jobs)
    then (reg, false)
    else (delete_rows id reg, any (λ j. same j.job_id id) reg.jobs)

unfoldable pub clear : Registry → Registry
clear reg = record reg { jobs = []; payloads = [] }
