-- ===== src/Registry/Rows.antt =====
-- The two tables of jobs.py and the tests that its statements make of a row.
-- A clock reading (a float of seconds) is a number of ticks; `a - b > c` is written `b + c < a`.
use resu_align_lite.Prelude.{
  ℕ, ◌+◌, String, Bool, true, false, not, ◌&&◌, ◌||◌, Option, none, some, List, ltb, if◌then◌else◌,
}
use resu_align_lite.Prelude.Table.{same}

pub data Status : Type 0 where
  queued running succeeded failed canceled : Status

pub Status-discrete : Discrete Status
Status-discrete = hlevel

-- A row of `jobs`; `AnalysisJob` has the same fields, its result still as JSON text.
pub record Job : Type 0 where
  pub job_id : String
  pub status : Status
  pub stage : String
  pub message : String
  pub tenant_id : String
  pub created_at : ℕ
  pub started_at : Option ℕ
  pub finished_at : Option ℕ
  pub result_json : Option String
  pub error : Option String
  pub request_id : String

-- A row of `job_payloads`, whose key refers to `jobs`.
pub record Payload : Type 0 where
  pub payload_job_id : String
  pub payload_tenant_id : String
  pub payload_json : String
  pub application_id : Option String
  pub payload_created_at : ℕ

pub record Registry : Type 0 where
  pub max_jobs : ℕ
  pub ttl_seconds : ℕ
  pub terminal_retention_seconds : ℕ
  pub jobs : List Job
  pub payloads : List Payload

-- `status = 'queued'`
abbrev pub is_queued : Status → Bool
is_queued queued = true
is_queued _ = false

-- `status = 'running'`
abbrev pub is_running : Status → Bool
is_running running = true
is_running _ = false

-- `status IN ('queued', 'running')`
abbrev pub in_flight : Status → Bool
in_flight queued = true
in_flight running = true
in_flight _ = false

-- `status in _TERMINAL_STATUSES`
abbrev pub is_terminal : Status → Bool
is_terminal succeeded = true
is_terminal failed = true
is_terminal canceled = true
is_terminal _ = false

abbrev pub job_key : Job → String
job_key j = j.job_id

abbrev pub payload_key : Payload → String
payload_key p = p.payload_job_id

-- `WHERE job_id = ? AND q(status)`
abbrev pub selects : String → (Status → Bool) → Job → Bool
selects id q j = same j.job_id id && q j.status

-- `_is_expired`
abbrev pub is_expired : Registry → ℕ → ℕ → Bool
is_expired reg created now = ltb (created + reg.ttl_seconds) now

-- Whether `_purge_expired` deletes the row.
abbrev pub is_purged : Registry → ℕ → Job → Bool
is_purged reg now j =
    not (is_terminal j.status) && ltb (j.created_at + reg.ttl_seconds) now
    || is_terminal j.status && ltb (j.created_at + reg.terminal_retention_seconds) now

-- Python's `a or b` on a text that may be missing.
abbrev pub or_text : Option String → String → String
or_text none b = b
or_text (some a) b = if same a "" then b else a
