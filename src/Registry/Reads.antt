-- ===== src/Registry/Reads.antt =====
-- The methods of `JobRegistry` that answer from the tables. One tick is a millisecond, so a
-- duration rounded to one decimal is a multiple of 100 ticks.
use resu_align_lite.Prelude.{
  ℕ, ◌-◌, String, Bool, true, false, ◌&&◌, Option, none, some, List, map, length, ◌==◌,
  if◌then◌else◌,
}
use resu_align_lite.Prelude.Table.{same, filter, count, find}
use resu_align_lite.Prelude.Int.{ℤ, pos, sub_ℕ, leb_ℤ, round_to, round_to_ℤ}
use resu_align_lite.Prelude.Sort.{sort_by}
use resu_align_lite.Registry.Rows.{
  Status, queued, running, succeeded, failed, canceled, Job, Registry, is_queued, is_running,
  in_flight, is_terminal, job_key, payload_key, is_expired,
}
use resu_align_lite.Registry.Housekeeping.{oldest, delete_rows}

unfoldable pub get_payload : String → Registry → Option (String × String × Option String)
get_payload id reg = elim (find payload_key id reg.payloads) [
  | none ↦ none
  | some p ↦ some (p.payload_json, p.payload_tenant_id, p.application_id)
]

abbrev pub created : Job → ℕ
created j = j.created_at

unfoldable pub pending_job_ids : Registry → List String
pending_job_ids reg = map job_key (sort_by created (filter (λ j. in_flight j.status) reg.jobs))

-- `started_at IS NOT NULL AND started_at <= ?`
abbrev pub started_by : ℤ → Option ℕ → Bool
started_by cutoff none = false
started_by cutoff (some t) = leb_ℤ (pos t) cutoff

abbrev pub started : Job → ℕ
started j = elim j.started_at [ none ↦ 0 | some t ↦ t ]

unfoldable pub stale_running_jobs : ℤ → Registry → List Job
stale_running_jobs cutoff reg =
    sort_by started (filter (λ j. is_running j.status && started_by cutoff j.started_at) reg.jobs)

-- The SELECT of `_get_current`; no tenant is any tenant.
abbrev pub visible_to : Option String → Job → Bool
visible_to none j = true
visible_to (some tenant) j = same j.tenant_id tenant

-- `_get_current`: an expired row is not shown, and is deleted unless it is terminal.
unfoldable pub get_current : String → ℕ → Option String → Registry → Registry × Option Job
get_current id now tenant reg =
    let reclaimed : Registry × Option Job = (delete_rows id reg, none) in
    elim (find job_key id (filter (visible_to tenant) reg.jobs)) [
      | none ↦ (reg, none)
      | some j ↦
          if is_expired reg j.created_at now
          then (if is_terminal j.status then (reg, none) else reclaimed)
          else (reg, some j)
    ]

-- `get`
unfoldable pub get : ℕ → String → Option String → Registry → Registry × Option Job
unfolding get_current
get now id tenant reg = get_current id now tenant reg

unfoldable pub request_id_for : String → Registry → Option String
request_id_for id reg = elim (find job_key id reg.jobs) [
  | none ↦ none
  | some j ↦ if same j.request_id "" then none else some j.request_id
]

-- `_elapsed`
unfoldable pub elapsed : Job → ℕ → ℤ
elapsed j now = elim j.started_at [
  | none ↦ pos 0
  | some s ↦ elim j.finished_at [
    | none ↦ round_to_ℤ 100 (sub_ℕ now s)
    | some f ↦ round_to_ℤ 100 (sub_ℕ f s)
  ]
]

pub record Snapshot : Type 0 where
  pub snapshot_job_id : String
  pub snapshot_status : Status
  pub snapshot_stage : String
  pub snapshot_message : String
  pub elapsed_seconds : ℤ
  pub result : Option String
  pub snapshot_error : Option String
  pub snapshot_request_id : String

abbrev pub shown_result : Job → Status → Option String
shown_result j succeeded = j.result_json
shown_result j _ = none

abbrev pub shown_error : Job → Status → Option String
shown_error j failed = j.error
shown_error j canceled = j.error
shown_error j _ = none

unfoldable pub to_snapshot : Job → ℕ → Snapshot
unfolding elapsed
to_snapshot j now = record {
  snapshot_job_id = j.job_id;
  snapshot_status = j.status;
  snapshot_stage = j.stage;
  snapshot_message = j.message;
  elapsed_seconds = elapsed j now;
  result = shown_result j j.status;
  snapshot_error = shown_error j j.status;
  snapshot_request_id = j.request_id;
}

unfoldable pub snapshot : ℕ → String → Option String → Registry → Registry × Option Snapshot
unfolding get_current to_snapshot
snapshot now id tenant reg =
    let (after, found) = get_current id now tenant reg in
    (after, elim found [ none ↦ none | some j ↦ some (to_snapshot j now) ])

-- `__len__`
unfoldable pub size : Registry → ℕ
size reg = length reg.jobs

unfoldable pub queue_depth : Registry → ℕ
queue_depth reg = count (λ j. in_flight j.status) reg.jobs

-- `max(0.0, now - created_at)` is the truncated difference.
unfoldable pub oldest_waiting_seconds : ℕ → Registry → Option ℕ
unfolding oldest
oldest_waiting_seconds now reg = elim (oldest is_queued reg.jobs) [
  | none ↦ none
  | some j ↦ some (round_to 100 (now - j.created_at))
]

abbrev pub is_status : Status → Status → Bool
is_status queued s = is_queued s
is_status running s = is_running s
is_status succeeded succeeded = true
is_status failed failed = true
is_status canceled canceled = true
is_status _ _ = false

-- The dictionary of `outcome_stats`: a status with no row is no key.
unfoldable pub outcome_stats : Registry → Status → Option ℕ
outcome_stats reg s =
    let n = count (λ j. is_status s j.status) reg.jobs in if n == 0 then none else some n
