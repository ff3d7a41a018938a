-- ===== src/Runner.antt =====
-- api/services/jobs.py: how an analysis job is queued behind the guard of the budget, claimed by a
-- worker, run and ended. The worker holds the gate of the tenant, so a run is one step here. The
-- language-model stages are a parameter; the calls of the job library and of the applications are
-- listed in their order, and do not raise.
use resu_align_lite.Prelude.{
  ℕ, String, Bool, true, Option, none, some, List, [], ◌∷◌, ◌++◌, ltb, if◌then◌else◌, length,
}
use resu_align_lite.Prelude.Table.{same, update, any}
use resu_align_lite.Prelude.Texts.{or_text}
use resu_align_lite.Prelude.Int.{ℤ}
use resu_align_lite.Registry.Rows.{Job, Registry}
use resu_align_lite.Registry.Methods.{is_some_text, create, update_progress}
use resu_align_lite.Registry.Reads
use resu_align_lite.Budget.Usage.{Usage}
pub mod Worker
pub mod Ends
pub mod Slots
use resu_align_lite.Budget.Guard.{
  CostSettings, Verdict, admitted, cap_reached, repeated_failures, enforce_llm_task_entry,
  record_daily_llm_usage,
}

-- The keys of a payload that the runner reads or writes, and the others as one text.
pub record Request : Type 0 where
  pub library_job_id : Option String
  pub jd_text : Option String
  pub jd_url : Option String
  pub optimize_resume : Bool
  pub llm_slot_reserved : Bool
  pub workbench : Bool
  pub others : String

-- An entry of `context._payloads`.
pub record Entry : Type 0 where
  pub entry_id : String
  pub request : Request
  pub application : Option String
  pub owner : String

abbrev pub entry_key : Entry → String
entry_key e = e.entry_id

pub data Write : Type 0 where
  -- `transition_alignment` of a job of the library to a status
  badge : String → String → String → Write
  -- `update_job` to failed, with an error
  badge_failed : String → String → String → Write
  -- `set_application_job`
  link : String → String → String → String → Write

pub record World : Type 0 where
  pub registry : Registry
  pub usage : List Usage
  pub payloads : List Entry
  pub writes : List Write

abbrev pub max_cached_payloads : ℕ
max_cached_payloads = 512

-- `_prune_payload_cache`: the oldest entries go.
unfoldable pub prune_payload_cache : List Entry → List Entry
prune_payload_cache [] = []
prune_payload_cache (e ∷ es) =
    let rest = prune_payload_cache es in
    if ltb max_cached_payloads (length (e ∷ es)) then rest else e ∷ es

abbrev pub put_payload : Entry → List Entry → List Entry
put_payload e es =
    if any (λ x. same x.entry_id e.entry_id) es
    then update (λ x. same x.entry_id e.entry_id) (λ x. e) es
    else es ++ e ∷ []

-- `_sync_alignment_status`
abbrev pub sync_alignment_status : String → Request → String → List Write → List Write
sync_alignment_status tenant p status ws =
    if is_some_text p.library_job_id
    then ws ++ badge tenant (or_text p.library_job_id "") status ∷ []
    else ws

-- `_link_application_job`
abbrev pub link_application_job : String → Option String → String → String → List Write → List Write
link_application_job tenant application id status ws =
    if is_some_text application
    then ws ++ link tenant (or_text application "") id status ∷ []
    else ws

pub data Queued : Type 0 where
  queued_as : String → Queued
  refused : Verdict → Queued
  not_created : Queued

-- What the stages of a run do: the stages announced, the calls of models recorded with their
-- tokens, and a result or the readable reason of a failure.
pub data Ending : Type 0 where
  produced : String → Ending
  broke : String → Ending

pub record Work : Type 0 where
  pub announced : List (String × String)
  pub llm_calls : List (Option ℤ × Option ℤ)
  pub ending : Ending

-- `_execute_claimed_job`: a result, nothing more to do, or an exception.
pub data Executed : Type 0 where
  done : String → Executed
  finalized : Executed
  raised : String → Executed

abbrev pub last_stage : String → List (String × String) → String
last_stage s [] = s
last_stage s (x ∷ xs) = last_stage x.0 xs

unfoldable pub announce : String → List (String × String) → Registry → Registry
announce id [] reg = reg
announce id (x ∷ xs) reg = announce id xs (update_progress id x.0 x.1 reg)

unfoldable pub record_calls :
    CostSettings → String → String → ℕ → List (Option ℤ × Option ℤ) → List Usage → List Usage
record_calls settings tenant day now [] us = us
record_calls settings tenant day now (c ∷ cs) us =
    record_calls settings tenant day now cs
      (record_daily_llm_usage settings tenant c.0 c.1 day now us)

-- The JSON of a payload and the settings of the tenant.
module _ (dumps : Request → String) (settings : CostSettings) where
  abbrev pub admit : Bool → Request → Request
  admit reserved p = if reserved then record p { llm_slot_reserved = true } else p

  abbrev pub enqueue :
      Bool → String → Request → Option String → Registry × Option Job → World → World × Queued
  enqueue workbench tenant p application (reg, none) w = (record w { registry = reg }, not_created)
  enqueue workbench tenant p application (reg, some job) w =
      let entry : Entry = record {
        entry_id = job.job_id;
        request = record p { workbench = workbench };
        application = application;
        owner = tenant;
      } in
      (
        record w {
          registry = reg;
          payloads = prune_payload_cache (put_payload entry w.payloads);
          writes = link_application_job tenant application job.job_id "running" w.writes;
        },
        queued_as job.job_id,
      )

  abbrev pub queue_verdict :
      ℕ
      → String
      → Bool
      → Option String
      → String
      → Request
      → Option String
      → Verdict
      → World
      → World × Queued
  queue_verdict now id workbench current tenant p application (admitted reserved) w =
      let stored = admit reserved p in
      enqueue workbench tenant stored application
        (create now id (dumps stored) (some tenant) application none current w.registry) w
  queue_verdict now id workbench current tenant p application cap_reached w =
      (w, refused cap_reached)
  queue_verdict now id workbench current tenant p application repeated_failures w =
      (w, refused repeated_failures)

  -- `_queue_job`, on a day, up to the start of the worker.
  unfoldable pub queue_job :
      ℕ
      → String
      → String
      → Bool
      → Option String
      → String
      → Request
      → Option String
      → World
      → World × Queued
  unfolding create prune_payload_cache
  queue_job now day id workbench current tenant p application w =
      let entry =
        enforce_llm_task_entry settings tenant p.library_job_id day now w.registry w.usage in
      queue_verdict now id workbench current tenant p application entry.1
        (record w { usage = entry.0 })
