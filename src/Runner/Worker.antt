-- ===== src/Runner/Worker.antt =====
-- The worker of api/services/jobs.py, which holds the gate of the tenant: the claim of a queued job,
-- its run, and what is released after it.
use resu_align_lite.Prelude.{
  ℕ, String, Bool, true, false, not, ◌&&◌, Option, none, some, List, [], ◌∷◌, ◌++◌, ◌==◌,
  if◌then◌else◌,
}
use resu_align_lite.Prelude.Table.{same, filter, find}
use resu_align_lite.Prelude.Texts.{is_empty, strip, or_text}
use resu_align_lite.Registry.Rows.{Job, Registry, is_queued}
use resu_align_lite.Registry.Methods.{is_some_text, claim_running, succeed, fail, delete_payload}
use resu_align_lite.Registry.Reads.{get_payload}
use resu_align_lite.Registry.Reads
use resu_align_lite.Budget.Usage.{Usage, release_call, get_usage}
use resu_align_lite.Budget.Guard.{CostSettings}
use resu_align_lite.Runner.{
  Request, Entry, entry_key, badge_failed, World, sync_alignment_status, link_application_job,
  Ending, produced, broke, Work, Executed, done, finalized, raised, last_stage, announce,
  record_calls,
}

-- Whether a queued job only has a link.
abbrev pub is_url_only : Request → Bool
is_url_only p = is_some_text p.jd_url && is_empty (strip (or_text p.jd_text ""))

-- `_release_job_resources`, with the number of calls before the run if a slot was reserved.
abbrev pub release_slot : String → String → ℕ → Option ℕ → List Usage → List Usage
release_slot tenant day now none us = us
release_slot tenant day now (some before) us =
    if (get_usage tenant day us).calls == before then release_call tenant day now us else us

unfoldable pub release_job_resources : String → String → String → ℕ → Option ℕ → World → World
unfolding get_usage release_call delete_payload
release_job_resources id tenant day now before w = record w {
  registry = delete_payload id w.registry;
  usage = release_slot tenant day now before w.usage;
  payloads = filter (λ e. not (same e.entry_id id)) w.payloads;
}

-- The JSON of a payload, the settings of the tenant, the stages, and the exception of
-- `persist_alignment`, if it raises one on a result.
module _ (loads : String → Request) (settings : CostSettings) (work : Request → Work)
    (persist : Request → String → Option String) where
  -- The entry of the memory, or else the stored payload.
  abbrev pub stored_entry : String → Option (String × String × Option String) → Option Entry
  stored_entry id none = none
  stored_entry id (some p) =
      some (record { entry_id = id; request = loads p.0; application = p.2; owner = p.1 })

  abbrev pub entry_of : String → Option Entry → Registry → Option Entry
  entry_of id (some e) reg = some e
  entry_of id none reg = stored_entry id (get_payload id reg)

  abbrev pub claimed_as : Entry → Registry × Bool → World → World × Option Entry
  claimed_as e (reg, false) w = (record w { registry = reg }, none)
  claimed_as e (reg, true) w = (
    record w {
      registry = reg;
      writes = sync_alignment_status e.owner e.request "running" w.writes;
    },
    some e,
  )

  abbrev pub claim_found : ℕ → String → Entry → Registry × Option Job → World → World × Option Entry
  claim_found now id e (reg, none) w = (record w { registry = reg }, none)
  claim_found now id e (reg, some j) w =
      let claim = claim_running now id reg in
      if is_queued j.status then claimed_as e claim w else (record w { registry = reg }, none)

  abbrev pub claim_entry : ℕ → String → Option Entry → World → World × Option Entry
  claim_entry now id none w = (w, none)
  claim_entry now id (some e) w = claim_found now id e (Reads.get now id none w.registry) w

  -- `_claim_queued_job`
  unfoldable pub claim_queued_job : ℕ → String → World → World × Option Entry
  unfolding get_payload Reads.get claim_running
  claim_queued_job now id w =
      claim_entry now id (entry_of id (find entry_key id w.payloads) w.registry) w

  abbrev pub ended : ℕ → String → Bool → Ending → World → World × Executed
  ended now id optimize (broke error) w = (w, raised error)
  ended now id true (produced r) w =
      (record w { registry = succeed now id (some r) w.registry }, finalized)
  ended now id false (produced r) w = (w, done r)

  -- `_execute_claimed_job`
  unfoldable pub execute_claimed_job : ℕ → String → String → Entry → World → World × Executed
  unfolding fail succeed announce record_calls
  execute_claimed_job now day id e w =
      let job = work e.request in
      if is_url_only e.request
      then (
        record w {
          registry = (fail now id "该岗位只有链接没有 JD 文本：请用浏览器油猴插件抓取，或用「粘贴 JD」方式重新录入" none w.registry).0;
          writes = sync_alignment_status e.owner e.request "failed" w.writes;
        },
        finalized,
      )
      else ended now id e.request.optimize_resume job.ending (record w {
        registry = announce id job.announced w.registry;
        usage = record_calls settings e.owner day now job.llm_calls w.usage;
      })

  -- `_fail_claimed_job`
  unfoldable pub fail_claimed_job : ℕ → String → Entry → String → String → World → World
  unfolding fail
  fail_claimed_job now id e stage error w = record w {
    registry = (fail now id error (some stage) w.registry).0;
    writes = link_application_job e.owner e.application id "failed" (
        if is_some_text e.request.library_job_id
        then w.writes ++ badge_failed e.owner (or_text e.request.library_job_id "") error ∷ []
        else w.writes);
  }

  abbrev pub succeed_job : ℕ → String → Entry → String → World → World
  succeed_job now id e r w = record w {
    registry = succeed now id (some r) w.registry;
    writes = link_application_job e.owner e.application id "succeeded" w.writes;
  }

  abbrev pub persisted : ℕ → String → Entry → String → String → Option String → World → World
  persisted now id e stage r none w = succeed_job now id e r w
  persisted now id e stage r (some error) w = fail_claimed_job now id e stage error w

  abbrev pub finish : ℕ → String → Entry → String → Executed → World → World
  finish now id e stage (done r) w =
      if is_some_text e.request.library_job_id
      then persisted now id e stage r (persist e.request r) w
      else succeed_job now id e r w
  finish now id e stage finalized w = w
  finish now id e stage (raised error) w = fail_claimed_job now id e stage error w

  -- The body of a run from the claim on; `later` is the day on which it ends.
  abbrev pub run_claimed : ℕ → String → String → String → Entry → World → World
  run_claimed now day later id e w =
      let before =
        if e.request.llm_slot_reserved then some (get_usage e.owner day w.usage).calls else none in
      let result = execute_claimed_job now later id e w in
      let stage = if is_url_only e.request then "" else last_stage "" (work e.request).announced in
      release_job_resources id e.owner later now before (finish now id e stage result.1 result.0)

  abbrev pub run_after : ℕ → String → String → String → World × Option Entry → World × Bool
  run_after now day later id (w, none) = (w, false)
  run_after now day later id (w, some e) = (run_claimed now day later id e w, true)

  -- `_run_job_holding_gate`, and whether it claimed the job.
  unfoldable pub run_job_holding_gate : ℕ → String → String → String → World → World × Bool
  unfolding claim_queued_job execute_claimed_job fail_claimed_job release_job_resources
  run_job_holding_gate now day later id w = run_after now day later id (claim_queued_job now id w)
