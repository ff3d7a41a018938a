-- ===== src/Tests/Runner.antt =====
-- A request queued with one slot of the day, and runs of it.
use resu_align_lite.Prelude.{
  ◌-◌, String, ◌≡◌, refl, Bool, true, false, Option, none, some, [], ◌∷◌, String_discrete,
}
use resu_align_lite.Prelude.Int.{pos}
use resu_align_lite.Registry.Housekeeping.{purge_expired, enforce_cap}
use resu_align_lite.Registry.Methods.{create, cancel}
use resu_align_lite.Budget.Usage.{get_usage, reserve_call}
use resu_align_lite.Budget.Guard.{CostSettings, enforce_daily_llm_cap, enforce_llm_task_entry}
use resu_align_lite.Runner.{Request, Entry, World, broke, Work, queue_job}
use resu_align_lite.Runner.Worker.{claim_queued_job, run_job_holding_gate}
use resu_align_lite.Runner.Slots.{slots_used, calls_of, run_job_holding_gate-reserves}

abbrev request_of_resume : Request
request_of_resume = record {
  library_job_id = none;
  jd_text = some "Backend";
  jd_url = none;
  optimize_resume = false;
  llm_slot_reserved = false;
  workbench = false;
  others = "{}";
}

abbrev one_call : CostSettings
one_call = record {
  daily_llm_cap = some (pos 1);
  llm_cost_per_1k_in = none;
  llm_cost_per_1k_out = none;
}

abbrev empty_world : World
empty_world = record {
  registry = record {
    max_jobs = 10;
    ttl_seconds = 100;
    terminal_retention_seconds = 200;
    jobs = [];
    payloads = [];
  };
  usage = [];
  payloads = [];
  writes = [];
}

abbrev as_text : Request → String
as_text p = "{}"

abbrev of_text : String → Request
of_text s = request_of_resume

abbrev queued_world : World
queued_world =
    (queue_job as_text one_call 1 "2026-03-01" "q" false none "t" request_of_resume none
      empty_world).0

-- One call is made, and then the stages fail.
abbrev failing_work : Request → Work
failing_work p = record {
  announced = ("diagnose", "") ∷ [];
  llm_calls = (none, none) ∷ [];
  ending = broke "timeout";
}

abbrev saved : Request → String → Option String
saved p r = none

slot_reserved : (get_usage "t" "2026-03-01" queued_world.usage).reserves ≡ 1
unfolding queue_job get_usage create String_discrete reserve_call enforce_llm_task_entry
    enforce_daily_llm_cap purge_expired enforce_cap
slot_reserved = refl

-- A job that is canceled while it waits is not claimed, and its slot stays reserved.
abbrev canceled_world : World
canceled_world = record queued_world { registry = (cancel 2 "q" queued_world.registry).0 }

abbrev run_after_cancel : World × Bool
run_after_cancel =
    run_job_holding_gate of_text one_call failing_work saved 3 "2026-03-01" "2026-03-01" "q"
      canceled_world

slot_kept :
    ((get_usage "t" "2026-03-01" run_after_cancel.0.usage).reserves ≡ 1)
    × (run_after_cancel.1 ≡ false)
unfolding queue_job get_usage create String_discrete reserve_call cancel run_job_holding_gate
    enforce_llm_task_entry enforce_daily_llm_cap purge_expired enforce_cap
slot_kept = (refl, refl)

abbrev claimed_entry : Entry
claimed_entry = record {
  entry_id = "q";
  request = record request_of_resume { llm_slot_reserved = true };
  application = none;
  owner = "t";
}

claims_entry :
    (claim_queued_job of_text one_call failing_work saved 3 "q" queued_world).1 ≡ some claimed_entry
unfolding queue_job get_usage create String_discrete reserve_call claim_queued_job
    enforce_llm_task_entry enforce_daily_llm_cap purge_expired enforce_cap
claims_entry = refl

run_job_holding_gate-reserves_example :
    (get_usage "t" "2026-03-01"
      (run_job_holding_gate of_text one_call failing_work saved 3 "2026-03-01" "2026-03-01" "q"
        queued_world).0.usage).reserves
    ≡ (get_usage "t" "2026-03-01" queued_world.usage).reserves
      - slots_used (calls_of of_text one_call failing_work saved claimed_entry)
run_job_holding_gate-reserves_example =
    run_job_holding_gate-reserves of_text one_call failing_work saved 3 "2026-03-01" "q"
      queued_world claimed_entry claims_entry refl
