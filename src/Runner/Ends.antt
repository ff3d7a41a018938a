-- ===== src/Runner/Ends.antt =====
-- A run of api/services/jobs.py leaves its job ended and its payload gone.
use resu_align_lite.Prelude.{String, Bool, true, not, ◌&&◌, Option}
use resu_align_lite.Prelude.Table.{same, any}
use resu_align_lite.Registry.Rows.{Registry, in_flight, selects}
use resu_align_lite.Budget.Guard.{CostSettings}
use resu_align_lite.Runner.{Request, World, Work, Executed, done, finalized, raised}

-- No row of the key is queued or running.
abbrev pub is_over : String → Registry → Bool
is_over id reg = not (any (selects id in_flight) reg.jobs)

-- Neither the memory nor the registry holds a payload of the key.
abbrev pub is_released : String → World → Bool
is_released id w =
    not (any (λ e. same e.entry_id id) w.payloads)
    && not (any (λ p. same p.payload_job_id id) w.registry.payloads)

module _ (loads : String → Request) (settings : CostSettings) (work : Request → Work)
    (persist : Request → String → Option String) where
  -- A run that needs no further end has ended the job.
  abbrev is_settled : String → World × Executed → Bool
  is_settled id (w, done r) = true
  is_settled id (w, finalized) = is_over id w.registry
  is_settled id (w, raised error) = true
