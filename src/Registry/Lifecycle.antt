-- ===== src/Registry/Lifecycle.antt =====
-- What a call of jobs.py can do to one row: the transitions of the status, and that a terminal row
-- is never written again.
use resu_align_lite.Prelude.{
  ◌≡◌, refl, ◌⊎◌, inl, String, Bool, true, false, Option, none, some, arith, if◌then◌else◌,
}
use resu_align_lite.Prelude.Table.{same, any, find, update, find-update, any_of_key, find_key}
use resu_align_lite.Registry.Rows.{
  Status, queued, running, succeeded, failed, canceled, Job, Registry, job_key, selects, in_flight,
  is_queued, is_running,
}
use resu_align_lite.Registry.Housekeeping.{delete_rows}
use resu_align_lite.Registry.Methods.{
  update_job, create, delete_payload, claim_running, requeue_interrupted, update_progress, succeed,
  fail, fail_stage, cancel, delete, clear,
}
use resu_align_lite.Registry.Reads.{get}
use resu_align_lite.Registry.Operations.{
  Call, creates, drops_payload, claims, requeues, progresses, succeeds, fails, cancels, deletes,
  gets, clears, step,
}
use resu_align_lite.Registry.Invariant.{IsValid}
use resu_align_lite.Registry.Keeps.{Keeps, delete_rows-Keeps, create-Keeps}

-- The transitions of the job table: a queued job is claimed, finished or canceled, a running one is
-- requeued (by that call alone), reports progress or finishes, and nothing leaves a terminal status.
abbrev pub allows : Bool → Status → Status → Bool
allows requeue queued queued = false
allows requeue queued _ = true
allows requeue running queued = requeue
allows requeue running canceled = false
allows requeue running _ = true
allows requeue _ _ = false

abbrev pub is_requeue : Call → Bool
is_requeue (requeues id request) = true
is_requeue _ = false

-- What may stand in the place of a row after one call.
abbrev pub Follows : Bool → Job → Option Job → Type 0
Follows requeue j none = Unit
Follows requeue j (some k) =
    (k ≡ j)
    ⊎ ((allows requeue j.status k.status ≡ true)
        × (k.job_id ≡ j.job_id)
        × (k.tenant_id ≡ j.tenant_id)
        × (k.created_at ≡ j.created_at))

-- Whether a call inserts a row with this key.
abbrev pub inserts : String → Call → Bool
inserts id (creates now new payload tenant application request current) = same new id
inserts id _ = false

module _ (id : String) (j : Job) (reg : Registry) (v : IsValid reg)
    (at : find job_key id reg.jobs ≡ some j) where
  Keeps-Follows :
      (requeue : Bool) (new : Registry)
      → Keeps id reg new
      → Follows requeue j (find job_key id new.jobs)
  Keeps-Follows requeue new k = ground arith

  updated :
      (p : Job → Bool) (f : Job → Job)
      → ((k : Job) → (f k).job_id ≡ k.job_id)
      → find job_key id (update p f reg.jobs) ≡ some (if p j then f j else j)
  updated p f keeps = rw (find-update job_key p f keeps id reg.jobs, at) refl

  -- Both statements of `fail`, where a stage is given.
  fail_stage-Follows :
      (key stage : String) (f : Job → Job)
      → ((k : Job) → (f k).job_id ≡ k.job_id)
      → (in_flight j.status ≡ true
          → Follows false j (some (f j)) × Follows false j (some (record (f j) { stage = stage })))
      → Follows false j
          (find job_key id (fail_stage key (some stage) (update_job key in_flight f reg)).0.jobs)
  fail_stage-Follows key stage f keeps h =
      let in_time : any (selects key in_flight) reg.jobs
          ≡ elim (find job_key key reg.jobs) [ none ↦ false | some k ↦ in_flight k.status ] =
        any_of_key job_key (λ k. in_flight k.status) key reg.jobs v.jobs_unique in
      ground (
        arith,
        keeps j,
        in_time,
        find_key job_key id reg.jobs at,
        updated (selects key in_flight) f keeps,
        find-update job_key (λ k. same k.job_id key) (λ k. record k { stage = stage }) (λ k. refl)
            id (update (selects key in_flight) f reg.jobs),
      )

  -- After one call that does not insert its key, the row of a job is gone, is unchanged, or keeps its
  -- key, tenant and time of creation and has made one transition of the table above: only a requeue
  -- takes a running job back to the queue, only a queued job is canceled, nothing leaves a final status.
  pub step-Follows :
      (c : Call)
      → inserts id c ≡ false
      → Follows (is_requeue c) j (find job_key id (step reg c).jobs)
  unfolding step claim_running requeue_interrupted update_progress succeed fail cancel clear
      delete_payload delete get
  step-Follows (creates now key payload tenant application request current) other =
      Keeps-Follows false (create now key payload tenant application request current reg).0
        (create-Keeps id reg v now key payload tenant application request current other)
  step-Follows (drops_payload key) other = rw at (inl refl)
  step-Follows (claims now key) other =
      rw
        (updated (selects key is_queued) (λ k. record k { status = running; started_at = some now })
          (λ k. refl))
        (ground arith)
  step-Follows (requeues key none) other =
      rw
        (updated (selects key is_running) (λ k. record k { status = queued; started_at = none })
          (λ k. refl))
        (ground arith)
  step-Follows (requeues key (some request)) other =
      rw
        (updated (selects key is_running)
          (λ k. record k { status = queued; started_at = none; request_id = request }) (λ k. refl))
        (ground arith)
  step-Follows (progresses key stage message) other =
      rw
        (updated (selects key is_running) (λ k. record k { stage = stage; message = message })
          (λ k. refl))
        (ground arith)
  step-Follows (succeeds now key result) other =
      rw
        (updated (selects key in_flight)
          (λ k. record k { status = succeeded; result_json = result; finished_at = some now })
          (λ k. refl))
        (ground arith)
  step-Follows (fails now key error none) other =
      rw
        (updated (selects key in_flight)
          (λ k. record k { status = failed; error = some error; finished_at = some now })
          (λ k. refl))
        (ground arith)
  step-Follows (fails now key error (some stage)) other =
      fail_stage-Follows key stage
        (λ k. record k { status = failed; error = some error; finished_at = some now }) (λ k. refl)
        (λ h. (ground arith, ground arith))
  step-Follows (cancels now key) other =
      rw
        (updated (selects key is_queued)
          (λ k. record k {
            status = canceled;
            error = some "Canceled by user";
            finished_at = some now;
          })
          (λ k. refl))
        (ground arith)
  step-Follows (deletes key tenant) other =
      ground (arith, Keeps-Follows false (delete_rows key reg) (delete_rows-Keeps id key reg v))
  step-Follows (gets now key tenant) other =
      ground (arith, Keeps-Follows false (delete_rows key reg) (delete_rows-Keeps id key reg v))
  step-Follows clears other = tt
