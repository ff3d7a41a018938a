-- ===== src/Registry/Traces.antt =====
-- Whole histories of the job table of jobs.py: the first terminal write wins, and a job is claimed
-- by one worker.
use resu_align_lite.Prelude.{
  ℕ, ◌≡◌, refl, ◌⊎◌, inl, inr, String, Bool, true, false, not, ◌||◌, Option, none, some, List, [],
  ◌∷◌, arith, Option-cases,
}
use resu_align_lite.Prelude.Table.{same, All, any, find, update, find-update, any_of_key, find_key}
use resu_align_lite.Registry.Rows.{
  running, failed, Job, Registry, job_key, selects, in_flight, is_terminal, is_queued,
}
use resu_align_lite.Registry.Housekeeping.{delete_rows}
use resu_align_lite.Registry.Methods.{
  create, delete_payload, claim_running, requeue_interrupted, update_progress, succeed, fail,
  cancel, delete, clear,
}
use resu_align_lite.Registry.Reads.{get}
use resu_align_lite.Registry.Operations.{
  Call, creates, drops_payload, claims, requeues, progresses, succeeds, fails, cancels, deletes,
  gets, clears, step, run,
}
use resu_align_lite.Registry.Invariant.{IsValid}
use resu_align_lite.Registry.Preservation.{step-IsValid}
use resu_align_lite.Registry.Keeps.{Keeps, delete_rows-Keeps, create-Keeps}
use resu_align_lite.Registry.Lifecycle.{inserts, is_requeue, step-Follows}

module _ (id : String) (reg : Registry) (v : IsValid reg)
    (gone : find job_key id reg.jobs ≡ none) where
  still_gone : (new : Registry) → Keeps id reg new → find job_key id new.jobs ≡ none
  still_gone new k = ground arith

  updated_gone :
      (p : Job → Bool) (f : Job → Job)
      → ((k : Job) → (f k).job_id ≡ k.job_id)
      → find job_key id (update p f reg.jobs) ≡ none
  updated_gone p f keeps = rw (find-update job_key p f keeps id reg.jobs, gone) refl

  step_gone : (c : Call) → inserts id c ≡ false → find job_key id (step reg c).jobs ≡ none
  unfolding step claim_running requeue_interrupted update_progress succeed fail cancel clear
      delete_payload delete get
  step_gone (creates now key payload tenant application request current) other =
      still_gone (create now key payload tenant application request current reg).0
        (create-Keeps id reg v now key payload tenant application request current other)
  step_gone (drops_payload key) other = gone
  step_gone (claims now key) other = updated_gone _ _ (λ k. refl)
  step_gone (requeues key none) other = updated_gone _ _ (λ k. refl)
  step_gone (requeues key (some request)) other = updated_gone _ _ (λ k. refl)
  step_gone (progresses key stage message) other = updated_gone _ _ (λ k. refl)
  step_gone (succeeds now key result) other = updated_gone _ _ (λ k. refl)
  step_gone (fails now key error none) other = updated_gone _ _ (λ k. refl)
  step_gone (fails now key error (some stage)) other =
      let f : Job → Job =
        λ k. record k { status = failed; error = some error; finished_at = some now } in
      ground (
        arith,
        updated_gone (selects key in_flight) f (λ k. refl),
        find-update job_key (λ k. same k.job_id key) (λ k. record k { stage = stage }) (λ k. refl)
            id (update (selects key in_flight) f reg.jobs),
      )
  step_gone (cancels now key) other = updated_gone _ _ (λ k. refl)
  step_gone (deletes key tenant) other =
      ground (arith, still_gone (delete_rows key reg) (delete_rows-Keeps id key reg v))
  step_gone (gets now key tenant) other =
      ground (arith, still_gone (delete_rows key reg) (delete_rows-Keeps id key reg v))
  step_gone clears other = refl

-- No call of the list inserts the key.
abbrev pub NeverInserts : String → List Call → Type 0
NeverInserts id = All (λ c. inserts id c ≡ false)

run_gone :
    (id : String) (reg : Registry) (cs : List Call)
    → IsValid reg
    → find job_key id reg.jobs ≡ none
    → NeverInserts id cs
    → find job_key id (run reg cs).jobs ≡ none
unfolding run
run_gone id reg [] v h fresh = h
run_gone id reg (c ∷ cs) v h fresh =
    run_gone id (step reg c) cs (step-IsValid reg c v) (step_gone id reg v h c fresh.0) fresh.1

terminal_step :
    (id : String) (reg : Registry) (c : Call) (j : Job)
    → IsValid reg
    → find job_key id reg.jobs ≡ some j
    → is_terminal j.status ≡ true
    → inserts id c ≡ false
    → (find job_key id (step reg c).jobs ≡ none) ⊎ (find job_key id (step reg c).jobs ≡ some j)
terminal_step id reg c j v at over fresh = ground (arith, step-Follows id j reg v at c fresh)

-- A job that is succeeded, failed or canceled is never written again: after any calls that do not
-- insert its key, its row is unchanged, result, error and timestamps included, or it is gone.
pub terminal_frozen :
    (id : String) (reg : Registry) (cs : List Call) (j : Job)
    → IsValid reg
    → find job_key id reg.jobs ≡ some j
    → is_terminal j.status ≡ true
    → NeverInserts id cs
    → (find job_key id (run reg cs).jobs ≡ none) ⊎ (find job_key id (run reg cs).jobs ≡ some j)
unfolding run
terminal_frozen id reg [] j v at over fresh = inr at
terminal_frozen id reg (c ∷ cs) j v at over fresh =
    elim (terminal_step id reg c j v at over fresh.0) [
      | inl gone ↦ inl (run_gone id (step reg c) cs (step-IsValid reg c v) gone fresh.1)
      | inr same_row ↦
          terminal_frozen id (step reg c) cs j (step-IsValid reg c v) same_row over fresh.1
    ]

-- The key has no queued row.
abbrev is_taken : Option Job → Bool
is_taken none = true
is_taken (some j) = not (is_queued j.status)

abbrev IsTaken : String → Registry → Type 0
IsTaken id reg = is_taken (find job_key id reg.jobs) ≡ true

step-IsTaken :
    (id : String) (reg : Registry) (c : Call)
    → IsValid reg
    → IsTaken id reg
    → inserts id c ≡ false
    → is_requeue c ≡ false
    → IsTaken id (step reg c)
step-IsTaken id reg c v taken fresh kept = elim (Option-cases (find job_key id reg.jobs)) [
  | inl gone ↦ rw (step_gone id reg v gone c fresh) refl
  | inr (j, at) ↦ ground (arith, step-Follows id j reg v at c fresh)
]

run-IsTaken :
    (id : String) (reg : Registry) (cs : List Call)
    → IsValid reg
    → IsTaken id reg
    → All (λ c. inserts id c || is_requeue c ≡ false) cs
    → IsValid (run reg cs) × IsTaken id (run reg cs)
unfolding run
run-IsTaken id reg [] v taken calm = (v, taken)
run-IsTaken id reg (c ∷ cs) v taken calm =
    run-IsTaken id (step reg c) cs (step-IsValid reg c v)
      (step-IsTaken id reg c v taken (ground arith) (ground arith)) calm.1

claimed :
    (now : ℕ) (id : String) (reg : Registry) → IsValid reg → IsTaken id (claim_running now id reg).0
unfolding claim_running
claimed now id reg v =
    let row =
      find-update job_key (selects id is_queued)
        (λ k. record k { status = running; started_at = some now }) (λ k. refl) id reg.jobs in
    elim (Option-cases (find job_key id reg.jobs)) [
      | inl gone ↦ ground (arith, row)
      | inr (j, at) ↦ ground (arith, row, find_key job_key id reg.jobs at)
    ]

taken-unclaimable :
    (now : ℕ) (id : String) (reg : Registry)
    → IsValid reg
    → IsTaken id reg
    → (claim_running now id reg).1 ≡ false
unfolding claim_running
taken-unclaimable now id reg v taken =
    let answer : any (selects id is_queued) reg.jobs
        ≡ elim (find job_key id reg.jobs) [ none ↦ false | some k ↦ is_queued k.status ] =
      any_of_key job_key (λ k. is_queued k.status) id reg.jobs v.jobs_unique in
    ground (arith, answer)

-- After a worker has tried to claim a job, no later claim of it succeeds, whatever other calls come
-- between, unless one of them requeues a job or inserts the key again.
pub claim_exclusive :
    (id : String) (reg : Registry) (cs : List Call) (now later : ℕ)
    → IsValid reg
    → All (λ c. inserts id c || is_requeue c ≡ false) cs
    → (claim_running later id (run (claim_running now id reg).0 cs)).1 ≡ false
unfolding step
claim_exclusive id reg cs now later v calm =
    let after =
      run-IsTaken id (claim_running now id reg).0 cs (step-IsValid reg (claims now id) v)
        (claimed now id reg v) calm in
    taken-unclaimable later id (run (claim_running now id reg).0 cs) after.0 after.1
