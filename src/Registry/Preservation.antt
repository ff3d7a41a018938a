-- ===== src/Registry/Preservation.antt =====
-- Every method of `JobRegistry` keeps the tables valid.
use resu_align_lite.Prelude.{
  ℕ, ◌≡◌, refl, inl, inr, String, Bool, true, false, Option, none, some, List, [], ◌∷◌, ◌++◌, arith,
  Option-cases, sym, subst,
}
use resu_align_lite.Prelude.Table.{
  same, any, All-filter, All-append, All-map, Distinct-append, Distinct-filter, any-append,
  find-any,
}
use resu_align_lite.Registry.Rows.{Job, Payload, Registry, job_key, payload_key}
use resu_align_lite.Registry.Housekeeping.{purge_expired}
use resu_align_lite.Registry.Methods.{
  new_job, with_job, new_payload, insert_job, create, delete_payload, claim_running,
  requeue_interrupted, update_progress, succeed, fail, cancel, delete, clear, set_stage, fail_stage,
}
use resu_align_lite.Registry.Reads.{get}
use resu_align_lite.Registry.Operations.{
  Call, creates, drops_payload, claims, requeues, progresses, succeeds, fails, cancels, deletes,
  gets, clears, step, run,
}
use resu_align_lite.Registry.Invariant.{
  IsSound, IsOwned, IsValid, has_job, purge_expired-IsValid, delete_rows-IsValid,
  enforce_cap-IsValid, update-IsValid,
}

append-IsOwned : (js : List Job) (j : Job) (p : Payload) → IsOwned js p → IsOwned (js ++ j ∷ []) p
append-IsOwned js j p h = rw (any-append (λ k. same k.job_id p.payload_job_id) js j, h) refl

has_job-append_self :
    (js : List Job) (j : Job) (id : String) → j.job_id ≡ id → has_job (js ++ j ∷ []) id ≡ true
has_job-append_self js j id e = rw (any-append (λ k. same k.job_id id) js j) (ground arith)

inserted-IsValid :
    (j : Job) (p : Payload) (reg : Registry)
    → p.payload_job_id ≡ j.job_id
    → IsSound j
    → has_job reg.jobs j.job_id ≡ false
    → any (λ x. same x.payload_job_id j.job_id) reg.payloads ≡ false
    → IsValid reg
    → IsValid (with_job j p reg)
inserted-IsValid j p reg e s new_key new_payload_key v = record {
  jobs_unique =
      Distinct-append job_key reg.jobs j v.jobs_unique (find-any job_key j.job_id reg.jobs new_key);
  payloads_unique =
      Distinct-append payload_key reg.payloads p v.payloads_unique
        (rw e (find-any payload_key j.job_id reg.payloads new_payload_key));
  owned =
      All-append (IsOwned (reg.jobs ++ j ∷ [])) reg.payloads p
        (All-map (IsOwned reg.jobs) (IsOwned (reg.jobs ++ j ∷ [])) (append-IsOwned reg.jobs j)
          reg.payloads v.owned)
        (has_job-append_self reg.jobs j p.payload_job_id (sym e));
  sound = All-append IsSound reg.jobs j v.sound s;
}

-- A fresh consistent row and its payload.
pub insert_job-IsValid :
    (j : Job) (payload : String) (application : Option String) (reg : Registry) {new : Registry}
    → IsSound j
    → IsValid reg
    → insert_job j payload application reg ≡ some new
    → IsValid new
unfolding insert_job
insert_job-IsValid j payload application reg s v e =
    let fresh : (has_job reg.jobs j.job_id ≡ false)
        × (any (λ x. same x.payload_job_id j.job_id) reg.payloads ≡ false) =
      ground arith in
    subst IsValid (ground arith)
      (inserted-IsValid j (new_payload j payload application) reg refl s fresh.0 fresh.1 v)

pub create-IsValid :
    (now : ℕ) (id payload : String) (tenant application request current : Option String)
    (reg : Registry)
    → IsValid reg
    → IsValid (create now id payload tenant application request current reg).0
unfolding create
create-IsValid now id payload tenant application request current reg v =
    let purged = purge_expired now reg in
    let job = new_job now id tenant request current in
    elim (Option-cases (insert_job job payload application purged)) [
      | inl taken ↦ rw (taken, create) (purge_expired-IsValid now reg v)
      | inr (new, e) ↦
          rw (e, create)
            (enforce_cap-IsValid new (
              insert_job-IsValid job payload application purged
                (unfold new_job in (refl, refl, refl, refl)) (purge_expired-IsValid now reg v) e))
    ]

delete_payload-IsValid :
    (id : String) (reg : Registry) → IsValid reg → IsValid (delete_payload id reg)
unfolding delete_payload
delete_payload-IsValid id reg v = record {
  jobs_unique = v.jobs_unique;
  payloads_unique = Distinct-filter payload_key _ reg.payloads v.payloads_unique;
  owned =
      All-filter (IsOwned reg.jobs) (IsOwned reg.jobs) _ (λ p kept has. has) reg.payloads v.owned;
  sound = v.sound;
}

set_stage-IsValid :
    (id stage : String) (reg : Registry) → IsValid reg → IsValid (set_stage id stage reg)
set_stage-IsValid id stage reg v =
    update-IsValid _ (λ j. record j { stage = stage }) (λ j. refl) (λ j h s. ground arith) reg v

fail_stage-IsValid :
    (id : String) (stage : Option String) (out : Registry × Bool)
    → IsValid out.0
    → IsValid (fail_stage id stage out).0
fail_stage-IsValid id none out v = v
fail_stage-IsValid id (some stage) (reg, updated) v =
    ground (arith, set_stage-IsValid id stage reg v)

delete-IsValid :
    (id : String) (tenant : Option String) (reg : Registry)
    → IsValid reg
    → IsValid (delete id tenant reg).0
unfolding delete
delete-IsValid id tenant reg v = ground (arith, delete_rows-IsValid id reg v)

get-IsValid :
    (now : ℕ) (id : String) (tenant : Option String) (reg : Registry)
    → IsValid reg
    → IsValid (get now id tenant reg).0
unfolding get
get-IsValid now id tenant reg v = ground (arith, delete_rows-IsValid id reg v)

pub step-IsValid : (reg : Registry) (c : Call) → IsValid reg → IsValid (step reg c)
unfolding step claim_running requeue_interrupted update_progress succeed fail cancel clear
step-IsValid reg (creates now id payload tenant application request current) v =
    create-IsValid now id payload tenant application request current reg v
step-IsValid reg (drops_payload id) v = delete_payload-IsValid id reg v
step-IsValid reg (claims now id) v = update-IsValid _ _ (λ j. refl) (λ j h s. ground arith) reg v
step-IsValid reg (requeues id none) v = update-IsValid _ _ (λ j. refl) (λ j h s. ground arith) reg v
step-IsValid reg (requeues id (some request)) v =
    update-IsValid _ _ (λ j. refl) (λ j h s. ground arith) reg v
step-IsValid reg (progresses id stage message) v =
    update-IsValid _ _ (λ j. refl) (λ j h s. ground arith) reg v
step-IsValid reg (succeeds now id result) v =
    update-IsValid _ _ (λ j. refl) (λ j h s. ground arith) reg v
step-IsValid reg (fails now id error stage) v =
    fail_stage-IsValid id stage _ (update-IsValid _ _ (λ j. refl) (λ j h s. ground arith) reg v)
step-IsValid reg (cancels now id) v = update-IsValid _ _ (λ j. refl) (λ j h s. ground arith) reg v
step-IsValid reg (deletes id tenant) v = delete-IsValid id tenant reg v
step-IsValid reg (gets now id tenant) v = get-IsValid now id tenant reg v
step-IsValid reg clears v = record {
  jobs_unique = tt;
  payloads_unique = tt;
  owned = tt;
  sound = tt;
}

-- Any sequence of calls, in any interleaving, keeps the tables valid: keys stay unique, no payload
-- outlives its job, and the timestamps, result and error of a row agree with its status.
pub run-IsValid : (reg : Registry) (cs : List Call) → IsValid reg → IsValid (run reg cs)
unfolding run
run-IsValid reg [] v = v
run-IsValid reg (c ∷ cs) v = run-IsValid (step reg c) cs (step-IsValid reg c v)
