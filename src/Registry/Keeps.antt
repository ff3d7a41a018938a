-- ===== src/Registry/Keeps.antt =====
-- What reclaiming rows in jobs.py does to the row of a key: nothing, or it goes.

use resu_align_lite.Prelude.{
  Option, some, false, ℕ, zero, suc, ◌≡◌, refl, ◌⊎◌, inl, inr, String, not, none, arith, length,
  leb, Option-cases, Bool-cases,
}
use resu_align_lite.Prelude.Table.{same, find, find-filter, find-append}
use resu_align_lite.Registry.Rows.{Job, Registry, job_key, is_purged, in_flight}
use resu_align_lite.Registry.Housekeeping.{
  purge_expired, delete_rows, enforce_cap_loop, enforce_cap, oldest,
}
use resu_align_lite.Registry.Methods.{new_job, insert_job, create}
use resu_align_lite.Registry.Preservation.{insert_job-IsValid}
use resu_align_lite.Registry.Invariant.{IsValid, purge_expired-IsValid, delete_rows-IsValid}

-- The row of a key is left alone or is gone.
abbrev pub Keeps : String → Registry → Registry → Type 0
Keeps id reg new =
    (find job_key id new.jobs ≡ none) ⊎ (find job_key id new.jobs ≡ find job_key id reg.jobs)

pub delete_rows-Keeps :
    (id other : String) (reg : Registry) → IsValid reg → Keeps id reg (delete_rows other reg)
unfolding delete_rows
delete_rows-Keeps id other reg v =
    ground (arith, find-filter job_key (λ j. not (same j.job_id other)) id reg.jobs v.jobs_unique)

pub purge_expired-Keeps :
    (id : String) (now : ℕ) (reg : Registry) → IsValid reg → Keeps id reg (purge_expired now reg)
unfolding purge_expired
purge_expired-Keeps id now reg v =
    ground (arith, find-filter job_key (λ j. not (is_purged reg now j)) id reg.jobs v.jobs_unique)

pub Keeps-trans : (id : String) (a b c : Registry) → Keeps id a b → Keeps id b c → Keeps id a c
Keeps-trans id a b c h k = ground arith

enforce_cap_loop-Keeps :
    (id : String) (fuel : ℕ) (reg : Registry)
    → IsValid reg
    → Keeps id reg (enforce_cap_loop fuel reg)
unfolding enforce_cap_loop
enforce_cap_loop-Keeps id zero reg v = inr refl
enforce_cap_loop-Keeps id (suc fuel) reg v =
    elim (Bool-cases (leb (length reg.jobs) reg.max_jobs)) [
      | inl fits ↦ rw (fits, enforce_cap_loop) (inr refl)
      | inr over ↦ elim (Option-cases (oldest (λ s. not (in_flight s)) reg.jobs)) [
        | inl nobody ↦ rw (over, nobody, enforce_cap_loop) (inr refl)
        | inr (j, e) ↦
            rw (over, e, enforce_cap_loop)
              (Keeps-trans id reg (delete_rows j.job_id reg)
                (enforce_cap_loop fuel (delete_rows j.job_id reg))
                (delete_rows-Keeps id j.job_id reg v)
                (enforce_cap_loop-Keeps id fuel (delete_rows j.job_id reg)
                  (delete_rows-IsValid j.job_id reg v)))
      ]
    ]

pub enforce_cap-Keeps :
    (id : String) (reg : Registry) → IsValid reg → Keeps id reg (enforce_cap reg)
unfolding enforce_cap
enforce_cap-Keeps id reg v = enforce_cap_loop-Keeps id (length reg.jobs) reg v

find-insert_job :
    (id : String) (job : Job) (payload : String) (application : Option String) (reg : Registry)
    {new : Registry}
    → same job.job_id id ≡ false
    → insert_job job payload application reg ≡ some new
    → find job_key id new.jobs ≡ find job_key id reg.jobs
unfolding insert_job
find-insert_job id job payload application reg other e =
    ground (arith, find-append job_key id reg.jobs job)

pub create-Keeps :
    (id : String) (reg : Registry) (v : IsValid reg) (now : ℕ) (key payload : String)
    (tenant application request current : Option String)
    → same key id ≡ false
    → Keeps id reg (create now key payload tenant application request current reg).0
unfolding create new_job
create-Keeps id reg v now key payload tenant application request current other =
    let purged = purge_expired now reg in
    let job = new_job now key tenant request current in
    elim (Option-cases (insert_job job payload application purged)) [
      | inl taken ↦ rw (taken, create) (purge_expired-Keeps id now reg v)
      | inr (new, e) ↦
          rw (e, create)
            (Keeps-trans id reg purged (enforce_cap new) (purge_expired-Keeps id now reg v) (
              Keeps-trans id purged new (enforce_cap new)
                (inr (find-insert_job id job payload application purged other e))
                (enforce_cap-Keeps id new (
                  insert_job-IsValid job payload application purged (refl, refl, refl, refl)
                    (purge_expired-IsValid now reg v) e))))
    ]
