-- ===== src/Registry/Invariant.antt =====
-- What holds of the tables of jobs.py between two calls, and that the helpers keep it.
use resu_align_lite.Prelude.{
  ℕ, zero, suc, ◌≡◌, ◌≢◌, String, Bool, true, false, not, ◌&&◌, none, List, arith, length,
  Option-cases, Bool-cases, ap, leb, inl, inr,
}
use resu_align_lite.Prelude.Table.{
  same, All, any, update, Distinct, All-filter, All-update, All-map, Distinct-filter,
  Distinct-update, any-filter-not, any_none, any-update,
}
use resu_align_lite.Registry.Rows.{
  Status, queued, running, succeeded, failed, canceled, Job, Payload, Registry, job_key,
  payload_key, is_purged, in_flight,
}
use resu_align_lite.Registry.Housekeeping.{
  purge_expired, delete_rows, enforce_cap_loop, enforce_cap, oldest,
}

-- Which timestamps and products a row of a status has.
abbrev pub IsConsistent : Status → Job → Type 0
IsConsistent queued j =
    (j.started_at ≡ none) × (j.finished_at ≡ none) × (j.result_json ≡ none) × (j.error ≡ none)
IsConsistent running j =
    (j.started_at ≢ none) × (j.finished_at ≡ none) × (j.result_json ≡ none) × (j.error ≡ none)
IsConsistent succeeded j = (j.finished_at ≢ none) × (j.error ≡ none)
IsConsistent failed j = (j.finished_at ≢ none) × (j.result_json ≡ none) × (j.error ≢ none)
IsConsistent canceled j = (j.finished_at ≢ none) × (j.result_json ≡ none) × (j.error ≢ none)

abbrev pub IsSound : Job → Type 0
IsSound j = IsConsistent j.status j

abbrev pub has_job : List Job → String → Bool
has_job js id = any (λ j. same j.job_id id) js

abbrev pub IsOwned : List Job → Payload → Type 0
IsOwned js p = has_job js p.payload_job_id ≡ true

-- Keys are unique, every payload has its job, and the rows are consistent.
pub record IsValid (reg : Registry) : Type 0 where
  pub jobs_unique : Distinct job_key reg.jobs
  pub payloads_unique : Distinct payload_key reg.payloads
  pub owned : All (IsOwned reg.jobs) reg.payloads
  pub sound : All IsSound reg.jobs

not-true : (b : Bool) → not b ≡ true → b ≡ false
not-true b h = ground arith

not-same : (a b c : String) → not (same a b) ≡ true → same c a && same c b ≡ false
not-same a b c h = ground arith

pub purge_expired-IsValid :
    (now : ℕ) (reg : Registry) → IsValid reg → IsValid (purge_expired now reg)
unfolding purge_expired
purge_expired-IsValid now reg v = record {
  jobs_unique = Distinct-filter job_key _ reg.jobs v.jobs_unique;
  payloads_unique = Distinct-filter payload_key _ reg.payloads v.payloads_unique;
  owned =
      All-filter _ _ _
        (λ p kept has. any-filter-not _ (is_purged reg now) reg.jobs has (not-true _ kept))
        reg.payloads v.owned;
  sound = All-filter IsSound IsSound _ (λ j kept s. s) reg.jobs v.sound;
}

pub delete_rows-IsValid :
    (id : String) (reg : Registry) → IsValid reg → IsValid (delete_rows id reg)
unfolding delete_rows
delete_rows-IsValid id reg v = record {
  jobs_unique = Distinct-filter job_key _ reg.jobs v.jobs_unique;
  payloads_unique = Distinct-filter payload_key _ reg.payloads v.payloads_unique;
  owned =
      All-filter _ _ _
        (λ p kept has.
          any-filter-not _ (λ j. same j.job_id id) reg.jobs has
            (any_none _ reg.jobs (λ j. not-same p.payload_job_id id j.job_id kept)))
        reg.payloads v.owned;
  sound = All-filter IsSound IsSound _ (λ j kept s. s) reg.jobs v.sound;
}

enforce_cap_loop-IsValid :
    (fuel : ℕ) (reg : Registry) → IsValid reg → IsValid (enforce_cap_loop fuel reg)
unfolding enforce_cap_loop
enforce_cap_loop-IsValid zero reg v = v
enforce_cap_loop-IsValid (suc fuel) reg v = elim (Bool-cases (leb (length reg.jobs) reg.max_jobs)) [
  | inl fits ↦ rw (fits, enforce_cap_loop) v
  | inr over ↦ elim (Option-cases (oldest (λ s. not (in_flight s)) reg.jobs)) [
    | inl nobody ↦ rw (over, nobody, enforce_cap_loop) v
    | inr (j, e) ↦
        rw (over, e, enforce_cap_loop)
          (enforce_cap_loop-IsValid fuel (delete_rows j.job_id reg)
            (delete_rows-IsValid j.job_id reg v))
  ]
]

pub enforce_cap-IsValid : (reg : Registry) → IsValid reg → IsValid (enforce_cap reg)
unfolding enforce_cap
enforce_cap-IsValid reg v = enforce_cap_loop-IsValid (length reg.jobs) reg v

-- An UPDATE that keeps the key and leaves a consistent row.
pub update-IsValid :
    (p : Job → Bool) (f : Job → Job)
    → ((j : Job) → (f j).job_id ≡ j.job_id)
    → ((j : Job) → p j ≡ true → IsSound j → IsSound (f j))
    → (reg : Registry) → IsValid reg
    → IsValid (record reg { jobs = update p f reg.jobs })
update-IsValid p f keeps makes reg v = record {
  jobs_unique = Distinct-update job_key p f keeps reg.jobs v.jobs_unique;
  payloads_unique = v.payloads_unique;
  owned =
      All-map (IsOwned reg.jobs) (IsOwned (update p f reg.jobs))
        (λ x has.
          rw
            (any-update (λ j. same j.job_id x.payload_job_id) p f
              (λ j. ap (λ k. same k x.payload_job_id) (keeps j)) reg.jobs)
            has)
        reg.payloads v.owned;
  sound = All-update IsSound p f makes reg.jobs v.sound;
}
