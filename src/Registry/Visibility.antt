-- ===== src/Registry/Visibility.antt =====
-- What the readers of jobs.py see: which rows are shown, and which are reclaimed.
use resu_align_lite.Prelude.{ℕ, ◌+◌, ◌≤◌, ◌<◌, ◌≡◌, String, false, not, Option, none, some, arith}
use resu_align_lite.Prelude.Table.{filter, find, find-filter, find_key}
use resu_align_lite.Registry.Rows.{Job, Registry, job_key, is_terminal, is_purged, is_expired}
use resu_align_lite.Registry.Housekeeping.{purge_expired}
use resu_align_lite.Registry.Reads.{visible_to, get}
use resu_align_lite.Registry.Invariant.{IsValid}

shown :
    (now : ℕ) (id : String) (tenant : Option String) (reg : Registry) {j : Job}
    → (get now id tenant reg).1 ≡ some j
    → (find job_key id (filter (visible_to tenant) reg.jobs) ≡ some j)
      × (is_expired reg j.created_at now ≡ false)
unfolding get
shown now id tenant reg h = ground arith

-- A job that `get` returns has the key that was asked for, belongs to the tenant that asked, is not
-- past its time to live, and is the row of the table.
pub get_scoped :
    (now : ℕ) (id tenant : String) (reg : Registry) (j : Job)
    → IsValid reg
    → (get now id (some tenant) reg).1 ≡ some j
    → (j.job_id ≡ id)
      × (j.tenant_id ≡ tenant)
      × (now ≤ j.created_at + reg.ttl_seconds)
      × (find job_key id reg.jobs ≡ some j)
get_scoped now id tenant reg j v h =
    let (found, live) = shown now id (some tenant) reg h in
    ground (
      arith,
      found,
      live,
      find_key job_key id (filter (visible_to (some tenant)) reg.jobs) found,
      find-filter job_key (visible_to (some tenant)) id reg.jobs v.jobs_unique,
    )

-- An unfinished row past its time to live is shown to nobody and is gone after the purge.
pub unfinished_reclaimed :
    (now : ℕ) (id : String) (tenant : Option String) (reg : Registry) (j : Job)
    → IsValid reg
    → find job_key id reg.jobs ≡ some j
    → is_terminal j.status ≡ false
    → j.created_at + reg.ttl_seconds < now
    → ((get now id tenant reg).1 ≡ none) × (find job_key id (purge_expired now reg).jobs ≡ none)
unfolding purge_expired get
unfinished_reclaimed now id tenant reg j v at open_job late = (
  ground (arith, find-filter job_key (visible_to tenant) id reg.jobs v.jobs_unique),
  ground (arith, find-filter job_key (λ k. not (is_purged reg now k)) id reg.jobs v.jobs_unique),
)
