-- ===== src/Delivery/Writes.antt =====
-- The library's writes of the delivery stage: the bulk update, the single edit and the
-- application snapshots that both freeze (job_library/__init__.py).
use resu_align_lite.Prelude.{
  ℕ, ◌+◌, max, String, Bool, false, not, ◌&&◌, ◌||◌, Option, none, some, List, [], ◌∷◌, ◌++◌,
  if◌then◌else◌,
}
use resu_align_lite.Prelude.Table.{same, update}
use resu_align_lite.Prelude.Texts.{is_empty, or_text, strip}
use resu_align_lite.Delivery.Vocabulary.{canonical_status, validate_status}
use resu_align_lite.Delivery.Timeline.{Timeline, status_lifecycle_fields, write_timeline, no_writes}

-- The columns of `library_jobs` that these writes read or change.
pub record LibraryRow : Type 0 where
  pub job_id : String
  pub tenant_id : String
  pub status : String
  pub dates : Timeline
  pub final_draft : Option String
  pub match_score : Option ℕ
  pub workbench_resume_id : Option String
  pub updated_at : ℕ

pub record Snapshot : Type 0 where
  pub snapshot_tenant : String
  pub snapshot_job : String
  pub version_index : ℕ
  pub draft : String
  pub score : Option ℕ
  pub master_resume_id : Option String
  pub applied_on : String

pub record Library : Type 0 where
  pub rows : List LibraryRow
  pub snapshots : List Snapshot

-- `WHERE job_id = ? AND tenant_id = ?`
abbrev pub is_row : String → String → LibraryRow → Bool
is_row tenant_id job_id r = same r.job_id job_id && same r.tenant_id tenant_id

abbrev pub is_snapshot : String → String → Snapshot → Bool
is_snapshot tenant_id job_id s = same s.snapshot_tenant tenant_id && same s.snapshot_job job_id

-- The row a SELECT with that condition fetches; `job_id` is the primary key.
abbrev pub fetch : String → String → List LibraryRow → Option LibraryRow
fetch tenant_id job_id [] = none
fetch tenant_id job_id (r ∷ rs) =
    let rest = fetch tenant_id job_id rs in if is_row tenant_id job_id r then some r else rest

-- `COALESCE(MAX(version_index), 0)`
abbrev pub last_version : String → String → List Snapshot → ℕ
last_version tenant_id job_id [] = 0
last_version tenant_id job_id (s ∷ ss) =
    let rest = last_version tenant_id job_id ss in
    if is_snapshot tenant_id job_id s then max s.version_index rest else rest

unfoldable pub insert_application_snapshot :
    List Snapshot
    → String
    → String
    → Option String
    → Option ℕ
    → Option String
    → String
    → String
    → List Snapshot
insert_application_snapshot ss tenant_id job_id final_draft match_score resume_id applied_at today =
    let text = or_text final_draft "" in
    if is_empty text || is_empty (strip text)
    then ss
    else ss
      ++ record {
        snapshot_tenant = tenant_id;
        snapshot_job = job_id;
        version_index = last_version tenant_id job_id ss + 1;
        draft = text;
        score = match_score;
        master_resume_id = resume_id;
        applied_on = (if is_empty applied_at then today else applied_at);
      }
        ∷ []

-- The snapshot of a row as it stands.
abbrev pub freeze_row : String → LibraryRow → List Snapshot → List Snapshot
freeze_row today r ss =
    insert_application_snapshot ss r.tenant_id r.job_id r.final_draft r.match_score
      r.workbench_resume_id (or_text r.dates.applied_at today) today

pub data BulkOutcome : Type 0 where
  updated : LibraryRow → BulkOutcome
  not_found : BulkOutcome
  conflict : LibraryRow → BulkOutcome

-- The row with the stage and the timeline of a move.
abbrev pub moved : String → String → ℕ → LibraryRow → LibraryRow
moved status today now r = record r {
  status = status;
  dates = write_timeline (status_lifecycle_fields r.dates status today no_writes) r.dates;
  updated_at = now;
}

-- The first matching rows written, as the UPDATE of one id does.
abbrev pub write_row : String → String → LibraryRow → List LibraryRow → List LibraryRow
write_row tenant_id job_id r rs = update (is_row tenant_id job_id) (λ old. r) rs

-- Whether a row is in another stage than the expected one.
abbrev pub differs : Option String → LibraryRow → Bool
differs none r = false
differs (some e) r = not (same (canonical_status r.status) e)

-- `applied` recorded again for a job past the draft stage.
abbrev pub re_records : String → LibraryRow → Bool
re_records status r =
    same "applied" (canonical_status status) && not (same "draft" (canonical_status r.status))

-- What one turn of the loop of `bulk_update_status` does with the row it fetched.
abbrev pub bulk_row :
    String → Option String → String → ℕ → Option LibraryRow → Library → BulkOutcome × Library
bulk_row status expected today now none l = (not_found, l)
bulk_row status expected today now (some r) l =
    if differs expected r
    then (conflict r, l)
    else if re_records status r
    then (updated r, record { rows = l.rows; snapshots = freeze_row today r l.snapshots })
    else let new = moved status today now r in
      (
        updated new,
        record {
          rows = write_row r.tenant_id r.job_id new l.rows;
          snapshots =
              (if same "applied" (canonical_status status)
                then freeze_row today new l.snapshots
                else l.snapshots);
        },
      )

unfoldable pub bulk_loop :
    String
    → List String
    → String
    → Option String
    → String
    → ℕ
    → Library
    → List (String × BulkOutcome) × Library
bulk_loop tenant_id [] status expected today now l = ([], l)
bulk_loop tenant_id (id ∷ ids) status expected today now l =
    let step = bulk_row status expected today now (fetch tenant_id id l.rows) l in
    let rest = bulk_loop tenant_id ids status expected today now step.1 in
    ((id, step.0) ∷ rest.0, rest.1)

-- The expected stage, checked as the target is: none for the error.
abbrev pub check_expected : Option String → Option (Option String)
check_expected none = some none
check_expected (some e) = elim (validate_status e) [
  | none ↦ none
  | some v ↦ some (some (canonical_status v))
]

abbrev pub run_bulk :
    String
    → List String
    → Option String
    → Option (Option String)
    → String
    → ℕ
    → Library
    → Option (List (String × BulkOutcome) × Library)
run_bulk tenant_id ids none expected today now l = none
run_bulk tenant_id ids (some status) none today now l = none
run_bulk tenant_id ids (some status) (some expected) today now l =
    some (bulk_loop tenant_id ids (canonical_status status) expected today now l)

-- none stands for the UserStoreError, which leaves the library as it is.
unfoldable pub bulk_update_status :
    String
    → List String
    → String
    → Option String
    → String
    → ℕ
    → Library
    → Option (List (String × BulkOutcome) × Library)
bulk_update_status tenant_id [] status expected today now l = some ([], l)
bulk_update_status tenant_id (id ∷ ids) status expected today now l =
    run_bulk tenant_id (id ∷ ids) (validate_status status) (check_expected expected) today now l

-- The library after a call: an error leaves it as it was.
abbrev pub after : Option (List (String × BulkOutcome) × Library) → Library → Library
after none l = l
after (some r) l = r.1

-- What a call reports, in order.
abbrev pub reports : Option (List (String × BulkOutcome) × Library) → List (String × BulkOutcome)
reports none = []
reports (some r) = r.0
