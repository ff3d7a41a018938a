-- ===== src/Delivery/Edit.antt =====
-- The single edit of a library job, as far as its stage and timeline go: `update_job`,
-- `_resolve_job_update_lifecycle`, `_build_job_update_assignments` and `_persist_job_update` of
-- job_library/__init__.py. The columns that neither
-- these nor a snapshot read are left out, and the dates are taken as normalised already.
use resu_align_lite.Prelude.{
  ℕ, String, Bool, true, false, not, ◌&&◌, Option, none, some, List, if◌then◌else◌,
}
use resu_align_lite.Prelude.Table.{same}
use resu_align_lite.Prelude.Texts.{is_empty, or_text, strip}
use resu_align_lite.Delivery.Vocabulary.{canonical_status, validate_status}
use resu_align_lite.Delivery.Transitions.{validate_status_transition, is_terminal_status}
use resu_align_lite.Delivery.Timeline.{Timeline, status_lifecycle_fields, write_timeline}
use resu_align_lite.Delivery.Writes.{
  LibraryRow, Library, fetch, write_row, re_records, freeze_row, insert_application_snapshot,
  Snapshot,
}

-- What `_resolve_job_update_lifecycle` returns or raises: an illegal move, no such job, a snapshot
-- only, dated as given, or the timeline fields to write.
pub data Resolution : Type 0 where
  illegal : Resolution
  missing : Resolution
  append_only : String → Resolution
  write : Timeline → Resolution

-- `fields[field] = value` for the fields of the lifecycle.
abbrev pub overlay_field : Option String → Option String → Option String
overlay_field none own = own
overlay_field (some v) own = some v

abbrev pub overlay : Timeline → Timeline → Timeline
overlay w fields = record {
  applied_at = overlay_field w.applied_at fields.applied_at;
  offer_at = overlay_field w.offer_at fields.offer_at;
  rejected_at = overlay_field w.rejected_at fields.rejected_at;
  next_step = overlay_field w.next_step fields.next_step;
  next_step_due_at = overlay_field w.next_step_due_at fields.next_step_due_at;
  interview_stage = overlay_field w.interview_stage fields.interview_stage;
}

-- A revived job keeps the dates of its terminal stages.
abbrev pub keep_terminal_dates : Bool → Timeline → Timeline
keep_terminal_dates true w = record w { offer_at = none; rejected_at = none }
keep_terminal_dates false w = w

unfoldable pub resolve_lifecycle :
    Option LibraryRow → Option String → Timeline → Bool → String → Resolution
resolve_lifecycle current none fields revive today = write fields
resolve_lifecycle none (some status) fields revive today = missing
resolve_lifecycle (some r) (some status) fields revive today =
    if not revive && re_records status r
    then append_only (or_text fields.applied_at (or_text r.dates.applied_at today))
    else if not (validate_status_transition (some r.status) status revive)
    then illegal
    else let lifecycle = status_lifecycle_fields r.dates status today fields in
      write (
        overlay (keep_terminal_dates (revive && is_terminal_status (some r.status)) lifecycle)
          fields)

-- `status = ?`, unless it is none or skipped.
abbrev pub set_status : Option String → String → String
set_status none old = old
set_status (some status) old = status

-- The columns that a snapshot copies, as an edit gives them, and the clock.
pub record OtherColumns : Type 0 where
  pub now : ℕ
  pub final_draft : Option String
  pub match_score : Option ℕ
  pub workbench_resume_id : Option String

-- `column = ?` for a value that is given.
abbrev pub set_column {ℓ} : {A : Type ℓ} → Option A → Option A → Option A
set_column none old = old
set_column (some v) old = some v

-- The row with the columns that `_build_job_update_assignments` sets.
abbrev pub assign : Option String → Timeline → OtherColumns → LibraryRow → LibraryRow
assign status fields other r = record r {
  status = set_status status r.status;
  dates = write_timeline fields r.dates;
  updated_at = other.now;
  final_draft = set_column other.final_draft r.final_draft;
  match_score = set_column other.match_score r.match_score;
  workbench_resume_id = set_column other.workbench_resume_id r.workbench_resume_id;
}

-- The snapshot an edit freezes: `date` is the one an append-only record gives.
abbrev pub freeze_edit : Option String → String → LibraryRow → List Snapshot → List Snapshot
freeze_edit none today r ss = freeze_row today r ss
freeze_edit (some date) today r ss =
    insert_application_snapshot ss r.tenant_id r.job_id r.final_draft r.match_score
      r.workbench_resume_id date today

abbrev pub wants_snapshot : Option String → Option String → Bool
wants_snapshot (some date) status = true
wants_snapshot none none = false
wants_snapshot none (some status) = same "applied" (canonical_status status)

abbrev pub is_some : Option String → Bool
is_some none = false
is_some (some v) = true

abbrev pub persist_row :
    Option LibraryRow
    → String
    → String
    → Option String
    → Timeline
    → Option String
    → String
    → OtherColumns
    → Library
    → Option Library
persist_row none tenant_id job_id status fields date today other l = none
persist_row (some r) tenant_id job_id status fields date today other l =
    let new = assign (if is_some date then none else status) fields other r in
    some (record {
      rows = write_row tenant_id job_id new l.rows;
      snapshots =
          if wants_snapshot date status
          then freeze_edit date today new l.snapshots
          else l.snapshots;
    })

-- `status` is the one asked for, and `date` that of an append-only record, which leaves the
-- status alone.
unfoldable pub persist :
    String
    → String
    → Option String
    → Timeline
    → Option String
    → String
    → OtherColumns
    → Library
    → Option Library
persist tenant_id job_id status fields date today other l =
    persist_row (fetch tenant_id job_id l.rows) tenant_id job_id status fields date today other l

pub data Edited : Type 0 where
  -- UserStoreError
  rejected : Edited
  absent : Edited
  done : Library → Edited

abbrev pub finish : Option Library → Edited
finish none = absent
finish (some l) = done l

abbrev pub carry_out :
    Resolution
    → String
    → String
    → Option String
    → Timeline
    → String
    → OtherColumns
    → Library
    → Edited
carry_out illegal tenant_id job_id status fields today other l = rejected
carry_out missing tenant_id job_id status fields today other l = absent
carry_out (append_only date) tenant_id job_id status fields today other l =
    finish (persist tenant_id job_id status fields (some date) today other l)
carry_out (write w) tenant_id job_id status fields today other l =
    finish (persist tenant_id job_id status w none today other l)

-- The edit of a status that has been checked: none for a value that is no status.
abbrev pub edit_status :
    Option String → String → String → Timeline → Bool → String → OtherColumns → Library → Edited
edit_status none tenant_id job_id fields revive today other l = rejected
edit_status (some value) tenant_id job_id fields revive today other l =
    let status = canonical_status value in
    carry_out (resolve_lifecycle (fetch tenant_id job_id l.rows) (some status) fields revive today)
      tenant_id job_id (some status) fields today other l

-- A draft that is given and blank, which is an error.
abbrev pub is_blank_draft : Option String → Bool
is_blank_draft none = false
is_blank_draft (some draft) = is_empty (strip draft)

-- The part of `_validate_job_update` for these columns: the status asked for, or none for an error.
abbrev pub check_status : OtherColumns → String → Option String
check_status other asked = if is_blank_draft other.final_draft then none else validate_status asked

-- `update_job` with a status, a timeline, the columns of a snapshot and the `revive` flag. The
-- status is checked and made canonical first. The code reads the row and writes it under two holds
-- of the lock; here no other thread writes the job in between.
unfoldable pub update_job :
    String → String → Option String → Timeline → Bool → String → OtherColumns → Library → Edited
update_job tenant_id job_id none fields revive today other l =
    if is_blank_draft other.final_draft
    then rejected
    else carry_out (write fields) tenant_id job_id none fields today other l
update_job tenant_id job_id (some asked) fields revive today other l =
    edit_status (check_status other asked) tenant_id job_id fields revive today other l
