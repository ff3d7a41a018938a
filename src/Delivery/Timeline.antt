-- ===== src/Delivery/Timeline.antt =====
-- The timeline of a library job: the fields a change of stage writes
-- (`status_lifecycle_fields` of job_library/status_lifecycle.py) and how a write is stored.
use resu_align_lite.Prelude.{String, not, Option, none, some, if◌then◌else◌}
use resu_align_lite.Prelude.Table.{same}
use resu_align_lite.Prelude.Texts.{is_empty, or_text}
use resu_align_lite.Delivery.Vocabulary.{member, canonical_status, canonical_statuses}

-- The six columns of the timeline. In a row none is NULL; in a set of writes none leaves the
-- column alone and the empty text clears it.
pub record Timeline : Type 0 where
  pub applied_at : Option String
  pub offer_at : Option String
  pub rejected_at : Option String
  pub next_step : Option String
  pub next_step_due_at : Option String
  pub interview_stage : Option String

abbrev pub no_writes : Timeline
no_writes = record {
  applied_at = none;
  offer_at = none;
  rejected_at = none;
  next_step = none;
  next_step_due_at = none;
  interview_stage = none;
}

abbrev pub pick : Option String → String → String
pick none fallback = fallback
pick (some value) fallback = value

unfoldable pub status_lifecycle_fields : Timeline → String → String → Timeline → Timeline
status_lifecycle_fields current target_status today provided =
    let target = canonical_status target_status in
    let clear = some "" in
    if not (member target canonical_statuses)
    then no_writes
    else if same "draft" target
    then record {
      applied_at = clear;
      offer_at = clear;
      rejected_at = clear;
      next_step = clear;
      next_step_due_at = clear;
      interview_stage = clear;
    }
    else if same "applied" target
    then record {
      applied_at = some (pick provided.applied_at (or_text current.applied_at today));
      offer_at = clear;
      rejected_at = clear;
      next_step = none;
      next_step_due_at = none;
      interview_stage = clear;
    }
    else if same "interview" target
    then record {
      applied_at = some (pick provided.applied_at (or_text current.applied_at today));
      offer_at = clear;
      rejected_at = clear;
      next_step = none;
      next_step_due_at = none;
      interview_stage = none;
    }
    else if same "offer" target
    then record {
      applied_at = none;
      offer_at = some (pick provided.offer_at today);
      rejected_at = clear;
      next_step = clear;
      next_step_due_at = clear;
      interview_stage = clear;
    }
    else if same "withdrawn" target
    then record {
      applied_at = none;
      offer_at = none;
      rejected_at = some (pick provided.rejected_at today);
      next_step = clear;
      next_step_due_at = clear;
      interview_stage = clear;
    }
    else no_writes

-- `value or None`, and `NULL` for an empty text of the clearable fields.
abbrev pub write_field : Option String → Option String → Option String
write_field none old = old
write_field (some value) old = if is_empty value then none else some value

unfoldable pub write_timeline : Timeline → Timeline → Timeline
write_timeline w t = record {
  applied_at = write_field w.applied_at t.applied_at;
  offer_at = write_field w.offer_at t.offer_at;
  rejected_at = write_field w.rejected_at t.rejected_at;
  next_step = write_field w.next_step t.next_step;
  next_step_due_at = write_field w.next_step_due_at t.next_step_due_at;
  interview_stage = write_field w.interview_stage t.interview_stage;
}
