-- ===== src/Tests/Delivery.antt =====
-- Concrete library rows, moves and edits of job_library, and the theorems at them.
use resu_align_lite.Prelude.{
  String, ◌≡◌, refl, true, false, none, some, List, [], ◌∷◌, map, String_discrete,
}
use resu_align_lite.Prelude.Table.{All, filter}
use resu_align_lite.Prelude.Texts.{strip, lstrip, rstrip}
use resu_align_lite.Delivery.Vocabulary.{canonical_status, status_label, validate_status}
use resu_align_lite.Delivery.Transitions.{
  can_transition_status, is_terminal_status, allowed_transition_targets, validate_status_transition,
}
use resu_align_lite.Delivery.Timeline.{no_writes}
use resu_align_lite.Delivery.Writes.{LibraryRow, Library, fetch, bulk_update_status, after, reports}
use resu_align_lite.Delivery.Edit.{OtherColumns, update_job}
use resu_align_lite.Delivery.Validation.{stage_of, accepts, validate_status_transition-accepts}
use resu_align_lite.Delivery.Consistency.{Fits, bulk_update_status-Fits}
use resu_align_lite.Delivery.Bulk.{
  outside, missed, lacks_row, bulk_update_status-outside, bulk_update_status-reports,
}
use resu_align_lite.Delivery.Forward.{library_after, may_become, update_job-forward}

abbrev drafted : LibraryRow
drafted = record {
  job_id = "a";
  tenant_id = "t";
  status = "draft";
  dates = no_writes;
  final_draft = some "text";
  match_score = some 70;
  workbench_resume_id = none;
  updated_at = 1;
}

abbrev offered : LibraryRow
offered = record {
  job_id = "b";
  tenant_id = "t";
  status = "已拿Offer";
  dates = record no_writes { offer_at = some "2026-01-02" };
  final_draft = none;
  match_score = none;
  workbench_resume_id = none;
  updated_at = 1;
}

abbrev foreign : LibraryRow
foreign = record drafted { job_id = "c"; tenant_id = "u" }

abbrev shelf : Library
shelf = record { rows = drafted ∷ offered ∷ foreign ∷ []; snapshots = [] }

abbrev asked_ids : List String
asked_ids = "a" ∷ "b" ∷ "zz" ∷ []

abbrev late : OtherColumns
late = record { now = 5; final_draft = none; match_score = none; workbench_resume_id = none }

-- A forward move, a backward one, and blanks around a label.
moves :
    (can_transition_status (some " 未投递 ") "interview" ≡ true)
    × (can_transition_status (some "offer") "applied" ≡ false)
    × (can_transition_status none "applied" ≡ true)
unfolding can_transition_status canonical_status strip lstrip rstrip String_discrete
moves = (refl, refl, refl)

-- The targets from an applied job, sorted.
targets :
    allowed_transition_targets (some "applied")
    ≡ "applied" ∷ "interview" ∷ "offer" ∷ "withdrawn" ∷ []
unfolding allowed_transition_targets canonical_status strip lstrip rstrip String_discrete
targets = refl

labels : status_label "applied" ≡ "已投递"
unfolding status_label strip lstrip rstrip String_discrete
labels = refl

validate_status_transition-accepts_example :
    validate_status_transition (some "offer") "applied" true
    ≡ accepts true (stage_of (some "offer")) (canonical_status "applied")
validate_status_transition-accepts_example =
    validate_status_transition-accepts (some "offer") "applied" true

shelf-Fits : All Fits shelf.rows
unfolding canonical_status strip lstrip rstrip String_discrete
shelf-Fits = (refl, (refl, (refl, tt)))

bulk_update_status-Fits_example :
    All Fits
      (after (bulk_update_status "t" asked_ids "applied" none "2026-03-01" 5 shelf) shelf).rows
bulk_update_status-Fits_example =
    bulk_update_status-Fits "t" asked_ids "applied" none "2026-03-01" 5 shelf refl shelf-Fits

bulk_update_status-outside_example :
    filter
      (outside "t" asked_ids)
      (after (bulk_update_status "t" asked_ids "applied" none "2026-03-01" 5 shelf) shelf).rows
    ≡ filter (outside "t" asked_ids) shelf.rows
bulk_update_status-outside_example =
    bulk_update_status-outside "t" asked_ids "applied" none "2026-03-01" 5 shelf

applied_is_status : validate_status "applied" ≡ some "applied"
unfolding validate_status strip lstrip rstrip String_discrete
applied_is_status = refl

bulk_update_status-reports_example :
    map missed (reports (bulk_update_status "t" asked_ids "applied" none "2026-03-01" 5 shelf))
    ≡ map (λ i. lacks_row "t" shelf.rows i) asked_ids
bulk_update_status-reports_example =
    bulk_update_status-reports "t" asked_ids "applied" none "2026-03-01" 5 shelf "applied" none
      applied_is_status refl

drafted_found : fetch "t" "a" shelf.rows ≡ some drafted
unfolding String_discrete
drafted_found = refl

offered_found : fetch "t" "b" shelf.rows ≡ some offered
unfolding String_discrete
offered_found = refl

offered_is_terminal : is_terminal_status (some offered.status) ≡ true
unfolding is_terminal_status canonical_status strip lstrip rstrip String_discrete
offered_is_terminal = refl

update_job-forward_example :
    may_become false drafted (
      fetch "t" "a"
        (library_after
          (update_job "t" "a" (some "面试中") no_writes false "2026-03-01" late shelf)
          shelf).rows)
    ≡ true
update_job-forward_example =
    update_job-forward "t" "a" "面试中" no_writes false "2026-03-01" late shelf drafted drafted_found
