-- ===== src/Alignment.antt =====
-- alignment_lifecycle.py: the status machine of a library job's alignment badge, over the columns of
-- `library_jobs` that it moves (job_library/__init__.py).
use resu_align_lite.Prelude.{
  String, Bool, true, false, not, ◌&&◌, ◌||◌, Option, none, some, List, [], ◌∷◌, if◌then◌else◌,
}
use resu_align_lite.Prelude.Table.{same, update, any}
use resu_align_lite.Prelude.Table.{first}
use resu_align_lite.Prelude.Texts.{is_empty, or_text}
use resu_align_lite.Delivery.Vocabulary.{member}
use resu_align_lite.Delivery.Timeline.{write_field}
pub mod Machine
pub mod Reasons

abbrev pub alignment_statuses : List String
alignment_statuses = "idle" ∷ "queued" ∷ "running" ∷ "succeeded" ∷ "failed" ∷ []

abbrev pub terminal_statuses : List String
terminal_statuses = "succeeded" ∷ "failed" ∷ []

abbrev pub alignment_reasons : List String
alignment_reasons = "no_gap" ∷ "no_safe_rewrite" ∷ "model_failed" ∷ []

-- `ALLOWED_TRANSITIONS.get(prev, frozenset())`
abbrev pub allowed_transitions : String → List String
allowed_transitions prev =
    if same "idle" prev
    then "queued" ∷ []
    else if same "queued" prev
    then "queued" ∷ "running" ∷ "failed" ∷ "idle" ∷ []
    else if same "running" prev
    then "running" ∷ "succeeded" ∷ "failed" ∷ "queued" ∷ []
    else if same "succeeded" prev
    then "succeeded" ∷ "queued" ∷ []
    else if same "failed" prev
    then "failed" ∷ "queued" ∷ []
    else []

unfoldable pub is_terminal : Option String → Bool
is_terminal status = member (or_text status "") terminal_statuses

unfoldable pub can_transition : Option String → String → Bool
can_transition prev new =
    let from = or_text prev "idle" in same new from || member new (allowed_transitions from)

-- `gap_report_has_gap`: a report is its fields with whether their values are true, and none is
-- anything that is no dict.
unfoldable pub gap_report_has_gap : Option (List (String × Bool)) → Bool
gap_report_has_gap none = false
gap_report_has_gap (some fields) =
    any
      (λ p.
        p.1 && member p.0 ("supported_keywords" ∷ "missing_keywords" ∷ "misaligned_emphasis" ∷ []))
      fields

pub record Badge : Type 0 where
  pub job_id : String
  pub tenant_id : String
  pub alignment_status : String
  pub alignment_reason : Option String

abbrev pub is_badge : String → String → Badge → Bool
is_badge tenant_id job_id b = same b.job_id job_id && same b.tenant_id tenant_id

-- The reason `update_job` writes with a status: none for work under way, and a default for a failure.
abbrev pub settle_reason : String → Option String → Option String
settle_reason status reason =
    if member status ("queued" ∷ "running" ∷ [])
    then some ""
    else if same "failed" status && is_empty (or_text reason "")
    then some "model_failed"
    else reason

-- `_validate_alignment_reason`: whether it returns.
abbrev pub is_reason : Option String → Bool
is_reason none = true
is_reason (some reason) = is_empty reason || member reason alignment_reasons

-- The row with the columns of a transition written.
abbrev pub write_badge : String → Option String → Badge → Badge
write_badge status reason b = record b {
  alignment_status = status;
  alignment_reason = write_field (settle_reason status reason) b.alignment_reason;
}

pub data TransitionOutcome : Type 0 where
  -- AlignmentTransitionError
  unknown_status : TransitionOutcome
  job_not_found : TransitionOutcome
  illegal_transition : TransitionOutcome
  -- the UserStoreError of the store
  invalid_reason : TransitionOutcome
  moved_from : String → TransitionOutcome

-- The transition of the row that was fetched. The fetch and the write hold the lock in turn: what
-- other threads write in between is `meanwhile`. The write of a job that is gone changes nothing.
abbrev pub transition_row :
    Option Badge
    → String
    → String
    → String
    → Option String
    → (List Badge → List Badge)
    → List Badge
    → List Badge × TransitionOutcome
transition_row none tenant_id job_id new_status reason meanwhile rows = (rows, job_not_found)
transition_row (some b) tenant_id job_id new_status reason meanwhile rows =
    if not (can_transition (some b.alignment_status) new_status)
    then (rows, illegal_transition)
    else if not (is_reason (settle_reason new_status reason))
    then (rows, invalid_reason)
    else (
      update (is_badge tenant_id job_id) (write_badge new_status reason) (meanwhile rows),
      moved_from (or_text (some b.alignment_status) "idle"),
    )

-- `transition_alignment`, with the reason among its extra fields.
unfoldable pub transition_alignment :
    String
    → String
    → String
    → Option String
    → (List Badge → List Badge)
    → List Badge
    → List Badge × TransitionOutcome
transition_alignment tenant_id job_id new_status reason meanwhile rows =
    if not (member new_status alignment_statuses)
    then (rows, unknown_status)
    else transition_row (first (is_badge tenant_id job_id) rows) tenant_id job_id new_status reason
        meanwhile rows
