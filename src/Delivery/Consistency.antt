-- ===== src/Delivery/Consistency.antt =====
-- The timeline agrees with the stage: what a move of job_library/__init__.py leaves in the row.
use resu_align_lite.Prelude.{
  ℕ, String, ◌≡◌, refl, inl, inr, Bool, true, false, not, ◌&&◌, ◌||◌, Option, none, some, List, [],
  ◌∷◌, if◌then◌else◌, Bool-cases, String_discrete,
}
use resu_align_lite.Prelude.Table.{same, All, All-update}
use resu_align_lite.Prelude.Texts.{or_text_full, is_empty}
use resu_align_lite.Delivery.Vocabulary.{canonical_status, validate_status}
use resu_align_lite.Delivery.Cases.{by_stage}
use resu_align_lite.Delivery.Timeline.{Timeline, status_lifecycle_fields, write_timeline, no_writes}
use resu_align_lite.Delivery.Writes.{
  LibraryRow, Library, moved, fetch, bulk_row, bulk_loop, bulk_update_status, run_bulk, is_row,
  differs, re_records, check_expected, after,
}

abbrev is_set : Option String → Bool
is_set none = false
is_set (some v) = true

-- The dates and follow-up fields that agree with a canonical stage: a draft has none, an applied
-- job its date only, an interviewed one its application date and neither end date, an offer its own
-- date and no rejection, a withdrawn job the rejection date; the last two have no follow-up.
abbrev pub fits : String → Timeline → Bool
fits stage t =
    if same "draft" stage
    then not (
        is_set t.applied_at
        || is_set t.offer_at
        || is_set t.rejected_at
        || is_set t.next_step
        || is_set t.next_step_due_at
        || is_set t.interview_stage)
    else if same "applied" stage
    then is_set t.applied_at
      && not (is_set t.offer_at || is_set t.rejected_at || is_set t.interview_stage)
    else if same "interview" stage
    then is_set t.applied_at && not (is_set t.offer_at || is_set t.rejected_at)
    else if same "offer" stage
    then is_set t.offer_at
      && not (
          is_set t.rejected_at
          || is_set t.next_step
          || is_set t.next_step_due_at
          || is_set t.interview_stage)
    else if same "withdrawn" stage
    then is_set t.rejected_at
      && not (is_set t.next_step || is_set t.next_step_due_at || is_set t.interview_stage)
    else true

-- The row's timeline agrees with its stage.
abbrev pub Fits : LibraryRow → Type 0
Fits r = fits (canonical_status r.status) r.dates ≡ true

abbrev Moves : String → Type 0
Moves c =
    (t : Timeline) (today status : String)
    → is_empty today ≡ false
    → canonical_status status ≡ c
    → fits c (write_timeline (status_lifecycle_fields t status today no_writes) t) ≡ true

-- Whatever the row held before, the timeline after a move agrees with the new stage.
move_fits : (c : String) → Moves c
unfolding String_discrete write_timeline status_lifecycle_fields
move_fits =
    by_stage (λ c. Moves c) (λ t today status h e. rw e refl)
      (λ t today status h e. rw (e, or_text_full t.applied_at today h) refl)
      (λ t today status h e. rw (e, or_text_full t.applied_at today h) refl)
      (λ t today status h e. rw (e, h) refl) (λ t today status h e. rw (e, h) refl)
      (λ c k t today status h e. rw (k.0, k.1, k.2, k.3, k.4) refl)

pub moved-Fits :
    (status today : String) (now : ℕ) (r : LibraryRow)
    → is_empty today ≡ false
    → Fits (moved status today now r)
moved-Fits status today now r h = move_fits (canonical_status status) r.dates today status h refl

module _ (status today : String) (expected : Option String) (now : ℕ)
    (full : is_empty today ≡ false) where
  bulk_row-Fits :
      (o : Option LibraryRow) (l : Library)
      → All Fits l.rows
      → All Fits (bulk_row status expected today now o l).1.rows
  bulk_row-Fits none l h = h
  bulk_row-Fits (some r) l h = elim (Bool-cases (differs expected r)) [
    | inl e ↦ rw e h
    | inr e ↦ elim (Bool-cases (re_records status r)) [
      | inl f ↦ rw (e, f) h
      | inr f ↦
          rw (e, f)
            (All-update Fits (is_row r.tenant_id r.job_id) (λ old. moved status today now r)
              (λ old m k. moved-Fits status today now r full) l.rows h)
    ]
  ]

  pub bulk_loop-Fits :
      (tenant_id : String) (ids : List String) (l : Library)
      → All Fits l.rows
      → All Fits (bulk_loop tenant_id ids status expected today now l).1.rows
  unfolding bulk_loop
  bulk_loop-Fits tenant_id [] l h = h
  bulk_loop-Fits tenant_id (id ∷ ids) l h =
      bulk_loop-Fits tenant_id ids
        (bulk_row status expected today now (fetch tenant_id id l.rows) l).1
        (bulk_row-Fits (fetch tenant_id id l.rows) l h)

run_bulk-Fits :
    (tenant_id : String) (ids : List String) (s : Option String) (e : Option (Option String))
    (today : String) (now : ℕ) (l : Library)
    → is_empty today ≡ false
    → All Fits l.rows
    → All Fits (after (run_bulk tenant_id ids s e today now l) l).rows
run_bulk-Fits tenant_id ids none e today now l full h = h
run_bulk-Fits tenant_id ids (some s) none today now l full h = h
run_bulk-Fits tenant_id ids (some s) (some e) today now l full h =
    bulk_loop-Fits (canonical_status s) today e now full tenant_id ids l h

-- A bulk update, on whichever branch it takes for each job, leaves every row with a timeline that
-- agrees with its stage if every row had one; the date of the day is not the empty text.
pub bulk_update_status-Fits :
    (tenant_id : String) (ids : List String) (status : String) (expected : Option String)
    (today : String) (now : ℕ) (l : Library)
    → is_empty today ≡ false
    → All Fits l.rows
    → All Fits (after (bulk_update_status tenant_id ids status expected today now l) l).rows
unfolding bulk_update_status
bulk_update_status-Fits tenant_id [] status expected today now l full h = h
bulk_update_status-Fits tenant_id (id ∷ ids) status expected today now l full h =
    run_bulk-Fits tenant_id (id ∷ ids) (validate_status status) (check_expected expected) today now
      l full h
