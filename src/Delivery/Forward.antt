-- ===== src/Delivery/Forward.antt =====
-- Where a single edit of job_library/__init__.py can move a job to.
use resu_align_lite.Prelude.Booleans.{or_right}
use resu_align_lite.Prelude.{
  String, ◌≡◌, refl, sym, ap, subst, ◌∙◌, inl, inr, Bool, true, not, ◌&&◌, ◌||◌, Option, none, some,
  List, [], ◌∷◌, if◌then◌else◌, Bool-cases,
}
use resu_align_lite.Prelude.Table.{same_refl, same}
use resu_align_lite.Prelude.Texts.{or_text}
use resu_align_lite.Delivery.Vocabulary.{canonical_status}
use resu_align_lite.Delivery.Transitions.{is_terminal_status, validate_status_transition}
use resu_align_lite.Delivery.Timeline.{Timeline, status_lifecycle_fields}
use resu_align_lite.Delivery.Spelling.{canonical_status_idem}
use resu_align_lite.Delivery.Validation.{stage_of, accepts, validate_status_transition-accepts}
use resu_align_lite.Delivery.Writes.{LibraryRow, Library, fetch, write_row, is_row, re_records}
use resu_align_lite.Delivery.Bulk.{matches, fetch-matches}
use resu_align_lite.Delivery.Edit.{
  OtherColumns, check_status, resolve_lifecycle, overlay, keep_terminal_dates, assign, persist,
  Edited, rejected, absent, done, is_some, persist_row, finish, carry_out, edit_status, update_job,
}

-- The library after an edit: a refused one leaves it as it was.
abbrev pub library_after : Edited → Library → Library
library_after rejected l = l
library_after absent l = l
library_after (done k) l = k

abbrev replaced : LibraryRow → Option LibraryRow → Option LibraryRow
replaced new none = none
replaced new (some r) = some new

-- A row written over its own key is the one fetched next.
pub fetch-write_row :
    (t i : String) (new : LibraryRow) (rs : List LibraryRow)
    → is_row t i new ≡ true
    → fetch t i (write_row t i new rs) ≡ replaced new (fetch t i rs)
fetch-write_row t i new [] m = refl
fetch-write_row t i new (x ∷ rs) m = elim (Bool-cases (is_row t i x)) [
  | inl e ↦ rw (e, m) refl
  | inr e ↦ rw (e, e) (fetch-write_row t i new rs m)
]

-- From row `r` an edit with that flag may lead to row `q`: the status is kept, or the move is one
-- that the funnel or the flag accepts.
abbrev pub may_become : Bool → LibraryRow → Option LibraryRow → Bool
may_become revive r none = true
may_become revive r (some q) =
    same r.status q.status || accepts revive (stage_of (some r.status)) q.status

module _ (t i : String) (fields : Timeline) (today : String) (other : OtherColumns) (l : Library)
    (r : LibraryRow) (h : fetch t i l.rows ≡ some r) where
  -- What a persisted edit leaves in the row.
  pub persisted :
      (date status : Option String) (w : Timeline)
      → fetch t i (library_after (finish (persist t i status w date today other l)) l).rows
        ≡ some (assign (if is_some date then none else status) w other r)
  unfolding persist
  persisted date status w =
      let m : is_row t i r ≡ true =
        subst (λ o. matches t i o ≡ true) h (fetch-matches t i l.rows) in
      let new = assign (if is_some date then none else status) w other r in
      subst
        (λ o.
          fetch t i (library_after (finish (persist_row o t i status w date today other l)) l).rows
          ≡ some new)
        (sym h) (fetch-write_row t i new l.rows m ∙ ap (λ o. replaced new o) h)

  -- The row after the whole edit, by the resolution of its lifecycle.
  resolved :
      (revive : Bool) (value : String)
      → canonical_status value ≡ value
      → may_become revive r (
          fetch t i
            (library_after
              (carry_out
                (resolve_lifecycle (some r) (some value) fields revive today)
                t
                i
                (some value)
                fields
                today
                other
                l)
              l).rows)
        ≡ true
  unfolding resolve_lifecycle
  resolved revive value e = elim (Bool-cases (not revive && re_records value r)) [
    | inl a ↦
        rw
          (
            a,
            persisted (some (or_text fields.applied_at (or_text r.dates.applied_at today)))
                (some value) fields,
          )
          (rw (same_refl r.status) refl)
    | inr a ↦ elim (Bool-cases (validate_status_transition (some r.status) value revive)) [
      | inl v ↦
          rw
            (
              a,
              v,
              persisted none (some value) (
                  overlay
                    (keep_terminal_dates (revive && is_terminal_status (some r.status))
                      (status_lifecycle_fields r.dates value today fields))
                    fields),
            )
            (or_right (same r.status value) (accepts revive (stage_of (some r.status)) value) (
              subst (λ s. accepts revive (stage_of (some r.status)) s ≡ true) e
                (sym (validate_status_transition-accepts (some r.status) value revive) ∙ v)))
      | inr v ↦ rw (a, v, h) (rw (same_refl r.status) refl)
    ]
  ]

checked :
    (v : Option String) (t i : String) (fields : Timeline) (revive : Bool) (today : String)
    (other : OtherColumns) (l : Library) (r : LibraryRow)
    → fetch t i l.rows ≡ some r
    → may_become revive r
        (fetch t i (library_after (edit_status v t i fields revive today other l) l).rows)
      ≡ true
checked none t i fields revive today other l r h =
    subst (λ o. may_become revive r o ≡ true) (sym h) (rw (same_refl r.status) refl)
checked (some value) t i fields revive today other l r h =
    let status = canonical_status value in
    subst
      (λ o.
        may_become revive r (
          fetch t i
            (library_after
              (carry_out (resolve_lifecycle o (some status) fields revive today) t i (some status)
                fields today other l)
              l).rows)
        ≡ true)
      (sym h) (resolved t i fields today other l r h revive status (canonical_status_idem value))

-- An edit of the status of a job leaves the job with its status, or with one that is not before it
-- in the funnel, or, only with `revive`, takes it from a terminal stage to a status that is not
-- terminal. This holds on every branch, the refusals and the record of another application included.
pub update_job-forward :
    (t i asked : String) (fields : Timeline) (revive : Bool) (today : String) (other : OtherColumns)
    (l : Library) (r : LibraryRow)
    → fetch t i l.rows ≡ some r
    → may_become revive r
        (fetch t i (library_after (update_job t i (some asked) fields revive today other l) l).rows)
      ≡ true
unfolding update_job
update_job-forward t i asked fields revive today other l r h =
    checked (check_status other asked) t i fields revive today other l r h
