-- ===== src/Delivery/Revive.antt =====
-- Reopening a job of job_library/__init__.py: the dates of its terminal stages stay.
use resu_align_lite.Prelude.{
  String, ◌≡◌, refl, sym, ap, subst, inl, inr, true, ◌&&◌, Option, none, some, Bool-cases,
}
use resu_align_lite.Delivery.Vocabulary.{canonical_status}
use resu_align_lite.Delivery.Transitions.{is_terminal_status, validate_status_transition}
use resu_align_lite.Delivery.Timeline.{Timeline, status_lifecycle_fields, write_timeline}
use resu_align_lite.Delivery.Writes.{LibraryRow, Library, fetch}
use resu_align_lite.Delivery.Edit.{
  OtherColumns, check_status, resolve_lifecycle, overlay, keep_terminal_dates, carry_out,
  edit_status, update_job,
}
use resu_align_lite.Delivery.Forward.{library_after, persisted}

abbrev pub end_dates : Option LibraryRow → Option (Option String × Option String)
end_dates none = none
end_dates (some r) = some (r.dates.offer_at, r.dates.rejected_at)

module _ (t i : String) (fields : Timeline) (today : String) (other : OtherColumns) (l : Library)
    (r : LibraryRow) (h : fetch t i l.rows ≡ some r) (ho : fields.offer_at ≡ none)
    (hr : fields.rejected_at ≡ none) (terminal : is_terminal_status (some r.status) ≡ true) where
  revived :
      (value : String)
      → end_dates (
          fetch t i
            (library_after
              (carry_out
                (resolve_lifecycle (some r) (some value) fields true today)
                t
                i
                (some value)
                fields
                today
                other
                l)
              l).rows)
        ≡ end_dates (some r)
  unfolding resolve_lifecycle write_timeline
  revived value = elim (Bool-cases (validate_status_transition (some r.status) value true)) [
    | inl v ↦
        rw
          (
            v,
            persisted t i fields today other l r h none (some value) (
                overlay
                  (keep_terminal_dates (true && is_terminal_status (some r.status))
                    (status_lifecycle_fields r.dates value today fields))
                  fields),
            terminal,
            ho,
            hr,
          )
          refl
    | inr v ↦ rw (v, h) refl
  ]

  revive_checked :
      (v : Option String)
      → end_dates (fetch t i (library_after (edit_status v t i fields true today other l) l).rows)
        ≡ end_dates (some r)
  revive_checked none = ap (λ o. end_dates o) h
  revive_checked (some value) =
      let status = canonical_status value in
      subst
        (λ o.
          end_dates (
            fetch t i
              (library_after
                (carry_out (resolve_lifecycle o (some status) fields true today) t i (some status)
                  fields today other l)
                l).rows)
          ≡ end_dates (some r))
        (sym h) (revived status)

-- An edit with `revive` of a job in a terminal stage that gives no offer or rejection date of its
-- own keeps both dates of the job, whatever status it asks for.
pub update_job-revive :
    (t i asked : String) (fields : Timeline) (today : String) (other : OtherColumns) (l : Library)
    (r : LibraryRow)
    → fetch t i l.rows ≡ some r
    → fields.offer_at ≡ none
    → fields.rejected_at ≡ none
    → is_terminal_status (some r.status) ≡ true
    → end_dates
        (fetch t i (library_after (update_job t i (some asked) fields true today other l) l).rows)
      ≡ end_dates (some r)
unfolding update_job
update_job-revive t i asked fields today other l r h ho hr terminal =
    revive_checked t i fields today other l r h ho hr terminal (check_status other asked)
