-- ===== src/Delivery/Snapshots.antt =====
-- The versions of the application snapshots that job_library/__init__.py freezes.
use resu_align_lite.Prelude.{
  ℕ, ◌+◌, ◌≤◌, String, ◌≡◌, inl, inr, Bool, true, false, not, ◌||◌, Option, none, some, List, [],
  ◌∷◌, ◌++◌, arith, ltb, if◌then◌else◌, Bool-cases,
}
use resu_align_lite.Prelude.Table.{same, All, All-append}
use resu_align_lite.Prelude.Texts.{is_empty, or_text, strip}
use resu_align_lite.Delivery.Vocabulary.{validate_status, canonical_status}
use resu_align_lite.Delivery.Timeline.{Timeline}
use resu_align_lite.Delivery.Writes.{
  LibraryRow, Library, Snapshot, fetch, is_snapshot, last_version, insert_application_snapshot,
  freeze_row, bulk_row, bulk_loop, bulk_update_status, run_bulk, differs, re_records, moved,
  check_expected, after,
}
use resu_align_lite.Delivery.Edit.{
  is_blank_draft, OtherColumns, check_status, Resolution, illegal, missing, append_only, write,
  resolve_lifecycle, freeze_edit, wants_snapshot, persist_row, persist, finish, carry_out,
  edit_status, update_job, assign, is_some,
}
use resu_align_lite.Delivery.Forward.{library_after}

-- A snapshot stored later: of another job, or of a higher version.
abbrev pub precedes : Snapshot → Snapshot → Bool
precedes s q =
    not (is_snapshot q.snapshot_tenant q.snapshot_job s) || ltb s.version_index q.version_index

-- The snapshots of a job have rising versions in the order they were stored, so no version twice.
abbrev pub IsNumbered : List Snapshot → Type 0
IsNumbered [] = Unit
IsNumbered (s ∷ ss) = All (λ q. precedes s q ≡ true) ss × IsNumbered ss

append-IsNumbered :
    (ss : List Snapshot) (q : Snapshot)
    → IsNumbered ss
    → All (λ s. precedes s q ≡ true) ss
    → IsNumbered (ss ++ q ∷ [])
append-IsNumbered [] q h k = (tt, tt)
append-IsNumbered (s ∷ ss) q h k =
    (All-append (λ q. precedes s q ≡ true) ss q h.0 k.0, append-IsNumbered ss q h.1 k.1)

-- Whether a snapshot comes before the version that a job's next one gets, if `n` is its last.
abbrev fresh : String → String → ℕ → Snapshot → Bool
fresh t i n s = not (is_snapshot t i s) || ltb s.version_index (n + 1)

last_version-cons :
    (t i : String) (n : ℕ) (s : Snapshot) (ss : List Snapshot)
    → last_version t i (s ∷ ss) ≤ n
    → (fresh t i n s ≡ true) × (last_version t i ss ≤ n)
last_version-cons t i n s ss h = ground arith

last_version_bound :
    (t i : String) (n : ℕ) (ss : List Snapshot)
    → last_version t i ss ≤ n
    → All (λ s. fresh t i n s ≡ true) ss
last_version_bound t i n [] h = tt
last_version_bound t i n (s ∷ ss) h =
    let k = last_version-cons t i n s ss h in (k.0, last_version_bound t i n ss k.1)

insert-IsNumbered :
    (ss : List Snapshot) (t i : String) (final_draft : Option String) (score : Option ℕ)
    (resume : Option String) (at today : String)
    → IsNumbered ss
    → IsNumbered (insert_application_snapshot ss t i final_draft score resume at today)
unfolding insert_application_snapshot
insert-IsNumbered ss t i final_draft score resume at today h =
    elim (Bool-cases
      (is_empty (or_text final_draft "") || is_empty (strip (or_text final_draft "")))) [
        | inl e ↦ rw e h
        | inr e ↦ rw e (
            append-IsNumbered ss _ h
              (last_version_bound t i (last_version t i ss) ss (omega arith)))
      ]

freeze_edit-IsNumbered :
    (date : Option String) (today : String) (r : LibraryRow) (ss : List Snapshot)
    → IsNumbered ss
    → IsNumbered (freeze_edit date today r ss)
freeze_edit-IsNumbered none today r ss h = insert-IsNumbered ss _ _ _ _ _ _ today h
freeze_edit-IsNumbered (some date) today r ss h = insert-IsNumbered ss _ _ _ _ _ _ today h

-- A snapshot frozen on a condition.
if-IsNumbered :
    (b : Bool) (ss qs : List Snapshot)
    → IsNumbered ss
    → IsNumbered qs
    → IsNumbered (if b then ss else qs)
if-IsNumbered true ss qs h k = h
if-IsNumbered false ss qs h k = k

module _ (status : String) (expected : Option String) (today : String) (now : ℕ) where
  bulk_row-IsNumbered :
      (o : Option LibraryRow) (l : Library)
      → IsNumbered l.snapshots
      → IsNumbered (bulk_row status expected today now o l).1.snapshots
  bulk_row-IsNumbered none l h = h
  bulk_row-IsNumbered (some r) l h = elim (Bool-cases (differs expected r)) [
    | inl e ↦ rw e h
    | inr e ↦ elim (Bool-cases (re_records status r)) [
      | inl f ↦ rw (e, f) (freeze_edit-IsNumbered none today r l.snapshots h)
      | inr f ↦
          rw (e, f)
            (if-IsNumbered (same "applied" (canonical_status status))
              (freeze_row today (moved status today now r) l.snapshots) l.snapshots
              (freeze_edit-IsNumbered none today (moved status today now r) l.snapshots h) h)
    ]
  ]

  bulk_loop-IsNumbered :
      (tenant_id : String) (ids : List String) (l : Library)
      → IsNumbered l.snapshots
      → IsNumbered (bulk_loop tenant_id ids status expected today now l).1.snapshots
  unfolding bulk_loop
  bulk_loop-IsNumbered tenant_id [] l h = h
  bulk_loop-IsNumbered tenant_id (id ∷ ids) l h =
      bulk_loop-IsNumbered tenant_id ids
        (bulk_row status expected today now (fetch tenant_id id l.rows) l).1
        (bulk_row-IsNumbered (fetch tenant_id id l.rows) l h)

run_bulk-IsNumbered :
    (tenant_id : String) (ids : List String) (s : Option String) (e : Option (Option String))
    (today : String) (now : ℕ) (l : Library)
    → IsNumbered l.snapshots
    → IsNumbered (after (run_bulk tenant_id ids s e today now l) l).snapshots
run_bulk-IsNumbered tenant_id ids none e today now l h = h
run_bulk-IsNumbered tenant_id ids (some s) none today now l h = h
run_bulk-IsNumbered tenant_id ids (some s) (some e) today now l h =
    bulk_loop-IsNumbered (canonical_status s) e today now tenant_id ids l h

-- A bulk update keeps the snapshots of every job in rising versions.
pub bulk_update_status-IsNumbered :
    (tenant_id : String) (ids : List String) (status : String) (expected : Option String)
    (today : String) (now : ℕ) (l : Library)
    → IsNumbered l.snapshots
    → IsNumbered (after (bulk_update_status tenant_id ids status expected today now l) l).snapshots
unfolding bulk_update_status
bulk_update_status-IsNumbered tenant_id [] status expected today now l h = h
bulk_update_status-IsNumbered tenant_id (id ∷ ids) status expected today now l h =
    run_bulk-IsNumbered tenant_id (id ∷ ids) (validate_status status) (check_expected expected)
      today now l h

module _ (t i : String) (fields : Timeline) (today : String) (other : OtherColumns)
    (l : Library) where
  persist-IsNumbered :
      (o : Option LibraryRow) (date status : Option String) (w : Timeline)
      → IsNumbered l.snapshots
      → IsNumbered
          (library_after (finish (persist_row o t i status w date today other l)) l).snapshots
  persist-IsNumbered none date status w h = h
  persist-IsNumbered (some r) date status w h =
      let new = assign (if is_some date then none else status) w other r in
      if-IsNumbered (wants_snapshot date status) (freeze_edit date today new l.snapshots)
        l.snapshots (freeze_edit-IsNumbered date today new l.snapshots h) h

  carry_out-IsNumbered :
      (x : Resolution) (status : Option String)
      → IsNumbered l.snapshots
      → IsNumbered (library_after (carry_out x t i status fields today other l) l).snapshots
  unfolding persist
  carry_out-IsNumbered illegal status h = h
  carry_out-IsNumbered missing status h = h
  carry_out-IsNumbered (append_only date) status h =
      persist-IsNumbered (fetch t i l.rows) (some date) status fields h
  carry_out-IsNumbered (write w) status h = persist-IsNumbered (fetch t i l.rows) none status w h

  edit_status-IsNumbered :
      (v : Option String) (revive : Bool)
      → IsNumbered l.snapshots
      → IsNumbered (library_after (edit_status v t i fields revive today other l) l).snapshots
  edit_status-IsNumbered none revive h = h
  edit_status-IsNumbered (some value) revive h =
      carry_out-IsNumbered
        (resolve_lifecycle (fetch t i l.rows) (some (canonical_status value)) fields revive today)
        (some (canonical_status value)) h

-- A single edit, of whatever fields, keeps the snapshots of every job in rising versions.
pub update_job-IsNumbered :
    (t i : String) (asked : Option String) (fields : Timeline) (revive : Bool) (today : String)
    (other : OtherColumns) (l : Library)
    → IsNumbered l.snapshots
    → IsNumbered (library_after (update_job t i asked fields revive today other l) l).snapshots
unfolding update_job
update_job-IsNumbered t i none fields revive today other l h =
    elim (Bool-cases (is_blank_draft other.final_draft)) [
      | inl e ↦ rw e h
      | inr e ↦ rw e (carry_out-IsNumbered t i fields today other l (write fields) none h)
    ]
update_job-IsNumbered t i (some asked) fields revive today other l h =
    edit_status-IsNumbered t i fields today other l (check_status other asked) revive h
