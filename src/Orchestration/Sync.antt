-- ===== src/Orchestration/Sync.antt =====
-- What the rows of a batch show after `_sync_batch` of api/services/batch.py.
use resu_align_lite.Prelude.{
  ℕ, String, ◌≡◌, refl, sym, ap, subst, ◌∙◌, ◌⊎◌, inl, inr, Bool, true, Option, none, some, List,
  [], ◌∷◌, map, if◌then◌else◌, Bool-cases, Option-cases,
}
use resu_align_lite.Prelude.Table.{same, same_eq, same_refl, All, filter, find}
use resu_align_lite.Registry.Rows.{
  Status, queued, running, succeeded, failed, canceled, Job, Registry, is_expired, is_terminal,
  job_key,
}
use resu_align_lite.Registry.Housekeeping.{delete_rows}
use resu_align_lite.Registry.Reads.{Snapshot, visible_to, get_current, to_snapshot, snapshot}
use resu_align_lite.Batch.{BatchRow, is_state}
use resu_align_lite.Orchestration.{
  status_text, analysis_of, moved_row, refreshed, refresh_found, sync_row, sync_rows,
}
use resu_align_lite.Orchestration.Jobs.{find-filter-deleted, find-filter-other}

module _ (now : ℕ) (t : String) where
  -- The job that a read of a key returns.
  abbrev pub looked : Registry → String → Option Job
  looked reg k = (get_current k now (some t) reg).1

  abbrev pub live : Registry → Option Job → Option Job
  live reg none = none
  live reg (some j) = if is_expired reg j.created_at now then none else some j

  pub looked-live :
      (reg : Registry) (k : String)
      → looked reg k ≡ live reg (find job_key k (filter (visible_to (some t)) reg.jobs))
  unfolding get_current
  looked-live reg k = elim (Option-cases (find job_key k (filter (visible_to (some t)) reg.jobs))) [
    | inl e ↦ rw (e, looked) refl
    | inr (j, e) ↦ elim (Bool-cases (is_expired reg j.created_at now)) [
      | inl x ↦ elim (Bool-cases (is_terminal j.status)) [
        | inl y ↦ rw (e, looked, x, y) refl
        | inr y ↦ rw (e, looked, x, y) refl
      ]
      | inr x ↦ rw (e, looked, x) refl
    ]
  ]

  looked-delete_rows :
      (reg : Registry) (i k : String)
      → looked reg i ≡ none
      → looked (delete_rows i reg) k ≡ looked reg k
  unfolding delete_rows
  looked-delete_rows reg i k h = elim (Bool-cases (same i k)) [
    | inl e ↦ rw (same_eq i k e) (
        looked-live (delete_rows i reg) i
        ∙ (ap (live reg) (find-filter-deleted (visible_to (some t)) i reg.jobs) ∙ sym h))
    | inr e ↦
        looked-live (delete_rows i reg) k
        ∙ (ap (live reg) (find-filter-other (visible_to (some t)) i k reg.jobs e)
            ∙ sym (looked-live reg k))
  ]

  -- A read leaves the registry, or reclaims the row of a key that it does not show.
  pub read_leaves :
      (reg : Registry) (i : String)
      → ((get_current i now (some t) reg).0 ≡ reg)
        ⊎ (((get_current i now (some t) reg).0 ≡ delete_rows i reg) × (looked reg i ≡ none))
  unfolding get_current
  read_leaves reg i = elim (Option-cases (find job_key i (filter (visible_to (some t)) reg.jobs))) [
    | inl e ↦ inl (rw (e, get_current) refl)
    | inr (j, e) ↦ elim (Bool-cases (is_expired reg j.created_at now)) [
      | inl x ↦ elim (Bool-cases (is_terminal j.status)) [
        | inl y ↦ inl (rw (e, get_current, x, y) refl)
        | inr y ↦ inr (rw (e, get_current, x, y) refl, looked-live reg i ∙ rw (e, x) refl)
      ]
      | inr x ↦ inl (rw (e, get_current, x) refl)
    ]
  ]

  -- A read changes no later read.
  pub looked-get_current :
      (reg : Registry) (i k : String) → looked (get_current i now (some t) reg).0 k ≡ looked reg k
  looked-get_current reg i k = elim (read_leaves reg i) [
    | inl p ↦ ap (λ s. looked s k) p
    | inr (p, h) ↦ ap (λ s. looked s k) p ∙ looked-delete_rows reg i k h
  ]

  module _ (score_of : Option String → ℕ) where
    abbrev shown : Option Job → Option Snapshot
    shown none = none
    shown (some j) = some (to_snapshot j now)

    abbrev pub look : (String → Option Job) → Option String → Option Job
    look f none = none
    look f (some id) = f id

    -- The row that a refresh makes of one, from what the reads return.
    abbrev pub refreshed_row : (String → Option Job) → BatchRow → BatchRow
    refreshed_row f r = (refresh_found score_of (shown (look f (analysis_of r))) r).0

    sync_row-looked :
        (r : BatchRow) (o : Option String) (reg : Registry)
        → (sync_row score_of now t o r reg).1.0
          ≡ (refresh_found score_of (shown (look (looked reg) o)) r).0
    unfolding snapshot
    sync_row-looked r none reg = refl
    sync_row-looked r (some id) reg = by_found (looked reg id)
      where
        by_found :
            (o : Option Job)
            → (refresh_found score_of
                (elim o [ none ↦ none | some j ↦ some (to_snapshot j now) ])
                r).0
              ≡ (refresh_found score_of (shown o) r).0
        by_found none = refl
        by_found (some j) = refl

    same_reads :
        (r : BatchRow) (o : Option String) (reg : Registry) (k : String)
        → looked (sync_row score_of now t o r reg).0 k ≡ looked reg k
    unfolding snapshot
    same_reads r none reg k = refl
    same_reads r (some id) reg k = looked-get_current reg id k

    -- The rows after a refresh depend on the registry before it, not on the order of the reads.
    pub sync_rows-map :
        (rs : List BatchRow) (reg : Registry)
        → (sync_rows score_of now t rs reg).1.0 ≡ map (refreshed_row (looked reg)) rs
    unfolding sync_rows
    sync_rows-map [] reg = refl
    sync_rows-map (r ∷ rs) reg =
        rw
          (
            sync_row-looked r (analysis_of r) reg,
            sync_rows-map rs (sync_row score_of now t (analysis_of r) r reg).0,
          )
          (ap (λ f. refreshed_row (looked reg) r ∷ map (refreshed_row f) rs)
            (λ i k. same_reads r (analysis_of r) reg k i))

    sync_rows-reads :
        (rs : List BatchRow) (reg : Registry) (k : String)
        → looked (sync_rows score_of now t rs reg).0 k ≡ looked reg k
    unfolding sync_rows
    sync_rows-reads [] reg k = refl
    sync_rows-reads (r ∷ rs) reg k =
        sync_rows-reads rs (sync_row score_of now t (analysis_of r) r reg).0 k
        ∙ same_reads r (analysis_of r) reg k

    -- A row shows the status of its job.
    abbrev pub shows : Option Job → BatchRow → Bool
    shows none r = true
    shows (some j) r = is_state (status_text j.status) r.status

    -- A row with an analysis that a read returns shows its status.
    abbrev pub agrees : (String → Option Job) → BatchRow → Bool
    agrees f r = shows (look f (analysis_of r)) r

    moved-shows :
        (s : Status) (r : BatchRow) → is_state (status_text s) (moved_row s r).0.status ≡ true
    moved-shows s r = elim (Bool-cases (is_state (status_text s) r.status)) [
      | inl e ↦ rw (e, e) refl
      | inr e ↦ rw (e, same_refl (status_text s)) refl
    ]

    refreshed-shows :
        (s : Snapshot) (status : Status) (r : BatchRow)
        → is_state (status_text status) (refreshed score_of s status r).0.status ≡ true
    refreshed-shows s succeeded r = same_refl "succeeded"
    refreshed-shows s failed r = same_refl "failed"
    refreshed-shows s canceled r = same_refl "canceled"
    refreshed-shows s queued r = moved-shows queued r
    refreshed-shows s running r = moved-shows running r

    analysis-refreshed :
        (s : Snapshot) (status : Status) (r : BatchRow)
        → analysis_of (refreshed score_of s status r).0 ≡ analysis_of r
    analysis-refreshed s succeeded r = refl
    analysis-refreshed s failed r = refl
    analysis-refreshed s canceled r = refl
    analysis-refreshed s queued r = elim (Bool-cases (is_state "queued" r.status)) [
      | inl e ↦ rw e refl
      | inr e ↦ rw e refl
    ]
    analysis-refreshed s running r = elim (Bool-cases (is_state "running" r.status)) [
      | inl e ↦ rw e refl
      | inr e ↦ rw e refl
    ]

    pub found-agrees :
        (r : BatchRow) (o : Option Job)
        → (analysis_of (refresh_found score_of (shown o) r).0 ≡ analysis_of r)
          × (shows o (refresh_found score_of (shown o) r).0 ≡ true)
    unfolding to_snapshot
    found-agrees r none = (refl, refl)
    found-agrees r (some j) = (
      analysis-refreshed (to_snapshot j now) j.status r,
      refreshed-shows (to_snapshot j now) j.status r,
    )

    refreshed_row-agrees :
        (f : String → Option Job) (r : BatchRow) → agrees f (refreshed_row f r) ≡ true
    refreshed_row-agrees f r =
        let h = found-agrees r (look f (analysis_of r)) in
        subst (λ o. shows (look f o) (refreshed_row f r) ≡ true) (sym h.0) h.1

    All-refreshed :
        (f : String → Option Job) (rs : List BatchRow)
        → All (λ r. agrees f r ≡ true) (map (refreshed_row f) rs)
    All-refreshed f [] = tt
    All-refreshed f (r ∷ rs) = (refreshed_row-agrees f r, All-refreshed f rs)

    -- After a refresh every row whose analysis the registry still shows to the tenant has the status
    -- of that analysis, in the registry as the refresh leaves it.
    pub sync_rows-agree :
        (rs : List BatchRow) (reg : Registry)
        → All
            (λ r. agrees (looked (sync_rows score_of now t rs reg).0) r ≡ true)
            (sync_rows score_of now t rs reg).1.0
    sync_rows-agree rs reg =
        subst (λ f. All (λ r. agrees f r ≡ true) (sync_rows score_of now t rs reg).1.0)
          (λ i k. sym (sync_rows-reads rs reg k) i)
          (subst (λ qs. All (λ r. agrees (looked reg) r ≡ true) qs) (sym (sync_rows-map rs reg))
            (All-refreshed (looked reg) rs))
