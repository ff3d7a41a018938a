-- ===== src/Orchestration.antt =====
-- api/services/batch.py: batches of alignments over the registry of analysis jobs. Rows are refreshed
-- from the registry, and a cancellation reaches the jobs that still wait. The clock stands still
-- within a call. A refresh is one step; other threads run between the steps of a cancellation.
use resu_align_lite.Prelude.{
  ℕ, suc, String, Bool, true, false, ◌&&◌, ◌||◌, Option, none, some, List, [], ◌∷◌, if◌then◌else◌,
  length,
}
use resu_align_lite.Prelude.Table.{same}
use resu_align_lite.Registry.Rows.{
  Status, queued, running, succeeded, failed, canceled, Job, Registry, is_queued, is_terminal,
}
use resu_align_lite.Registry.Methods.{cancel}
use resu_align_lite.Registry.Reads.{Snapshot, snapshot}
use resu_align_lite.Registry.Reads
use resu_align_lite.Prelude.Texts.{or_text}
use resu_align_lite.Batch.{
  BatchRow, Batch, BatchAlignStore, BatchSummary, is_state, in_status, update_rows, batch_summary,
}
use resu_align_lite.Batch
pub mod Jobs
pub mod Sync
pub mod Waiting
pub mod Counts
pub mod Cancel

-- `context._batch_store` and `context._registry`.
pub record Context : Type 0 where
  pub batches : BatchAlignStore
  pub registry : Registry

-- The text of a status in a row.
abbrev pub status_text : Status → String
status_text queued = "queued"
status_text running = "running"
status_text succeeded = "succeeded"
status_text failed = "failed"
status_text canceled = "canceled"

-- The analysis of a row, unless it has none or an empty text.
abbrev pub analysis_of : BatchRow → Option String
analysis_of r = elim r.analysis_job_id [
  | none ↦ none
  | some id ↦ if same id "" then none else some id
]

abbrev pub ended_row : Status → Option String → BatchRow → BatchRow
ended_row s error r = record r {
  status = some (status_text s);
  row_error = error;
  summary_score = none;
}

abbrev pub moved_row : Status → BatchRow → BatchRow × Bool
moved_row s r =
    if is_state (status_text s) r.status
    then (r, false)
    else (record r { status = some (status_text s) }, true)

-- The score of the summary that `_row_summary` makes of a result is `score_of`.
module _ (score_of : Option String → ℕ) where
  -- A row after its snapshot has been read, and whether it is written.
  abbrev pub refreshed : Snapshot → Status → BatchRow → BatchRow × Bool
  refreshed s succeeded r = (
    record r {
      status = some "succeeded";
      summary_score = some (score_of s.result);
      row_error = none;
    },
    true,
  )
  refreshed s failed r = (ended_row failed s.snapshot_error r, true)
  refreshed s canceled r = (ended_row canceled s.snapshot_error r, true)
  refreshed s queued r = moved_row queued r
  refreshed s running r = moved_row running r

  abbrev pub refresh_found : Option Snapshot → BatchRow → BatchRow × Bool
  refresh_found none r = (r, false)
  refresh_found (some s) r = refreshed s s.snapshot_status r

  abbrev pub sync_row :
      ℕ → String → Option String → BatchRow → Registry → Registry × (BatchRow × Bool)
  sync_row now tenant none r reg = (reg, (r, false))
  sync_row now tenant (some id) r reg =
      let read = snapshot now id (some tenant) reg in (read.0, refresh_found read.1 r)

  -- The loop over the rows.
  unfoldable pub sync_rows :
      ℕ → String → List BatchRow → Registry → Registry × (List BatchRow × Bool)
  unfolding snapshot
  sync_rows now tenant [] reg = (reg, ([], false))
  sync_rows now tenant (r ∷ rs) reg =
      let here = sync_row now tenant (analysis_of r) r reg in
      let rest = sync_rows now tenant rs here.0 in
      (rest.0, (here.1.0 ∷ rest.1.0, here.1.1 || rest.1.1))

  abbrev pub sync_found : ℕ → String → String → Option Batch → Context → Context
  sync_found now id tenant none c = c
  sync_found now id tenant (some b) c =
      let synced = sync_rows now tenant b.rows c.registry in
      record {
        batches = if synced.1.1 then (update_rows id tenant synced.1.0 c.batches).0 else c.batches;
        registry = synced.0;
      }

  -- `_sync_batch`
  unfoldable pub sync_batch : ℕ → String → String → Context → Context
  unfolding sync_rows update_rows
  sync_batch now id tenant c =
      let found = Batch.get now id tenant c.batches in
      sync_found now id tenant found.1 (record c { batches = found.0 })

  abbrev pub summarized : Option Batch → Option (Batch × BatchSummary)
  summarized none = none
  summarized (some b) = some (b, batch_summary b)

  unfoldable pub get_batch_align :
      ℕ → String → String → Context → Context × Option (Batch × BatchSummary)
  unfolding sync_batch
  get_batch_align now id tenant c =
      let synced = sync_batch now id tenant c in
      let found = Batch.get now id tenant synced.batches in
      (record synced { batches = found.0 }, summarized found.1)

-- What became of a row that a cancellation looked at.
pub data Fate : Type 0 where
  kept called_off lost : Fate

pub record CancelReport : Type 0 where
  pub canceled_rows : ℕ
  pub failed_rows : ℕ
  pub total_rows : ℕ

abbrev pub lost_row : BatchRow → BatchRow
lost_row r = record r { status = some "failed"; row_error = some "分析任务已过期或丢失，请重新运行" }

abbrev pub canceled_row : BatchRow → BatchRow
canceled_row r = record r { status = some "canceled" }

-- The moments of a cancellation at which no lock is held; a row is told by how many come after it.
pub data Moment : Type 0 where
  after_refresh before_update : Moment
  before_get before_cancel : ℕ → Moment

abbrev pub count_canceled : Fate → ℕ → ℕ
count_canceled called_off n = suc n
count_canceled _ n = n

abbrev pub count_lost : Fate → ℕ → ℕ
count_lost lost n = suc n
count_lost _ n = n

-- What other threads do at a moment, such as workers that claim jobs, is `others`.
module _ (others : Moment → Context → Context) where
  -- A queued row whose job was found: the job is canceled if it still waits.
  abbrev pub cancel_job : ℕ → String → ℕ → Job → BatchRow → Context → Context × (BatchRow × Fate)
  cancel_job now id left j r c =
      let w = others (before_cancel left) c in
      let ended = cancel now id w.registry in
      if is_queued j.status
      then (
        record w { registry = ended.0 },
        if ended.1 then (canceled_row r, called_off) else (r, kept),
      )
      else (c, (r, kept))

  abbrev pub cancel_found :
      ℕ → String → ℕ → Option Job → BatchRow → Context → Context × (BatchRow × Fate)
  cancel_found now id left none r c = (c, (lost_row r, lost))
  cancel_found now id left (some j) r c = cancel_job now id left j r c

  abbrev pub cancel_queued :
      ℕ → String → ℕ → Option String → BatchRow → Context → Context × (BatchRow × Fate)
  cancel_queued now tenant left none r c = (c, (lost_row r, lost))
  cancel_queued now tenant left (some id) r c =
      let w = others (before_get left) c in
      let read = Reads.get now id (some tenant) w.registry in
      cancel_found now id left read.1 r (record w { registry = read.0 })

  abbrev pub cancel_row : ℕ → String → ℕ → BatchRow → Context → Context × (BatchRow × Fate)
  cancel_row now tenant left r c =
      if in_status "queued" r
      then cancel_queued now tenant left (analysis_of r) r c
      else (c, (r, kept))

  -- The loop over the rows, with the counts of canceled and of lost ones.
  unfoldable pub cancel_rows :
      ℕ → String → List BatchRow → Context → Context × (List BatchRow × (ℕ × ℕ))
  unfolding Reads.get cancel
  cancel_rows now tenant [] c = (c, ([], (0, 0)))
  cancel_rows now tenant (r ∷ rs) c =
      let here = cancel_row now tenant (length rs) r c in
      let rest = cancel_rows now tenant rs here.0 in
      (
        rest.0,
        (here.1.0 ∷ rest.1.0, (count_canceled here.1.1 rest.1.1.0, count_lost here.1.1 rest.1.1.1)),
      )

  abbrev pub cancel_batch :
      ℕ → String → String → Option Batch → Context → Context × Option CancelReport
  cancel_batch now id tenant none c = (c, none)
  cancel_batch now id tenant (some b) c =
      let ended = cancel_rows now tenant b.rows c in
      let w = others before_update ended.0 in
      (
        record w { batches = (update_rows id tenant ended.1.0 w.batches).0 },
        some (record {
          canceled_rows = ended.1.1.0;
          failed_rows = ended.1.1.1;
          total_rows = length b.rows;
        }),
      )

  -- `cancel_batch_align`. The refresh before it is one step.
  unfoldable pub cancel_batch_align :
      (Option String → ℕ) → ℕ → String → String → Context → Context × Option CancelReport
  unfolding sync_batch cancel_rows update_rows
  cancel_batch_align score_of now id tenant c =
      let w = others after_refresh (sync_batch score_of now id tenant c) in
      let found = Batch.get now id tenant w.batches in
      cancel_batch now id tenant found.1 (record w { batches = found.0 })

-- The test of `_monitor_batch` that ends its loop.
unfoldable pub is_over : List BatchRow → Bool
is_over [] = true
is_over (r ∷ rs) =
    (in_status "succeeded" r || in_status "failed" r || in_status "canceled" r) && is_over rs

-- The fields of a library job that the selection of pending jobs reads.
pub record LibraryJob : Type 0 where
  pub library_job_id : String
  pub alignment_status : Option String
  pub workbench_job_id : Option String

abbrev pub is_gone : Option Job → Bool
is_gone none = true
is_gone (some j) = is_terminal j.status

-- Whether a job waits for a run, and the registry after its analysis was read.
abbrev pub pending_job : ℕ → String → LibraryJob → Registry → Registry × Bool
pending_job now tenant j reg =
    let status = or_text j.alignment_status "idle" in
    let read = Reads.get now (or_text j.workbench_job_id "") (some tenant) reg in
    if same status "idle" || same status "failed"
    then (reg, true)
    else if same status "queued"
    then (read.0, is_gone read.1)
    else (reg, false)

-- `_pending_library_jobs` over the jobs of the tenant.
unfoldable pub pending_library_jobs :
    ℕ → String → List LibraryJob → Registry → Registry × List LibraryJob
unfolding Reads.get
pending_library_jobs now tenant [] reg = (reg, [])
pending_library_jobs now tenant (j ∷ js) reg =
    let here = pending_job now tenant j reg in
    let rest = pending_library_jobs now tenant js here.0 in
    (rest.0, if here.1 then j ∷ rest.1 else rest.1)
