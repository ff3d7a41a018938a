-- ===== src/Batch.antt =====
-- batch.py: the request for a batch of alignments, the in-memory store of batches and the summary of
-- one. The lock makes each method one step; a dict keeps its keys in insertion order.
use resu_align_lite.Prelude.{
  ℕ, ◌+◌, ◌/◌, max, String, Bool, true, false, not, ◌&&◌, Option, none, some, List, [], ◌∷◌, ◌++◌,
  ltb, leb, ◌==◌, if◌then◌else◌, length,
}
use resu_align_lite.Prelude.Table.{same, filter, update, any, count}
use resu_align_lite.Prelude.Int.{round_to}
use resu_align_lite.Prelude.Table.{first}
pub mod Store
pub mod Summary

-- The fields of a request that its validator reads; an absent list of URLs is empty.
pub record BatchAlignRequest : Type 0 where
  pub job_ids : List String
  pub jd_urls : List String
  pub selector_pending : Bool

-- `len(set(xs)) == len(xs)`
abbrev pub is_unique : List String → Bool
is_unique [] = true
is_unique (x ∷ xs) = not (any (λ y. same x y) xs) && is_unique xs

abbrev pub is_two_to_five : List String → Bool
is_two_to_five xs = leb 2 (length xs) && leb (length xs) 5

abbrev pub is_nil {ℓ} : {A : Type ℓ} → List A → Bool
is_nil [] = true
is_nil (x ∷ xs) = false

-- `_validate_job_ids`: whether it returns.
unfoldable pub validate_job_ids : BatchAlignRequest → Bool
validate_job_ids r =
    if r.selector_pending
    then true
    else if is_nil r.jd_urls
    then is_two_to_five r.job_ids && is_unique r.job_ids
    else is_nil r.job_ids && is_two_to_five r.jd_urls && is_unique r.jd_urls

-- The fields of a row that the store and the summary read. A score counts hundredths.
pub record BatchRow : Type 0 where
  pub job_id : String
  pub status : Option String
  pub analysis_job_id : Option String
  pub summary_score : Option ℕ
  pub row_error : Option String

pub record Batch : Type 0 where
  pub batch_id : String
  pub tenant_id : String
  pub master_resume_id : String
  pub granularity : String
  pub prompt_focus : String
  pub custom_prompt : Option String
  pub created_at : ℕ
  pub rows : List BatchRow

pub record BatchAlignStore : Type 0 where
  pub ttl_seconds : ℕ
  pub batches : List Batch

-- `_prune`
unfoldable pub prune : ℕ → BatchAlignStore → BatchAlignStore
prune now s = record s {
  batches = filter (λ b. not (ltb (b.created_at + s.ttl_seconds) now)) s.batches;
}

abbrev pub has_id : String → Batch → Bool
has_id id b = same b.batch_id id

-- `create` at a time and with a fresh id, its answer.
unfoldable pub create :
    ℕ
    → String
    → String
    → String
    → List BatchRow
    → String
    → String
    → Option String
    → BatchAlignStore
    → BatchAlignStore
create now id tenant resume rows granularity focus prompt s =
    let kept = prune now s in
    record kept {
      batches =
          kept.batches
          ++ record {
            batch_id = id;
            tenant_id = tenant;
            master_resume_id = resume;
            granularity = granularity;
            prompt_focus = focus;
            custom_prompt = prompt;
            created_at = now;
            rows = rows;
          }
            ∷ [];
    }

-- A batch of the tenant, or none.
abbrev pub of_tenant : String → Option Batch → Option Batch
of_tenant tenant none = none
of_tenant tenant (some b) = if same b.tenant_id tenant then some b else none

-- `get`, which prunes first.
unfoldable pub get : ℕ → String → String → BatchAlignStore → BatchAlignStore × Option Batch
get now id tenant s =
    let kept = prune now s in (kept, of_tenant tenant (first (has_id id) kept.batches))

-- The first row of a job, with the id of its analysis.
abbrev pub set_first : String → String → List BatchRow → List BatchRow
set_first job analysis [] = []
set_first job analysis (r ∷ rs) =
    let rest = set_first job analysis rs in
    if same r.job_id job then record r { analysis_job_id = some analysis } ∷ rs else r ∷ rest

abbrev pub has_row : String → Option Batch → Bool
has_row job none = false
has_row job (some b) = any (λ r. same r.job_id job) b.rows

abbrev pub is_some {ℓ} : {A : Type ℓ} → Option A → Bool
is_some none = false
is_some (some x) = true

-- `set_analysis_job`, and its answer.
unfoldable pub set_analysis_job :
    String → String → String → String → BatchAlignStore → BatchAlignStore × Bool
set_analysis_job id tenant job analysis s =
    let batch = of_tenant tenant (first (has_id id) s.batches) in
    if is_some batch
    then (
      record s {
        batches =
            update (has_id id) (λ b. record b { rows = set_first job analysis b.rows }) s.batches;
      },
      has_row job batch,
    )
    else (s, false)

-- `update_rows`, and its answer.
unfoldable pub update_rows :
    String → String → List BatchRow → BatchAlignStore → BatchAlignStore × Bool
update_rows id tenant rows s =
    if is_some (of_tenant tenant (first (has_id id) s.batches))
    then (record s { batches = update (has_id id) (λ b. record b { rows = rows }) s.batches }, true)
    else (s, false)

pub record BatchSummary : Type 0 where
  pub total : ℕ
  pub queued : ℕ
  pub running : ℕ
  pub succeeded : ℕ
  pub failed : ℕ
  pub canceled : ℕ
  pub completed : ℕ
  pub average_score : Option ℕ
  pub best_job_id : Option String
  pub best_score : Option ℕ

abbrev pub is_state : String → Option String → Bool
is_state x none = false
is_state x (some s) = same x s

abbrev pub in_status : String → BatchRow → Bool
in_status x r = is_state x r.status

-- The score of a row that has succeeded and has one, before the others.
abbrev pub add_score : Bool → Option ℕ → List ℕ → List ℕ
add_score true (some n) rest = n ∷ rest
add_score true none rest = rest
add_score false o rest = rest

-- The scores of the succeeded rows, in order.
abbrev pub scores : List BatchRow → List ℕ
scores [] = []
scores (r ∷ rs) = add_score (in_status "succeeded" r) r.summary_score (scores rs)

abbrev pub sum : List ℕ → ℕ
sum [] = 0
sum (n ∷ ns) = n + sum ns

abbrev pub max_of : List ℕ → Option ℕ
max_of [] = none
max_of (n ∷ ns) = elim (max_of ns) [ none ↦ some n | some m ↦ some (max n m) ]

-- `round(sum(scores) / len(scores), 2)`, of scores in hundredths.
abbrev pub average : List ℕ → Option ℕ
average [] = none
average (n ∷ ns) = some (round_to (length (n ∷ ns)) (sum (n ∷ ns)) / length (n ∷ ns))

abbrev pub is_score : ℕ → Option ℕ → Bool
is_score n none = false
is_score n (some m) = m == n

abbrev pub scores_at : ℕ → BatchRow → Bool
scores_at n r = is_score n r.summary_score

abbrev pub best_row : Option ℕ → List BatchRow → Option BatchRow
best_row none rs = none
best_row (some n) rs = first (scores_at n) rs

-- `_batch_summary`
unfoldable pub batch_summary : Batch → BatchSummary
batch_summary b =
    let best = max_of (scores b.rows) in
    record {
      total = length b.rows;
      queued = count (in_status "queued") b.rows;
      running = count (in_status "running") b.rows;
      succeeded = count (in_status "succeeded") b.rows;
      failed = count (in_status "failed") b.rows;
      canceled = count (in_status "canceled") b.rows;
      completed =
          count (in_status "succeeded") b.rows
          + count (in_status "failed") b.rows
          + count (in_status "canceled") b.rows;
      average_score = average (scores b.rows);
      best_job_id = elim (best_row best b.rows) [ none ↦ none | some r ↦ some r.job_id ];
      best_score = best;
    }
