-- ===== src/Registry/FailStreak.antt =====
-- `recent_fail_streak` of jobs.py, with the `LIKE` of SQLite that finds a library job's runs by the
-- text of their payloads.
use mathlib.Core.List.{reverse}
use resu_align_lite.Prelude.{
  ℕ, suc, String, Bool, true, false, ◌&&◌, ◌||◌, none, some, List, [], ◌∷◌, ◌++◌, ◌==◌,
  if◌then◌else◌,
}
use resu_align_lite.Prelude.Table.{same, filter, find}
use resu_align_lite.Prelude.{take}
use resu_align_lite.Prelude.Search.{codes, fold_case}
use resu_align_lite.Prelude.Sort.{sort_by}
use resu_align_lite.Registry.Rows.{Status, failed, Job, Registry, is_terminal, payload_key}
use resu_align_lite.Registry.Reads.{created}

abbrev is_empty : List ℕ → Bool
is_empty [] = true
is_empty (c ∷ s) = false

abbrev some_suffix : (List ℕ → Bool) → List ℕ → Bool
some_suffix p [] = p []
some_suffix p (c ∷ s) = p (c ∷ s) || some_suffix p s

abbrev starts : (ℕ → Bool) → (List ℕ → Bool) → List ℕ → Bool
starts p q [] = false
starts p q (c ∷ s) = p c && q s

-- `text LIKE pattern`: `%` stands for any text and `_` for any character.
unfoldable pub like : List ℕ → List ℕ → Bool
like [] s = is_empty s
like (c ∷ p) s =
    if c == b'%'
    then some_suffix (like p) s
    else starts (λ d. c == b'_' || fold_case c == fold_case d) (like p) s

abbrev pub job_pattern : String → List ℕ
job_pattern key = codes "%\"library_job_id\":\"" ++ (codes key ++ codes "\"%")

unfoldable pub is_run_of : String → String → Registry → Job → Bool
unfolding like
is_run_of tenant key reg j =
    same j.tenant_id tenant
    && (is_terminal j.status && elim (find payload_key j.job_id reg.payloads) [
      | none ↦ false
      | some p ↦ like (job_pattern key) (codes p.payload_json)
    ])

-- The rows that the query returns, newest first.
unfoldable pub recent_runs : String → String → Registry → List Job
unfolding is_run_of
recent_runs tenant key reg =
    take 3 (reverse (sort_by created (filter (is_run_of tenant key reg) reg.jobs)))

abbrev pub count_failure : Status → ℕ → ℕ
count_failure failed n = suc n
count_failure _ n = 0

abbrev pub leading_failures : List Job → ℕ
leading_failures [] = 0
leading_failures (j ∷ js) = count_failure j.status (leading_failures js)

unfoldable pub recent_fail_streak : String → String → Registry → ℕ
unfolding recent_runs
recent_fail_streak tenant key reg =
    if same key "" then 0 else leading_failures (recent_runs tenant key reg)
