-- ===== src/Registry/Housekeeping.antt =====
-- The statements of jobs.py that reclaim rows: expiry, the row cap and the deletion of one job.
use resu_align_lite.Prelude.{
  ℕ, zero, suc, String, Bool, true, false, not, ◌&&◌, Option, none, some, List, [], ◌∷◌, length,
  leb, ltb, if◌then◌else◌,
}
use resu_align_lite.Prelude.Table.{same, filter, any}
use resu_align_lite.Registry.Rows.{Status, Job, Registry, in_flight, is_purged}

-- `_purge_expired`: the payloads of the rows that go, then the rows.
unfoldable pub purge_expired : ℕ → Registry → Registry
purge_expired now reg = record reg {
  payloads =
      filter (λ p. not (any (λ j. same j.job_id p.payload_job_id && is_purged reg now j) reg.jobs))
        reg.payloads;
  jobs = filter (λ j. not (is_purged reg now j)) reg.jobs;
}

-- The two DELETE statements of one job.
unfoldable pub delete_rows : String → Registry → Registry
delete_rows id reg = record reg {
  payloads = filter (λ p. not (same p.payload_job_id id)) reg.payloads;
  jobs = filter (λ j. not (same j.job_id id)) reg.jobs;
}

-- Of two rows the one with the smaller `(created_at, rowid)`; the first stands earlier in the table.
abbrev pub earlier : Job → Option Job → Option Job
earlier j none = some j
earlier j (some k) = if ltb k.created_at j.created_at then some k else some j

-- `ORDER BY created_at ASC, rowid ASC LIMIT 1` among the rows that pass the test.
unfoldable pub oldest : (Status → Bool) → List Job → Option Job
oldest q [] = none
oldest q (j ∷ js) = let rest = oldest q js in if q j.status then earlier j rest else rest

-- The loop of `_enforce_cap`. Each round that goes on deletes a row, so the number of rows is
-- fuel enough.
unfoldable pub enforce_cap_loop : ℕ → Registry → Registry
enforce_cap_loop zero reg = reg
enforce_cap_loop (suc fuel) reg = elim (leb (length reg.jobs) reg.max_jobs) [
  | true ↦ reg
  | false ↦ elim (oldest (λ s. not (in_flight s)) reg.jobs) [
    | none ↦ reg
    | some j ↦ enforce_cap_loop fuel (delete_rows j.job_id reg)
  ]
]

unfoldable pub enforce_cap : Registry → Registry
unfolding enforce_cap_loop
enforce_cap reg = enforce_cap_loop (length reg.jobs) reg
