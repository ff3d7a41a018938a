-- ===== src/Watchdog.antt =====
-- api/services/watchdog.py: the sweep that fails jobs running longer than a cap. Durations are in
-- the clock's ticks, a thousand to the second.
use Prim.Native.String.{◌++◌ as append_text}
use resu_align_lite.Prelude.{
  zero, suc, ◌/◌, ◌%◌, ◌+◌, ltb, ◌==◌, ℕ, String, Option, none, some, List, [], ◌∷◌, ◌++◌,
  if◌then◌else◌,
}
use resu_align_lite.Prelude.Int.{ℤ, pos, pos_part, leb_ℤ, sub_ℕ}
use resu_align_lite.Prelude.Texts.{is_empty, strip}
use resu_align_lite.Registry.Rows.{Job, Registry}
use resu_align_lite.Registry.Methods.{fail}
use resu_align_lite.Registry.Reads.{get_payload, stale_running_jobs}
pub mod Sweep

abbrev pub default_max_runtime : ℕ
default_max_runtime = 1800000

-- A cap that parses: none is a ValueError.
abbrev pub cap_of : Option ℤ → Option ℕ
cap_of none = some default_max_runtime
cap_of (some value) = if leb_ℤ value (pos 0) then none else some (pos_part value)

-- `max_runtime_seconds` of the environment's text; none disables the watchdog. `float_of` is
-- `float`.
unfoldable pub max_runtime_seconds : (String → Option ℤ) → String → Option ℕ
max_runtime_seconds float_of raw =
    if is_empty (strip raw) then some default_max_runtime else cap_of (float_of (strip raw))

abbrev digit : ℕ → String
digit n =
    if n == 0
    then "0"
    else if n == 1
    then "1"
    else if n == 2
    then "2"
    else if n == 3
    then "3"
    else if n == 4
    then "4"
    else if n == 5
    then "5"
    else if n == 6
    then "6"
    else if n == 7
    then "7"
    else if n == 8
    then "8"
    else "9"

-- The decimal digits of a number, which has no more of them than the fuel if that is above it.
abbrev digits : ℕ → ℕ → String
digits zero n = ""
digits (suc fuel) n =
    let rest = digits fuel (n / 10) in
    if ltb n 10 then digit n else append_text rest (digit (n % 10))

-- `_timeout_error`
unfoldable pub timeout_error : ℕ → String
timeout_error cap =
    let seconds = cap / 1000 in
    append_text "任务超时：运行超过 " (
      append_text (digits (seconds + 1) seconds)
        (append_text " 秒仍未完成，已标记失败（可重新对齐）。" "若本地模型较慢，可调大 RESUALIGN_JOB_MAX_RUNTIME_S。"))

-- What the sweep tells the stores beside the registry: the library job to mark failed with the
-- error, the application to point at the failed job. Both swallow exceptions.
pub data Linkage : Type 0 where
  update_library_job : String → String → String → Linkage
  set_application_job : String → String → String → Linkage

abbrev pub link_if : Option String → (String → Linkage) → List Linkage
link_if none make = []
link_if (some id) make = if is_empty id then [] else make id ∷ []

-- `payload.get("application_id") or stored[2]`
abbrev pub either_id : Option String → Option String → Option String
either_id none stored = stored
either_id (some id) stored = if is_empty id then stored else some id

-- `member json key` is a text member of the JSON object of that text.
module _ (member : String → String → Option String) where
  abbrev pub linkages : Job → String → Option (String × String × Option String) → List Linkage
  linkages j error none = []
  linkages j error (some (json, tenant, application)) =
      link_if (member json "library_job_id") (λ id. update_library_job j.tenant_id id error)
      ++ link_if (either_id (member json "application_id") application)
          (λ id. set_application_job j.tenant_id id j.job_id)

  -- The loop of `scan_once`, with the clock that `fail` reads for each job: the registry, the ids
  -- forced and the linkages, in order.
  unfoldable pub scan_loop :
      String → (String → ℕ) → List Job → Registry → Registry × List String × List Linkage
  scan_loop error clock [] reg = (reg, [], [])
  scan_loop error clock (j ∷ js) reg =
      let failed_one = fail (clock j.job_id) j.job_id error none reg in
      let rest = scan_loop error clock js failed_one.0 in
      if failed_one.1
      then (
        rest.0,
        j.job_id ∷ rest.1,
        linkages j error (get_payload j.job_id failed_one.0) ++ rest.2,
      )
      else rest

  -- `scan_once` with the cap of the environment.
  abbrev pub scan_with :
      Option ℕ → (String → ℕ) → ℕ → Registry → Registry × List String × List Linkage
  scan_with none clock now reg = (reg, [], [])
  scan_with (some cap) clock now reg =
      scan_loop (timeout_error cap) clock (stale_running_jobs (sub_ℕ now cap) reg) reg

  unfoldable pub scan_once :
      (String → Option ℤ)
      → String
      → (String → ℕ)
      → ℕ
      → Registry
      → Registry × List String × List Linkage
  scan_once float_of raw clock now reg = scan_with (max_runtime_seconds float_of raw) clock now reg
