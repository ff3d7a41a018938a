-- ===== src/Budget/Guard.antt =====
-- cost_guard.py: the checks an LLM task passes before it is queued, and the hook that records a
-- call. The settings of the tenant are an argument; an HTTPException is a verdict.
use resu_align_lite.Prelude.{
  ℕ, ◌-◌, String, Bool, true, false, not, ◌&&◌, Option, none, some, List, leb, if◌then◌else◌,
}
use resu_align_lite.Prelude.Table.{same}
use resu_align_lite.Prelude.Int.{ℤ, pos, pos_part, leb_ℤ}
use resu_align_lite.Registry.Rows.{Registry}
use resu_align_lite.Registry.FailStreak.{recent_fail_streak}
use resu_align_lite.Budget.Usage.{
  Usage, taken, reserve_call, record_call, get_usage, estimate_call_cost,
}

pub record CostSettings : Type 0 where
  pub daily_llm_cap : Option ℤ
  pub llm_cost_per_1k_in : Option ℤ
  pub llm_cost_per_1k_out : Option ℤ

pub record DailyStatus : Type 0 where
  pub date : String
  pub calls : ℕ
  pub cap : Option ℤ
  pub estimated_cost : ℕ
  pub blocked : Bool
  pub remaining : Option ℕ

abbrev pub is_blocked : Option ℤ → ℕ → Bool
is_blocked none n = false
is_blocked (some cap) n = leb_ℤ cap (pos n)

abbrev pub remaining_calls : Option ℤ → ℕ → Option ℕ
remaining_calls none n = none
remaining_calls (some cap) n = some (pos_part cap - n)

-- `llm_daily_status`; the cost is left at its full precision.
unfoldable pub llm_daily_status : CostSettings → String → String → List Usage → DailyStatus
llm_daily_status settings tenant day us =
    let usage = get_usage tenant day us in
    record {
      date = usage.usage_date;
      calls = usage.calls;
      cap = settings.daily_llm_cap;
      estimated_cost = usage.estimated_cost;
      blocked = is_blocked settings.daily_llm_cap (taken usage);
      remaining = remaining_calls settings.daily_llm_cap (taken usage);
    }

-- `check_daily_llm_cap`: whether it returns.
unfoldable pub check_daily_llm_cap : CostSettings → String → String → List Usage → Bool
check_daily_llm_cap settings tenant day us = not (llm_daily_status settings tenant day us).blocked

-- `enforce_daily_llm_cap`: the table after it, and whether it returns.
abbrev pub enforce_cap_of : Option ℤ → String → String → ℕ → List Usage → List Usage × Bool
enforce_cap_of none tenant day now us = (us, true)
enforce_cap_of (some cap) tenant day now us =
    if leb_ℤ cap (pos 0) then (us, false) else reserve_call tenant cap day now us

unfoldable pub enforce_daily_llm_cap :
    CostSettings → String → String → ℕ → List Usage → List Usage × Bool
enforce_daily_llm_cap settings tenant day now us =
    enforce_cap_of settings.daily_llm_cap tenant day now us

pub data Verdict : Type 0 where
  -- the task may be queued, and whether a call was reserved for it
  admitted : Bool → Verdict
  cap_reached : Verdict
  repeated_failures : Verdict

abbrev pub fail_streak_limit : ℕ
fail_streak_limit = 3

abbrev pub has_cap : Option ℤ → Bool
has_cap none = false
has_cap (some cap) = true

-- `if job_ref_key`, with the streak of the key.
abbrev pub is_tripped : String → Option String → Registry → Bool
is_tripped tenant none reg = false
is_tripped tenant (some key) reg =
    not (same key "") && leb fail_streak_limit (recent_fail_streak tenant key reg)

unfoldable pub enforce_llm_task_entry :
    CostSettings
    → String
    → Option String
    → String
    → ℕ
    → Registry
    → List Usage
    → List Usage × Verdict
enforce_llm_task_entry settings tenant job_ref_key day now reg us =
    let entry = enforce_daily_llm_cap settings tenant day now us in
    if not entry.1
    then (entry.0, cap_reached)
    else if is_tripped tenant job_ref_key reg
    then (entry.0, repeated_failures)
    else (entry.0, admitted (has_cap settings.daily_llm_cap))

-- `record_daily_llm_usage`: nothing for a call outside a tenant. Settings that cannot be read
-- count as none.
unfoldable pub record_daily_llm_usage :
    CostSettings → String → Option ℤ → Option ℤ → String → ℕ → List Usage → List Usage
record_daily_llm_usage settings tenant tokens_in tokens_out day now us =
    if same tenant ""
    then us
    else record_call tenant day
        (estimate_call_cost settings.llm_cost_per_1k_in settings.llm_cost_per_1k_out tokens_in
          tokens_out)
        tokens_in tokens_out now us
