-- ===== src/Budget/Usage.antt =====
-- `LLMUsageStore` of llm_usage.py. The lock makes each method one step on the table. The day is the
-- key of `usage_day`. Costs are counted in millionths, the precision `estimate_call_cost` rounds to,
-- and computed exactly where the source uses binary floating point.
use resu_align_lite.Prelude.{
  ℕ, ◌+◌, ◌-◌, ◌*◌, ◌/◌, String, Bool, true, false, not, ◌&&◌, ◌||◌, Option, none, some, List, [],
  ◌∷◌, ◌++◌, ltb, if◌then◌else◌,
}
use resu_align_lite.Prelude.Table.{same, update, any}
use resu_align_lite.Prelude.Int.{ℤ, pos, pos_part, leb_ℤ, round_to}

pub record Usage : Type 0 where
  pub tenant_id : String
  pub usage_date : String
  pub calls : ℕ
  pub estimated_cost : ℕ
  pub updated_at : ℕ
  pub reserves : ℕ
  pub tokens_in : ℕ
  pub tokens_out : ℕ

-- `tenant_id = ? AND usage_date = ?`, the primary key
abbrev pub is_usage : String → String → Usage → Bool
is_usage tenant day u = same u.tenant_id tenant && same u.usage_date day

abbrev pub new_usage : String → String → ℕ → Usage
new_usage tenant day now = record {
  tenant_id = tenant;
  usage_date = day;
  calls = 0;
  estimated_cost = 0;
  updated_at = now;
  reserves = 0;
  tokens_in = 0;
  tokens_out = 0;
}

-- `INSERT ... ON CONFLICT DO UPDATE SET f WHERE p`: the row inserted, or the row of its key
-- updated where `p` holds of it.
abbrev pub upsert :
    String → String → Usage → (Usage → Bool) → (Usage → Usage) → List Usage → List Usage
upsert tenant day new p f us =
    if any (is_usage tenant day) us
    then update (λ u. is_usage tenant day u && p u) f us
    else us ++ new ∷ []

-- Calls made and calls promised.
abbrev pub taken : Usage → ℕ
taken u = u.calls + u.reserves

-- `reserve_call`, and whether the call was claimed (`rowcount > 0`).
unfoldable pub reserve_call : String → ℤ → String → ℕ → List Usage → List Usage × Bool
reserve_call tenant cap day now us =
    if leb_ℤ cap (pos 0)
    then (us, false)
    else let below : Usage → Bool = λ u. ltb (taken u) (pos_part cap) in
      (
        upsert tenant day (record (new_usage tenant day now) { reserves = 1 }) below
            (λ u. record u { reserves = u.reserves + 1; updated_at = now }) us,
        not (any (is_usage tenant day) us) || any (λ u. is_usage tenant day u && below u) us,
      )

unfoldable pub release_call : String → String → ℕ → List Usage → List Usage
release_call tenant day now us =
    update (is_usage tenant day) (λ u. record u { reserves = u.reserves - 1; updated_at = now }) us

-- `max(0, int(tokens or 0))`
abbrev pub token_count : Option ℤ → ℕ
token_count none = 0
token_count (some n) = pos_part n

-- `record_call`; the cost is `max(0.0, estimated_cost)` already.
unfoldable pub record_call : String → String → ℕ → Option ℤ → Option ℤ → ℕ → List Usage → List Usage
record_call tenant day cost tokens_in tokens_out now us =
    upsert tenant day
      (record (new_usage tenant day now) {
        calls = 1;
        estimated_cost = cost;
        tokens_in = token_count tokens_in;
        tokens_out = token_count tokens_out;
      })
      (λ u. true)
      (λ u. record u {
        calls = u.calls + 1;
        estimated_cost = u.estimated_cost + cost;
        reserves = u.reserves - 1;
        tokens_in = u.tokens_in + token_count tokens_in;
        tokens_out = u.tokens_out + token_count tokens_out;
        updated_at = now;
      })
      us

-- `get_usage`: the row of the key, or one of zeros.
unfoldable pub get_usage : String → String → List Usage → Usage
get_usage tenant day [] = new_usage tenant day 0
get_usage tenant day (u ∷ us) =
    let rest = get_usage tenant day us in if is_usage tenant day u then u else rest

abbrev pub price : Option ℤ → ℕ
price none = 0
price (some p) = pos_part p

-- A provider's token count where it reports a positive one, or else the estimate.
abbrev pub real_tokens : Option ℤ → ℕ → ℕ
real_tokens tokens estimate = if ltb 0 (token_count tokens) then token_count tokens else estimate

-- `estimate_call_cost`, for prices in millionths per thousand tokens.
unfoldable pub estimate_call_cost : Option ℤ → Option ℤ → Option ℤ → Option ℤ → ℕ
estimate_call_cost cost_per_1k_in cost_per_1k_out tokens_in tokens_out =
    round_to 1000 (
      real_tokens tokens_in 2000 * price cost_per_1k_in
      + real_tokens tokens_out 1000 * price cost_per_1k_out)
    / 1000
