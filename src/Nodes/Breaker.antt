-- ===== src/Nodes/Breaker.antt =====
-- The circuit breaker of engine/llm_nodes.py: failed calls and failed probes are counted, a success
-- clears the count, and a node with too many failures in a row is disabled.
use resu_align_lite.Prelude.{
  ℕ, suc, String, Bool, true, false, not, ◌&&◌, ◌||◌, Option, none, some, List, [], ◌∷◌, leb,
  if◌then◌else◌,
}
use resu_align_lite.Prelude.Table.{same, update, first}
use resu_align_lite.Prelude.Search.{codes, after_prefix, starts_with, same_codes}
use resu_align_lite.Delivery.Vocabulary.{member}
use resu_align_lite.Nodes.{Node, is_node}

-- `BREAKER_COUNTED_CODES`
abbrev pub breaker_counted_codes : List String
breaker_counted_codes = "timeout" ∷ "http" ∷ "auth" ∷ "quota" ∷ "other" ∷ []

abbrev pub probe_counted_statuses : List String
probe_counted_statuses = "timeout" ∷ "network_error" ∷ "missing_key" ∷ []

-- What follows `http_` in a status.
abbrev pub http_code_counts : Option (List ℕ) → Bool
http_code_counts none = false
http_code_counts (some code) =
    (same_codes code (codes "401")
      || same_codes code (codes "402")
      || same_codes code (codes "403"))
    || starts_with (codes "5") code

unfoldable pub probe_status_counts : String → Bool
probe_status_counts status =
    member status probe_counted_statuses
    || http_code_counts (after_prefix (codes "http_") (codes status))

-- What one event did to the breaker of a node.
pub record Transition : Type 0 where
  pub fails : ℕ
  pub disabled_now : Bool
  pub recovered : Bool

abbrev pub set_breaker : ℕ → Bool → Node → Node
set_breaker fails disabled n = record n { consecutive_failures = fails; auto_disabled = disabled }

abbrev pub set_health : String → Option ℕ → ℕ → Node → Node
set_health status latency now n = record n {
  last_test_status = some status;
  last_test_latency_ms = latency;
  last_test_at = some now;
}

-- `BREAKER_THRESHOLD`, which the environment sets, is `threshold`.
module _ (threshold : ℕ) where
  abbrev pub update_of :
      Bool → String → String → Option Node → List Node → List Node × Option Transition
  update_of counted tenant id none ns = (ns, none)
  update_of true tenant id (some row) ns =
      let fails = suc row.consecutive_failures in
      let disable = leb threshold fails in
      (
        update (is_node tenant id) (set_breaker fails (row.auto_disabled || disable)) ns,
        some (record {
          fails = fails;
          disabled_now = disable && not row.auto_disabled;
          recovered = false;
        }),
      )
  update_of false tenant id (some row) ns = (
    update (is_node tenant id) (set_breaker 0 false) ns,
    some (record { fails = 0; disabled_now = false; recovered = row.auto_disabled }),
  )

  -- `_breaker_update`
  unfoldable pub breaker_update : Bool → String → String → List Node → List Node × Option Transition
  breaker_update counted tenant id ns =
      update_of counted tenant id (first (is_node tenant id) ns) ns

  unfoldable pub record_call_failure : String → String → String → List Node → List Node
  unfolding breaker_update
  record_call_failure tenant id code ns =
      if member code breaker_counted_codes then (breaker_update true tenant id ns).0 else ns

  unfoldable pub record_call_success : String → String → List Node → List Node
  unfolding breaker_update
  record_call_success tenant id ns = (breaker_update false tenant id ns).0

  unfoldable pub record_node_health :
      String → String → String → Option ℕ → ℕ → List Node → List Node
  unfolding breaker_update probe_status_counts
  record_node_health tenant id status latency now ns =
      let tested = update (is_node tenant id) (set_health status latency now) ns in
      if same status "ok"
      then (breaker_update false tenant id tested).0
      else if probe_status_counts status
      then (breaker_update true tenant id tested).0
      else tested
