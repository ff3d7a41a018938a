-- ===== src/Nodes.antt =====
-- engine/llm_nodes.py: `LLMNodeStore`, the language-model nodes of each tenant and the bindings of
-- roles to them. The lock makes each method one step on the two tables; an API key is kept as the
-- encrypted text of its column.
use resu_align_lite.Prelude.{
  ℕ, String, Bool, not, ◌&&◌, ◌||◌, Option, none, some, List, [], ◌∷◌, map, ltb, ◌==◌,
  if◌then◌else◌,
}
use resu_align_lite.Prelude.Table.{same, filter, count, first}
use resu_align_lite.Prelude.Order.{sort_with}
use resu_align_lite.Prelude.Search.{codes, contains, not_after, lower}
pub mod Breaker
pub mod Writes
pub mod Bindings
pub mod Events
pub mod Trip
pub mod Ordering
pub mod Promotion
pub mod Serving
pub mod Binding

-- A row of `llm_nodes`.
pub record Node : Type 0 where
  pub node_id : String
  pub tenant_id : String
  pub name : String
  pub provider : String
  pub base_url : Option String
  pub api_key : Option String
  pub model : Option String
  pub is_active : Bool
  pub created_at : ℕ
  pub updated_at : ℕ
  pub last_test_status : Option String
  pub last_test_latency_ms : Option ℕ
  pub last_test_at : Option ℕ
  pub disable_thinking : Bool
  pub consecutive_failures : ℕ
  pub auto_disabled : Bool

-- A row of `llm_role_assignments`.
pub record Assignment : Type 0 where
  pub assigned_tenant : String
  pub role : String
  pub assigned_node : String
  pub assigned_at : ℕ

pub record NodeStore : Type 0 where
  pub nodes : List Node
  pub assignments : List Assignment

abbrev pub quality_sensitive_roles : List String
quality_sensitive_roles = "editor" ∷ "evaluator" ∷ []

abbrev pub llm_roles : List String
llm_roles = "diagnose" ∷ "profiler" ∷ "gap_analyzer" ∷ "editor" ∷ "evaluator" ∷ []

-- `WHERE tenant_id = ? AND node_id = ?`
abbrev pub is_node : String → String → Node → Bool
is_node tenant id n = same n.tenant_id tenant && same n.node_id id

abbrev pub is_active_of : String → Node → Bool
is_active_of tenant n = same n.tenant_id tenant && n.is_active

abbrev pub of_tenant : String → Node → Bool
of_tenant tenant n = same n.tenant_id tenant

-- `tenant_id = ? AND is_active = 1 AND auto_disabled = 0`
abbrev pub is_usable : String → Node → Bool
is_usable tenant n = same n.tenant_id tenant && (n.is_active && not n.auto_disabled)

-- `(base_url or "").lower()`
abbrev url_codes : Option String → List ℕ
url_codes none = []
url_codes (some s) = lower (codes s)

unfoldable pub is_local_node : Node → Bool
is_local_node n =
    same n.provider "ollama"
    || (let url = url_codes n.base_url in
        contains (codes "localhost") url || contains (codes "127.0.0.1") url)

-- `ORDER BY created_at ASC, node_id ASC`
unfoldable pub created_order : Node → Node → Bool
created_order n m =
    ltb n.created_at m.created_at
    || (n.created_at == m.created_at && not_after (codes n.node_id) (codes m.node_id))

-- The key `(not local, created_at)` of the sort by priority.
unfoldable pub priority_order : Node → Node → Bool
unfolding is_local_node
priority_order n m =
    if is_local_node n
    then not (is_local_node m) || not (ltb m.created_at n.created_at)
    else not (is_local_node m) && not (ltb m.created_at n.created_at)

-- `nodes[0] if nodes else None`
abbrev pub head : List Node → Option Node
head [] = none
head (n ∷ ns) = some n

-- `_row_to_dict`. `decrypt_value` of secret_box.py is a parameter.
abbrev pub row_to_dict : (Option String → Option String) → Node → Node
row_to_dict decrypt_value n = record n { api_key = decrypt_value n.api_key }

module _ (decrypt_value : Option String → Option String) where
  abbrev pub some_dict : Option Node → Option Node
  some_dict none = none
  some_dict (some n) = some (row_to_dict decrypt_value n)

  unfoldable pub get_node : String → String → NodeStore → Option Node
  get_node tenant id s = some_dict (first (is_node tenant id) s.nodes)

  unfoldable pub get_active_node : String → NodeStore → Option Node
  get_active_node tenant s = some_dict (first (is_active_of tenant) s.nodes)

  unfoldable pub list_nodes : String → NodeStore → List Node
  unfolding created_order
  list_nodes tenant s =
      map (row_to_dict decrypt_value) (sort_with created_order (filter (of_tenant tenant) s.nodes))

  unfoldable pub get_usable_nodes : String → NodeStore → List Node
  unfolding priority_order created_order
  get_usable_nodes tenant s = sort_with priority_order (
      map (row_to_dict decrypt_value) (sort_with created_order (filter (is_usable tenant) s.nodes)))

  unfoldable pub get_usable_node : String → NodeStore → Option Node
  unfolding get_usable_nodes
  get_usable_node tenant s = head (get_usable_nodes tenant s)

unfoldable pub count_nodes : String → NodeStore → ℕ
count_nodes tenant s = count (of_tenant tenant) s.nodes
