-- ===== src/Nodes/Writes.antt =====
-- The writes of engine/llm_nodes.py besides the breaker: nodes, their activation and the bindings.
-- A UserStoreError is an answer of its own.
use resu_align_lite.Prelude.{
  ℕ, String, Bool, true, false, not, ◌&&◌, ◌||◌, Option, none, some, List, [], ◌∷◌, ◌++◌, ◌==◌,
  if◌then◌else◌,
}
use resu_align_lite.Prelude.Table.{filter, update, count, first}
use resu_align_lite.Prelude.Order.{sort_with}
use resu_align_lite.Prelude.Texts.{strip, is_empty, or_text}
use resu_align_lite.Delivery.Vocabulary.{member}
use resu_align_lite.Nodes.{Node, NodeStore, is_node, of_tenant, created_order, head, get_node}

-- What a method returns, or the error it raises.
pub data Answer (A : Type 0) : Type 0 where
  returned : A → Answer A
  user_store_error : Answer A

-- The fields of a node that a user edits.
pub record NodeFields : Type 0 where
  pub name : String
  pub provider : String
  pub base_url : Option String
  pub api_key : Option String
  pub model : Option String
  pub is_active : Bool
  pub disable_thinking : Bool

-- `_validate_node`: whether it returns. The types of the other fields are given. `ALLOWED_PROVIDERS`
-- is `allowed`.
unfoldable pub validate_node : List String → String → String → Option String → Bool
validate_node allowed name provider model =
    not (is_empty (strip name))
    && (member provider allowed && not (is_empty (strip (or_text model ""))))

-- Secrets go through `encrypt_value` and `decrypt_value` of secret_box.py.
module _ (encrypt_value decrypt_value : Option String → Option String) (allowed : List String) where
  abbrev pub is_true : Option Bool → Bool
  is_true none = false
  is_true (some b) = b

  -- `create_node` with a fresh id at a time.
  unfoldable pub create_node :
      String
      → ℕ
      → String
      → String
      → String
      → Option String
      → Option String
      → Option String
      → Option Bool
      → Bool
      → NodeStore
      → NodeStore × Answer (Option Node)
  unfolding validate_node get_node
  create_node id now tenant name provider model base_url api_key is_active thinking s =
      let activate = count (of_tenant tenant) s.nodes == 0 || is_true is_active in
      let row : Node = record {
        node_id = id;
        tenant_id = tenant;
        name = name;
        provider = provider;
        base_url = base_url;
        api_key = encrypt_value api_key;
        model = model;
        is_active = activate;
        created_at = now;
        updated_at = now;
        last_test_status = none;
        last_test_latency_ms = none;
        last_test_at = none;
        disable_thinking = thinking;
        consecutive_failures = 0;
        auto_disabled = false;
      } in
      let next = record s { nodes = s.nodes ++ row ∷ [] } in
      if validate_node allowed name provider model
      then (next, returned (get_node decrypt_value tenant id next))
      else (s, user_store_error)

  abbrev pub set_fields : NodeFields → ℕ → Node → Node
  set_fields f now n = record n {
    name = f.name;
    provider = f.provider;
    base_url = f.base_url;
    api_key = encrypt_value f.api_key;
    model = f.model;
    is_active = f.is_active;
    disable_thinking = f.disable_thinking;
    updated_at = now;
  }

  -- The fields of a node as the caller of `update_node` sees them.
  abbrev pub fields_of : Node → NodeFields
  fields_of n = record {
    name = n.name;
    provider = n.provider;
    base_url = n.base_url;
    api_key = n.api_key;
    model = n.model;
    is_active = n.is_active;
    disable_thinking = n.disable_thinking;
  }

  abbrev pub update_row :
      String
      → String
      → (NodeFields → NodeFields)
      → ℕ
      → Option Node
      → NodeStore
      → NodeStore × Answer (Option Node)
  update_row tenant id updates now none s = (s, returned none)
  update_row tenant id updates now (some node) s =
      let merged = updates (fields_of node) in
      let next = record s { nodes = update (is_node tenant id) (set_fields merged now) s.nodes } in
      if validate_node allowed merged.name merged.provider merged.model
      then (next, returned (get_node decrypt_value tenant id next))
      else (s, user_store_error)

  -- `update_node`. The dict of updates is the function that puts its keys over the stored fields.
  unfoldable pub update_node :
      String → String → (NodeFields → NodeFields) → ℕ → NodeStore → NodeStore × Answer (Option Node)
  unfolding validate_node get_node
  update_node tenant id updates now s =
      update_row tenant id updates now (get_node decrypt_value tenant id s) s

abbrev pub set_active : ℕ → Node → Node
set_active now n = record n { is_active = true; updated_at = now }

-- The oldest node of the tenant becomes active.
abbrev pub promote : String → ℕ → Option Node → List Node → List Node
promote tenant now none ns = ns
promote tenant now (some n) ns = update (is_node tenant n.node_id) (set_active now) ns

abbrev pub delete_row : String → String → ℕ → Option Node → NodeStore → NodeStore × Bool
delete_row tenant id now none s = (s, false)
delete_row tenant id now (some row) s =
    let left = filter (λ n. not (is_node tenant id n)) s.nodes in
    (
      record s {
        nodes =
            if row.is_active
            then promote tenant now
                (head (sort_with created_order (filter (of_tenant tenant) left))) left
            else left;
      },
      true,
    )

unfoldable pub delete_node : String → String → ℕ → NodeStore → NodeStore × Bool
unfolding created_order
delete_node tenant id now s = delete_row tenant id now (first (is_node tenant id) s.nodes) s

abbrev pub reactivate : ℕ → Node → Node
reactivate now n = record n {
  is_active = true;
  consecutive_failures = 0;
  auto_disabled = false;
  updated_at = now;
}

module _ (decrypt_value : Option String → Option String) where
  abbrev pub activate_row : String → String → ℕ → Option Node → NodeStore → NodeStore × Option Node
  activate_row tenant id now none s = (s, none)
  activate_row tenant id now (some row) s =
      let next = record s { nodes = update (is_node tenant id) (reactivate now) s.nodes } in
      (next, get_node decrypt_value tenant id next)

  unfoldable pub activate_node : String → String → ℕ → NodeStore → NodeStore × Option Node
  unfolding get_node
  activate_node tenant id now s = activate_row tenant id now (first (is_node tenant id) s.nodes) s
