-- ===== src/Nodes/Bindings.antt =====
-- The bindings of roles to nodes, and the node that serves a role, in engine/llm_nodes.py.
use resu_align_lite.Prelude.{
  ℕ, String, Bool, true, false, not, ◌&&◌, Option, none, some, List, [], ◌∷◌, ◌++◌, if◌then◌else◌,
}
use resu_align_lite.Prelude.Table.{same, filter, update, any, first}
use resu_align_lite.Delivery.Vocabulary.{member}
use resu_align_lite.Nodes.{
  Node, Assignment, NodeStore, is_node, is_local_node, quality_sensitive_roles, llm_roles, get_node,
  get_usable_nodes,
}
use resu_align_lite.Nodes.Writes.{Answer, returned, user_store_error}

abbrev pub is_binding : String → String → Assignment → Bool
is_binding tenant role a = same a.assigned_tenant tenant && same a.role role

abbrev pub node_of : Option Assignment → Option String
node_of none = none
node_of (some a) = some a.assigned_node

-- `INSERT ... ON CONFLICT(tenant_id, role) DO UPDATE`
abbrev pub upsert_binding : String → String → String → ℕ → List Assignment → List Assignment
upsert_binding tenant role id now rows =
    if any (is_binding tenant role) rows
    then update (is_binding tenant role) (λ a. record a { assigned_node = id; assigned_at = now })
        rows
    else rows
      ++ record { assigned_tenant = tenant; role = role; assigned_node = id; assigned_at = now }
        ∷ []

unfoldable pub set_role_binding : String → String → String → ℕ → NodeStore → NodeStore × Answer Bool
set_role_binding tenant role id now s =
    if not (member role llm_roles)
    then (s, user_store_error)
    else if any (is_node tenant id) s.nodes
    then (record s { assignments = upsert_binding tenant role id now s.assignments }, returned true)
    else (s, returned false)

unfoldable pub get_role_binding : String → String → NodeStore → Option String
get_role_binding tenant role s =
    if member role llm_roles then node_of (first (is_binding tenant role) s.assignments) else none

unfoldable pub delete_role_binding : String → String → NodeStore → NodeStore × Bool
delete_role_binding tenant role s =
    if member role llm_roles
    then (
      record s { assignments = filter (λ a. not (is_binding tenant role a)) s.assignments },
      any (is_binding tenant role) s.assignments,
    )
    else (s, false)

unfoldable pub clear_role_bindings : String → NodeStore → NodeStore
clear_role_bindings tenant s = record s {
  assignments = filter (λ a. not (same a.assigned_tenant tenant)) assignments;
}
  where
    open s use {assignments}

-- `nodes[0]`, or the first remote node for a role that is sensitive to quality.
abbrev pub preferred : Bool → Node → List Node → Option Node
preferred quality n rest =
    if quality
    then elim (first (λ m. not (is_local_node m)) (n ∷ rest)) [ none ↦ some n | some m ↦ some m ]
    else some n

abbrev pub choose : String → List Node → Option Node
choose role [] = none
choose role (n ∷ []) = some n
choose role (n ∷ m ∷ rest) = preferred (member role quality_sensitive_roles) n (m ∷ rest)

abbrev pub or_choose : String → List Node → Option Node → Option Node
or_choose role usable none = choose role usable
or_choose role usable (some n) = some n

-- A bound node that is not disabled serves the role; the binding of a missing node is dropped.
abbrev pub resolve_row : String → String → Option Node → NodeStore → NodeStore × Option Node
resolve_row tenant role none s = ((delete_role_binding tenant role s).0, none)
resolve_row tenant role (some n) s = (s, if n.auto_disabled then none else some n)

module _ (decrypt_value : Option String → Option String) where
  abbrev pub resolve_bound : String → String → Option String → NodeStore → NodeStore × Option Node
  resolve_bound tenant role none s = (s, none)
  resolve_bound tenant role (some id) s =
      resolve_row tenant role (get_node decrypt_value tenant id s) s

  unfoldable pub resolve_node_for_role : String → String → NodeStore → NodeStore × Option Node
  unfolding get_role_binding delete_role_binding get_node get_usable_nodes is_local_node
  resolve_node_for_role tenant role s =
      let bound = resolve_bound tenant role (get_role_binding tenant role s) s in
      (bound.0, or_choose role (get_usable_nodes decrypt_value tenant bound.0) bound.1)
