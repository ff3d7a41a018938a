-- ===== src/Router/Cooldown.antt =====
-- The cooldown of nodes in engine/role_router.py, a dict of this process, and the nodes that are
-- tried after the first.
use resu_align_lite.Prelude.{
  ℕ, ◌+◌, String, Bool, true, false, not, ◌&&◌, ◌||◌, Option, none, some, List, [], ◌∷◌, ◌++◌, leb,
  if◌then◌else◌,
}
use resu_align_lite.Prelude.Table.{same, filter, first}
use resu_align_lite.Prelude.Texts.{is_empty}
use resu_align_lite.Delivery.Vocabulary.{member}
use resu_align_lite.Nodes.{Node, NodeStore, get_usable_node, get_usable_nodes}
use resu_align_lite.Router.{Config}

pub record Cooled : Type 0 where
  pub tenant : String
  pub node : String
  pub expires_at : ℕ

abbrev pub is_key : String → String → Cooled → Bool
is_key tenant id c = same c.tenant tenant && same c.node id

abbrev pub without : String → String → List Cooled → List Cooled
without tenant id cs = filter (λ c. not (is_key tenant id c)) cs

abbrev pub cooldown_of : String → String → ℕ → Option Cooled → List Cooled → List Cooled × Bool
cooldown_of tenant id now none cs = (cs, false)
cooldown_of tenant id now (some c) cs =
    if leb c.expires_at now then (without tenant id cs, false) else (cs, true)

-- `_is_node_cooled_down`, which drops an entry that has expired.
unfoldable pub is_node_cooled_down : String → String → ℕ → List Cooled → List Cooled × Bool
is_node_cooled_down tenant id now cs = cooldown_of tenant id now (first (is_key tenant id) cs) cs

abbrev pub node_cooldown : ℕ
node_cooldown = 60000

unfoldable pub cool_down_node : String → String → ℕ → List Cooled → List Cooled
cool_down_node tenant id now cs =
    without tenant id cs
    ++ record { tenant = tenant; node = id; expires_at = now + node_cooldown } ∷ []

abbrev pub cooldown_codes : List String
cooldown_codes = "timeout" ∷ []

unfoldable pub should_cool_down : String → Bool
should_cool_down code = member code cooldown_codes

unfoldable pub clear_node_cooldown : List Cooled → List Cooled
clear_node_cooldown cs = []

-- The first node of a list that is not cooled down.
unfoldable pub first_warm : String → ℕ → List Cooled → List Node → List Cooled × Option Node
unfolding is_node_cooled_down
first_warm tenant now cs [] = (cs, none)
first_warm tenant now cs (n ∷ ns) =
    let check = is_node_cooled_down tenant n.node_id now cs in
    let rest = first_warm tenant now check.0 ns in if check.1 then rest else (check.0, some n)

-- The loop of `_fallback_candidates` over the usable nodes, with the ids it has seen.
unfoldable pub candidates_from :
    String → ℕ → List String → List Cooled → List Node → List Cooled × List Node
unfolding is_node_cooled_down
candidates_from tenant now seen cs [] = (cs, [])
candidates_from tenant now seen cs (n ∷ ns) =
    let anonymous = is_empty n.node_id in
    let known = not anonymous && member n.node_id seen in
    let check =
      (if anonymous || known then (cs, false) else is_node_cooled_down tenant n.node_id now cs) in
    let skipped = known || check.1 in
    let rest =
      candidates_from tenant now (if anonymous || skipped then seen else n.node_id ∷ seen) check.0
        ns in
    (rest.0, if skipped then rest.1 else n ∷ rest.1)

-- What is tried after the first attempt: a node, or a configuration in place of one.
pub data Candidate : Type 0 where
  at_node : Node → Candidate
  at_config : Config → Candidate

abbrev pub at_nodes : List Node → List Candidate
at_nodes [] = []
at_nodes (n ∷ ns) = at_node n ∷ at_nodes ns

abbrev pub seen_at_first : Option Node → List String
seen_at_first none = []
seen_at_first (some n) = if is_empty n.node_id then [] else n.node_id ∷ []

-- The store is an `LLMNodeStore`, which has all three methods that the code looks for.
module _ (decrypt_value : Option String → Option String) where
  abbrev pub warm_or :
      String → ℕ → NodeStore → List Cooled × Bool → Node → List Cooled × Option Node
  warm_or tenant now s check n =
      let rest = first_warm tenant now check.0 (get_usable_nodes decrypt_value tenant s) in
      if check.1 then rest else (check.0, some n)

  abbrev pub usable_of :
      String → ℕ → NodeStore → List Cooled → Option Node → List Cooled × Option Node
  usable_of tenant now s cs none =
      first_warm tenant now cs (get_usable_nodes decrypt_value tenant s)
  usable_of tenant now s cs (some n) =
      warm_or tenant now s (is_node_cooled_down tenant n.node_id now cs) n

  unfoldable pub usable_active_node :
      String → ℕ → NodeStore → List Cooled → List Cooled × Option Node
  unfolding first_warm is_node_cooled_down get_usable_nodes get_usable_node
  usable_active_node tenant now s cs =
      usable_of tenant now s cs (get_usable_node decrypt_value tenant s)

  unfoldable pub usable_active_nodes : String → NodeStore → List Node
  unfolding get_usable_nodes
  usable_active_nodes tenant s = get_usable_nodes decrypt_value tenant s

  abbrev pub nodes_after :
      String → ℕ → Option Node → NodeStore → List Cooled → List Cooled × List Node
  nodes_after tenant now primary s cs =
      candidates_from tenant now (seen_at_first primary) cs (usable_active_nodes tenant s)

  abbrev pub candidates_of :
      String
      → ℕ
      → Option Node
      → Option Config
      → NodeStore
      → List Cooled
      → List Cooled × List Candidate
  candidates_of tenant now primary (some c) s cs = (cs, at_config c ∷ [])
  candidates_of tenant now primary none s cs =
      let rest = nodes_after tenant now primary s cs in (rest.0, at_nodes rest.1)

  -- `_fallback_candidates`
  unfoldable pub fallback_candidates :
      String
      → ℕ
      → Option Node
      → Option Config
      → NodeStore
      → List Cooled
      → List Cooled × List Candidate
  unfolding candidates_from usable_active_nodes
  fallback_candidates tenant now primary default s cs =
      candidates_of tenant now primary default s cs
