-- ===== src/Router.antt =====
-- engine/role_router.py: which language-model node serves a role, with what limits, and in which order
-- the others are tried when it fails. Times count thousandths of a second.
use resu_align_lite.Prelude.{
  ℕ, String, Bool, true, false, Option, none, some, List, [], ◌∷◌, map, if◌then◌else◌,
}
use resu_align_lite.Prelude.Table.{same}
use resu_align_lite.Delivery.Vocabulary.{member}
use resu_align_lite.Nodes.{Node, NodeStore, is_local_node}
use resu_align_lite.Nodes.Bindings.{resolve_node_for_role}
pub mod Cooldown
pub mod Calls
pub mod Warmth
pub mod Fallbacks
pub mod Plan
pub mod Once
pub mod Answers

-- `ResuAlignConfig`
pub record Config : Type 0 where
  pub provider : String
  pub model : Option String
  pub api_key : Option String
  pub base_url : Option String
  pub disable_thinking : Bool

-- What an `OpenAIClient` is made with.
pub record Client : Type 0 where
  pub config : Config
  pub timeout : Option ℕ
  pub max_tokens : Option ℕ
  pub token_cap : Option ℕ
  pub deadline : Option ℕ
  pub retry_transport : Option Bool

-- `table.get(role)`
abbrev pub role_get : List (String × ℕ) → String → Option ℕ
role_get [] role = none
role_get (r ∷ rs) role = let rest = role_get rs role in if same r.0 role then some r.1 else rest

abbrev pub role_timeout_defaults : List (String × ℕ)
role_timeout_defaults =
    ("diagnose", 45000)
    ∷ ("profiler", 75000)
    ∷ ("gap_analyzer", 60000)
    ∷ ("editor", 150000)
    ∷ ("evaluator", 60000)
    ∷ []

abbrev pub role_max_tokens_table : List (String × ℕ)
role_max_tokens_table =
    ("diagnose", 512)
    ∷ ("profiler", 1024)
    ∷ ("gap_analyzer", 1024)
    ∷ ("editor", 3072)
    ∷ ("evaluator", 384)
    ∷ []

abbrev pub role_token_cap_table : List (String × ℕ)
role_token_cap_table =
    ("diagnose", 1024)
    ∷ ("profiler", 2048)
    ∷ ("gap_analyzer", 2048)
    ∷ ("editor", 6144)
    ∷ ("evaluator", 768)
    ∷ []

abbrev pub retry_on_transport_roles : List String
retry_on_transport_roles = "classifier" ∷ "intake" ∷ "profiler" ∷ "gap_analyzer" ∷ "polish" ∷ []

unfoldable pub role_max_tokens : String → Option ℕ
role_max_tokens role = role_get role_max_tokens_table role

unfoldable pub role_token_cap : String → Option ℕ
role_token_cap role = role_get role_token_cap_table role

abbrev pub or_number : Option ℕ → ℕ → ℕ
or_number none d = d
or_number (some n) d = n

-- The number that the environment has for a role, when it has one that `float` reads, is
-- `env_timeout`.
module _ (env_timeout : String → Option ℕ) where
  unfoldable pub role_timeout : String → ℕ
  role_timeout role =
      or_number (env_timeout role) (or_number (role_get role_timeout_defaults role) 30000)

  unfoldable pub role_deadline : String → ℕ
  unfolding role_timeout
  role_deadline role = role_timeout role

  unfoldable pub role_timeouts : List (String × ℕ)
  unfolding role_timeout
  role_timeouts = map (λ r. (r.0, role_timeout r.0)) role_timeout_defaults

  -- The client of `call_with_role` and `create_client_for_role`.
  unfoldable pub role_client : String → Config → Client
  unfolding role_timeout role_deadline role_max_tokens role_token_cap
  role_client role config = record {
    config = config;
    timeout = some (role_timeout role);
    max_tokens = role_max_tokens role;
    token_cap = role_token_cap role;
    deadline = some (role_deadline role);
    retry_transport = some (member role retry_on_transport_roles);
  }

  -- The client of `call_with_role_streaming`.
  unfoldable pub stream_client : String → Config → Client
  unfolding role_timeout
  stream_client role config = record {
    config = config;
    timeout = some (role_timeout role);
    max_tokens = none;
    token_cap = none;
    deadline = none;
    retry_transport = none;
  }

-- `_config_from_node` of a node
abbrev pub config_of : Node → Config
config_of n = record {
  provider = n.provider;
  model = n.model;
  api_key = n.api_key;
  base_url = n.base_url;
  disable_thinking = n.disable_thinking;
}

abbrev pub config_from_node : Option Node → Option Config
config_from_node none = none
config_from_node (some n) = some (config_of n)

module _ (decrypt_value : Option String → Option String) where
  unfoldable pub resolve_config_for_role : String → String → NodeStore → NodeStore × Option Config
  unfolding resolve_node_for_role
  resolve_config_for_role tenant role s =
      let resolved = resolve_node_for_role decrypt_value tenant role s in
      (resolved.0, config_from_node resolved.1)

  abbrev pub with_timeout : Option ℕ → Client → Client
  with_timeout none c = c
  with_timeout (some t) c = record c { timeout = some t }

  abbrev pub client_of : (String → Option ℕ) → String → Option ℕ → Option Config → Option Client
  client_of env_timeout role timeout none = none
  client_of env_timeout role timeout (some c) =
      some (with_timeout timeout (role_client env_timeout role c))

  unfoldable pub create_client_for_role :
      (String → Option ℕ) → String → String → Option ℕ → NodeStore → NodeStore × Option Client
  unfolding resolve_config_for_role role_client
  create_client_for_role env_timeout tenant role timeout s =
      let resolved = resolve_config_for_role tenant role s in
      (resolved.0, client_of env_timeout role timeout resolved.1)

  abbrev pub is_local : Option Node → Bool
  is_local none = false
  is_local (some n) = is_local_node n

  unfoldable pub is_parallel_safe : String → List String → NodeStore → NodeStore × Bool
  unfolding resolve_node_for_role is_local_node
  is_parallel_safe tenant [] s = (s, true)
  is_parallel_safe tenant (role ∷ roles) s =
      let resolved = resolve_node_for_role decrypt_value tenant role s in
      let rest = is_parallel_safe tenant roles resolved.0 in
      if is_local resolved.1 then (resolved.0, false) else rest
