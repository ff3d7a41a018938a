-- ===== src/Router/Calls.antt =====
-- `call_with_role` and `call_with_role_streaming` of engine/role_router.py: one attempt at the node of
-- the role, then one at each candidate until one answers. Exceptions are values.
use resu_align_lite.Prelude.{
  ℕ, zero, suc, String, Bool, true, false, Option, none, some, List, [], ◌∷◌, if◌then◌else◌,
}
use resu_align_lite.Prelude.Texts.{or_text, is_empty}
use resu_align_lite.Nodes.{Node, NodeStore}
use resu_align_lite.Nodes.Breaker.{record_call_failure, record_call_success}
use resu_align_lite.Nodes.Bindings.{resolve_node_for_role}
use resu_align_lite.Router.{Config, Client, role_client, stream_client, config_of}
use resu_align_lite.Router.Cooldown.{
  Cooled, is_node_cooled_down, cool_down_node, should_cool_down, Candidate, at_node, at_config,
  fallback_candidates,
}

pub data Kind : Type 0 where
  -- `LLMResponseError`, `StreamConnectionError` and any other exception
  llm_response stream_connection unexpected : Kind

-- An exception, with its attribute `code` when it has one.
pub record Failure : Type 0 where
  pub kind : Kind
  pub code : Option String
  pub message : String

pub data Outcome (A : Type 0) : Type 0 where
  answered : A → Outcome A
  raised : Failure → Outcome A

-- `meta`
pub record Meta : Type 0 where
  pub role : String
  pub node_name : Option String
  pub model : Option String
  pub fallback_used : Bool
  pub fallback_node_name : Option String
  pub error : Option String

-- The store of nodes and the cooldown of the process.
pub record Router : Type 0 where
  pub store : NodeStore
  pub cooldown : List Cooled

-- `text[:n]`
unfoldable pub cut : ℕ → String → String
cut zero s = String.[]
cut (suc n) String.[] = String.[]
cut (suc n) (String.◌∷◌ c s) = String.◌∷◌ c (cut n s)

abbrev pub code_or : Option String → String → String
code_or none d = d
code_or (some c) d = c

abbrev pub no_default : Failure
no_default = record {
  kind = llm_response;
  code = some "http";
  message = "No default node available for fallback";
}

-- `_report_call_outcome`: the failure code, or none for a success.
abbrev pub report_at : ℕ → String → Option String → Option Node → NodeStore → NodeStore
report_at threshold tenant code none s = s
report_at threshold tenant code (some n) s = if is_empty n.node_id then s else record s {
  nodes = elim code [
    | none ↦ record_call_success threshold tenant n.node_id s.nodes
    | some c ↦ record_call_failure threshold tenant n.node_id (or_text (some c) "other") s.nodes
  ];
}

unfoldable pub report_call_outcome :
    ℕ → String → Option String → Option Node → NodeStore → NodeStore
unfolding record_call_failure record_call_success
report_call_outcome threshold tenant code node s = report_at threshold tenant code node s

-- The node that is tried first: that of the role, unless it is cooled down.
abbrev pub unless_cooled : Bool → Node → Option Node
unless_cooled true n = none
unless_cooled false n = some n

abbrev pub warm_primary : String → ℕ → Option Node → List Cooled → List Cooled × Option Node
warm_primary tenant now none cs = (cs, none)
warm_primary tenant now (some n) cs =
    let check = is_node_cooled_down tenant n.node_id now cs in (check.0, unless_cooled check.1 n)

abbrev pub first_meta : String → Meta
first_meta role = record {
  role = role;
  node_name = some "";
  model = some "";
  fallback_used = false;
  fallback_node_name = none;
  error = none;
}

abbrev pub client_config : Candidate → Config
client_config (at_node n) = config_of n
client_config (at_config c) = c

abbrev pub node_at : Candidate → Option Node
node_at (at_node n) = some n
node_at (at_config c) = none

abbrev pub fallback_meta : Candidate → Meta → Meta
fallback_meta (at_node n) m = record m { fallback_used = true; fallback_node_name = some n.name }
fallback_meta (at_config c) m = record m { fallback_used = true }

abbrev pub primary_of :
    (Option String → Option String) → String → String → ℕ → Router → Router × Option Node
primary_of decrypt_value tenant role now r =
    let resolved = resolve_node_for_role decrypt_value tenant role r.store in
    let primary = warm_primary tenant now resolved.1 r.cooldown in
    (record r { store = resolved.0; cooldown = primary.0 }, primary.1)

abbrev pub reported : ℕ → String → Option String → Option Node → Router → Router
reported threshold tenant code node r = record r {
  store = report_call_outcome threshold tenant code node r.store;
}

abbrev pub named_meta : Node → Meta → Meta
named_meta n m = record m { node_name = n.model; model = n.model }

abbrev pub failed_meta : Failure → Meta → Meta
failed_meta f m = record m { error = some (cut 200 f.message); fallback_used = true }

abbrev pub cooled_if : String → Bool → ℕ → Node → Router → Router
cooled_if tenant true now n r = record r {
  cooldown = cool_down_node tenant n.node_id now r.cooldown;
}
cooled_if tenant false now n r = r

-- What `call_with_role` does about an exception of the first attempt: whether the node is cooled
-- down, and the code that is reported.
abbrev pub call_code : Failure → Bool × String
call_code f = elim f.kind [
  | llm_response ↦ (should_cool_down (code_or f.code "other"), code_or f.code "other")
  | _ ↦ (true, "other")
]

-- The code of an exception of the first attempt at a stream, `""` for none.
abbrev pub stream_code : Failure → String
stream_code f = or_text f.code (elim f.kind [ stream_connection ↦ "timeout" | _ ↦ "" ])

-- The result of a call, `meta`, and what it leaves.
abbrev pub Run : Type 0 → Type 0 → Type 0
Run A W = (Outcome A × Meta) × (Router × W)

-- The threshold of the breaker, the decryption of keys, and the clients of the role. `fn` is the
-- function that is called with a client; what it does outside is in the world it passes on.
module _ {A W : Type 0} (threshold : ℕ) (decrypt_value : Option String → Option String)
    (client : Config → Client) (fn : Client → W → Outcome A × W) (tenant : String) where
  -- The loop over the candidates, with the exception of the last one tried.
  unfoldable pub try_candidates : Failure → List Candidate → Meta → Router → W → Run A W
  unfolding report_call_outcome cut
  try_candidates last [] meta r w = ((raised last, meta), (r, w))
  try_candidates last (c ∷ cs) meta r w =
      let here = fallback_meta c meta in
      let out = fn (client (client_config c)) w in
      elim out.0 [
        | answered a ↦ ((answered a, here), (reported threshold tenant none (node_at c) r, out.1))
        | raised f ↦
            try_candidates f cs (record here { error = some (cut 200 f.message) })
              (reported threshold tenant (some (code_or f.code "other")) (node_at c) r) out.1
      ]

  abbrev pub or_no_default : Meta → Router → W → List Candidate → Run A W
  or_no_default meta r w [] =
      ((raised no_default, record meta { error = some no_default.message }), (r, w))
  or_no_default meta r w (c ∷ cs) = try_candidates no_default (c ∷ cs) meta r w

  -- The fallback after the first attempt, at a time.
  unfoldable pub fall_back : ℕ → Option Node → Option Config → Meta → Router → W → Run A W
  unfolding fallback_candidates try_candidates
  fall_back now primary default meta r w =
      let found = fallback_candidates decrypt_value tenant now primary default r.store r.cooldown in
      or_no_default meta (record r { cooldown = found.0 }) w found.1

  -- The first attempt failed: the rest, with the clock at `later`.
  abbrev pub after_failure :
      Bool × String → ℕ → Node → Option Config → Failure → Meta → Router → W → Run A W
  after_failure code later n default f meta r w =
      fall_back later (some n) default (failed_meta f (named_meta n meta))
        (reported threshold tenant (some code.1) (some n) (cooled_if tenant code.0 later n r)) w

  abbrev pub first_attempt : String → ℕ → Option Config → Option Node → Router → W → Run A W
  first_attempt role later default none r w = fall_back later none default (first_meta role) r w
  first_attempt role later default (some n) r w =
      let out = fn (client (config_of n)) w in
      elim out.0 [
        | answered a ↦ (
          (answered a, named_meta n (first_meta role)),
          (reported threshold tenant none (some n) r, out.1),
        )
        | raised f ↦ after_failure (call_code f) later n default f (first_meta role) r out.1
      ]

  abbrev pub stream_attempt : String → ℕ → Option Node → Router → W → Run A W
  stream_attempt role later none r w = fall_back later none none (first_meta role) r w
  stream_attempt role later (some n) r w =
      let out = fn (client (config_of n)) w in
      elim out.0 [
        | answered a ↦ (
          (answered a, named_meta n (first_meta role)),
          (reported threshold tenant none (some n) r, out.1),
        )
        | raised f ↦ elim f.kind [
          | unexpected ↦ ((raised f, named_meta n (first_meta role)), (r, out.1))
          | _ ↦
              let code = stream_code f in
              after_failure (should_cool_down code, code) later n none f (first_meta role) r out.1
        ]
      ]

-- The number that the environment has for the timeout of a role is `env_timeout`.
module _ {A W : Type 0} (threshold : ℕ) (decrypt_value : Option String → Option String)
    (env_timeout : String → Option ℕ) (fn : Client → W → Outcome A × W) (tenant : String) where
  -- `call_with_role`, with the clock at `now` and, after the first attempt, at `later`.
  unfoldable pub call_with_role : String → ℕ → ℕ → Option Config → Router → W → Run A W
  unfolding role_client resolve_node_for_role is_node_cooled_down cool_down_node should_cool_down
      fall_back
  call_with_role role now later default r w =
      let first = primary_of decrypt_value tenant role now r in
      first_attempt threshold decrypt_value (role_client env_timeout role) fn tenant role later
        default first.1 first.0 w

  -- `call_with_role_streaming`. An exception that is neither of the two kinds it knows ends it.
  unfoldable pub call_with_role_streaming : String → ℕ → ℕ → Router → W → Run A W
  unfolding stream_client resolve_node_for_role is_node_cooled_down cool_down_node should_cool_down
      fall_back
  call_with_role_streaming role now later r w =
      let first = primary_of decrypt_value tenant role now r in
      stream_attempt threshold decrypt_value (stream_client env_timeout role) fn tenant role later
        first.1 first.0 w
