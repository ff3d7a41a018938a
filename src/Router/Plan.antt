-- ===== src/Router/Plan.antt =====
-- `call_with_role` of engine/role_router.py against its specification: a list of clients that is known
-- before the call, tried in order until one answers.
use resu_align_lite.Prelude.{
  ℕ, String, ◌≡◌, refl, sym, ap, ◌∙◌, ◌≢◌, ◌⊎◌, inl, inr, Bool, true, false, Option, none, some,
  List, [], ◌∷◌, if◌then◌else◌, Bool-cases,
}
use resu_align_lite.Prelude.Table.{same, same_eq, same_refl}
use resu_align_lite.Prelude.Texts.{is_empty}
use resu_align_lite.Delivery.Vocabulary.{member}
use resu_align_lite.Nodes.{Node, get_usable_nodes}
use resu_align_lite.Router.{Config, Client, role_client, config_of}
use resu_align_lite.Router.Cooldown.{
  Cooled, Candidate, at_nodes, seen_at_first, nodes_after, usable_active_nodes, fallback_candidates,
}
use resu_align_lite.Router.Warmth.{
  is_skipped, seen_next, pick, is_cold, is_cold-cool_down_node, candidates_from-pick,
}
use resu_align_lite.Router.Fallbacks.{
  others, pick-filter, pick-congr, usable-same_others, others-report_at,
}
use resu_align_lite.Router.Calls.{
  Failure, Outcome, answered, raised, Router, Meta, Run, no_default, report_call_outcome,
  client_config, reported, try_candidates, or_no_default, fall_back, named_meta, failed_meta,
  cooled_if, call_code, after_failure, first_meta, first_attempt, primary_of, call_with_role,
}

is_empty_apart : (id k : String) → is_empty id ≡ true → is_empty k ≡ false → same id k ≡ false
is_empty_apart id k h e = elim (Bool-cases (same id k)) [
  | inl m ↦
      let p : k ≡ id = same_eq id k m in absurd (true_not_false (sym h ∙ (ap is_empty (sym p) ∙ e)))
  | inr m ↦ m
]
  where
    true_not_false : true ≢ false
    true_not_false p = cc

-- The nodes that are picked depend on the cooldown of ids that are not empty.
pick-congr_full :
    (f g : String → Bool) (seen : List String) (ns : List Node)
    → ((k : String) → is_empty k ≡ false → f k ≡ g k)
    → pick f seen ns ≡ pick g seen ns
unfolding pick
pick-congr_full f g seen [] h = refl
pick-congr_full f g seen (n ∷ ns) h = elim (Bool-cases (is_empty n.node_id)) [
  | inl e ↦ rw e (ap (λ rest. n ∷ rest) (pick-congr_full f g seen ns h))
  | inr e ↦ rw (h n.node_id e) (
      ap (λ rest. if is_skipped g seen n then rest else n ∷ rest)
        (pick-congr_full f g (seen_next g seen n) ns h))
]

module _ (threshold : ℕ) (d : Option String → Option String) (t : String) (later : ℕ)
    (n : Node) where
  -- What a failed first attempt leaves: `b` is whether its node is cooled down.
  abbrev pub left_by : Bool → String → Router → Router
  left_by b code r = reported threshold t (some code) (some n) (cooled_if t b later n r)

  cold_left :
      (b : Bool) (r : Router) (k : String)
      → same n.node_id k ≡ false
      → is_cold t later (cooled_if t b later n r).cooldown k ≡ is_cold t later r.cooldown k
  cold_left true r k h = is_cold-cool_down_node t later n.node_id k later r.cooldown h
  cold_left false r k h = refl

  nodes_left :
      (b : Bool) (code : String) (r : Router)
      → others t n.node_id (left_by b code r).store.nodes ≡ others t n.node_id r.store.nodes
  unfolding report_call_outcome
  nodes_left true code r = others-report_at threshold t (some code) n r.store
  nodes_left false code r = others-report_at threshold t (some code) n r.store

  empty_left :
      (b : Bool) (code : String) (r : Router)
      → is_empty n.node_id ≡ true
      → (left_by b code r).store ≡ r.store
  unfolding report_call_outcome
  empty_left true code r h = rw h refl
  empty_left false code r h = rw h refl

  -- The cooldown that a failed first attempt leaves.
  cooldown_left : Bool → Router → List Cooled
  cooldown_left b r = (cooled_if t b later n r).cooldown

  first_seen : is_empty n.node_id ≡ false → member n.node_id (seen_at_first (some n)) ≡ true
  first_seen e = rw (e, same_refl n.node_id) refl

  same_full :
      (b : Bool) (code : String) (r : Router)
      → is_empty n.node_id ≡ false
      → pick
          (is_cold t later (cooldown_left b r))
          (seen_at_first (some n))
          (get_usable_nodes d t (left_by b code r).store)
        ≡ pick (is_cold t later r.cooldown) (seen_at_first (some n)) (get_usable_nodes d t r.store)
  unfolding cooldown_left
  same_full b code r e =
      let seen = seen_at_first (some n) in
      let cold = is_cold t later (cooldown_left b r) in
      let nodes = get_usable_nodes d t r.store in
      pick-filter n.node_id e cold seen (get_usable_nodes d t (left_by b code r).store)
        (first_seen e)
      ∙ (ap (pick cold seen) (
            usable-same_others t n.node_id d (left_by b code r).store r.store (nodes_left b code r))
          ∙ (sym (pick-filter n.node_id e cold seen nodes (first_seen e))
              ∙ pick-congr n.node_id e cold (is_cold t later r.cooldown) seen nodes (cold_left b r)
                  (first_seen e)))

  same_nodes :
      (b : Bool) (code : String) (r : Router)
      → (nodes_after d t later (some n) (left_by b code r).store (left_by b code r).cooldown).1
        ≡ (nodes_after d t later (some n) r.store r.cooldown).1
  unfolding usable_active_nodes cooldown_left
  same_nodes b code r = elim (Bool-cases (is_empty n.node_id)) [
    | inl e ↦
        candidates_from-pick t later (seen_at_first (some n)) (cooldown_left b r)
          (get_usable_nodes d t (left_by b code r).store)
        ∙ ((ap
                (λ st.
                  pick (is_cold t later (cooldown_left b r)) (seen_at_first (some n))
                    (get_usable_nodes d t st))
                (empty_left b code r e)
              ∙ pick-congr_full (is_cold t later (cooldown_left b r)) (is_cold t later r.cooldown)
                  (seen_at_first (some n)) (get_usable_nodes d t r.store)
                  (λ k h. cold_left b r k (is_empty_apart n.node_id k e h)))
            ∙ sym (
                candidates_from-pick t later (seen_at_first (some n)) r.cooldown
                  (get_usable_nodes d t r.store)))
    | inr e ↦
        candidates_from-pick t later (seen_at_first (some n)) (cooldown_left b r)
          (get_usable_nodes d t (left_by b code r).store)
        ∙ (same_full b code r e
            ∙ sym (
                candidates_from-pick t later (seen_at_first (some n)) r.cooldown
                  (get_usable_nodes d t r.store)))
  ]

  -- A failed first attempt leaves the candidates as they were before it.
  pub fallback_candidates-left :
      (b : Bool) (code : String) (default : Option Config) (r : Router)
      → (fallback_candidates d t later
          (some n)
          default
          (left_by b code r).store
          (left_by b code r).cooldown).1
        ≡ (fallback_candidates d t later (some n) default r.store r.cooldown).1
  unfolding fallback_candidates
  fallback_candidates-left b code none r = ap at_nodes (same_nodes b code r)
  fallback_candidates-left b code (some c) r = refl

-- The outcome of one call, or what follows when it fails.
abbrev pub or_else : {A W : Type 0} → Outcome A × W → (Failure → W → Outcome A × W) → Outcome A × W
or_else out next = elim out.0 [ answered a ↦ (answered a, out.1) | raised f ↦ next f out.1 ]

-- The specification. Clients are tried in order, and `last` is raised when none is left.
module _ {A W : Type 0} (fn : Client → W → Outcome A × W) where
  unfoldable pub try_in_order : Failure → List Client → W → Outcome A × W
  try_in_order last [] w = (raised last, w)
  try_in_order last (c ∷ cs) w = or_else (fn c w) (λ f v. try_in_order f cs v)

  -- One client first, when there is one, and the others when it fails.
  unfoldable pub try_plan : Option Client → List Client → W → Outcome A × W
  unfolding try_in_order
  try_plan none cs w = try_in_order no_default cs w
  try_plan (some c) cs w = or_else (fn c w) (λ f v. try_in_order no_default cs v)

-- The answer of a run and the world after it.
abbrev pub seen_of : {A W : Type 0} → Run A W → Outcome A × W
seen_of run = (run.0.0, run.1.1)

module _ (client : Config → Client) where
  abbrev pub clients_of : List Candidate → List Client
  clients_of [] = []
  clients_of (c ∷ cs) = client (client_config c) ∷ clients_of cs

  abbrev pub first_client : Option Node → Option Client
  first_client none = none
  first_client (some n) = some (client (config_of n))

Outcome-cases :
    {A : Type 0} (o : Outcome A) → ((a : A) × (o ≡ answered a)) ⊎ ((f : Failure) × (o ≡ raised f))
Outcome-cases (answered a) = inl (a, refl)
Outcome-cases (raised f) = inr (f, refl)

module _ {A W : Type 0} (threshold : ℕ) (d : Option String → Option String)
    (client : Config → Client) (fn : Client → W → Outcome A × W) (t : String) where
  try_candidates-order :
      (last : Failure) (cs : List Candidate) (meta : Meta) (r : Router) (w : W)
      → seen_of (try_candidates threshold d client fn t last cs meta r w)
        ≡ try_in_order fn last (clients_of client cs) w
  unfolding try_candidates try_in_order
  try_candidates-order last [] meta r w = refl
  try_candidates-order last (c ∷ cs) meta r w =
      elim (Outcome-cases (fn (client (client_config c)) w).0) [
        | inl (a, e) ↦ rw (e, try_candidates) refl
        | inr (f, e) ↦ rw (e, try_candidates) (try_candidates-order f cs _ _ _)
      ]

  fall_back-order :
      (now : ℕ) (primary : Option Node) (default : Option Config) (meta : Meta) (r : Router) (w : W)
      → seen_of (fall_back threshold d client fn t now primary default meta r w)
        ≡ try_in_order fn no_default
            (clients_of client (fallback_candidates d t now primary default r.store r.cooldown).1)
            w
  unfolding fall_back try_in_order
  fall_back-order now primary default meta r w =
      let found = fallback_candidates d t now primary default r.store r.cooldown in
      by_found (record r { cooldown = found.0 }) found.1
    where
      by_found :
          (s : Router) (cs : List Candidate)
          → seen_of (or_no_default threshold d client fn t meta s w cs)
            ≡ try_in_order fn no_default (clients_of client cs) w
      by_found s [] = refl
      by_found s (c ∷ cs) = try_candidates-order no_default (c ∷ cs) meta s w

  after_failure-order :
      (code : Bool × String) (later : ℕ) (n : Node) (default : Option Config) (f : Failure)
      (meta : Meta) (r : Router) (w : W)
      → seen_of (after_failure threshold d client fn t code later n default f meta r w)
        ≡ try_in_order fn no_default
            (clients_of client
              (fallback_candidates d t later (some n) default r.store r.cooldown).1)
            w
  after_failure-order code later n default f meta r w =
      fall_back-order later (some n) default (failed_meta f (named_meta n meta))
        (left_by threshold d t later n code.0 code.1 r) w
      ∙ ap (λ cs. try_in_order fn no_default (clients_of client cs) w)
          (fallback_candidates-left threshold d t later n code.0 code.1 default r)

  first_attempt-plan :
      (role : String) (later : ℕ) (default : Option Config) (primary : Option Node) (r : Router)
      (w : W)
      → seen_of (first_attempt threshold d client fn t role later default primary r w)
        ≡ try_plan fn
            (first_client client primary)
            (clients_of client (fallback_candidates d t later primary default r.store r.cooldown).1)
            w
  unfolding try_plan
  first_attempt-plan role later default none r w =
      fall_back-order later none default (first_meta role) r w
  first_attempt-plan role later default (some n) r w =
      elim (Outcome-cases (fn (client (config_of n)) w).0) [
        | inl (a, e) ↦ rw (e, first_attempt) refl
        | inr (f, e) ↦
            rw (e, first_attempt)
              (after_failure-order (call_code f) later n default f (first_meta role) r _)
      ]

-- A call with a role answers what trying a fixed list of clients in order answers, and calls the
-- function with the same clients: that of the role's node, when it has one that is not cooled down,
-- and then those of the candidates of the state before the first attempt. Neither the cooldown nor the
-- breaker that a failed first attempt sets changes which clients follow.
pub call_with_role-plan :
    {A W : Type 0} (threshold : ℕ) (d : Option String → Option String)
    (env_timeout : String → Option ℕ) (fn : Client → W → Outcome A × W) (t role : String)
    (now later : ℕ) (default : Option Config) (r : Router) (w : W)
    → let first = primary_of d t role now r in
      seen_of (call_with_role threshold d env_timeout fn t role now later default r w)
      ≡ try_plan fn
          (first_client (role_client env_timeout role) first.1)
          (clients_of
            (role_client env_timeout role)
            (fallback_candidates d t later first.1 default first.0.store first.0.cooldown).1)
          w
unfolding call_with_role
call_with_role-plan threshold d env_timeout fn t role now later default r w =
    let first = primary_of d t role now r in
    first_attempt-plan threshold d (role_client env_timeout role) fn t role later default first.1
      first.0 w
