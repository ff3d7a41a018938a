-- ===== src/Router/Answers.antt =====
-- When a call with a role of engine/role_router.py answers, and when it raises.
use resu_align_lite.Prelude.{
  ℕ, String, ◌≡◌, refl, ap, ◌∙◌, Bool, true, false, ◌||◌, Option, none, some, List, [], ◌∷◌,
}
use resu_align_lite.Prelude.Table.{any}
use resu_align_lite.Router.{Config, Client, role_client}
use resu_align_lite.Router.Cooldown.{fallback_candidates}
use resu_align_lite.Router.Calls.{
  Failure, Outcome, answered, raised, Router, no_default, primary_of, call_with_role,
}
use resu_align_lite.Router.Plan.{
  or_else, try_in_order, try_plan, clients_of, first_client, call_with_role-plan,
}

abbrev pub is_answered : {A : Type 0} → Outcome A → Bool
is_answered (answered a) = true
is_answered (raised f) = false

module _ {A W : Type 0} (g : Client → Outcome A) (w : W) where
  -- A function whose outcome depends on the client alone.
  abbrev pub always : Client → W → Outcome A × W
  always c v = (g c, v)

  abbrev pub answers : Client → Bool
  answers c = is_answered (g c)

  abbrev pub first_answers : Option Client → Bool
  first_answers none = false
  first_answers (some c) = answers c

  try_in_order-answers :
      (last : Failure) (cs : List Client)
      → is_answered (try_in_order always last cs w).0 ≡ any answers cs
  unfolding try_in_order
  try_in_order-answers last [] = refl
  try_in_order-answers last (c ∷ cs) = by_outcome (g c) (λ f. try_in_order-answers f cs)
    where
      by_outcome :
          (o : Outcome A)
          → ((f : Failure) → is_answered (try_in_order always f cs w).0 ≡ any answers cs)
          → is_answered (or_else (o, w) (λ f v. try_in_order always f cs v)).0
            ≡ (is_answered o || any answers cs)
      by_outcome (answered a) ih = refl
      by_outcome (raised f) ih = ih f

  try_plan-answers :
      (first : Option Client) (cs : List Client)
      → is_answered (try_plan always first cs w).0 ≡ first_answers first || any answers cs
  unfolding try_plan
  try_plan-answers none cs = try_in_order-answers no_default cs
  try_plan-answers (some c) cs = by_outcome (g c)
    where
      by_outcome :
          (o : Outcome A)
          → is_answered (or_else (o, w) (λ f v. try_in_order always no_default cs v)).0
            ≡ (is_answered o || any answers cs)
      by_outcome (answered a) = refl
      by_outcome (raised f) = try_in_order-answers no_default cs

  -- When the outcome of the function depends on the client alone, a call with a role answers exactly
  -- when the function answers for the client of the role's node or of one of the candidates, which
  -- are the default configuration alone where one is given, and raises otherwise.
  pub call_with_role-answers :
      (threshold : ℕ) (d : Option String → Option String) (env_timeout : String → Option ℕ)
      (t role : String) (now later : ℕ) (default : Option Config) (r : Router)
      → let first = primary_of d t role now r in
        let client = role_client env_timeout role in
        is_answered (call_with_role threshold d env_timeout always t role now later default r w).0.0
        ≡ first_answers (first_client client first.1)
          || any answers (
              clients_of client
                (fallback_candidates d t later first.1 default first.0.store first.0.cooldown).1)
  call_with_role-answers threshold d env_timeout t role now later default r =
      let first = primary_of d t role now r in
      let client = role_client env_timeout role in
      ap (λ o. is_answered o.0)
        (call_with_role-plan threshold d env_timeout always t role now later default r w)
      ∙ try_plan-answers (first_client client first.1) (
          clients_of client
            (fallback_candidates d t later first.1 default first.0.store first.0.cooldown).1)
