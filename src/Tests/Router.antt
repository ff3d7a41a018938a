-- ===== src/Tests/Router.antt =====
-- A router over three nodes, and the theorems of engine/role_router.py at it.
use resu_align_lite.Prelude.{
  ℕ, suc, String, ◌≡◌, refl, true, false, not, ◌&&◌, ◌||◌, Option, none, some, [], String_discrete,
}
use resu_align_lite.Prelude.Table.{same, any, count}
use resu_align_lite.Prelude.Texts.{is_empty}
use resu_align_lite.Prelude.Order.{sort_with}
use resu_align_lite.Nodes.{is_usable}
use resu_align_lite.Router.{Client, role_client}
use resu_align_lite.Router.Cooldown.{fallback_candidates}
use resu_align_lite.Router.Calls.{
  llm_response, Outcome, answered, raised, Router, primary_of, call_with_role,
  call_with_role_streaming,
}
use resu_align_lite.Router.Warmth.{is_cold}
use resu_align_lite.Router.Plan.{try_plan, seen_of, clients_of, first_client, call_with_role-plan}
use resu_align_lite.Router.Once.{
  is_given, has_id, once_if, is_first, tries_node, fallback_candidates-once,
}
use resu_align_lite.Router.Answers.{
  is_answered, always, answers, first_answers, call_with_role-answers,
}
use resu_align_lite.Tests.Nodes.{plain, local, office}

abbrev no_env : String → Option ℕ
no_env role = none

-- The local node times out; the others answer with the name of their provider.
abbrev flaky : Client → Outcome String
flaky c = elim (same c.config.provider "custom") [
  | true ↦ raised (record { kind = llm_response; code = some "timeout"; message = "slow" })
  | false ↦ answered c.config.provider
]

abbrev fresh : Router
fresh = record { store = office; cooldown = [] }

abbrev counted_call : Client → ℕ → Outcome String × ℕ
counted_call c w = (flaky c, suc w)

falls_back :
    seen_of (call_with_role 3 plain no_env counted_call "t" "profiler" 0 5 none fresh 0)
    ≡ (answered "openai", 2)
unfolding call_with_role sort_with String_discrete
falls_back = refl

streams_fall_back :
    seen_of (call_with_role_streaming 3 plain no_env counted_call "t" "profiler" 0 5 fresh 0)
    ≡ (answered "openai", 2)
unfolding call_with_role_streaming sort_with String_discrete
streams_fall_back = refl

call_with_role-plan_example :
    seen_of (call_with_role 3 plain no_env counted_call "t" "profiler" 0 5 none fresh 0)
    ≡ try_plan counted_call
        (first_client (role_client no_env "profiler") (primary_of plain "t" "profiler" 0 fresh).1)
        (clients_of
          (role_client no_env "profiler")
          (fallback_candidates plain "t" 5
            (primary_of plain "t" "profiler" 0 fresh).1
            none
            (primary_of plain "t" "profiler" 0 fresh).0.store
            (primary_of plain "t" "profiler" 0 fresh).0.cooldown).1)
        0
call_with_role-plan_example =
    call_with_role-plan 3 plain no_env counted_call "t" "profiler" 0 5 none fresh 0

d_is_full : is_empty "d" ≡ false
d_is_full = refl

fallback_candidates-once_example :
    count (tries_node "d") (fallback_candidates plain "t" 5 (some local) none office []).1
    ≡ once_if (
        not (is_given none)
        && (any (λ n. is_usable "t" n && has_id "d" n) office.nodes
            && (not (is_first "d" (some local)) && not (is_cold "t" 5 [] "d"))))
fallback_candidates-once_example =
    fallback_candidates-once "d" plain "t" 5 (some local) none office [] d_is_full

call_with_role-answers_example :
    is_answered
      (call_with_role {W = ℕ} 3 plain no_env (always flaky 0) "t" "profiler" 0 5 none fresh 0).0.0
    ≡ first_answers {W = ℕ} flaky 0
        (first_client (role_client no_env "profiler") (primary_of plain "t" "profiler" 0 fresh).1)
      || any (answers {W = ℕ} flaky 0) (
          clients_of
            (role_client no_env "profiler")
            (fallback_candidates plain "t" 5
              (primary_of plain "t" "profiler" 0 fresh).1
              none
              (primary_of plain "t" "profiler" 0 fresh).0.store
              (primary_of plain "t" "profiler" 0 fresh).0.cooldown).1)
call_with_role-answers_example =
    call_with_role-answers {W = ℕ} flaky 0 3 plain no_env "t" "profiler" 0 5 none fresh
