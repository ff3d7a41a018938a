-- ===== src/Tests/Alignment.antt =====
-- A library job's alignment badge, and the theorems of alignment_lifecycle.py at it.
use resu_align_lite.Prelude.{◌≡◌, refl, true, ◌||◌, none, some, List, [], ◌∷◌, String_discrete}
use resu_align_lite.Prelude.Table.{All}
use resu_align_lite.Alignment.{Badge, transition_alignment, gap_report_has_gap, can_transition}
use resu_align_lite.Alignment.Machine.{
  Call, badge_status, is_at, transitions, was_running, transitions-was_running,
}
use resu_align_lite.Alignment.Reasons.{explains, transition_alignment-explains}

abbrev badges : List Badge
badges =
    record { job_id = "a"; tenant_id = "t"; alignment_status = ""; alignment_reason = none } ∷ []

-- No other thread writes.
abbrev alone : List Badge → List Badge
alone rows = rows

abbrev pipeline : List Call
pipeline =
    ("queued", none, alone)
    ∷ ("succeeded", none, alone)
    ∷ ("running", none, alone)
    ∷ ("succeeded", none, alone)
    ∷ []

-- The second call is refused.
pipeline_end : badge_status "t" "a" (transitions "t" "a" pipeline badges) ≡ some "succeeded"
unfolding transitions transition_alignment can_transition String_discrete
pipeline_end = refl

gaps : gap_report_has_gap (some (("summary", true) ∷ ("missing_keywords", true) ∷ [])) ≡ true
unfolding gap_report_has_gap String_discrete
gaps = refl

pipeline_succeeds :
    is_at "succeeded" (badge_status "t" "a" (transitions "t" "a" pipeline badges)) ≡ true
unfolding transitions transition_alignment can_transition String_discrete
pipeline_succeeds = refl

transitions-was_running_example :
    (is_at "succeeded" (badge_status "t" "a" badges) || was_running "t" "a" pipeline badges) ≡ true
transitions-was_running_example = transitions-was_running "t" "a" pipeline badges pipeline_succeeds

abbrev running_badges : List Badge
running_badges =
    record { job_id = "a"; tenant_id = "t"; alignment_status = "running"; alignment_reason = none }
    ∷ []

running_explained : All (λ b. explains b ≡ true) running_badges
unfolding String_discrete
running_explained = (refl, tt)

-- The call is accepted, and gives the failure a reason.
failure_has_reason :
    (transition_alignment "t" "a" "failed" none alone running_badges).0
    ≡ record {
      job_id = "a";
      tenant_id = "t";
      alignment_status = "failed";
      alignment_reason = some "model_failed";
    }
      ∷ []
unfolding transition_alignment can_transition String_discrete
failure_has_reason = refl

transition_alignment-explains_example :
    All (λ b. explains b ≡ true) (transition_alignment "t" "a" "failed" none alone running_badges).0
transition_alignment-explains_example =
    transition_alignment-explains "t" "a" "failed" none alone running_badges (λ h. h)
      running_explained
