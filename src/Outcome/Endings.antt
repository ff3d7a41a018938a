-- ===== src/Outcome/Endings.antt =====
-- How a run of the alignment ends by api/services/alignment_rules.py.
use resu_align_lite.Prelude.{
  String, ◌≡◌, refl, Bool, true, false, not, ◌&&◌, ◌||◌, Option, none, some, List, [], ◌∷◌,
  if◌then◌else◌, String_discrete,
}
use resu_align_lite.Prelude.Table.{same}
use resu_align_lite.Alignment.{gap_report_has_gap}
use resu_align_lite.Outcome.{Diff, is_nil, Ending, ending_of, resolve_alignment_outcome}

-- Something went wrong with a run or was left open by it.
abbrev pub is_open : Option (List (String × Bool)) → Bool → Bool → Bool → Bool
is_open gap_report tailor_degraded hallucinated no_safe_rewrite =
    gap_report_has_gap gap_report || hallucinated || no_safe_rewrite || tailor_degraded

abbrev is_reason : String → Option String → Bool
is_reason x none = false
is_reason x (some s) = same x s

abbrev pub has_error : Option String → Bool
has_error none = false
has_error (some s) = true

-- What an ending may be, by whether the run kept advice and left something open.
abbrev pub may_end : Bool → Bool → Ending → Bool
may_end no_advice unsettled e =
    if no_advice && unsettled
    then same "failed" e.alignment_status
      && has_error e.alignment_error
      && (is_reason "model_failed" e.alignment_reason
          || is_reason "no_safe_rewrite" e.alignment_reason)
    else if no_advice
    then same "succeeded" e.alignment_status
      && not (has_error e.alignment_error)
      && is_reason "no_gap" e.alignment_reason
    else same "succeeded" e.alignment_status && not (has_error e.alignment_reason)

without_advice :
    (gap degraded hallucinated unsafe : Bool) (reason : String)
    → may_end true
        (gap || hallucinated || unsafe || degraded)
        (ending_of gap true degraded hallucinated unsafe reason)
      ≡ true
unfolding ending_of String_discrete
without_advice true true true true reason = refl
without_advice true true true false reason = refl
without_advice true true false true reason = refl
without_advice true true false false reason = refl
without_advice true false true true reason = refl
without_advice true false true false reason = refl
without_advice true false false true reason = refl
without_advice true false false false reason = refl
without_advice false true true true reason = refl
without_advice false true true false reason = refl
without_advice false true false true reason = refl
without_advice false true false false reason = refl
without_advice false false true true reason = refl
without_advice false false true false reason = refl
without_advice false false false true reason = refl
without_advice false false false false reason = refl

with_advice :
    (gap degraded hallucinated unsafe unsettled : Bool) (reason : String)
    → may_end false unsettled (ending_of gap false degraded hallucinated unsafe reason) ≡ true
unfolding ending_of String_discrete
with_advice gap degraded hallucinated unsafe unsettled reason = refl

-- A run that kept no advice fails, with an error and a reason, exactly when a gap is open, its edits
-- were found fabricated, it found no safe rewrite or its rewriting broke down; with nothing open it
-- succeeds for lack of a gap and without an error; a run with advice succeeds and has no reason.
pub resolve_alignment_outcome-may_end :
    (kept : List Diff) (gap_report : Option (List (String × Bool)))
    (tailor_degraded hallucinated no_safe_rewrite : Bool) (reason : String)
    → may_end (is_nil kept) (is_open gap_report tailor_degraded hallucinated no_safe_rewrite) (
        resolve_alignment_outcome kept gap_report tailor_degraded hallucinated no_safe_rewrite
          reason)
      ≡ true
unfolding resolve_alignment_outcome
resolve_alignment_outcome-may_end (d ∷ ds) gap_report degraded hallucinated unsafe reason =
    with_advice (gap_report_has_gap gap_report) degraded hallucinated unsafe
      (is_open gap_report degraded hallucinated unsafe) reason
resolve_alignment_outcome-may_end [] gap_report degraded hallucinated unsafe reason =
    without_advice (gap_report_has_gap gap_report) degraded hallucinated unsafe reason
