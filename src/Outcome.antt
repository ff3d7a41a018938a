-- ===== src/Outcome.antt =====
-- api/services/alignment_rules.py: which suggested edits of a resume count as verified advice, and
-- how a run of the alignment ends.
use resu_align_lite.Prelude.{
  String, Bool, true, false, not, ◌&&◌, ◌||◌, Option, none, some, List, [], ◌∷◌, ◌++◌, map, ◌==◌,
  if◌then◌else◌,
}
use resu_align_lite.Prelude.Table.{same, filter}
use Prim.Native.Char.{Char, code}
use Prim.Native.String.{[] as empty_text, ◌∷◌ as cons_text, ◌++◌ as append_text}
use resu_align_lite.Prelude.Texts.{is_empty, or_text, strip}
use resu_align_lite.Delivery.Vocabulary.{member}
use resu_align_lite.Alignment.{gap_report_has_gap}
pub mod Gate
pub mod Endings

-- The fields of a diff that the rules read or write.
pub record Diff : Type 0 where
  pub diff_id : Option String
  pub kind : Option String
  pub original : Option String
  pub proposed : Option String
  pub reason : Option String
  pub provenance_state : Option String

unfoldable pub is_noop_diff : Diff → Bool
is_noop_diff diff =
    let original = strip (or_text diff.original "") in
    let proposed = strip (or_text diff.proposed "") in
    member (or_text diff.kind "") ("modify" ∷ "remove" ∷ [])
    && (not (is_empty original) && same original proposed)

-- The marks that `rstrip("；;。 ")` removes.
abbrev pub is_mark : Char → Bool
is_mark c = let n = code c in n == 65307 || n == 59 || n == 12290 || n == 32

unfoldable pub strip_marks : String → String
strip_marks empty_text = ""
strip_marks (cons_text c s) =
    let rest = strip_marks s in
    if is_mark c && is_empty rest then "" else append_text (cons_text c "") rest

abbrev pub blocked_note : String
blocked_note = "真实性评估判定本轮改写存在无依据内容，已整体拦截"

-- A diff that the evaluator blocked.
abbrev pub block : Diff → Diff
block diff =
    let reason = strip_marks (or_text diff.reason "") in
    record diff {
      provenance_state = some "fabricated";
      reason = some (
          if is_empty reason
          then blocked_note
          else append_text reason (append_text "；" blocked_note));
    }

abbrev pub is_flagged : List String → Diff → Bool
is_flagged flagged diff = member (or_text diff.diff_id "") flagged

abbrev pub is_nil {ℓ} : {A : Type ℓ} → List A → Bool
is_nil [] = true
is_nil (x ∷ xs) = false

-- The diffs to block and those to keep, of a run that the evaluator found fabricated.
unfoldable pub blocked_and_kept : List Diff → List String → List Diff × List Diff
blocked_and_kept raw_diffs ids =
    let flagged = filter (λ i. not (is_empty i)) ids in
    let blocked = filter (is_flagged flagged) raw_diffs in
    if is_nil flagged || is_nil blocked
    then (raw_diffs, [])
    else (blocked, filter (λ d. not (is_flagged flagged d)) raw_diffs)

unfoldable pub split_verified_diffs :
    List Diff → List Diff → Bool → List String → List Diff × List Diff
split_verified_diffs raw_diffs invalid_diffs eval_hallucinated ids =
    let source : List Diff × List Diff =
      if eval_hallucinated && not (is_nil raw_diffs)
      then blocked_and_kept raw_diffs ids
      else ([], raw_diffs) in
    (
      filter (λ d. not (is_noop_diff d)) source.1,
      (invalid_diffs ++ filter is_noop_diff source.1) ++ map block source.0,
    )

pub record Ending : Type 0 where
  pub alignment_status : String
  pub alignment_error : Option String
  pub alignment_reason : Option String

-- The message of a run before its status is known.
abbrev pub first_error : Bool → Bool → Bool → String → Option String
first_error tailor_degraded blocked_hallucination no_safe_rewrite reason =
    if tailor_degraded
    then some "改写阶段多次失败，本轮只产出诊断与缺口分析；点击「重新运行对齐」补齐改写建议（已缓存阶段会跳过）"
    else if blocked_hallucination
    then some "真实性评估判定本轮改写存在无依据内容，全部建议已拦截；请核对后重试对齐"
    else if no_safe_rewrite
    then some (or_text (some (strip reason)) "岗位存在缺口，但简历原文没有足够依据，因此没有安全改写。")
    else none

abbrev pub no_output : Option String → String
no_output error = append_text "no_output: " (or_text error "该岗位存在能力/经验缺口，但本轮未产出任何可用改写建议")

-- The ending of a run, by whether its gap report has a gap and it kept no advice.
unfoldable pub ending_of : Bool → Bool → Bool → Bool → Bool → String → Ending
ending_of has_gap no_advice tailor_degraded eval_hallucinated no_safe_rewrite reason =
    let blocked_hallucination = eval_hallucinated && no_advice in
    let error = first_error tailor_degraded blocked_hallucination no_safe_rewrite reason in
    let failed =
      no_advice && (has_gap || blocked_hallucination || no_safe_rewrite || tailor_degraded) in
    record {
      alignment_status = if failed then "failed" else "succeeded";
      alignment_error = if failed then some (no_output error) else error;
      alignment_reason =
          if no_advice
          then (if no_safe_rewrite
              then some "no_safe_rewrite"
              else if failed
              then some "model_failed"
              else some "no_gap")
          else none;
    }

unfoldable pub resolve_alignment_outcome :
    List Diff → Option (List (String × Bool)) → Bool → Bool → Bool → String → Ending
resolve_alignment_outcome kept gap_report tailor_degraded eval_hallucinated no_safe_rewrite reason =
    ending_of (gap_report_has_gap gap_report) (is_nil kept) tailor_degraded eval_hallucinated
      no_safe_rewrite reason
