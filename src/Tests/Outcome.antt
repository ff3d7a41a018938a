-- ===== src/Tests/Outcome.antt =====
-- A run with an empty edit, a fabricated one and a sound one, and the theorems of
-- api/services/alignment_rules.py at it.
use resu_align_lite.Prelude.{
  ◌<◌, length, ◌≡◌, refl, true, false, none, some, List, [], ◌∷◌, String_discrete,
}
use resu_align_lite.Prelude.Texts.{strip, lstrip, rstrip}
use resu_align_lite.Outcome.{
  Diff, is_nil, is_noop_diff, strip_marks, split_verified_diffs, blocked_and_kept,
  resolve_alignment_outcome,
}
use resu_align_lite.Outcome.Gate.{split_verified_diffs-blocks}
use resu_align_lite.Outcome.Endings.{may_end, is_open, resolve_alignment_outcome-may_end}

abbrev sound : Diff
sound = record {
  diff_id = some "1";
  kind = some "modify";
  original = some "a";
  proposed = some "b";
  reason = none;
  provenance_state = none;
}

abbrev hollow : Diff
hollow = record sound { diff_id = some "2"; proposed = some " a " }

abbrev made_up : Diff
made_up = record sound { diff_id = some "3"; reason = some "why; " }

abbrev run_diffs : List Diff
run_diffs = sound ∷ hollow ∷ made_up ∷ []

kept_one : (split_verified_diffs run_diffs [] true ("3" ∷ [])).0 ≡ sound ∷ []
unfolding split_verified_diffs blocked_and_kept is_noop_diff strip lstrip rstrip String_discrete
kept_one = refl

marks : strip_marks "why; 。" ≡ "why"
unfolding strip_marks
marks = refl

resolve_alignment_outcome-may_end_example :
    may_end
      (is_nil {A = Diff} [])
      (is_open none false true false)
      (resolve_alignment_outcome [] none false true false "")
    ≡ true
resolve_alignment_outcome-may_end_example =
    resolve_alignment_outcome-may_end [] none false true false ""

split_verified_diffs-blocks_example :
    length (split_verified_diffs run_diffs [] true ("9" ∷ [])).0 < length run_diffs
split_verified_diffs-blocks_example = split_verified_diffs-blocks run_diffs [] ("9" ∷ []) refl
