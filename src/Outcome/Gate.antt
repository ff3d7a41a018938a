-- ===== src/Outcome/Gate.antt =====
-- The gate against fabricated edits of api/services/alignment_rules.py.
use resu_align_lite.Prelude.Booleans.{right_false}
use resu_align_lite.Prelude.{
  ◌+◌, ◌<◌, String, ◌≡◌, refl, inl, inr, Bool, true, false, not, ◌&&◌, ◌||◌, List, [], ◌∷◌, ◌++◌,
  map, arith, if◌then◌else◌, Bool-cases, length, length-append,
}
use resu_align_lite.Prelude.Table.{filter}
use resu_align_lite.Prelude.Texts.{is_empty}
use resu_align_lite.Outcome.{
  Diff, is_noop_diff, block, is_flagged, is_nil, blocked_and_kept, split_verified_diffs,
}

length-map : (f : Diff → Diff) (xs : List Diff) → length (map f xs) ≡ length xs
length-map f [] = refl
length-map f (x ∷ xs) = omega (arith, length-map f xs)

-- A test parts a list into those that pass and those that do not.
length-filter-not :
    (p : Diff → Bool) (xs : List Diff)
    → length (filter p xs) + length (filter (λ x. not (p x)) xs) ≡ length xs
length-filter-not p [] = refl
length-filter-not p (x ∷ xs) = ground (arith, length-filter-not p xs)

-- The diffs that the gate blocks, and those it leaves.
abbrev pub gated : List Diff → Bool → List String → List Diff × List Diff
gated raw_diffs hallucinated ids =
    if hallucinated && not (is_nil raw_diffs)
    then blocked_and_kept raw_diffs ids
    else ([], raw_diffs)

blocked_and_kept-length :
    (raw_diffs : List Diff) (ids : List String)
    → length (blocked_and_kept raw_diffs ids).0 + length (blocked_and_kept raw_diffs ids).1
      ≡ length raw_diffs
unfolding blocked_and_kept
blocked_and_kept-length raw_diffs ids =
    let flagged = filter (λ i. not (is_empty i)) ids in
    elim (Bool-cases (is_nil flagged || is_nil (filter (is_flagged flagged) raw_diffs))) [
      | inl e ↦ rw e (omega arith)
      | inr e ↦ rw e (length-filter-not (is_flagged flagged) raw_diffs)
    ]

gated-length :
    (raw_diffs : List Diff) (hallucinated : Bool) (ids : List String)
    → length (gated raw_diffs hallucinated ids).0 + length (gated raw_diffs hallucinated ids).1
      ≡ length raw_diffs
gated-length raw_diffs hallucinated ids =
    elim (Bool-cases (hallucinated && not (is_nil raw_diffs))) [
      | inl e ↦ rw e (blocked_and_kept-length raw_diffs ids)
      | inr e ↦ rw e (omega arith)
    ]

-- No diff is lost or made: the kept and the invalid ones together are as many as the raw and the
-- invalid ones before, whatever the evaluator says.
pub length-split_verified_diffs :
    (raw_diffs invalid_diffs : List Diff) (hallucinated : Bool) (ids : List String)
    → length (split_verified_diffs raw_diffs invalid_diffs hallucinated ids).0
        + length (split_verified_diffs raw_diffs invalid_diffs hallucinated ids).1
      ≡ length raw_diffs + length invalid_diffs
unfolding split_verified_diffs
length-split_verified_diffs raw_diffs invalid_diffs hallucinated ids =
    let source = gated raw_diffs hallucinated ids in
    let parts = length-filter-not is_noop_diff source.1 in
    let whole = gated-length raw_diffs hallucinated ids in
    rw
      (
        length-append (invalid_diffs ++ filter is_noop_diff source.1) (map block source.0),
        length-append invalid_diffs (filter is_noop_diff source.1),
        length-map block source.0,
      )
      (omega (arith, parts, whole))

nonempty_length : (xs : List Diff) → is_nil xs ≡ false → 0 < length xs
nonempty_length [] h = cc
nonempty_length (x ∷ xs) h = omega arith

blocks_some :
    (raw_diffs : List Diff) (ids : List String)
    → is_nil raw_diffs ≡ false
    → 0 < length (blocked_and_kept raw_diffs ids).0
unfolding blocked_and_kept
blocks_some raw_diffs ids h =
    let flagged = filter (λ i. not (is_empty i)) ids in
    let blocked = filter (is_flagged flagged) raw_diffs in
    elim (Bool-cases (is_nil flagged || is_nil blocked)) [
      | inl e ↦ rw e (nonempty_length raw_diffs h)
      | inr e ↦ rw e (nonempty_length blocked (right_false (is_nil flagged) (is_nil blocked) e))
    ]

-- When the evaluator finds the run fabricated and there are diffs, at least one of them does not
-- count as verified advice, also where the ids it names match no diff.
pub split_verified_diffs-blocks :
    (raw_diffs invalid_diffs : List Diff) (ids : List String)
    → is_nil raw_diffs ≡ false
    → length (split_verified_diffs raw_diffs invalid_diffs true ids).0 < length raw_diffs
unfolding split_verified_diffs
split_verified_diffs-blocks raw_diffs invalid_diffs ids h =
    let source = blocked_and_kept raw_diffs ids in
    let some_blocked = blocks_some raw_diffs ids h in
    let whole = blocked_and_kept-length raw_diffs ids in
    let parts = length-filter-not is_noop_diff source.1 in
    rw h (omega (arith, some_blocked, whole, parts))
