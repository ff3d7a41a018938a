-- ===== src/Alignment/Reasons.antt =====
-- The reason beside an alignment badge: when alignment_lifecycle.py and the store leave one.
use resu_align_lite.Prelude.{
  String, ◌≡◌, refl, inl, inr, Bool, true, false, not, Option, none, some, List, [], ◌∷◌,
  if◌then◌else◌, Bool-cases, String_discrete,
}
use resu_align_lite.Prelude.Table.{same, All, All-update}
use resu_align_lite.Prelude.Table.{first}
use resu_align_lite.Prelude.Texts.{is_empty}
use resu_align_lite.Delivery.Vocabulary.{member}
use resu_align_lite.Alignment.{
  alignment_statuses, can_transition, Badge, is_badge, settle_reason, is_reason, write_badge,
  transition_row, transition_alignment,
}
use resu_align_lite.Alignment.Machine.{by_status}

abbrev is_set : Option String → Bool
is_set none = false
is_set (some v) = true

-- Work under way has no reason, and a failure has one.
abbrev pub explains : Badge → Bool
explains b =
    if member b.alignment_status ("queued" ∷ "running" ∷ [])
    then not (is_set b.alignment_reason)
    else if same "failed" b.alignment_status
    then is_set b.alignment_reason
    else true

write_failed :
    (reason : Option String) (b : Badge) → explains (write_badge "failed" reason b) ≡ true
unfolding String_discrete
write_failed none b = refl
write_failed (some r) b = elim (Bool-cases (is_empty r)) [
  | inl e ↦ rw e refl
  | inr e ↦ rw (e, e, e) refl
]

write_explains :
    (new : String) (reason : Option String) (b : Badge) → explains (write_badge new reason b) ≡ true
unfolding String_discrete
write_explains =
    by_status
      (λ new. (reason : Option String) (b : Badge) → explains (write_badge new reason b) ≡ true)
      (λ reason b. refl) (λ reason b. refl) (λ reason b. refl) (λ reason b. refl) write_failed
      (λ s h reason b. rw (h.1, h.2, h.4) refl)

transition_row-explains :
    (o : Option Badge) (t i new : String) (reason : Option String)
    (meanwhile : List Badge → List Badge) (rows : List Badge)
    → (All (λ b. explains b ≡ true) rows → All (λ b. explains b ≡ true) (meanwhile rows))
    → All (λ b. explains b ≡ true) rows
    → All (λ b. explains b ≡ true) (transition_row o t i new reason meanwhile rows).0
transition_row-explains none t i new reason meanwhile rows keeps h = h
transition_row-explains (some b) t i new reason meanwhile rows keeps h =
    elim (Bool-cases (can_transition (some b.alignment_status) new)) [
      | inl e ↦ elim (Bool-cases (is_reason (settle_reason new reason))) [
        | inl f ↦
            rw (e, f)
              (All-update (λ b. explains b ≡ true) (is_badge t i) (write_badge new reason)
                (λ x m k. write_explains new reason x) (meanwhile rows) (keeps h))
        | inr f ↦ rw (e, f) h
      ]
      | inr e ↦ rw e h
    ]

-- A call of the machine, whatever its outcome, keeps every badge explained: queued and running work
-- has no reason, and a failure has one. What other threads write
-- within the call must do so too.
pub transition_alignment-explains :
    (t i new : String) (reason : Option String) (meanwhile : List Badge → List Badge)
    (rows : List Badge)
    → (All (λ b. explains b ≡ true) rows → All (λ b. explains b ≡ true) (meanwhile rows))
    → All (λ b. explains b ≡ true) rows
    → All (λ b. explains b ≡ true) (transition_alignment t i new reason meanwhile rows).0
unfolding transition_alignment
transition_alignment-explains t i new reason meanwhile rows keeps h =
    elim (Bool-cases (member new alignment_statuses)) [
      | inl e ↦ rw e (
          transition_row-explains (first (is_badge t i) rows) t i new reason meanwhile rows keeps h)
      | inr e ↦ rw e h
    ]
