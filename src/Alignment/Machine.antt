-- ===== src/Alignment/Machine.antt =====
-- What a sequence of transitions of alignment_lifecycle.py can do to the badge of a job.
use resu_align_lite.Prelude.{
  String, ◌≡◌, refl, sym, ap, subst, ◌∙◌, ◌⊎◌, inl, inr, Bool, true, false, ◌||◌, Option, none,
  some, List, [], ◌∷◌, arith, Bool-cases, String_discrete,
}
use resu_align_lite.Prelude.Table.{same, same_eq, same_refl, update}
use resu_align_lite.Prelude.Table.{first, first-update}
use resu_align_lite.Prelude.Texts.{is_empty, or_text}
use resu_align_lite.Delivery.Vocabulary.{member}
use resu_align_lite.Delivery.Cases.{IsNoneOf, by_five}
use resu_align_lite.Alignment.{
  alignment_statuses, allowed_transitions, can_transition, Badge, is_badge, settle_reason,
  is_reason, write_badge, transition_row, transition_alignment,
}

-- The status of a job's badge, with the default of an empty one; none for no such job.
abbrev pub status_of : Option Badge → Option String
status_of none = none
status_of (some b) = some (or_text (some b.alignment_status) "idle")

abbrev pub badge_status : String → String → List Badge → Option String
badge_status t i rows = status_of (first (is_badge t i) rows)

-- A step of the machine, or no step.
abbrev pub steps : Option String → Option String → Bool
steps none none = true
steps none (some s) = false
steps (some s) none = false
steps (some s) (some r) = same r s || member r (allowed_transitions s)

-- To prove a statement of every text: it holds of the five statuses, and of all others.
pub by_status {ℓ} :
    (P : String → Type ℓ)
    → P "idle"
    → P "queued"
    → P "running"
    → P "succeeded"
    → P "failed"
    → ((s : String) → IsNoneOf "idle" "queued" "running" "succeeded" "failed" s → P s)
    → (s : String) → P s
by_status P = by_five "idle" "queued" "running" "succeeded" "failed" P

none_true : false ≡ true → ⊥
none_true h = cc

known_full : (s : String) → member s alignment_statuses ≡ true → is_empty s ≡ false
known_full =
    by_status (λ s. member s alignment_statuses ≡ true → is_empty s ≡ false) (λ k. refl) (λ k. refl)
      (λ k. refl) (λ k. refl) (λ k. refl)
      (λ s h k. absurd (none_true (sym (rw (h.0, h.1, h.2, h.3, h.4) refl) ∙ k)))

module _ (t i new : String) (reason : Option String) (meanwhile : List Badge → List Badge)
    (rows : List Badge)
    (still : first (is_badge t i) (meanwhile rows) ≡ first (is_badge t i) rows) where
  -- One call: the job keeps its status or makes an allowed step to the new one.
  transition-steps :
      (o : Option Badge)
      → first (is_badge t i) rows ≡ o
      → member new alignment_statuses ≡ true
      → steps (status_of o) (badge_status t i (transition_row o t i new reason meanwhile rows).0)
        ≡ true
  unfolding can_transition
  transition-steps none h k = rw h refl
  transition-steps (some b) h k = elim (Bool-cases (can_transition (some b.alignment_status) new)) [
    | inl e ↦ elim (Bool-cases (is_reason (settle_reason new reason))) [
      | inl f ↦
          rw
            (
              e,
              f,
              first-update (is_badge t i) (write_badge new reason) (λ x. refl) (meanwhile rows),
              still,
              h,
            )
            (rw (known_full new k) e)
      | inr f ↦ rw (e, f, h) (rw (same_refl (or_text (some b.alignment_status) "idle")) refl)
    ]
    | inr e ↦ rw (e, h) (rw (same_refl (or_text (some b.alignment_status) "idle")) refl)
  ]

stays : (o : Option String) → steps o o ≡ true
stays none = refl
stays (some s) = rw (same_refl s) refl

-- A call of the machine on a job, whatever its outcome, leaves the job's status or makes a step that
-- the table of transitions allows, when no other thread writes the badge within the call; an empty
-- status counts as idle.
pub transition_alignment-steps :
    (t i new : String) (reason : Option String) (meanwhile : List Badge → List Badge)
    (rows : List Badge)
    → first (is_badge t i) (meanwhile rows) ≡ first (is_badge t i) rows
    → steps
        (badge_status t i rows)
        (badge_status t i (transition_alignment t i new reason meanwhile rows).0)
      ≡ true
unfolding transition_alignment
transition_alignment-steps t i new reason meanwhile rows still =
    elim (Bool-cases (member new alignment_statuses)) [
      | inl e ↦
          rw e (
            transition-steps t i new reason meanwhile rows still (first (is_badge t i) rows) refl e)
      | inr e ↦ rw e (stays (badge_status t i rows))
    ]

-- Where a call can leave the job: at its status, at the new one, or gone.
module _ (t i new : String) (reason : Option String) (meanwhile : List Badge → List Badge)
    (rows : List Badge) where
  abbrev Lands : Option String → Option String → Type 0
  Lands s r = (r ≡ s) ⊎ (((r ≡ some new) × (steps s (some new) ≡ true)) ⊎ (r ≡ none))

  row-Lands :
      (o : Option Badge)
      → first (is_badge t i) rows ≡ o
      → member new alignment_statuses ≡ true
      → Lands (status_of o) (badge_status t i (transition_row o t i new reason meanwhile rows).0)
  unfolding can_transition
  row-Lands none h k = inl (ap (λ o. status_of o) h)
  row-Lands (some b) h k = elim (Bool-cases (can_transition (some b.alignment_status) new)) [
    | inl e ↦ elim (Bool-cases (is_reason (settle_reason new reason))) [
      | inl f ↦
          let out : (transition_row (some b) t i new reason meanwhile rows).0
              ≡ update (is_badge t i) (write_badge new reason) (meanwhile rows) =
            rw (e, f) refl in
          subst (λ x. Lands (status_of (some b)) (badge_status t i x)) (sym out)
            (inr (written (first (is_badge t i) (meanwhile rows)) refl e))
      | inr f ↦ rw (e, f) (inl (ap (λ o. status_of o) h))
    ]
    | inr e ↦ rw e (inl (ap (λ o. status_of o) h))
  ]
    where
      written :
          (p : Option Badge)
          → first (is_badge t i) (meanwhile rows) ≡ p
          → can_transition (some b.alignment_status) new ≡ true
          → ((badge_status t i (update (is_badge t i) (write_badge new reason) (meanwhile rows))
                ≡ some new)
              × (steps (status_of (some b)) (some new) ≡ true))
            ⊎ (badge_status t i (update (is_badge t i) (write_badge new reason) (meanwhile rows))
                ≡ none)
      written none g e = inr (
          rw (first-update (is_badge t i) (write_badge new reason) (λ x. refl) (meanwhile rows), g)
            refl)
      written (some x) g e = inl (
        rw
            (
              first-update (is_badge t i) (write_badge new reason) (λ x. refl) (meanwhile rows),
              g,
              known_full new k,
            )
            refl,
        e,
      )

  call-Lands :
      Lands
        (badge_status t i rows)
        (badge_status t i (transition_alignment t i new reason meanwhile rows).0)
  unfolding transition_alignment
  call-Lands = elim (Bool-cases (member new alignment_statuses)) [
    | inl e ↦ rw e (row-Lands (first (is_badge t i) rows) refl e)
    | inr e ↦ rw e (inl refl)
  ]

abbrev pub is_at : String → Option String → Bool
is_at x none = false
is_at x (some s) = same x s

to_succeeded :
    (s : String)
    → steps (some s) (some "succeeded") ≡ true
    → (same "running" s || same "succeeded" s) ≡ true
unfolding String_discrete
to_succeeded =
    by_status
      (λ s.
        steps (some s) (some "succeeded") ≡ true → (same "running" s || same "succeeded" s) ≡ true)
      (λ k. absurd (none_true k)) (λ k. absurd (none_true k)) (λ k. refl) (λ k. refl)
      (λ k. absurd (none_true k))
      (λ s h k. absurd (none_true (sym (rw (h.0, h.1, h.2, h.3, h.4) refl) ∙ k)))

-- A call on a job: the status asked for, the reason, and what other threads write within the call.
abbrev pub Call : Type 0
Call = String × Option String × (List Badge → List Badge)

-- The calls on one job, in order.
unfoldable pub transitions : String → String → List Call → List Badge → List Badge
transitions t i [] rows = rows
transitions t i (c ∷ cs) rows = transitions t i cs (transition_alignment t i c.0 c.1 c.2 rows).0

-- Whether the badge of the job shows `running` before the calls or after one of them.
unfoldable pub was_running : String → String → List Call → List Badge → Bool
unfolding transition_alignment
was_running t i [] rows = is_at "running" (badge_status t i rows)
was_running t i (c ∷ cs) rows =
    is_at "running" (badge_status t i rows)
    || was_running t i cs (transition_alignment t i c.0 c.1 c.2 rows).0

-- The status before a step to success.
before_success :
    (s : Option String)
    → steps s (some "succeeded") ≡ true
    → (is_at "running" s || is_at "succeeded" s) ≡ true
before_success none k = absurd (none_true k)
before_success (some s) k = to_succeeded s k

into_success :
    (t i : String) (c : Call) (rows : List Badge)
    → is_at "succeeded" (badge_status t i (transition_alignment t i c.0 c.1 c.2 rows).0) ≡ true
    → (is_at "running" (badge_status t i rows) || is_at "succeeded" (badge_status t i rows)) ≡ true
into_success t i c rows h =
    let before = badge_status t i rows in
    elim (call-Lands t i c.0 c.1 c.2 rows) [
      | inl e ↦
          let kept : is_at "succeeded" before ≡ true =
            subst (λ r. is_at "succeeded" r ≡ true) e h in
          ground (arith, kept)
      | inr (inl m) ↦
          let new : same "succeeded" c.0 ≡ true = subst (λ r. is_at "succeeded" r ≡ true) m.0 h in
          before_success before
            (subst (λ x. steps before (some x) ≡ true) (same_eq "succeeded" c.0 new) m.1)
      | inr (inr g) ↦ absurd (none_true (subst (λ r. is_at "succeeded" r ≡ true) g h))
    ]

by_last :
    (running before after later : Bool)
    → (after ≡ true → (running || before) ≡ true)
    → (after || later) ≡ true
    → (before || (running || later)) ≡ true
by_last running before true later h k = ground (arith, h refl)
by_last running before false later h k = ground arith

-- A job whose badge shows success after calls of the machine had succeeded before them, or its badge
-- showed `running` before them or after one of them, whatever other threads write within the calls.
pub transitions-was_running :
    (t i : String) (cs : List Call) (rows : List Badge)
    → is_at "succeeded" (badge_status t i (transitions t i cs rows)) ≡ true
    → (is_at "succeeded" (badge_status t i rows) || was_running t i cs rows) ≡ true
unfolding transitions was_running
transitions-was_running t i [] rows h = rw h refl
transitions-was_running t i (c ∷ cs) rows h =
    let next = (transition_alignment t i c.0 c.1 c.2 rows).0 in
    by_last (is_at "running" (badge_status t i rows)) (is_at "succeeded" (badge_status t i rows))
      (is_at "succeeded" (badge_status t i next)) (was_running t i cs next)
      (into_success t i c rows) (transitions-was_running t i cs next h)
