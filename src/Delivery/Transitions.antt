-- ===== src/Delivery/Transitions.antt =====
-- The transition matrix of job_library/status_lifecycle.py and its checks.
use resu_align_lite.Prelude.{
  String, Bool, true, not, ◌&&◌, Option, some, List, [], ◌∷◌, if◌then◌else◌,
}
use resu_align_lite.Prelude.Table.{same, filter}
use resu_align_lite.Prelude.Texts.{or_text}
use resu_align_lite.Delivery.Vocabulary.{member, canonical_status}

-- `DELIVERY_TRANSITIONS.get(prev, frozenset())`
abbrev pub delivery_transitions : String → List String
delivery_transitions prev =
    if same "draft" prev
    then "draft" ∷ "applied" ∷ "interview" ∷ "offer" ∷ "withdrawn" ∷ []
    else if same "applied" prev
    then "applied" ∷ "interview" ∷ "offer" ∷ "withdrawn" ∷ []
    else if same "interview" prev
    then "interview" ∷ "offer" ∷ "withdrawn" ∷ []
    else if same "offer" prev
    then "offer" ∷ "withdrawn" ∷ []
    else if same "withdrawn" prev
    then "withdrawn" ∷ []
    else []

abbrev pub terminal_statuses : List String
terminal_statuses = "offer" ∷ "withdrawn" ∷ []

unfoldable pub can_transition_status : Option String → String → Bool
can_transition_status prev new =
    member (canonical_status new) (delivery_transitions (canonical_status (or_text prev "draft")))

unfoldable pub is_terminal_status : Option String → Bool
is_terminal_status status = member (canonical_status (or_text status "")) terminal_statuses

-- `sorted` of a row of the matrix, whose members the source lists in another order.
unfoldable pub allowed_transition_targets : Option String → List String
allowed_transition_targets status =
    filter (λ s. member s (delivery_transitions (canonical_status (or_text status "draft"))))
      ("applied" ∷ "draft" ∷ "interview" ∷ "offer" ∷ "withdrawn" ∷ [])

-- `validate_status_transition`: whether it returns instead of raising StatusTransitionError.
unfoldable pub validate_status_transition : Option String → String → Bool → Bool
validate_status_transition current_status target_status revive =
    let current = canonical_status (or_text current_status "draft") in
    let target = canonical_status target_status in
    if can_transition_status (some current) target
    then true
    else revive && is_terminal_status (some current) && not (is_terminal_status (some target))
