-- ===== src/Delivery/Rank.antt =====
-- The funnel of the delivery stages: the matrix and the checks of job_library/status_lifecycle.py
-- against the order of the stages.
use resu_align_lite.Prelude.{
  ℕ, suc, String, ◌≡◌, refl, Bool, false, Option, none, some, List, [], ◌∷◌, leb, if◌then◌else◌,
  String_discrete,
}
use resu_align_lite.Prelude.Table.{same}
use mathlib.Core.Option
use resu_align_lite.Prelude.Texts.{or_text}
use resu_align_lite.Delivery.Vocabulary.{member, canonical_statuses, canonical_status}
use resu_align_lite.Delivery.Cases.{IsOther, by_stage}
use resu_align_lite.Delivery.Transitions.{delivery_transitions, can_transition_status}

-- The place of a text in a list of texts.
abbrev pub position : String → List String → Option ℕ
position s [] = none
position s (x ∷ xs) = if same x s then some 0 else Option.map (λ n. suc n) (position s xs)

-- The rank of a stage in the funnel: draft, applied, interview, offer, withdrawn.
abbrev pub rank : String → Option ℕ
rank s = position s canonical_statuses

-- Both are stages, the second not before the first.
abbrev pub not_before : Option ℕ → Option ℕ → Bool
not_before none n = false
not_before (some m) none = false
not_before (some m) (some n) = leb m n

abbrev Funnel : String → String → Type 0
Funnel p n = member n (delivery_transitions p) ≡ not_before (rank p) (rank n)

from_stage :
    (p : String)
    → Funnel p "draft"
    → Funnel p "applied"
    → Funnel p "interview"
    → Funnel p "offer"
    → Funnel p "withdrawn"
    → ((n : String) → IsOther n → Funnel p n)
    → (n : String) → Funnel p n
from_stage p d a i o w other n = by_stage (λ n. Funnel p n) d a i o w other n

pub member-transitions :
    (p n : String) → member n (delivery_transitions p) ≡ not_before (rank p) (rank n)
unfolding String_discrete
member-transitions p n =
    by_stage (λ p. Funnel p n)
      (from_stage "draft" refl refl refl refl refl (λ n h. rw (h.0, h.1, h.2, h.3, h.4) refl) n)
      (from_stage "applied" refl refl refl refl refl (λ n h. rw (h.0, h.1, h.2, h.3, h.4) refl) n)
      (from_stage "interview" refl refl refl refl refl (λ n h. rw (h.0, h.1, h.2, h.3, h.4) refl) n)
      (from_stage "offer" refl refl refl refl refl (λ n h. rw (h.0, h.1, h.2, h.3, h.4) refl) n)
      (from_stage "withdrawn" refl refl refl refl refl (λ n h. rw (h.0, h.1, h.2, h.3, h.4) refl) n)
      (λ p h. rw (h.0, h.1, h.2, h.3, h.4) refl) p

-- A move is allowed exactly where both stages are known and the second is not before the first in
-- the funnel draft, applied, interview, offer, withdrawn; no stage counts as draft.
pub can_transition_status-rank :
    (prev : Option String) (new : String)
    → can_transition_status prev new
      ≡ not_before (rank (canonical_status (or_text prev "draft"))) (rank (canonical_status new))
unfolding can_transition_status
can_transition_status-rank prev new =
    member-transitions (canonical_status (or_text prev "draft")) (canonical_status new)
