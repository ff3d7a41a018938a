-- ===== src/Delivery/Validation.antt =====
-- `validate_status_transition` of job_library/status_lifecycle.py against the funnel.
use resu_align_lite.Prelude.{
  String, ◌≡◌, refl, ap, Bool, true, not, ◌&&◌, ◌||◌, Option, some, arith, if◌then◌else◌,
  String_discrete,
}
use Prim.Native.String.{[], ◌∷◌}
use resu_align_lite.Prelude.Texts.{or_text, strip, lstrip, rstrip}
use resu_align_lite.Delivery.Vocabulary.{member, canonical_status}
use resu_align_lite.Delivery.Transitions.{
  terminal_statuses, is_terminal_status, validate_status_transition,
}
use resu_align_lite.Delivery.Rank.{rank, not_before, can_transition_status-rank}
use resu_align_lite.Delivery.Spelling.{canonical_status_idem}

-- The stage a stored status stands for: none and a blank one count as draft.
abbrev pub stage_of : Option String → String
stage_of status = or_text (some (canonical_status (or_text status "draft"))) "draft"

-- What the check is to accept: a stage not before the current one in the funnel, or with `revive`
-- anything from a terminal stage to a status that is not terminal.
abbrev pub accepts : Bool → String → String → Bool
accepts revive current target =
    not_before (rank current) (rank target)
    || (revive && member current terminal_statuses && not (member target terminal_statuses))

if_or : (a b : Bool) → (if a then true else b) ≡ a || b
if_or a b = ground arith

settled :
    (c : String)
    → canonical_status c ≡ c
    → canonical_status (or_text (some c) "draft") ≡ or_text (some c) "draft"
unfolding canonical_status strip lstrip rstrip String_discrete
settled [] h = refl
settled (c ∷ s) h = h

current_terminal :
    (c : String)
    → canonical_status c ≡ c
    → is_terminal_status (some c) ≡ member (or_text (some c) "draft") terminal_statuses
unfolding is_terminal_status canonical_status strip lstrip rstrip String_discrete
current_terminal [] h = refl
current_terminal (c ∷ s) h = ap (λ x. member x terminal_statuses) h

target_terminal :
    (c : String) → canonical_status c ≡ c → is_terminal_status (some c) ≡ member c terminal_statuses
unfolding is_terminal_status canonical_status strip lstrip rstrip String_discrete
target_terminal [] h = refl
target_terminal (c ∷ s) h = ap (λ x. member x terminal_statuses) h

-- The check of a transition lets through exactly the moves that are not backward in the funnel and,
-- when asked to revive, those out of a terminal stage to a status that is not terminal.
pub validate_status_transition-accepts :
    (current : Option String) (target : String) (revive : Bool)
    → validate_status_transition current target revive
      ≡ accepts revive (stage_of current) (canonical_status target)
unfolding validate_status_transition
validate_status_transition-accepts current target revive =
    let hc = canonical_status_idem (or_text current "draft") in
    let ht = canonical_status_idem target in
    rw
      (
        can_transition_status-rank (some (canonical_status (or_text current "draft")))
            (canonical_status target),
        settled (canonical_status (or_text current "draft")) hc,
        ht,
        current_terminal (canonical_status (or_text current "draft")) hc,
        target_terminal (canonical_status target) ht,
      )
      (if_or (not_before (rank (stage_of current)) (rank (canonical_status target))) (
        revive
        && member (stage_of current) terminal_statuses
        && not (member (canonical_status target) terminal_statuses)))
