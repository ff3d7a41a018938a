-- ===== src/Delivery/Spelling.antt =====
-- The spellings of a stage: canonical keys, labels and the values a filter on a stage looks for.
use resu_align_lite.Prelude.Booleans.{or_false}
use resu_align_lite.Prelude.{String, ◌≡◌, refl, sym, ap, ◌∙◌, false, List, [], ◌∷◌, String_discrete}
use resu_align_lite.Prelude.Table.{same_refl, same_sym, same}
use resu_align_lite.Prelude.Texts.{strip, lstrip, rstrip, strip_idem}
use resu_align_lite.Delivery.Vocabulary.{
  member, status_aliases, status_labels, dict_get, canonical_status, status_label,
  status_filter_values, append_missing, keys_of,
}
use resu_align_lite.Delivery.Cases.{IsOther, IsNoLabel, by_spelling, by_label}

-- The stage_key of a text without spaces at its ends.
abbrev stage_key : String → String
stage_key v = dict_get status_aliases v v

abbrev Settles : String → Type 0
Settles v = strip v ≡ v → stage_key (strip (stage_key v)) ≡ stage_key v

settles : (v : String) → Settles v
unfolding strip lstrip rstrip String_discrete
settles =
    by_label (λ v. Settles v) (λ e. refl) (λ e. refl) (λ e. refl) (λ e. refl) (λ e. refl)
      (λ v h e. rw (h.0, h.1, h.2, h.3, h.4, e, h.0, h.1, h.2, h.3, h.4) refl)

-- The canonical form of a stage is its own canonical form, whatever text it came from.
pub canonical_status_idem :
    (s : String) → canonical_status (canonical_status s) ≡ canonical_status s
unfolding canonical_status
canonical_status_idem s = settles (strip s) (strip_idem s)

abbrev label_of : String → String
label_of c = dict_get status_labels c c

abbrev Returns : String → Type 0
Returns v = strip v ≡ v → stage_key (strip (label_of (stage_key v))) ≡ stage_key v

returns : (v : String) → Returns v
unfolding strip lstrip rstrip String_discrete
returns =
    by_spelling (λ v. Returns v) (λ e. refl) (λ e. refl) (λ e. refl) (λ e. refl) (λ e. refl)
      (λ e. refl) (λ e. refl) (λ e. refl) (λ e. refl) (λ e. refl)
      (λ v h k e.
        rw (h.0, h.1, h.2, h.3, h.4, k.0, k.1, k.2, k.3, k.4, e, h.0, h.1, h.2, h.3, h.4) refl)

-- The label of a stage, stored in place of its stage_key, is read back as the same stage; a text that
-- names no stage is its own label.
pub canonical_status-status_label :
    (s : String) → canonical_status (status_label s) ≡ canonical_status s
unfolding canonical_status status_label
canonical_status-status_label s = returns (strip s) (strip_idem s)

-- `status_filter_values` of a text without spaces at its ends.
abbrev values : String → List String
values v = append_missing (append_missing (keys_of status_aliases (stage_key v)) (stage_key v)) v

-- What a filter on `v` says of a stored text.
abbrev Finds : String → String → Type 0
Finds v t = member t (values v) ≡ same (stage_key v) (stage_key t)

search_from :
    (v : String)
    → Finds v "未投递"
    → Finds v "已投递"
    → Finds v "面试中"
    → Finds v "已拿Offer"
    → Finds v "放弃"
    → Finds v "draft"
    → Finds v "applied"
    → Finds v "interview"
    → Finds v "offer"
    → Finds v "withdrawn"
    → ((t : String) → IsNoLabel t → IsOther t → Finds v t)
    → (t : String) → Finds v t
search_from v = by_spelling (λ t. Finds v t)

values-other : (v : String) → IsNoLabel v → IsOther v → values v ≡ v ∷ []
unfolding String_discrete
values-other v h k = rw (h.0, h.1, h.2, h.3, h.4, k.0, k.1, k.2, k.3, k.4, same_refl v) refl

stage_key-other : (v : String) → IsNoLabel v → stage_key v ≡ v
stage_key-other v h = rw (h.0, h.1, h.2, h.3, h.4) refl

apart : (v a b : String) → same a v ≡ false → same b v ≡ false → same v a ≡ same v b
apart v a b ha hb = same_sym v a ∙ (ha ∙ (sym hb ∙ same_sym b v))

same-stage_key :
    (v : String) → IsNoLabel v → IsOther v → (t : String) → same v t ≡ same v (stage_key t)
unfolding String_discrete
same-stage_key v h k =
    by_label (λ t. same v t ≡ same v (stage_key t)) (apart v "未投递" "draft" h.0 k.0)
      (apart v "已投递" "applied" h.1 k.1) (apart v "面试中" "interview" h.2 k.2)
      (apart v "已拿Offer" "offer" h.3 k.3) (apart v "放弃" "withdrawn" h.4 k.4)
      (λ t l. rw (l.0, l.1, l.2, l.3, l.4) refl)

search_other : (v : String) → IsNoLabel v → IsOther v → (t : String) → Finds v t
search_other v h k t =
    ap (λ vs. member t vs) (values-other v h k)
    ∙ (or_false (same v t)
        ∙ (same-stage_key v h k t ∙ ap (λ a. same a (stage_key t)) (sym (stage_key-other v h))))

search_draft : (t : String) → Finds "draft" t
unfolding String_discrete
search_draft =
    search_from "draft" refl refl refl refl refl refl refl refl refl refl
      (λ t h k. rw (h.0, h.1, h.2, h.3, h.4, k.0) refl)

search_draft_label : (t : String) → Finds "未投递" t
unfolding String_discrete
search_draft_label =
    search_from "未投递" refl refl refl refl refl refl refl refl refl refl
      (λ t h k. rw (h.0, h.1, h.2, h.3, h.4, k.0) refl)

search_applied : (t : String) → Finds "applied" t
unfolding String_discrete
search_applied =
    search_from "applied" refl refl refl refl refl refl refl refl refl refl
      (λ t h k. rw (h.0, h.1, h.2, h.3, h.4, k.1) refl)

search_applied_label : (t : String) → Finds "已投递" t
unfolding String_discrete
search_applied_label =
    search_from "已投递" refl refl refl refl refl refl refl refl refl refl
      (λ t h k. rw (h.0, h.1, h.2, h.3, h.4, k.1) refl)

search_interview : (t : String) → Finds "interview" t
unfolding String_discrete
search_interview =
    search_from "interview" refl refl refl refl refl refl refl refl refl refl
      (λ t h k. rw (h.0, h.1, h.2, h.3, h.4, k.2) refl)

search_interview_label : (t : String) → Finds "面试中" t
unfolding String_discrete
search_interview_label =
    search_from "面试中" refl refl refl refl refl refl refl refl refl refl
      (λ t h k. rw (h.0, h.1, h.2, h.3, h.4, k.2) refl)

search_offer : (t : String) → Finds "offer" t
unfolding String_discrete
search_offer =
    search_from "offer" refl refl refl refl refl refl refl refl refl refl
      (λ t h k. rw (h.0, h.1, h.2, h.3, h.4, k.3) refl)

search_offer_label : (t : String) → Finds "已拿Offer" t
unfolding String_discrete
search_offer_label =
    search_from "已拿Offer" refl refl refl refl refl refl refl refl refl refl
      (λ t h k. rw (h.0, h.1, h.2, h.3, h.4, k.3) refl)

search_withdrawn : (t : String) → Finds "withdrawn" t
unfolding String_discrete
search_withdrawn =
    search_from "withdrawn" refl refl refl refl refl refl refl refl refl refl
      (λ t h k. rw (h.0, h.1, h.2, h.3, h.4, k.4) refl)

search_withdrawn_label : (t : String) → Finds "放弃" t
unfolding String_discrete
search_withdrawn_label =
    search_from "放弃" refl refl refl refl refl refl refl refl refl refl
      (λ t h k. rw (h.0, h.1, h.2, h.3, h.4, k.4) refl)

search_any : (v t : String) → Finds v t
search_any v t =
    by_spelling (λ v. Finds v t) (search_draft_label t) (search_applied_label t)
      (search_interview_label t) (search_offer_label t) (search_withdrawn_label t) (search_draft t)
      (search_applied t) (search_interview t) (search_offer t) (search_withdrawn t)
      (λ v h k. search_other v h k t) v

-- A filter on a stage, in either spelling, matches exactly the stored statuses of the same stage,
-- whichever spelling they are stored in, where the stored text has no spaces at its ends.
pub status_filter_values-finds :
    (s t : String)
    → strip t ≡ t
    → member t (status_filter_values s) ≡ same (canonical_status s) (canonical_status t)
unfolding canonical_status status_filter_values
status_filter_values-finds s t e = rw (strip_idem s, e) (search_any (strip s) t)
