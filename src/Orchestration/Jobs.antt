-- ===== src/Orchestration/Jobs.antt =====
-- The row of a job of the registry after rows of other keys were deleted or written.
use resu_align_lite.Prelude.{
  String, ◌≡◌, refl, sym, ◌∙◌, inl, inr, Bool, false, not, none, List, [], ◌∷◌, arith, Bool-cases,
}
use resu_align_lite.Prelude.Table.{same, same_eq, filter, find}
use resu_align_lite.Registry.Rows.{Job, job_key}

pub find_apart :
    (k : String) (j : Job) (js : List Job)
    → same j.job_id k ≡ false
    → find job_key k (j ∷ js) ≡ find job_key k js
find_apart k j js e = ground arith

pub find-filter-deleted :
    (p : Job → Bool) (k : String) (js : List Job)
    → find job_key k (filter p (filter (λ j. not (same j.job_id k)) js)) ≡ none
find-filter-deleted p k [] = refl
find-filter-deleted p k (j ∷ js) = elim (Bool-cases (same j.job_id k)) [
  | inl e ↦ rw e (find-filter-deleted p k js)
  | inr e ↦ elim (Bool-cases (p j)) [
    | inl h ↦ rw (e, h) (find_apart k j _ e ∙ find-filter-deleted p k js)
    | inr h ↦ rw (e, h) (find-filter-deleted p k js)
  ]
]

kept_head :
    (p : Job → Bool) (i k : String) (j : Job) (js : List Job)
    → find job_key k (filter p (filter (λ j. not (same j.job_id i)) js))
      ≡ find job_key k (filter p js)
    → find job_key k (j ∷ filter p (filter (λ j. not (same j.job_id i)) js))
      ≡ find job_key k (j ∷ filter p js)
kept_head p i k j js h = rw h refl

pub find-filter-other :
    (p : Job → Bool) (i k : String) (js : List Job)
    → same i k ≡ false
    → find job_key k (filter p (filter (λ j. not (same j.job_id i)) js))
      ≡ find job_key k (filter p js)
find-filter-other p i k [] d = refl
find-filter-other p i k (j ∷ js) d = elim (Bool-cases (same j.job_id i)) [
  | inl e ↦
      let apart : same j.job_id k ≡ false = (rw (same_eq j.job_id i e) at d) in
      elim (Bool-cases (p j)) [
        | inl h ↦
            rw (e, h) (find-filter-other p i k js d ∙ sym (find_apart k j (filter p js) apart))
        | inr h ↦ rw (e, h) (find-filter-other p i k js d)
      ]
  | inr e ↦ elim (Bool-cases (p j)) [
    | inl h ↦ rw (e, h) (kept_head p i k j js (find-filter-other p i k js d))
    | inr h ↦ rw (e, h) (find-filter-other p i k js d)
  ]
]
