-- ===== src/Orchestration/Cancel.antt =====
-- What a cancellation of api/services/batch.py leaves of the rows of a batch, whatever other threads
-- do between its steps.
use resu_align_lite.Prelude.{
  ℕ, ◌+◌, String, ◌≡◌, refl, sym, subst, inl, inr, true, false, Option, none, some, List, [], ◌∷◌,
  length, Bool-cases, String_discrete,
}
use resu_align_lite.Prelude.Table.{All, count}
use resu_align_lite.Registry.Rows.{Job, is_queued}
use resu_align_lite.Registry.Methods.{cancel}
use resu_align_lite.Registry.Reads.{visible_to, get_current}
use resu_align_lite.Registry.Reads
use resu_align_lite.Batch.{BatchRow, in_status}
use resu_align_lite.Orchestration.{
  Context, Moment, before_get, before_cancel, Fate, kept, called_off, analysis_of, canceled_row,
  cancel_job, cancel_found, cancel_queued, cancel_row, cancel_rows,
}
use resu_align_lite.Orchestration.Waiting.{
  waits, IsKeyed, IsQuiet, cancel-waits, cancel-own, cancel-IsKeyed, get-waits, get-IsKeyed,
  shown-waits, is_taken, is_taken-stays, taken,
}
use resu_align_lite.Orchestration.Counts.{cancel_rows-Counts}

module _ (now : ℕ) (t : String) (others : Moment → Context → Context) (quiet : IsQuiet others) where
  -- What each step of the loop does to the registry.
  abbrev Steps : Context → Context → Type 0
  Steps c w =
      (IsKeyed c.registry → IsKeyed w.registry)
      × ((k : String) → waits k c.registry ≡ false → waits k w.registry ≡ false)

  Steps-trans : (a b c : Context) → Steps a b → Steps b c → Steps a c
  Steps-trans a b c f g = (λ d. g.0 (f.0 d), λ k h. g.1 k (f.1 k h))

  others-Steps : (m : Moment) (c : Context) → Steps c (others m c)
  others-Steps m c = (quiet.keeps_keys m c, λ k h. quiet.queues_none m c k h)

  cancel_job-Steps :
      (id : String) (left : ℕ) (j : Job) (r : BatchRow) (c : Context)
      → Steps c (cancel_job others now id left j r c).0
  cancel_job-Steps id left j r c = elim (Bool-cases (is_queued j.status)) [
    | inl e ↦ rw e (
      λ d. cancel-IsKeyed now id _ (quiet.keeps_keys (before_cancel left) c d),
      λ k h. cancel-waits now id k _ (quiet.queues_none (before_cancel left) c k h),
    )
    | inr e ↦ rw e (λ d. d, λ k h. h)
  ]

  cancel_found-Steps :
      (id : String) (left : ℕ) (o : Option Job) (r : BatchRow) (c : Context)
      → Steps c (cancel_found others now id left o r c).0
  cancel_found-Steps id left none r c = (λ d. d, λ k h. h)
  cancel_found-Steps id left (some j) r c = cancel_job-Steps id left j r c

  get-Steps :
      (id : String) (c : Context)
      → Steps c (record c { registry = (get_current id now (some t) c.registry).0 })
  get-Steps id c = (get-IsKeyed now t id c.registry, λ k h. get-waits now t id k c.registry h)

  cancel_queued-Steps :
      (left : ℕ) (o : Option String) (r : BatchRow) (c : Context)
      → Steps c (cancel_queued others now t left o r c).0
  unfolding Reads.get
  cancel_queued-Steps left none r c = (λ d. d, λ k h. h)
  cancel_queued-Steps left (some id) r c =
      let w = others (before_get left) c in
      let read : Context = record w { registry = (get_current id now (some t) w.registry).0 } in
      Steps-trans c w (cancel_queued others now t left (some id) r c).0
        (others-Steps (before_get left) c)
        (Steps-trans w read (cancel_queued others now t left (some id) r c).0 (get-Steps id w)
          (cancel_found-Steps id left (get_current id now (some t) w.registry).1 r read))

  cancel_row-Steps :
      (left : ℕ) (r : BatchRow) (c : Context) → Steps c (cancel_row others now t left r c).0
  cancel_row-Steps left r c = elim (Bool-cases (in_status "queued" r)) [
    | inl e ↦ rw e (cancel_queued-Steps left (analysis_of r) r c)
    | inr e ↦ rw e (λ d. d, λ k h. h)
  ]

  cancel_rows-Steps : (rs : List BatchRow) (c : Context) → Steps c (cancel_rows others now t rs c).0
  unfolding cancel_rows
  cancel_rows-Steps [] c = (λ d. d, λ k h. h)
  cancel_rows-Steps (r ∷ rs) c =
      let here = cancel_row others now t (length rs) r c in
      Steps-trans c here.0 (cancel_rows others now t rs here.0).0 (cancel_row-Steps (length rs) r c)
        (cancel_rows-Steps rs here.0)

  abbrev IsSettled : Context × (BatchRow × Fate) → Type 0
  IsSettled out = is_taken out.0.registry out.1.0 ≡ true

  -- A row after its step.
  cancel_found-IsSettled :
      (id : String) (left : ℕ) (o : Option Job) (r : BatchRow) (c : Context)
      → analysis_of r ≡ some id
      → ((j : Job) → o ≡ some j → is_queued j.status ≡ false → waits id c.registry ≡ false)
      → IsSettled (cancel_found others now id left o r c)
  unfolding String_discrete
  cancel_found-IsSettled id left none r c a h = refl
  cancel_found-IsSettled id left (some j) r c a h = elim (Bool-cases (is_queued j.status)) [
    | inl e ↦
        let w = others (before_cancel left) c in
        let ended = cancel now id w.registry in
        elim (Bool-cases ended.1) [
          | inl f ↦
              let out : cancel_found others now id left (some j) r c
                  ≡ (record w { registry = ended.0 }, (canceled_row r, called_off)) =
                rw (e, f) refl in
              subst IsSettled (sym out) refl
          | inr f ↦
              let out : cancel_found others now id left (some j) r c
                  ≡ (record w { registry = ended.0 }, (r, kept)) =
                rw (e, f) refl in
              subst IsSettled (sym out) (taken id ended.0 r a (cancel-own now id w.registry))
        ]
    | inr e ↦
        let out : cancel_found others now id left (some j) r c ≡ (c, (r, kept)) = rw e refl in
        subst IsSettled (sym out) (taken id c.registry r a (h j refl e))
  ]

  cancel_queued-IsSettled :
      (left : ℕ) (o : Option String) (r : BatchRow) (c : Context)
      → analysis_of r ≡ o
      → IsKeyed c.registry
      → IsSettled (cancel_queued others now t left o r c)
  unfolding Reads.get String_discrete
  cancel_queued-IsSettled left none r c a d = refl
  cancel_queued-IsSettled left (some id) r c a d =
      let w = others (before_get left) c in
      cancel_found-IsSettled id left (get_current id now (some t) w.registry).1 r
        (record w { registry = (get_current id now (some t) w.registry).0 }) a
        (λ j e q.
          shown-waits now t id w.registry {j = j} (quiet.keeps_keys (before_get left) c d) e q)

  cancel_row-IsSettled :
      (left : ℕ) (r : BatchRow) (c : Context)
      → IsKeyed c.registry
      → IsSettled (cancel_row others now t left r c)
  cancel_row-IsSettled left r c d = elim (Bool-cases (in_status "queued" r)) [
    | inl e ↦
        let out : cancel_row others now t left r c
            ≡ cancel_queued others now t left (analysis_of r) r c =
          rw e refl in
        subst IsSettled (sym out) (cancel_queued-IsSettled left (analysis_of r) r c refl d)
    | inr e ↦
        let out : cancel_row others now t left r c ≡ (c, (r, kept)) = rw e refl in
        subst IsSettled (sym out) (rw e refl)
  ]

  cancel_rows-is_taken :
      (rs : List BatchRow) (c : Context)
      → IsKeyed c.registry
      → All
          (λ r. is_taken (cancel_rows others now t rs c).0.registry r ≡ true)
          (cancel_rows others now t rs c).1.0
  unfolding cancel_rows
  cancel_rows-is_taken [] c d = tt
  cancel_rows-is_taken (r ∷ rs) c d =
      let here = cancel_row others now t (length rs) r c in
      (
        is_taken-stays here.0.registry (cancel_rows others now t rs here.0).0.registry here.1.0
            (cancel_rows-Steps rs here.0).1 (cancel_row-IsSettled (length rs) r c d),
        cancel_rows-is_taken rs here.0 ((cancel_row-Steps (length rs) r c).0 d),
      )

  -- A cancellation of the rows of a batch, on a registry with unique keys and while other threads
  -- keep them unique and queue no job, leaves a row queued only if it has an analysis of which no job
  -- waits in the registry: a worker has taken it, or it has ended. The report counts the rows that
  -- became canceled and those that became failed.
  pub cancel_rows-none_waits :
      (rs : List BatchRow) (c : Context)
      → IsKeyed c.registry
      → let after = cancel_rows others now t rs c in
        All (λ r. is_taken after.0.registry r ≡ true) after.1.0
        × (count (in_status "canceled") after.1.0 ≡ count (in_status "canceled") rs + after.1.1.0)
        × (count (in_status "failed") after.1.0 ≡ count (in_status "failed") rs + after.1.1.1)
  cancel_rows-none_waits rs c d =
      let counts = cancel_rows-Counts now t others rs c in
      (cancel_rows-is_taken rs c d, counts.0, counts.1)
