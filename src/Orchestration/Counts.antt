-- ===== src/Orchestration/Counts.antt =====
-- The counts in the report of a cancellation of api/services/batch.py.
use resu_align_lite.Prelude.{
  ℕ, ◌+◌, String, ◌≡◌, refl, sym, subst, inl, inr, Bool, true, false, Option, none, some, List, [],
  ◌∷◌, arith, length, if◌then◌else◌, Bool-cases, String_discrete,
}
use resu_align_lite.Prelude.Table.{same_eq, count}
use resu_align_lite.Registry.Rows.{Job, is_queued}
use resu_align_lite.Registry.Methods.{cancel}
use resu_align_lite.Registry.Reads.{visible_to, get_current}
use resu_align_lite.Registry.Reads
use resu_align_lite.Batch.{BatchRow, is_state, in_status}
use resu_align_lite.Orchestration.{
  Context, Moment, before_get, before_cancel, Fate, kept, called_off, lost, analysis_of, lost_row,
  canceled_row, count_canceled, count_lost, cancel_found, cancel_queued, cancel_row, cancel_rows,
}

module _ (now : ℕ) (t : String) (others : Moment → Context → Context) where
  -- One row in the counts of the report.
  abbrev as_count : Bool → ℕ
  as_count b = if b then 1 else 0

  abbrev Counts : BatchRow → BatchRow × Fate → Type 0
  Counts r out =
      (as_count (in_status "canceled" out.0)
        ≡ as_count (in_status "canceled" r) + count_canceled out.1 0)
      × (as_count (in_status "failed" out.0) ≡ as_count (in_status "failed" r) + count_lost out.1 0)

  kept-Counts : (r : BatchRow) → Counts r (r, kept)
  kept-Counts r = (omega arith, omega arith)

  only_queued :
      (o : Option String)
      → is_state "queued" o ≡ true
      → (is_state "canceled" o ≡ false) × (is_state "failed" o ≡ false)
  unfolding String_discrete
  only_queued none h = cc
  only_queued (some s) h =
      subst (λ x. (is_state "canceled" (some x) ≡ false) × (is_state "failed" (some x) ≡ false))
        (sym (same_eq "queued" s h)) (refl, refl)

  canceled-Counts :
      (r : BatchRow) → in_status "queued" r ≡ true → Counts r (canceled_row r, called_off)
  unfolding String_discrete
  canceled-Counts r h = let only = only_queued r.status h in rw (only.0, only.1) (refl, refl)

  lost-Counts : (r : BatchRow) → in_status "queued" r ≡ true → Counts r (lost_row r, lost)
  unfolding String_discrete
  lost-Counts r h = let only = only_queued r.status h in rw (only.0, only.1) (refl, refl)

  cancel_found-Counts :
      (id : String) (left : ℕ) (o : Option Job) (r : BatchRow) (c : Context)
      → in_status "queued" r ≡ true
      → Counts r (cancel_found others now id left o r c).1
  cancel_found-Counts id left none r c h = lost-Counts r h
  cancel_found-Counts id left (some j) r c h = elim (Bool-cases (is_queued j.status)) [
    | inl e ↦
        let ended = cancel now id (others (before_cancel left) c).registry in
        elim (Bool-cases ended.1) [
          | inl f ↦
              let out : (cancel_found others now id left (some j) r c).1
                  ≡ (canceled_row r, called_off) =
                rw (e, f) refl in
              subst (Counts r) (sym out) (canceled-Counts r h)
          | inr f ↦
              let out : (cancel_found others now id left (some j) r c).1 ≡ (r, kept) =
                rw (e, f) refl in
              subst (Counts r) (sym out) (kept-Counts r)
        ]
    | inr e ↦
        let out : (cancel_found others now id left (some j) r c).1 ≡ (r, kept) = rw e refl in
        subst (Counts r) (sym out) (kept-Counts r)
  ]

  cancel_queued-Counts :
      (left : ℕ) (o : Option String) (r : BatchRow) (c : Context)
      → in_status "queued" r ≡ true
      → Counts r (cancel_queued others now t left o r c).1
  cancel_queued-Counts left none r c h = lost-Counts r h
  cancel_queued-Counts left (some id) r c h =
      let w = others (before_get left) c in
      let read = Reads.get now id (some t) w.registry in
      cancel_found-Counts id left read.1 r (record w { registry = read.0 }) h

  cancel_row-Counts :
      (left : ℕ) (r : BatchRow) (c : Context) → Counts r (cancel_row others now t left r c).1
  cancel_row-Counts left r c = elim (Bool-cases (in_status "queued" r)) [
    | inl e ↦
        let out : (cancel_row others now t left r c).1
            ≡ (cancel_queued others now t left (analysis_of r) r c).1 =
          rw e refl in
        subst (Counts r) (sym out) (cancel_queued-Counts left (analysis_of r) r c e)
    | inr e ↦
        let out : (cancel_row others now t left r c).1 ≡ (r, kept) = rw e refl in
        subst (Counts r) (sym out) (kept-Counts r)
  ]

  canceled_more : (f : Fate) (n : ℕ) → count_canceled f n ≡ count_canceled f 0 + n
  canceled_more kept n = omega arith
  canceled_more called_off n = omega arith
  canceled_more lost n = omega arith

  lost_more : (f : Fate) (n : ℕ) → count_lost f n ≡ count_lost f 0 + n
  lost_more kept n = omega arith
  lost_more called_off n = omega arith
  lost_more lost n = omega arith

  count-first :
      (p : BatchRow → Bool) (x : BatchRow) (xs : List BatchRow)
      → count p (x ∷ xs) ≡ as_count (p x) + count p xs
  count-first p x xs = ground arith

  add_count :
      (p : BatchRow → Bool) (x y : BatchRow) (xs ys : List BatchRow) (k n m : ℕ)
      → as_count (p x) ≡ as_count (p y) + k
      → count p xs ≡ count p ys + n
      → m ≡ k + n
      → count p (x ∷ xs) ≡ count p (y ∷ ys) + m
  add_count p x y xs ys k n m e f g =
      let a = count-first p x xs in let b = count-first p y ys in omega (arith, a, b, e, f, g)

  pub cancel_rows-Counts :
      (rs : List BatchRow) (c : Context)
      → (count (in_status "canceled") (cancel_rows others now t rs c).1.0
          ≡ count (in_status "canceled") rs + (cancel_rows others now t rs c).1.1.0)
        × (count (in_status "failed") (cancel_rows others now t rs c).1.0
            ≡ count (in_status "failed") rs + (cancel_rows others now t rs c).1.1.1)
  unfolding cancel_rows
  cancel_rows-Counts [] c = (refl, refl)
  cancel_rows-Counts (r ∷ rs) c =
      let here = cancel_row others now t (length rs) r c in
      let rest = cancel_rows others now t rs here.0 in
      let one = cancel_row-Counts (length rs) r c in
      let more = cancel_rows-Counts rs here.0 in
      (
        add_count (in_status "canceled") here.1.0 r rest.1.0 rs (count_canceled here.1.1 0)
            rest.1.1.0 _ one.0 more.0 (canceled_more here.1.1 rest.1.1.0),
        add_count (in_status "failed") here.1.0 r rest.1.0 rs (count_lost here.1.1 0) rest.1.1.1 _
            one.1 more.1 (lost_more here.1.1 rest.1.1.1),
      )
