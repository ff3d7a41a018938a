-- ===== src/Batch/Store.antt =====
-- What `get` of batch.py finds after `create`.
use resu_align_lite.Prelude.Booleans.{left_false, right_false}
use resu_align_lite.Prelude.{
  ℕ, ◌+◌, ◌≤◌, String, ◌≡◌, refl, sym, ap, subst, inl, inr, Bool, true, false, not, ◌&&◌, Option,
  none, some, List, [], ◌∷◌, ◌++◌, arith, ltb, if◌then◌else◌, Bool-cases,
}
use resu_align_lite.Prelude.Table.{same, same_eq, filter, any}
use resu_align_lite.Prelude.Table.{first}
use resu_align_lite.Batch.{Batch, BatchRow, BatchAlignStore, prune, has_id, create, of_tenant, get}

abbrev otherwise : Option Batch → Option Batch → Option Batch
otherwise none o = o
otherwise (some b) o = some b

otherwise-none : (o : Option Batch) → otherwise o none ≡ o
otherwise-none none = refl
otherwise-none (some b) = refl

first-filter-append :
    (q p : Batch → Bool) (xs : List Batch) (y : Batch)
    → first q (filter p (xs ++ y ∷ []))
      ≡ otherwise (first q (filter p xs)) (if p y && q y then some y else none)
first-filter-append q p [] y = elim (Bool-cases (p y)) [ inl e ↦ rw e refl | inr e ↦ rw e refl ]
first-filter-append q p (x ∷ xs) y = elim (Bool-cases (p x)) [
  | inl e ↦ elim (Bool-cases (q x)) [
    | inl k ↦ rw (e, k) refl
    | inr k ↦ rw (e, k) (first-filter-append q p xs y)
  ]
  | inr e ↦ rw e (first-filter-append q p xs y)
]

keep_head :
    (q p r : Batch → Bool) (xs : List Batch) (x : Batch)
    → first q (filter p (filter r xs)) ≡ first q (filter p xs)
    → first q (filter p (x ∷ filter r xs)) ≡ first q (filter p (x ∷ xs))
keep_head q p r xs x h = elim (Bool-cases (p x)) [
  | inl e ↦ elim (Bool-cases (q x)) [ inl k ↦ rw (e, k) refl | inr k ↦ rw (e, k) h ]
  | inr e ↦ rw e h
]

first-filter-filter :
    (q p r : Batch → Bool) (xs : List Batch)
    → ((x : Batch) → p x ≡ true → r x ≡ true)
    → first q (filter p (filter r xs)) ≡ first q (filter p xs)
first-filter-filter q p r [] h = refl
first-filter-filter q p r (x ∷ xs) h = elim (Bool-cases (r x)) [
  | inl e ↦ rw e (keep_head q p r xs x (first-filter-filter q p r xs h))
  | inr e ↦ elim (Bool-cases (p x)) [
    | inl k ↦ ground (arith, h x k)
    | inr k ↦ rw (e, k) (first-filter-filter q p r xs h)
  ]
]

first-filter-none :
    (q p : Batch → Bool) (xs : List Batch) → any q xs ≡ false → first q (filter p xs) ≡ none
first-filter-none q p [] h = refl
first-filter-none q p (x ∷ xs) h = elim (Bool-cases (p x)) [
  | inl e ↦
      rw (e, left_false (q x) (any q xs) h)
        (first-filter-none q p xs (right_false (q x) (any q xs) h))
  | inr e ↦ rw e (first-filter-none q p xs (right_false (q x) (any q xs) h))
]

module _ (now t : ℕ) (id tenant resume granularity focus : String) (prompt : Option String)
    (rows : List BatchRow) (s : BatchAlignStore) (asked other : String) where
  abbrev pub made : Batch
  made = record {
    batch_id = id;
    tenant_id = tenant;
    master_resume_id = resume;
    granularity = granularity;
    prompt_focus = focus;
    custom_prompt = prompt;
    created_at = now;
    rows = rows;
  }

  abbrev alive : ℕ → Batch → Bool
  alive u b = not (ltb (b.created_at + s.ttl_seconds) u)

  alive_before : now ≤ t → (b : Batch) → alive t b ≡ true → alive now b ≡ true
  alive_before le b h = ground arith

  -- After a batch has been created with an id that is not taken, a later request of the id finds it
  -- until its time to live is over, if the request is of its tenant, and a request of another id
  -- finds what it would have found before.
  pub get-create :
      now ≤ t
      → any (has_id id) s.batches ≡ false
      → (get t asked other (create now id tenant resume rows granularity focus prompt s)).1 ≡ (
          if same id asked
          then of_tenant other (if ltb (now + s.ttl_seconds) t then none else some made)
          else (get t asked other s).1)
  unfolding get create prune
  get-create le taken = elim (Bool-cases (same id asked)) [
    | inl e ↦
        rw
          (
            first-filter-append (has_id asked) (alive t) (filter (alive now) s.batches) made,
            first-filter-filter (has_id asked) (alive t) (alive now) s.batches (alive_before le),
            first-filter-none (has_id asked) (alive t) s.batches
                (subst (λ i. any (has_id i) s.batches ≡ false) (sym (same_eq id asked e)) taken),
            e,
          )
          (elim (Bool-cases (ltb (now + s.ttl_seconds) t)) [
            | inl k ↦ rw k refl
            | inr k ↦ rw k refl
          ])
    | inr e ↦
        rw
          (
            first-filter-append (has_id asked) (alive t) (filter (alive now) s.batches) made,
            first-filter-filter (has_id asked) (alive t) (alive now) s.batches (alive_before le),
            e,
          )
          (elim (Bool-cases (alive t made)) [
            | inl k ↦ rw k (
                ap (λ o. of_tenant other o)
                  (otherwise-none (first (has_id asked) (filter (alive t) s.batches))))
            | inr k ↦ rw k (
                ap (λ o. of_tenant other o)
                  (otherwise-none (first (has_id asked) (filter (alive t) s.batches))))
          ])
  ]
