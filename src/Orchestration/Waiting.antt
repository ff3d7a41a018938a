-- ===== src/Orchestration/Waiting.antt =====
-- The jobs of the registry that wait, under the reads and writes of a cancellation.
use resu_align_lite.Prelude.{
  ℕ, String, ◌≡◌, refl, sym, subst, ◌∙◌, inl, inr, Bool, true, false, not, ◌&&◌, ◌||◌, Option, none,
  some, List, [], ◌∷◌, arith, Bool-cases,
}
use resu_align_lite.Prelude.Table.{
  same, filter, update, any, find, Distinct, Distinct-filter, Distinct-update, find-filter,
  any_of_key,
}
use resu_align_lite.Registry.Rows.{Job, Registry, is_queued, selects, job_key}
use resu_align_lite.Registry.Housekeeping.{delete_rows}
use resu_align_lite.Registry.Methods.{cancel}
use resu_align_lite.Registry.Reads.{visible_to, get_current}
use resu_align_lite.Batch.{BatchRow, in_status}
use resu_align_lite.Orchestration.{Context, Moment, analysis_of}
use resu_align_lite.Orchestration.Sync.{read_leaves}

-- Whether a job of the key waits in the registry.
abbrev pub waits : String → Registry → Bool
waits k reg = any (selects k is_queued) reg.jobs

abbrev pub IsKeyed : Registry → Type 0
IsKeyed reg = Distinct job_key reg.jobs

-- Other threads insert no job that waits, and none with a key that is taken: they create no job of
-- the batch anew and requeue none.
pub record IsQuiet (others : Moment → Context → Context) : Type 0 where
  pub queues_none :
      (m : Moment) (c : Context) (k : String)
      → waits k c.registry ≡ false
      → waits k (others m c).registry ≡ false
  pub keeps_keys : (m : Moment) (c : Context) → IsKeyed c.registry → IsKeyed (others m c).registry

pub any-filter-false :
    {A : Type 0} (q p : A → Bool) (xs : List A) → any q xs ≡ false → any q (filter p xs) ≡ false
any-filter-false q p [] h = refl
any-filter-false q p (x ∷ xs) h = ground (arith, any-filter-false q p xs)

pub any-update-false :
    {A : Type 0} (q p : A → Bool) (f : A → A) (ends : (x : A) → p x ≡ true → q (f x) ≡ false)
    (xs : List A)
    → any q xs ≡ false
    → any q (update p f xs) ≡ false
any-update-false q p f ends [] h = refl
any-update-false q p f ends (x ∷ xs) h = elim (Bool-cases (p x)) [
  | inl e ↦ rw (e, ends x e) (any-update-false q p f ends xs (ground arith))
  | inr e ↦ rw e (ground (arith, any-update-false q p f ends xs))
]

any-update_own :
    {A : Type 0} (q : A → Bool) (f : A → A) (ends : (x : A) → q (f x) ≡ false) (xs : List A)
    → any q (update q f xs) ≡ false
any-update_own q f ends [] = refl
any-update_own q f ends (x ∷ xs) = elim (Bool-cases (q x)) [
  | inl e ↦ rw (e, ends x, any-update_own q f ends xs) refl
  | inr e ↦ rw (e, e, any-update_own q f ends xs) refl
]

pub or_true : (b : Bool) → (b || true) ≡ true
or_true b = ground arith

pub and_false : (b : Bool) → (b && false) ≡ false
and_false b = ground arith

pub cancel-waits :
    (now : ℕ) (i k : String) (reg : Registry)
    → waits k reg ≡ false
    → waits k (cancel now i reg).0 ≡ false
unfolding cancel
cancel-waits now i k reg h =
    any-update-false (selects k is_queued) (selects i is_queued) _
      (λ j e. and_false (same j.job_id k)) reg.jobs h

pub cancel-own : (now : ℕ) (i : String) (reg : Registry) → waits i (cancel now i reg).0 ≡ false
unfolding cancel
cancel-own now i reg =
    any-update_own (selects i is_queued) _ (λ j. and_false (same j.job_id i)) reg.jobs

pub cancel-IsKeyed :
    (now : ℕ) (i : String) (reg : Registry) → IsKeyed reg → IsKeyed (cancel now i reg).0
unfolding cancel
cancel-IsKeyed now i reg h = Distinct-update job_key (selects i is_queued) _ (λ j. refl) reg.jobs h

module _ (now : ℕ) (t : String) where
  pub get-waits :
      (i k : String) (reg : Registry)
      → waits k reg ≡ false
      → waits k (get_current i now (some t) reg).0 ≡ false
  unfolding delete_rows
  get-waits i k reg h = elim (read_leaves now t reg i) [
    | inl p ↦ subst (λ r. waits k r ≡ false) (sym p) h
    | inr (p, n) ↦
        subst (λ r. waits k r ≡ false) (sym p) (any-filter-false (selects k is_queued) _ reg.jobs h)
  ]

  pub get-IsKeyed :
      (i : String) (reg : Registry) → IsKeyed reg → IsKeyed (get_current i now (some t) reg).0
  unfolding delete_rows
  get-IsKeyed i reg h = elim (read_leaves now t reg i) [
    | inl p ↦ subst IsKeyed (sym p) h
    | inr (p, n) ↦ subst IsKeyed (sym p) (Distinct-filter job_key _ reg.jobs h)
  ]

  shown_row :
      (i : String) (reg : Registry) {j : Job}
      → (get_current i now (some t) reg).1 ≡ some j
      → find job_key i (filter (visible_to (some t)) reg.jobs) ≡ some j
  unfolding get_current
  shown_row i reg h = ground arith

  stored_row :
      (i : String) (reg : Registry) {j : Job}
      → IsKeyed reg
      → (get_current i now (some t) reg).1 ≡ some j
      → find job_key i reg.jobs ≡ some j
  stored_row i reg {j} d h =
      let shown = shown_row i reg {j = j} h in
      ground (arith, shown, find-filter job_key (visible_to (some t)) i reg.jobs d)

  -- A job that a read shows in another status than queued: none of its key waits.
  pub shown-waits :
      (i : String) (reg : Registry) {j : Job}
      → IsKeyed reg
      → (get_current i now (some t) reg).1 ≡ some j
      → is_queued j.status ≡ false
      → waits i (get_current i now (some t) reg).0 ≡ false
  shown-waits i reg {j} d e q = get-waits i i reg (
      any_of_key job_key (λ x. is_queued x.status) i reg.jobs d
      ∙ (rw (stored_row i reg {j = j} d e) q))

-- The rows that a cancellation leaves queued have an analysis, of which no job waits.
abbrev pub is_taken : Registry → BatchRow → Bool
is_taken reg r =
    not (in_status "queued" r) || elim (analysis_of r) [ none ↦ false | some k ↦ not (waits k reg) ]

pub is_taken-stays :
    (reg next : Registry) (r : BatchRow)
    → ((k : String) → waits k reg ≡ false → waits k next ≡ false)
    → is_taken reg r ≡ true
    → is_taken next r ≡ true
is_taken-stays reg next r stays h = by_status (in_status "queued" r) (analysis_of r) h
  where
    by_status :
        (b : Bool) (o : Option String)
        → (not b || elim o [ none ↦ false | some k ↦ not (waits k reg) ]) ≡ true
        → (not b || elim o [ none ↦ false | some k ↦ not (waits k next) ]) ≡ true
    by_status false o h = refl
    by_status true none h = h
    by_status true (some k) h = ground (arith, stays k)

pub taken :
    (k : String) (reg : Registry) (r : BatchRow)
    → analysis_of r ≡ some k
    → waits k reg ≡ false
    → is_taken reg r ≡ true
taken k reg r a h = rw (a, h) (or_true (not (in_status "queued" r)))
