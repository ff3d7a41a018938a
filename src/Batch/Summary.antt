-- ===== src/Batch/Summary.antt =====
-- The summary of a batch of batch.py: its counts and its best row.
use resu_align_lite.Prelude.Booleans.{or_right}
use resu_align_lite.Prelude.{
  ℕ, suc, ◌+◌, max, String, ◌≡◌, refl, sym, ap, subst, ◌∙◌, inl, inr, Bool, true, false, not, ◌||◌,
  Option, none, some, List, [], ◌∷◌, arith, leb, ◌==◌, if◌then◌else◌, leb→le, Bool-cases,
  String_discrete, length,
}
use resu_align_lite.Prelude.Table.{All, any, count, All-map}
use resu_align_lite.Prelude.Table.{first}
use resu_align_lite.Delivery.Cases.{by_five}
use resu_align_lite.Batch.{
  is_some, Batch, BatchRow, batch_summary, add_score, is_score, in_status, scores, max_of,
  scores_at, best_row, is_state,
}

-- One of the five states.
abbrev has_state : Option String → Bool
has_state o =
    is_state "queued" o
    || is_state "running" o
    || is_state "succeeded" o
    || is_state "failed" o
    || is_state "canceled" o

abbrev pub is_counted : BatchRow → Bool
is_counted r = has_state r.status

-- A row adds one to the sum of the counts exactly when it is in one of the states.
abbrev Adds : ℕ → ℕ → ℕ → ℕ → ℕ → Option String → Type 0
Adds a b c d e o =
    (if is_state "queued" o then suc a else a)
      + (if is_state "running" o then suc b else b)
      + ((if is_state "succeeded" o then suc c else c)
          + (if is_state "failed" o then suc d else d)
          + (if is_state "canceled" o then suc e else e))
    ≡ (if has_state o then suc (a + b + (c + d + e)) else a + b + (c + d + e))

adds : (a b c d e : ℕ) (o : Option String) → Adds a b c d e o
unfolding String_discrete
adds a b c d e none = refl
adds a b c d e (some s) =
    by_five "queued" "running" "succeeded" "failed" "canceled" (λ s. Adds a b c d e (some s))
      (omega arith) (omega arith) (omega arith) (omega arith) (omega arith)
      (λ s h. rw (h.0, h.1, h.2, h.3, h.4) refl) s

counted :
    (rs : List BatchRow)
    → count (in_status "queued") rs
        + count (in_status "running") rs
        + (count (in_status "succeeded") rs
            + count (in_status "failed") rs
            + count (in_status "canceled") rs)
      ≡ count is_counted rs
counted [] = refl
counted (r ∷ rs) =
    adds (count (in_status "queued") rs) (count (in_status "running") rs)
      (count (in_status "succeeded") rs) (count (in_status "failed") rs)
      (count (in_status "canceled") rs) r.status
    ∙ ap (λ n. if is_counted r then suc n else n) (counted rs)

count_every :
    (p : BatchRow → Bool) (rs : List BatchRow) → All (λ r. p r ≡ true) rs → count p rs ≡ length rs
count_every p [] h = refl
count_every p (r ∷ rs) h = rw (h.0, count_every p rs h.1) (omega arith)

-- Where every row is queued, running, succeeded, failed or canceled, the queued, the running and the
-- completed rows of a summary add up to its total.
pub batch_summary-total :
    (b : Batch)
    → All (λ r. is_counted r ≡ true) b.rows
    → (batch_summary b).queued + (batch_summary b).running + (batch_summary b).completed
      ≡ (batch_summary b).total
unfolding batch_summary
batch_summary-total b h = counted b.rows ∙ count_every is_counted b.rows h

-- Whether a row is no better than a score: it has not succeeded, or scores at most as much.
abbrev no_better : Option ℕ → Option ℕ → Bool
no_better none best = true
no_better (some n) none = false
no_better (some n) (some m) = leb n m

abbrev pub is_no_better : Option ℕ → BatchRow → Bool
is_no_better best r = not (in_status "succeeded" r) || no_better r.summary_score best

no_better-max :
    (n : ℕ) (o : Option ℕ) (ns : List ℕ)
    → All (λ k. no_better (some k) o ≡ true) ns
    → All (λ k. no_better (some k) (elim o [ none ↦ some n | some m ↦ some (max n m) ]) ≡ true) ns
no_better-max n none ns h =
    All-map (λ k. false ≡ true) (λ k. no_better (some k) (some n) ≡ true) (λ k e. cc) ns h
no_better-max n (some m) ns h =
    All-map (λ k. leb k m ≡ true) (λ k. leb k (max n m) ≡ true) (λ k e. ground arith) ns h

no_better_head :
    (n : ℕ) (o : Option ℕ)
    → no_better (some n) (elim o [ none ↦ some n | some m ↦ some (max n m) ]) ≡ true
no_better_head n none = ground arith
no_better_head n (some m) = ground arith

-- No score of a list is better than its maximum.
max_of-upper : (ns : List ℕ) → All (λ k. no_better (some k) (max_of ns) ≡ true) ns
max_of-upper [] = tt
max_of-upper (n ∷ ns) =
    (no_better_head n (max_of ns), no_better-max n (max_of ns) ns (max_of-upper ns))

add_score-upper :
    (best : Option ℕ) (b : Bool) (o : Option ℕ) (rest : List ℕ)
    → All (λ k. no_better (some k) best ≡ true) (add_score b o rest)
    → ((not b || no_better o best) ≡ true) × All (λ k. no_better (some k) best ≡ true) rest
add_score-upper best true (some n) rest h = h
add_score-upper best true none rest h = (refl, h)
add_score-upper best false o rest h = (refl, h)

scores_upper :
    (best : Option ℕ) (rs : List BatchRow)
    → All (λ k. no_better (some k) best ≡ true) (scores rs)
    → All (λ r. is_no_better best r ≡ true) rs
scores_upper best [] h = tt
scores_upper best (r ∷ rs) h =
    let parts = add_score-upper best (in_status "succeeded" r) r.summary_score (scores rs) h in
    (parts.0, scores_upper best rs parts.1)

-- Whether a score is among those of a list; no score always is.
abbrev attained : Option ℕ → List ℕ → Bool
attained none ns = true
attained (some m) ns = any (λ k. k == m) ns

self_first : (n : ℕ) (b : Bool) → (n == n || b) ≡ true
self_first n b = ground arith

attained-max :
    (n : ℕ) (o : Option ℕ) (ns : List ℕ)
    → attained o ns ≡ true
    → attained (elim o [ none ↦ some n | some m ↦ some (max n m) ]) (n ∷ ns) ≡ true
attained-max n none ns h = ground arith
attained-max n (some m) ns h = elim (Bool-cases (leb n m)) [
  | inl e ↦
      let q : max n m ≡ m = omega (arith, leb→le n m e) in
      subst (λ x. (n == x || any (λ k. k == x) ns) ≡ true) (sym q)
        (or_right (n == m) (any (λ k. k == m) ns) h)
  | inr e ↦
      let q : max n m ≡ n = ground arith in
      subst (λ x. (n == x || any (λ k. k == x) ns) ≡ true) (sym q)
        (self_first n (any (λ k. k == n) ns))
]

max_of-attained : (ns : List ℕ) → attained (max_of ns) ns ≡ true
max_of-attained [] = refl
max_of-attained (n ∷ ns) = attained-max n (max_of ns) ns (max_of-attained ns)

add_score-found :
    (m : ℕ) (b : Bool) (o : Option ℕ) (rest : List ℕ) (found : Bool)
    → (any (λ k. k == m) rest ≡ true → found ≡ true)
    → any (λ k. k == m) (add_score b o rest) ≡ true
    → (is_score m o || found) ≡ true
add_score-found m true (some n) rest found f h = ground arith
add_score-found m true none rest found f h = f h
add_score-found m false o rest found f h = or_right (is_score m o) found (f h)

scores_found :
    (m : ℕ) (rs : List BatchRow)
    → any (λ k. k == m) (scores rs) ≡ true
    → any (scores_at m) rs ≡ true
scores_found m [] h = cc
scores_found m (r ∷ rs) h =
    add_score-found m (in_status "succeeded" r) r.summary_score (scores rs) (any (scores_at m) rs)
      (scores_found m rs) h

first-is_some :
    (p : BatchRow → Bool) (rs : List BatchRow)
    → any p rs ≡ true
    → is_some (elim (first p rs) [ none ↦ none | some r ↦ some r.job_id ]) ≡ true
first-is_some p [] h = cc
first-is_some p (r ∷ rs) h = elim (Bool-cases (p r)) [
  | inl e ↦ rw e refl
  | inr e ↦ rw e (first-is_some p rs (subst (λ b. (b || any p rs) ≡ true) e h))
]

best_named :
    (best : Option ℕ) (rs : List BatchRow)
    → attained best (scores rs) ≡ true
    → is_some (elim (best_row best rs) [ none ↦ none | some r ↦ some r.job_id ]) ≡ is_some best
best_named none rs h = refl
best_named (some m) rs h = first-is_some (scores_at m) rs (scores_found m rs h)

-- No succeeded row of a batch scores better than the best score of its summary, and the summary names
-- a job exactly when it has a best score.
pub batch_summary-best :
    (b : Batch)
    → All (λ r. is_no_better (batch_summary b).best_score r ≡ true) b.rows
      × (is_some (batch_summary b).best_job_id ≡ is_some (batch_summary b).best_score)
unfolding batch_summary
batch_summary-best b = (
  scores_upper (max_of (scores b.rows)) b.rows (max_of-upper (scores b.rows)),
  best_named (max_of (scores b.rows)) b.rows (max_of-attained (scores b.rows)),
)
