-- ===== src/RateLimit/Window.antt =====
-- The bound that the limiter of app/rate_limit.py keeps over every window.
use resu_align_lite.Prelude.{
  ℕ, suc, ◌+◌, ◌≤◌, String, ◌≡◌, refl, sym, subst, ◌∙◌, inl, inr, Bool, true, false, ◌&&◌, List, [],
  ◌∷◌, ◌++◌, arith, leb, if◌then◌else◌, ltb→lt, lt→ltb, Bool-cases, length, length-append,
}
use resu_align_lite.Prelude.Table.{same, same_eq, same_refl, filter, count, length-filter-le}
use resu_align_lite.RateLimit.{RateLimiter, is_recent, set_hits, allow, reset}

count-filter :
    (q p : ℕ → Bool) (xs : List ℕ)
    → ((x : ℕ) → q x ≡ true → p x ≡ true)
    → count q (filter p xs) ≡ count q xs
count-filter q p [] h = refl
count-filter q p (x ∷ xs) h = elim (Bool-cases (p x)) [
  | inl e ↦ rw (e, count-filter q p xs h) refl
  | inr e ↦ elim (Bool-cases (q x)) [
    | inl k ↦ ground (arith, h x k)
    | inr k ↦ rw (e, k) (count-filter q p xs h)
  ]
]

count-append :
    (q : ℕ → Bool) (xs : List ℕ) (x : ℕ)
    → count q (xs ++ x ∷ []) ≡ (if q x then suc (count q xs) else count q xs)
count-append q [] x = refl
count-append q (y ∷ xs) x = elim (Bool-cases (q y)) [
  | inl e ↦
      rw (e, count-append q xs x)
        (elim (Bool-cases (q x)) [ inl k ↦ rw k refl | inr k ↦ rw k refl ])
  | inr e ↦ rw (e, count-append q xs x) refl
]

count-length : (q : ℕ → Bool) (xs : List ℕ) → count q xs ≤ length xs
count-length q [] = omega arith
count-length q (x ∷ xs) = ground (arith, count-length q xs)

-- The requests the limiter let through, the latest first.
abbrev pub Log : Type 0
Log = List (ℕ × String)

abbrev pub log_step : ℕ → String → Bool → Log → Log
log_step now key true log = (now, key) ∷ log
log_step now key false log = log

-- The limiter and its log after requests at these times.
unfoldable pub serve : List (ℕ × String) → RateLimiter × Log → RateLimiter × Log
serve [] s = s
serve (c ∷ cs) s = let next = allow c.0 c.1 s.0 in serve cs (next.0, log_step c.0 c.1 next.1 s.1)

-- The clock never goes back.
abbrev pub IsRising : ℕ → List (ℕ × String) → Type 0
IsRising last [] = Unit
IsRising last (c ∷ cs) = (last ≤ c.0) × IsRising c.0 cs

-- The time of the last request.
abbrev pub last_time : ℕ → List (ℕ × String) → ℕ
last_time last [] = last
last_time last (c ∷ cs) = last_time c.0 cs

-- Requests of a key let through less than a window before a time.
abbrev pub admitted_since : ℕ → String → ℕ → Log → ℕ
admitted_since window key now log = count (λ c. same c.1 key && is_recent window now c.0) log

abbrev Agrees : RateLimiter → Log → ℕ → Type 0
Agrees l log last =
    ((key : String) → length (l.hits key) ≤ l.max_requests)
    × ((key : String) (t : ℕ)
        → last ≤ t
        → admitted_since l.window_seconds key t log
          ≡ count (is_recent l.window_seconds t) (l.hits key))

-- A time not yet over for a later reading was not over for an earlier one.
recent_earlier : (w now t x : ℕ) → now ≤ t → is_recent w t x ≡ true → is_recent w now x ≡ true
recent_earlier w now t x le h = let k = ltb→lt t (x + w) h in lt→ltb now (x + w) (omega arith)

kept_count :
    (w now t : ℕ) (ts : List ℕ)
    → now ≤ t
    → count (is_recent w t) (filter (is_recent w now) ts) ≡ count (is_recent w t) ts
kept_count w now t ts le =
    count-filter (is_recent w t) (is_recent w now) ts (λ x h. recent_earlier w now t x le h)

length-set_hits :
    (n : ℕ) (key : String) (ts : List ℕ) (hits : String → List ℕ)
    → length ts ≤ n
    → ((k : String) → length (hits k) ≤ n)
    → (k : String) → length (set_hits key ts hits k) ≤ n
length-set_hits n key ts hits h all k = elim (Bool-cases (same key k)) [
  | inl m ↦ rw m h
  | inr m ↦ rw m (all k)
]

module _ (now last : ℕ) (key : String) (l : RateLimiter) (log : Log) (le : last ≤ now)
    (agrees : Agrees l log last) where
  abbrev kept : List ℕ
  kept = filter (is_recent l.window_seconds now) (l.hits key)

  length-kept : length kept ≤ l.max_requests
  length-kept =
      omega (arith, length-filter-le (is_recent l.window_seconds now) (l.hits key), agrees.0 key)

  refused_count :
      (k : String) (t : ℕ)
      → now ≤ t
      → admitted_since l.window_seconds k t log
        ≡ count (is_recent l.window_seconds t) (set_hits key kept l.hits k)
  refused_count k t h = elim (Bool-cases (same key k)) [
    | inl m ↦
        rw (m, kept_count l.window_seconds now t (l.hits key) h, same_eq key k m)
          (agrees.1 key t (omega arith))
    | inr m ↦ rw m (agrees.1 k t (omega arith))
  ]

  admitted_own :
      (t : ℕ)
      → now ≤ t
      → admitted_since l.window_seconds key t ((now, key) ∷ log)
        ≡ count (is_recent l.window_seconds t) (set_hits key (kept ++ now ∷ []) l.hits key)
  admitted_own t h =
      rw
        (
          same_refl key,
          count-append (is_recent l.window_seconds t) kept now,
          kept_count l.window_seconds now t (l.hits key) h,
          agrees.1 key t (omega arith),
        )
        refl

  admitted_count :
      (k : String) (t : ℕ)
      → now ≤ t
      → admitted_since l.window_seconds k t ((now, key) ∷ log)
        ≡ count (is_recent l.window_seconds t) (set_hits key (kept ++ now ∷ []) l.hits k)
  admitted_count k t h = elim (Bool-cases (same key k)) [
    | inl m ↦
        subst
          (λ j.
            admitted_since l.window_seconds j t ((now, key) ∷ log)
            ≡ count (is_recent l.window_seconds t) (set_hits key (kept ++ now ∷ []) l.hits j))
          (sym (same_eq key k m)) (admitted_own t h)
    | inr m ↦ rw m (agrees.1 k t (omega arith))
  ]

  step-Agrees : Agrees (allow now key l).0 (log_step now key (allow now key l).1 log) now
  unfolding allow
  step-Agrees = elim (Bool-cases (leb l.max_requests (length kept))) [
    | inl e ↦
        rw e (length-set_hits l.max_requests key kept l.hits length-kept agrees.0, refused_count)
    | inr e ↦ rw e (
      length-set_hits l.max_requests key (kept ++ now ∷ []) l.hits
          (rw (length-append kept (now ∷ [])) (ground arith)) agrees.0,
      admitted_count,
    )
  ]

-- The bounds of a limiter never change.
allow-bounds :
    (now : ℕ) (key : String) (l : RateLimiter)
    → ((allow now key l).0.window_seconds ≡ l.window_seconds)
      × ((allow now key l).0.max_requests ≡ l.max_requests)
unfolding allow
allow-bounds now key l =
    elim (Bool-cases
      (leb l.max_requests (length (filter (is_recent l.window_seconds now) (l.hits key))))) [
        | inl e ↦ rw e (refl, refl)
        | inr e ↦ rw e (refl, refl)
      ]

serve-bounds :
    (cs : List (ℕ × String)) (s : RateLimiter × Log)
    → ((serve cs s).0.window_seconds ≡ s.0.window_seconds)
      × ((serve cs s).0.max_requests ≡ s.0.max_requests)
unfolding serve
serve-bounds [] s = (refl, refl)
serve-bounds (c ∷ cs) s =
    let one = allow-bounds c.0 c.1 s.0 in
    let next =
      serve-bounds cs ((allow c.0 c.1 s.0).0, log_step c.0 c.1 (allow c.0 c.1 s.0).1 s.1) in
    (next.0 ∙ one.0, next.1 ∙ one.1)

serve-Agrees :
    (cs : List (ℕ × String)) (last : ℕ) (s : RateLimiter × Log)
    → IsRising last cs
    → Agrees s.0 s.1 last
    → Agrees (serve cs s).0 (serve cs s).1 (last_time last cs)
unfolding serve
serve-Agrees [] last s rising agrees = agrees
serve-Agrees (c ∷ cs) last s rising agrees =
    serve-Agrees cs c.0 ((allow c.0 c.1 s.0).0, log_step c.0 c.1 (allow c.0 c.1 s.0).1 s.1) rising.1
      (step-Agrees c.0 last c.1 s.0 s.1 rising.0 agrees)

-- Over requests whose clock never goes back, from a limiter without hits, at every time from the
-- last request on, at most `max_requests` requests of a key were let through less than a window
-- before.
pub serve_bound :
    (cs : List (ℕ × String)) (l : RateLimiter) (key : String) (t : ℕ)
    → IsRising 0 cs
    → last_time 0 cs ≤ t
    → admitted_since l.window_seconds key t (serve cs (reset l, [])).1 ≤ l.max_requests
unfolding reset
serve_bound cs l key t rising h =
    let s : RateLimiter × Log = (reset l, []) in
    let bounds = serve-bounds cs s in
    let end : Agrees (serve cs s).0 (serve cs s).1 (last_time 0 cs) =
      serve-Agrees cs 0 s rising ((λ k. omega arith), (λ k u le. refl)) in
    subst (λ w. admitted_since w key t (serve cs s).1 ≤ l.max_requests) bounds.0
      (subst (λ m. admitted_since (serve cs s).0.window_seconds key t (serve cs s).1 ≤ m) bounds.1
        (rw (end.1 key t h) (
          omega (
            arith,
            end.0 key,
            count-length (is_recent (serve cs s).0.window_seconds t) ((serve cs s).0.hits key),
          ))))
