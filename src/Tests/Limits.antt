-- ===== src/Tests/Limits.antt =====
-- Requests at the limiter of app/rate_limit.py and entries of cache.py, with the theorems at them.
use resu_align_lite.Prelude.{
  ℕ, ◌+◌, ◌≤◌, String, ◌≡◌, refl, true, false, none, some, List, [], ◌∷◌, arith, ltb, if◌then◌else◌,
  String_discrete,
}
use resu_align_lite.RateLimit.{RateLimiter, allow, reset}
use resu_align_lite.RateLimit.Window.{serve, admitted_since, serve_bound}
use resu_align_lite.Cache.{Entry, get, put}
use resu_align_lite.Cache.Roundtrip.{same_slot, get-put}

abbrev limiter : RateLimiter
limiter = record { max_requests = 2; window_seconds = 10; hits = λ key. [] }

abbrev requests : List (ℕ × String)
requests = (1, "a") ∷ (2, "a") ∷ (3, "b") ∷ (4, "a") ∷ (11, "a") ∷ []

-- The third request of "a" is refused, and the fourth comes when the first has left the window.
let_through :
    (serve requests (reset limiter, [])).1 ≡ (11, "a") ∷ (3, "b") ∷ (2, "a") ∷ (1, "a") ∷ []
unfolding serve allow reset String_discrete
let_through = refl

serve_bound_example : admitted_since 10 "a" 11 (serve requests (reset limiter, [])).1 ≤ 2
serve_bound_example =
    serve_bound requests limiter "a" 11
      (omega arith, (omega arith, (omega arith, (omega arith, (omega arith, tt))))) (omega arith)

-- A digest that tells texts apart.
abbrev digest : String → String
digest s = s

abbrev cached : List Entry
cached = put digest "t" "m" "v" "other" "{}" 100 1 false 1 []

get-put_example :
    get digest "t" "m" "v" "jd" 20 (put digest "t" "m" "v" "jd" "{\"ok\":1}" 100 5 true 6 cached)
    ≡ (if same_slot "t" "m" "v" (digest "jd") "t" "m" "v" (digest "jd")
        then (if ltb 20 (5 + 100) then some "{\"ok\":1}" else none)
        else get digest "t" "m" "v" "jd" 20 cached)
get-put_example =
    get-put digest "t" "m" "v" "jd" "{\"ok\":1}" 100 5 20 cached "t" "m" "v" "jd" true 6
      (omega arith)
