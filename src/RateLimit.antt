-- ===== src/RateLimit.antt =====
-- app/rate_limit.py: the sliding-window limiter of requests by client key. Clock readings are whole
-- ticks, and `now - timestamp < window` is written without the difference.
use resu_align_lite.Prelude.{
  ℕ, ◌+◌, String, Bool, true, false, List, [], ◌∷◌, ◌++◌, ltb, leb, if◌then◌else◌, length,
}
use resu_align_lite.Prelude.Table.{same, filter}
pub mod Window

pub record RateLimiter : Type 0 where
  pub max_requests : ℕ
  pub window_seconds : ℕ
  -- the admitted requests of each key, an empty list for a missing key
  pub hits : String → List ℕ

abbrev pub is_recent : ℕ → ℕ → ℕ → Bool
is_recent window now timestamp = ltb now (timestamp + window)

-- `self._hits[key] = hits`
abbrev pub set_hits : String → List ℕ → (String → List ℕ) → String → List ℕ
set_hits key ts hits k = if same key k then ts else hits k

-- `allow`, one step under the lock.
unfoldable pub allow : ℕ → String → RateLimiter → RateLimiter × Bool
allow now key l =
    let kept = filter (is_recent l.window_seconds now) (l.hits key) in
    if leb l.max_requests (length kept)
    then (record l { hits = set_hits key kept l.hits }, false)
    else (record l { hits = set_hits key (kept ++ now ∷ []) l.hits }, true)

-- `reset`
unfoldable pub reset : RateLimiter → RateLimiter
reset l = record l { hits = λ key. [] }
