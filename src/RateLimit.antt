-- ===== src/RateLimit.antt =====
-- server/internal/auth/ratelimit.go: the fixed-window limiter. A time is a number, and what the clock shows
-- is an argument.
pub mod Laws
mod Examples
use bumshi.Common.{
  ℕ, suc, ◌+◌, Bool, true, false, Option, none, some, List, [], ◌∷◌, Bytes, ltb, leb, if◌then◌else◌,
}
use bumshi.Maps.{Map, lookup, insert, remove}

pub record HitWindow : Type 0 where
  pub count : ℕ
  pub reset : ℕ

pub record RateLimiter : Type 0 where
  pub limit : ℕ
  pub window : ℕ
  pub hits : Map HitWindow

-- `NewRateLimiter`
abbrev pub new_rate_limiter : ℕ → ℕ → RateLimiter
new_rate_limiter limit window = record { limit = limit; window = window; hits = [] }

-- A window that begins with this attempt.
open_window : RateLimiter → ℕ → Bytes → RateLimiter × Bool
unfolding insert
open_window r now key =
    (record r { hits = insert r.hits key (record { count = 1; reset = now + r.window }) }, true)

-- One more attempt in a window; the counter is shared through a pointer in the source.
count_hit : RateLimiter → Bytes → HitWindow → RateLimiter × Bool
unfolding insert
count_hit r key w = (
  record r { hits = insert r.hits key (record { count = suc w.count; reset = w.reset }) },
  leb (suc w.count) r.limit,
)

-- `Allow`
unfoldable pub allow : RateLimiter → ℕ → Bytes → RateLimiter × Bool
unfolding lookup open_window count_hit
allow r now key = elim (lookup r.hits key) [
  | none ↦ open_window r now key
  | some w ↦ if ltb w.reset now then open_window r now key else count_hit r key w
]

-- `Reset`
unfoldable pub reset_key : RateLimiter → Bytes → RateLimiter
unfolding remove
reset_key r key = record r { hits = remove r.hits key }
