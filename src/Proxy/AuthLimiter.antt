-- ===== src/Proxy/AuthLimiter.antt =====
-- internal/server/proxy/auth_handler.go: failed logins by address. Times are in nanoseconds, and the
-- time of a call (`time.Now()`) is an argument. The zero time of `lockedUntil` is `none`.
pub mod Lockout
use tunl.Base.{
  ℕ, ◌+◌, ◌*◌, ◌≡◌, Bool, true, false, not, ◌&&◌, ◌||◌, Option, none, some, List, [], ◌∷◌, ltb, leb,
  if◌then◌else◌, Text, text_beq, text_eq,
}
use tunl.Base.Map.{lookup, insert, erase, keep_if}

abbrev pub second : ℕ
second = 1_000_000_000

abbrev pub auth_rate_limit_window : ℕ
auth_rate_limit_window = 60 * second

abbrev pub auth_rate_limit_max : ℕ
auth_rate_limit_max = 10

abbrev pub auth_rate_limit_lockout : ℕ
auth_rate_limit_lockout = 300 * second

abbrev pub auth_rate_limit_lockout_threshold : ℕ
auth_rate_limit_lockout_threshold = 20

pub record Entry : Type 0 where
  pub failures : ℕ
  pub window_start : ℕ
  pub locked_until : Option ℕ

abbrev pub Limiter : Type 0
Limiter = List (Text × Entry)

-- `now.Sub(entry.windowStart) < authRateLimitWindow`
unfoldable pub in_window : ℕ → Entry → Bool
in_window now e = ltb now (e.window_start + auth_rate_limit_window)

unfoldable pub is_locked : ℕ → Entry → Bool
is_locked now e = elim e.locked_until [ none ↦ false | some t ↦ ltb now t ]

unfoldable pub is_rate_limited : ℕ → Text → Limiter → Bool
unfolding in_window is_locked
is_rate_limited now ip l = if text_beq ip [] then false else elim (lookup ip l) [
  | none ↦ false
  | some e ↦ is_locked now e || (in_window now e && leb auth_rate_limit_max e.failures)
]

unfoldable pub first_failure : ℕ → Entry
first_failure now = record { failures = 1; window_start = now; locked_until = none }

-- What another failure makes of an entry.
unfoldable pub count_failure : ℕ → Entry → Entry
unfolding in_window first_failure
count_failure now e =
    if not (in_window now e)
    then first_failure now
    else if leb auth_rate_limit_lockout_threshold (e.failures + 1)
    then record e { failures = e.failures + 1; locked_until = some (now + auth_rate_limit_lockout) }
    else record e { failures = e.failures + 1 }

unfoldable pub record_failure : ℕ → Text → Limiter → Limiter
unfolding count_failure first_failure
record_failure now ip l = if text_beq ip [] then l else elim (lookup ip l) [
  | none ↦ insert ip (first_failure now) l
  | some e ↦ insert ip (count_failure now e) l
]

unfoldable pub reset_failures : Text → Limiter → Limiter
reset_failures ip l = if text_beq ip [] then l else erase ip l

-- `windowExpired && lockoutExpired`
unfoldable pub is_stale : ℕ → Entry → Bool
unfolding in_window
is_stale now e = not (in_window now e) && elim e.locked_until [ none ↦ true | some t ↦ ltb t now ]

unfoldable pub cleanup : ℕ → Limiter → Limiter
unfolding is_stale
cleanup now l = keep_if (λ (x : Text × Entry). not (is_stale now x.1)) l
