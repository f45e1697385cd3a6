-- ===== src/Tunnel/RateLimiter.antt =====
-- internal/server/tunnel/rate_limiter.go: registration attempts per address in a time window.
-- The time of a call (`time.Now()`) is an argument.
pub mod Window
pub mod Cleanup
use tunl.Base.{
  ℕ, suc, ◌+◌, ◌≡◌, refl, Bool, true, false, Option, none, some, List, [], ◌∷◌, ltb, leb,
  if◌then◌else◌, Text, text_beq, text_eq,
}
use tunl.Base.Map.{lookup, insert}

pub record RateLimitEntry : Type 0 where
  pub count : ℕ
  pub window_end : ℕ

pub record RateLimiter : Type 0 where
  pub rate_limits : List (Text × RateLimitEntry)
  pub rate_limit : ℕ
  pub rate_limit_window : ℕ

unfoldable pub new_rate_limiter : ℕ → ℕ → RateLimiter
new_rate_limiter limit window = record {
  rate_limits = [];
  rate_limit = limit;
  rate_limit_window = window;
}

put_entry : RateLimiter → Text → RateLimitEntry → RateLimiter
put_entry rl ip e = record rl { rate_limits = insert ip e rl.rate_limits }

open_window : RateLimiter → Text → ℕ → RateLimiter × Bool
unfolding put_entry
open_window rl ip now =
    (put_entry rl ip (record { count = 1; window_end = now + rl.rate_limit_window }), true)

unfoldable pub check_and_increment : RateLimiter → Text → ℕ → RateLimiter × Bool
unfolding open_window put_entry
check_and_increment rl ip now =
    if text_beq ip [] then (rl, true) else elim (lookup ip rl.rate_limits) [
      | none ↦ open_window rl ip now
      | some entry ↦
          if ltb entry.window_end now
          then open_window rl ip now
          else if leb rl.rate_limit entry.count
          then (rl, false)
          else (put_entry rl ip (record entry { count = entry.count + 1 }), true)
    ]

-- The entries that have not expired, and how many had.
unfoldable pub sweep : ℕ → List (Text × RateLimitEntry) → List (Text × RateLimitEntry) × ℕ
sweep now [] = ([], 0)
sweep now ((ip, entry) ∷ m) =
    let (kept, removed) = sweep now m in
    if ltb entry.window_end now then (kept, removed + 1) else ((ip, entry) ∷ kept, removed)

unfoldable pub cleanup : RateLimiter → ℕ → RateLimiter × ℕ
unfolding sweep
cleanup rl now =
    let (kept, removed) = sweep now rl.rate_limits in (record rl { rate_limits = kept }, removed)
