-- ===== src/Tunnel/RateLimiter/Window.antt =====
-- internal/server/tunnel/rate_limiter.go: how many attempts a window lets through.
use Prim.Native.Nat.{min}
use tunl.Base.{
  ℕ, suc, ◌+◌, ◌-◌, ◌≤◌, ◌<◌, ◌≡◌, ◌≢◌, refl, Bool, true, false, some, List, [], ◌∷◌, ltb,
  if◌then◌else◌, Text, text_beq, text_eq, text_beq_iff, text_beq_refl, arith, bit, All, Bool-cases,
  Option-cases, ◌∙◌, ltb→lt, inl, inr,
}
use tunl.Base.Map.{lookup, lookup-insert}
use tunl.Tunnel.RateLimiter.{RateLimitEntry, RateLimiter, put_entry, check_and_increment}

-- A call is an address and the time at which it comes in.
abbrev pub Call : Type 0
Call = Text × ℕ

-- How many calls for `ip` are let through.
unfoldable pub accepted : Text → RateLimiter → List Call → ℕ
accepted ip rl [] = 0
accepted ip rl ((who, now) ∷ cs) =
    let (rl', let_in) = check_and_increment rl who now in
    (if text_beq who ip then bit let_in else 0) + accepted ip rl' cs

unfoldable pub calls_for : Text → List Call → ℕ
calls_for ip [] = 0
calls_for ip ((who, now) ∷ cs) = bit (text_beq who ip) + calls_for ip cs

lookup-put_entry :
    (rl : RateLimiter) (who ip : Text) (entry : RateLimitEntry)
    → lookup ip (put_entry rl who entry).rate_limits
      ≡ (if text_beq who ip then some entry else lookup ip rl.rate_limits)
unfolding put_entry
lookup-put_entry rl who ip entry = lookup-insert who ip entry rl.rate_limits

-- A call for another address.
pub check_other :
    (rl : RateLimiter) (who ip : Text) (now : ℕ)
    → text_beq who ip ≡ false
    → (lookup ip (check_and_increment rl who now).0.rate_limits ≡ lookup ip rl.rate_limits)
      × ((check_and_increment rl who now).0.rate_limit ≡ rl.rate_limit)
unfolding check_and_increment
check_other rl who ip now h = elim (Option-cases (lookup who rl.rate_limits)) [
  | inl e ↦ ground (
    arith,
    lookup-insert who ip (record { count = 1; window_end = now + rl.rate_limit_window })
        rl.rate_limits,
  )
  | inr (entry, e) ↦ ground (
    arith,
    lookup-insert who ip (record { count = 1; window_end = now + rl.rate_limit_window })
        rl.rate_limits,
    lookup-insert who ip (record entry { count = entry.count + 1 }) rl.rate_limits,
  )
]

-- A call in the window that is open.
check_full :
    (rl : RateLimiter) (ip : Text) (now : ℕ) (entry : RateLimitEntry)
    → ip ≢ []
    → lookup ip rl.rate_limits ≡ some entry
    → now ≤ entry.window_end
    → rl.rate_limit ≤ entry.count
    → check_and_increment rl ip now ≡ (rl, false)
unfolding check_and_increment
check_full rl ip now entry ne e h full = ground (arith, text_beq_iff ip [])

check_room :
    (rl : RateLimiter) (ip : Text) (now : ℕ) (entry : RateLimitEntry)
    → ip ≢ []
    → lookup ip rl.rate_limits ≡ some entry
    → now ≤ entry.window_end
    → entry.count < rl.rate_limit
    → check_and_increment rl ip now
      ≡ (put_entry rl ip (record entry { count = entry.count + 1 }), true)
unfolding check_and_increment
check_room rl ip now entry ne e h room = ground (arith, text_beq_iff ip [])

check_fresh :
    (rl : RateLimiter) (ip : Text) (now : ℕ)
    → ip ≢ []
    → ((entry : RateLimitEntry) → lookup ip rl.rate_limits ≡ some entry → entry.window_end < now)
    → check_and_increment rl ip now
      ≡ (put_entry rl ip (record { count = 1; window_end = now + rl.rate_limit_window }), true)
unfolding check_and_increment
check_fresh rl ip now ne h = elim (Option-cases (lookup ip rl.rate_limits)) [
  | inl e ↦ ground (arith, text_beq_iff ip [])
  | inr (entry, e) ↦ ground (arith, text_beq_iff ip [], h entry e)
]

-- The entry that a call of `ip` writes.
lookup-put_entry_self :
    (rl : RateLimiter) (ip : Text) (entry : RateLimitEntry)
    → lookup ip (put_entry rl ip entry).rate_limits ≡ some entry
lookup-put_entry_self rl ip entry = rw (lookup-put_entry rl ip ip entry, text_beq_refl ip) refl

rate_limit-put_entry :
    (rl : RateLimiter) (ip : Text) (entry : RateLimitEntry)
    → (put_entry rl ip entry).rate_limit ≡ rl.rate_limit
unfolding put_entry
rate_limit-put_entry rl ip entry = refl

accepted_room :
    (rl rl' : RateLimiter) (who ip : Text) (now : ℕ) (b : Bool) (cs : List Call)
    → check_and_increment rl who now ≡ (rl', b)
    → who ≡ ip
    → (accepted ip rl ((who, now) ∷ cs) ≡ bit b + accepted ip rl' cs)
      × (calls_for ip ((who, now) ∷ cs) ≡ suc (calls_for ip cs))
unfolding accepted calls_for
accepted_room rl rl' who ip now b cs e q = rw (e, (text_beq_iff who ip).1 q) (refl, omega arith)

accepted_other :
    (rl : RateLimiter) (who ip : Text) (now : ℕ) (cs : List Call)
    → text_beq who ip ≡ false
    → (accepted ip rl ((who, now) ∷ cs) ≡ accepted ip (check_and_increment rl who now).0 cs)
      × (calls_for ip ((who, now) ∷ cs) ≡ calls_for ip cs)
unfolding accepted calls_for
accepted_other rl who ip now cs h = rw h (omega arith, omega arith)

accepted_within :
    (cs : List Call) (rl : RateLimiter) (ip : Text) (entry : RateLimitEntry)
    → ip ≢ []
    → lookup ip rl.rate_limits ≡ some entry
    → All (λ c. c.1 ≤ entry.window_end) cs
    → accepted ip rl cs ≡ min (rl.rate_limit - entry.count) (calls_for ip cs)
accepted_within [] rl ip entry ne e h = unfold accepted calls_for in omega arith
accepted_within ((who, now) ∷ cs) rl ip entry ne e h = elim (Bool-cases (text_beq who ip)) [
  | inl same ↦
      let q = (text_beq_iff who ip).0 same in
      elim (Bool-cases (ltb entry.count rl.rate_limit)) [
        | inl room ↦
            let entry' = record entry { count = entry.count + 1 } in
            let rl' = put_entry rl ip entry' in
            let c = check_room rl ip now entry ne e h.0 (ltb→lt _ _ room) in
            let ih = accepted_within cs rl' ip entry' ne (lookup-put_entry_self rl ip entry') h.1 in
            let a = accepted_room rl rl' who ip now true cs (rw q c) q in
            omega (arith, a.0, a.1, ih, rate_limit-put_entry rl ip entry', ltb→lt _ _ room)
        | inr full ↦
            let le : rl.rate_limit ≤ entry.count = ground arith in
            let c = check_full rl ip now entry ne e h.0 le in
            let a = accepted_room rl rl who ip now false cs (rw q c) q in
            omega (arith, a.0, a.1, le, accepted_within cs rl ip entry ne e h.1)
      ]
  | inr other ↦
      let (keep, limit) = check_other rl who ip now other in
      let rl' = (check_and_increment rl who now).0 in
      let a = accepted_other rl who ip now cs other in
      omega (arith, a.0, a.1, limit, accepted_within cs rl' ip entry ne (keep ∙ e) h.1)
]

-- When a call of an address comes in and none of its windows lasts, a new window begins. Of this
-- call and of those that come in before the window ends, for whatever addresses, the first
-- `rate_limit` calls of the address are let through, or all if there are fewer, and no other.
pub accepted_in_window :
    (rl : RateLimiter) (ip : Text) (now : ℕ) (cs : List Call)
    → ip ≢ []
    → 1 ≤ rl.rate_limit
    → ((entry : RateLimitEntry) → lookup ip rl.rate_limits ≡ some entry → entry.window_end < now)
    → All (λ c. c.1 ≤ now + rl.rate_limit_window) cs
    → accepted ip rl ((ip, now) ∷ cs) ≡ min rl.rate_limit (calls_for ip ((ip, now) ∷ cs))
accepted_in_window rl ip now cs ne limit fresh h =
    let entry : RateLimitEntry = record { count = 1; window_end = now + rl.rate_limit_window } in
    let rl' = put_entry rl ip entry in
    let a = accepted_room rl rl' ip ip now true cs (check_fresh rl ip now ne fresh) refl in
    let ih = accepted_within cs rl' ip entry ne (lookup-put_entry_self rl ip entry) h in
    omega (arith, a.0, a.1, ih, rate_limit-put_entry rl ip entry)
