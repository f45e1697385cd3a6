-- ===== src/Tunnel/RateLimiter/Cleanup.antt =====
-- internal/server/tunnel/rate_limiter.go: `Cleanup` drops entries that no decision depends on.
use tunl.Base.{
  ℕ, ◌+◌, ◌≤◌, ◌<◌, ◌≡◌, ◌≢◌, ◌⊎◌, refl, sym, ap, ◌∙◌, Bool, true, false, Option, none, some, List,
  [], ◌∷◌, ltb, leb, if◌then◌else◌, Text, text_beq, text_eq, text_beq_iff, text_beq_refl, arith,
  bit, All, Bool-cases, Option-cases, inl, inr,
}
use mathlib.Core.Path.{ap₂}
use tunl.Base.Map.{lookup, insert, Distinct, lookup-insert}
use tunl.Tunnel.RateLimiter.{RateLimitEntry, RateLimiter, check_and_increment, sweep, cleanup}
use tunl.Tunnel.RateLimiter.Window.{Call, accepted, check_other}

-- The one table has what the other has, but for entries that ended before `t`.
record Agrees (t : ℕ) (a b : RateLimiter) : Type 0 where
  limit : a.rate_limit ≡ b.rate_limit
  window : a.rate_limit_window ≡ b.rate_limit_window
  entries :
      (ip : Text)
      → (lookup ip a.rate_limits ≡ lookup ip b.rate_limits)
        ⊎ ((e : RateLimitEntry) × (lookup ip a.rate_limits ≡ none)
            × (lookup ip b.rate_limits ≡ some e)
            × (e.window_end < t))

sweep_absent :
    (now : ℕ) (ip : Text) (m : List (Text × RateLimitEntry))
    → lookup ip m ≡ none
    → lookup ip (sweep now m).0 ≡ none
unfolding sweep lookup
sweep_absent now ip [] h = refl
sweep_absent now ip ((j, e) ∷ m) h = ground (arith, sweep_absent now ip m)

lookup-sweep :
    (now : ℕ) (ip : Text) (m : List (Text × RateLimitEntry))
    → Distinct m
    → (lookup ip (sweep now m).0 ≡ lookup ip m)
      ⊎ ((e : RateLimitEntry) × (lookup ip (sweep now m).0 ≡ none)
          × (lookup ip m ≡ some e)
          × (e.window_end < now))
unfolding sweep lookup
lookup-sweep now ip [] d = inl refl
lookup-sweep now ip ((j, e) ∷ m) d = elim (Bool-cases (text_beq j ip)) [
  | inl same ↦
      let gone : lookup ip (sweep now m).0 ≡ none =
        rw (← (text_beq_iff j ip).0 same) (sweep_absent now j m d.0) in
      elim (Bool-cases (ltb e.window_end now)) [
        | inl old ↦ inr (e, ground (arith, gone), ground arith, ground arith)
        | inr new ↦ inl (ground arith)
      ]
  | inr other ↦ elim (lookup-sweep now ip m d.1) [
    | inl h ↦ inl (ground arith)
    | inr (x, a, b, old) ↦ inr (x, ground arith, ground arith, old)
  ]
]

-- What a call makes of the entry of its address.
abbrev next : ℕ → ℕ → ℕ → Option RateLimitEntry → Option RateLimitEntry × Bool
next limit window now none = (some (record { count = 1; window_end = now + window }), true)
next limit window now (some e) =
    if ltb e.window_end now
    then (some (record { count = 1; window_end = now + window }), true)
    else if leb limit e.count
    then (some e, false)
    else (some (record e { count = e.count + 1 }), true)

record Checked (rl : RateLimiter) (who : Text) (now : ℕ) (r : RateLimiter × Bool) : Type 0 where
  limit : r.0.rate_limit ≡ rl.rate_limit
  window : r.0.rate_limit_window ≡ rl.rate_limit_window
  result : r.1 ≡ (next rl.rate_limit rl.rate_limit_window now (lookup who rl.rate_limits)).1
  own :
      lookup who r.0.rate_limits
      ≡ (next rl.rate_limit rl.rate_limit_window now (lookup who rl.rate_limits)).0
  others :
      (ip : Text) → text_beq who ip ≡ false → lookup ip r.0.rate_limits ≡ lookup ip rl.rate_limits

check-Checked :
    (rl : RateLimiter) (who : Text) (now : ℕ)
    → who ≢ []
    → Checked rl who now (check_and_increment rl who now)
unfolding check_and_increment
check-Checked rl who now ne = record {
  limit = ground arith;
  window = ground arith;
  result = ground (arith, text_beq_iff who []);
  own = own_entry;
  others = λ ip h. (check_other rl who ip now h).0;
}
  where
    written : (e : RateLimitEntry) → lookup who (insert who e rl.rate_limits) ≡ some e
    written e = rw (lookup-insert who who e rl.rate_limits, text_beq_refl who) refl

    own_entry :
        lookup who (check_and_increment rl who now).0.rate_limits
        ≡ (next rl.rate_limit rl.rate_limit_window now (lookup who rl.rate_limits)).0
    own_entry = elim (Option-cases (lookup who rl.rate_limits)) [
      | inl e ↦ ground (
        arith,
        text_beq_iff who [],
        written (record { count = 1; window_end = now + rl.rate_limit_window }),
      )
      | inr (entry, e) ↦ ground (
        arith,
        text_beq_iff who [],
        written (record { count = 1; window_end = now + rl.rate_limit_window }),
        written (record entry { count = entry.count + 1 }),
      )
    ]

check_empty : (rl : RateLimiter) (now : ℕ) → check_and_increment rl [] now ≡ (rl, true)
unfolding check_and_increment text_beq
check_empty rl now = refl

-- The two tables give the same answer, and still agree.
Agrees-check :
    (t now : ℕ) (who : Text) (a b : RateLimiter)
    → Agrees t a b
    → t ≤ now
    → Agrees t (check_and_increment a who now).0 (check_and_increment b who now).0
      × ((check_and_increment a who now).1 ≡ (check_and_increment b who now).1)
Agrees-check t now [] a b g h = rw (check_empty a now, check_empty b now) (g, refl)
Agrees-check t now (c ∷ cs) a b g h =
    let who : Text = c ∷ cs in
    let ca = check-Checked a who now (λ e. cc) in
    let cb = check-Checked b who now (λ e. cc) in
    let same : next a.rate_limit a.rate_limit_window now (lookup who a.rate_limits)
        ≡ next b.rate_limit b.rate_limit_window now (lookup who b.rate_limits) =
      elim (g.entries who) [
        | inl e ↦ rw (e, g.limit, g.window) refl
        | inr (e, none_a, some_b, old) ↦ rw (none_a, some_b, g.window) (ground arith)
      ] in
    (
      record {
        limit = ca.limit ∙ g.limit ∙ sym cb.limit;
        window = ca.window ∙ g.window ∙ sym cb.window;
        entries = λ ip. elim (Bool-cases (text_beq who ip)) [
          | inl hit ↦
              inl (rw (← (text_beq_iff who ip).0 hit) (ca.own ∙ ap (λ p. p.0) same ∙ sym cb.own))
          | inr miss ↦ rw (ca.others ip miss, cb.others ip miss) (g.entries ip)
        ];
      },
      ca.result ∙ ap (λ p. p.1) same ∙ sym cb.result,
    )

Agrees-accepted :
    (cs : List Call) (t : ℕ) (ip : Text) (a b : RateLimiter)
    → Agrees t a b
    → All (λ c. t ≤ c.1) cs
    → accepted ip a cs ≡ accepted ip b cs
unfolding accepted
Agrees-accepted [] t ip a b g h = refl
Agrees-accepted ((who, now) ∷ cs) t ip a b g h =
    let (g', r) = Agrees-check t now who a b g h.0 in
    ap₂ ◌+◌ (ap (λ x. if text_beq who ip then bit x else 0) r) (Agrees-accepted cs t ip _ _ g' h.1)

-- Dropping the expired entries changes no decision: every address gets the same calls through after
-- a `Cleanup` as it would have without one.
pub accepted-cleanup :
    (rl : RateLimiter) (now : ℕ) (ip : Text) (cs : List Call)
    → Distinct rl.rate_limits
    → All (λ c. now ≤ c.1) cs
    → accepted ip (cleanup rl now).0 cs ≡ accepted ip rl cs
unfolding cleanup
accepted-cleanup rl now ip cs d h =
    Agrees-accepted cs now ip _ rl
      (record { limit = refl; window = refl; entries = λ ip. lookup-sweep now ip rl.rate_limits d })
      h
