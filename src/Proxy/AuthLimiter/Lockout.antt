-- ===== src/Proxy/AuthLimiter/Lockout.antt =====
-- internal/server/proxy/auth_handler.go: the lockout, for login attempts that run side by side. An
-- attempt first asks `isRateLimited`; when it fails it calls `recordFailure`, and else
-- `resetFailures`. Between the two, others run.
use tunl.Base.{
  ap, subst, text_beq_iff, ℕ, suc, ◌+◌, ◌≤◌, ◌<◌, ◌≡◌, ◌⊎◌, inl, inr, refl, false, Option, none,
  some, [], arith, Text, text_beq, text_eq, Bool-cases, Option-cases, if◌then◌else◌,
}
use tunl.Base.Map.{
  lookup, Distinct, lookup-insert, lookup-erase, Distinct-insert, Distinct-erase, lookup-keep_if,
  lookup-keep_if-none, Distinct-keep_if,
}
use tunl.Proxy.AuthLimiter.{
  Entry, Limiter, is_rate_limited, record_failure, reset_failures, cleanup, count_failure,
  first_failure, in_window, auth_rate_limit_window, auth_rate_limit_lockout_threshold,
}

-- The limiter, the clock, and the attempts of each address that have begun and not ended.
pub record State : Type 0 where
  pub limiter : Limiter
  pub clock : ℕ
  pub in_flight : Text → ℕ

abbrev pub with_in_flight : Text → ℕ → State → State
with_in_flight ip n s = record s { in_flight = λ j. if text_beq ip j then n else s.in_flight j }

pub data Step (most : ℕ) (s : State) : State → Type 0 where
  wait : (t : ℕ) → s.clock ≤ t → Step most s (record s { clock = t })
  begin :
      (ip : Text)
      → is_rate_limited s.clock ip s.limiter ≡ false
      → suc (s.in_flight ip) ≤ most
      → Step most s (with_in_flight ip (suc (s.in_flight ip)) s)
  fail :
      (ip : Text) (n : ℕ)
      → s.in_flight ip ≡ suc n
      → Step most s
          (with_in_flight ip n (record s { limiter = record_failure s.clock ip s.limiter }))
  succeed :
      (ip : Text) (n : ℕ)
      → s.in_flight ip ≡ suc n
      → Step most s (with_in_flight ip n (record s { limiter = reset_failures ip s.limiter }))
  clean : Step most s (record s { limiter = cleanup s.clock s.limiter })

-- What runs reach when at most `most` attempts of one address are under way at a time.
pub data Reachable (most : ℕ) : State → Type 0 where
  start : (t : ℕ) → Reachable most (record { limiter = []; clock = t; in_flight = λ ip. 0 })
  next : (s s' : State) → Reachable most s → Step most s s' → Reachable most s'

-- An entry has no lock, and counts ten at most less those that are under way in an open window.
abbrev Bounded : ℕ → ℕ → ℕ → Entry → Type 0
Bounded most now k e =
    (e.locked_until ≡ none)
    × (e.failures ≤ 9 + most)
    × ((e.failures + k ≤ 9 + most) ⊎ (e.window_start + auth_rate_limit_window ≤ now))

record Invariant (most : ℕ) (s : State) : Type 0 where
  distinct : Distinct s.limiter
  unnamed : lookup [] s.limiter ≡ none
  few : (ip : Text) → s.in_flight ip ≤ most
  bounded :
      (ip : Text) (e : Entry)
      → lookup ip s.limiter ≡ some e
      → Bounded most s.clock (s.in_flight ip) e

-- A failure leaves an entry bounded, with one attempt fewer under way.
Bounded-count_failure :
    (most now n : ℕ) (e : Entry)
    → most ≤ 10
    → suc n ≤ most
    → Bounded most now (suc n) e
    → Bounded most now n (count_failure now e)
unfolding count_failure first_failure in_window
Bounded-count_failure most now n e m l b = ground arith

Distinct-record_failure :
    (now : ℕ) (ip : Text) (l : Limiter) → Distinct l → Distinct (record_failure now ip l)
unfolding record_failure
Distinct-record_failure now ip l d = elim (Bool-cases (text_beq ip [])) [
  | inl q ↦ ground arith
  | inr q ↦ elim (Option-cases (lookup ip l)) [
    | inl r ↦ simp (q, r) (Distinct-insert ip (first_failure now) l d)
    | inr (e, r) ↦ simp (q, r) (Distinct-insert ip (count_failure now e) l d)
  ]
]

abbrev failed : ℕ → Option Entry → Entry
failed now none = first_failure now
failed now (some e) = count_failure now e

lookup-record_failure :
    (now : ℕ) (ip j : Text) (l : Limiter)
    → text_beq ip [] ≡ false
    → lookup j (record_failure now ip l)
      ≡ (if text_beq ip j then some (failed now (lookup ip l)) else lookup j l)
unfolding record_failure
lookup-record_failure now ip j l q = elim (Option-cases (lookup ip l)) [
  | inl r ↦ simp (q, r) (lookup-insert ip j (first_failure now) l)
  | inr (e, r) ↦ simp (q, r) (lookup-insert ip j (count_failure now e) l)
]

Bounded-less : (most now k n : ℕ) (e : Entry) → n ≤ k → Bounded most now k e → Bounded most now n e
Bounded-less most now k n e l b = ground arith

unnamed_failed :
    (now : ℕ) (ip : Text) (l : Limiter)
    → lookup [] l ≡ none
    → lookup [] (record_failure now ip l) ≡ none
unnamed_failed now ip l u = elim (Bool-cases (text_beq ip [])) [
  | inl z ↦ unfold record_failure in ground arith
  | inr z ↦ ground (arith, lookup-record_failure now ip [] l z)
]

module _ (most : ℕ) (low : most ≤ 10) where
  failed-Bounded :
      (s : State) (ip : Text) (n : ℕ)
      → s.in_flight ip ≡ suc n
      → Invariant most s
      → Bounded most s.clock n (failed s.clock (lookup ip s.limiter))
  failed-Bounded s ip n e i = elim (Option-cases (lookup ip s.limiter)) [
    | inl r ↦ unfold first_failure in rw r (ground (arith, i.few ip))
    | inr (x, r) ↦
        let b : Bounded most s.clock (suc n) x =
          subst (λ k. Bounded most s.clock k x) e (i.bounded ip x r) in
        rw r (Bounded-count_failure most s.clock n x low (ground (arith, i.few ip)) b)
  ]

  fail-Bounded :
      (s : State) (ip : Text) (n : ℕ)
      → s.in_flight ip ≡ suc n
      → Invariant most s
      → (j : Text) (e : Entry) → lookup j (record_failure s.clock ip s.limiter) ≡ some e
      → Bounded most s.clock (if text_beq ip j then n else s.in_flight j) e
  fail-Bounded s ip n q i j e h = elim (Bool-cases (text_beq ip [])) [
    | inl z ↦
        let h' : lookup j s.limiter ≡ some e = unfold record_failure in ground arith in
        Bounded-less most s.clock (s.in_flight j) _ e
          (ground (arith, (text_beq_iff ip j).0, ap s.in_flight {x = ip} {y = j}))
          (i.bounded j e h')
    | inr z ↦ elim (Bool-cases (text_beq ip j)) [
      | inl t ↦
          let same : failed s.clock (lookup ip s.limiter) ≡ e =
            cc (h, t, lookup-record_failure s.clock ip j s.limiter z) in
          rw t (subst (Bounded most s.clock n) same (failed-Bounded s ip n q i))
      | inr t ↦ rw t (i.bounded j e (cc (h, t, lookup-record_failure s.clock ip j s.limiter z)))
    ]
  ]

  -- The guard lets through an address whose window is over or has few failures.
  few_failures :
      (s : State) (ip : Text)
      → is_rate_limited s.clock ip s.limiter ≡ false
      → Invariant most s
      → (e : Entry) → lookup ip s.limiter ≡ some e
      → (e.window_start + auth_rate_limit_window ≤ s.clock) ⊎ (e.failures < 10)
  unfolding is_rate_limited in_window
  few_failures s ip g i e h = elim (Bool-cases (text_beq ip [])) [
    | inl z ↦ absurd (cc (h, (text_beq_iff ip []).0 z, i.unnamed))
    | inr z ↦ ground arith
  ]

  begin-Bounded :
      (s : State) (ip : Text)
      → is_rate_limited s.clock ip s.limiter ≡ false
      → suc (s.in_flight ip) ≤ most
      → Invariant most s
      → (j : Text) (e : Entry) → lookup j s.limiter ≡ some e
      → Bounded most s.clock (if text_beq ip j then suc (s.in_flight ip) else s.in_flight j) e
  begin-Bounded s ip g l i j e h = elim (Bool-cases (text_beq ip j)) [
    | inl t ↦
        let same : ip ≡ j = (text_beq_iff ip j).0 t in
        let b : Bounded most s.clock (s.in_flight ip) e = i.bounded ip e (cc (h, same)) in
        let open_or_few : (e.window_start + auth_rate_limit_window ≤ s.clock) ⊎ (e.failures < 10) =
          few_failures s ip g i e (cc (h, same)) in
        rw t (ground (arith, b, open_or_few))
    | inr t ↦ rw t (i.bounded j e h)
  ]

  Invariant-fail :
      (s : State) (ip : Text) (n : ℕ)
      → s.in_flight ip ≡ suc n
      → Invariant most s
      → Invariant most
          (with_in_flight ip n (record s { limiter = record_failure s.clock ip s.limiter }))
  Invariant-fail s ip n q i = record {
    distinct = Distinct-record_failure s.clock ip s.limiter i.distinct;
    unnamed = unnamed_failed s.clock ip s.limiter i.unnamed;
    few = λ j. ground (arith, i.few ip, i.few j);
    bounded = fail-Bounded s ip n q i;
  }

  Invariant-succeed :
      (s : State) (ip : Text) (n : ℕ)
      → s.in_flight ip ≡ suc n
      → Invariant most s
      → Invariant most (with_in_flight ip n (record s { limiter = reset_failures ip s.limiter }))
  unfolding reset_failures
  Invariant-succeed s ip n q i = record {
    distinct = ground (arith, Distinct-erase ip s.limiter i.distinct);
    unnamed = ground (arith, i.unnamed, lookup-erase ip [] s.limiter i.distinct);
    few = λ j. ground (arith, i.few ip, i.few j);
    bounded = λ j e h.
        Bounded-less most s.clock (s.in_flight j) _ e
          (ground (arith, (text_beq_iff ip j).0, ap s.in_flight {x = ip} {y = j}))
          (i.bounded j e (ground (arith, lookup-erase ip j s.limiter i.distinct)));
  }

  Invariant-Step : (s s' : State) → Step most s s' → Invariant most s → Invariant most s'
  Invariant-Step s s' (wait t l) i = record {
    distinct = i.distinct;
    unnamed = i.unnamed;
    few = i.few;
    bounded = λ j e h. ground (arith, i.bounded j e h);
  }
  Invariant-Step s s' (begin ip g l) i = record {
    distinct = i.distinct;
    unnamed = i.unnamed;
    few = λ j. ground (arith, i.few j);
    bounded = begin-Bounded s ip g l i;
  }
  Invariant-Step s s' (fail ip n q) i = Invariant-fail s ip n q i
  Invariant-Step s s' (succeed ip n q) i = Invariant-succeed s ip n q i
  Invariant-Step s s' clean i =
      unfold cleanup in
      record {
        distinct = Distinct-keep_if _ s.limiter i.distinct;
        unnamed = lookup-keep_if-none _ [] s.limiter i.unnamed;
        few = i.few;
        bounded = λ j e h. i.bounded j e (lookup-keep_if _ j e s.limiter i.distinct h);
      }

  Reachable-Invariant : (s : State) → Reachable most s → Invariant most s
  Reachable-Invariant s (start t) =
      unfold lookup in
      record { distinct = tt; unnamed = refl; few = λ j. omega arith; bounded = λ j e h. cc }
  Reachable-Invariant s (next s0 s' r st) = Invariant-Step s0 s st (Reachable-Invariant s0 r)

-- While at most ten login attempts of one address are under way at a time, none of the runs of the
-- limiter ever locks an address out, and no address gets to the threshold of twenty failures.
pub Reachable-no_lock :
    (most : ℕ) (s : State) (ip : Text) (e : Entry)
    → most ≤ 10
    → Reachable most s
    → lookup ip s.limiter ≡ some e
    → (e.locked_until ≡ none) × (e.failures < auth_rate_limit_lockout_threshold)
Reachable-no_lock most s ip e low r h =
    let b : Bounded most s.clock (s.in_flight ip) e =
      (Reachable-Invariant most low s r).bounded ip e h in
    (b.0, omega (arith, b.1))
