-- ===== src/Tcp/PortAllocator/Exclusive.antt =====
-- internal/server/tcp/port_allocator.go: no port is given to two at a time.
use tunl.Base.{
  ℕ, ◌+◌, ◌-◌, ◌≤◌, ◌<◌, ◌≡◌, refl, inl, inr, Bool, true, false, ◌||◌, Option, none, some, List, [],
  ◌∷◌, arith, ltb, ◌==◌, if◌then◌else◌, Bool-cases, ==_iff, nat_eq, bit, sum_by, ok, err,
}
use tunl.Base.Int.{ℤ}
use tunl.Base.Result.{Result}
use tunl.Base.Map.{lookup, Distinct, lookup-insert, lookup-erase, Distinct-insert, Distinct-erase}
use tunl.Tcp.PortAllocator.{
  PortAllocator, PortError, new_port_allocator, is_taken, random_port, reserve, allocate,
  allocate_specific, release_port,
}
use tunl.Tcp.PortAllocator.Outcome.{Attempts, found, gave_up, allocate-Attempts}

-- The calls, with what `rand.Int` and `net.Listen` answer.
pub data Call : Type 0 where
  allocates : (ℕ → Option ℕ) → (ℕ → ℕ → Bool) → Call
  asks : ℕ → Bool → Call
  releases : ℕ → Call

-- The allocator, and the ports that callers got and did not release.
pub record State : Type 0 where
  pub allocator : PortAllocator
  pub held : List ℕ

unfoldable pub without : ℕ → List ℕ → List ℕ
without port [] = []
without port (q ∷ qs) = let rest = without port qs in if q == port then rest else q ∷ rest

abbrev pub given : PortAllocator × Result PortError ℕ → List ℕ → State
given (p, ok port) held = record { allocator = p; held = port ∷ held }
given (p, err e) held = record { allocator = p; held = held }

unfoldable pub perform : Call → State → State
unfolding allocate allocate_specific release_port without
perform (allocates draw listens) s = given (allocate draw listens s.allocator) s.held
perform (asks port listens) s = given (allocate_specific port listens s.allocator) s.held
perform (releases port) s = record {
  allocator = release_port port s.allocator;
  held = without port s.held;
}

unfoldable pub run : List Call → State → State
unfolding perform
run [] s = s
run (c ∷ cs) s = run cs (perform c s)

-- `rand.Int` answers with numbers below the size of the range.
abbrev pub DrawsBelow : ℕ → List Call → Type 0
DrawsBelow n [] = Unit
DrawsBelow n (allocates draw listens ∷ cs) = ((i k : ℕ) → draw i ≡ some k → k < n) × DrawsBelow n cs
DrawsBelow n (asks port listens ∷ cs) = DrawsBelow n cs
DrawsBelow n (releases port ∷ cs) = DrawsBelow n cs

-- How often a port is among those that callers have.
abbrev pub times : ℕ → List ℕ → ℕ
times port = sum_by (λ q. bit (q == port))

pub record IsExclusive (min max : ℕ) (s : State) : Type 0 where
  pub range : (s.allocator.min ≡ min) × (s.allocator.max ≡ max)
  pub distinct : Distinct s.allocator.used
  pub exact : (port : ℕ) → times port s.held ≡ bit (is_taken port s.allocator)
  pub within : (port : ℕ) → is_taken port s.allocator ≡ true → (min ≤ port) × (port ≤ max)

is_taken-reserve :
    (port q : ℕ) (p : PortAllocator)
    → is_taken q (reserve port p) ≡ (if port == q then true else is_taken q p)
unfolding is_taken reserve
is_taken-reserve port q p = ground (arith, lookup-insert port q true p.used)

is_taken-release_port :
    (port q : ℕ) (p : PortAllocator)
    → Distinct p.used
    → is_taken q (release_port port p) ≡ (if port == q then false else is_taken q p)
unfolding is_taken release_port
is_taken-release_port port q p d = ground (arith, lookup-erase port q p.used d)

times-without :
    (port q : ℕ) (qs : List ℕ) → times q (without port qs) ≡ (if port == q then 0 else times q qs)
unfolding without
times-without port q [] = ground arith
times-without port q (r ∷ qs) =
    ground (arith, times-without port q qs, ==_iff r port, ==_iff port q, ==_iff r q)

reserve-IsExclusive :
    (min max port : ℕ) (s : State)
    → is_taken port s.allocator ≡ false
    → min ≤ port
    → port ≤ max
    → IsExclusive min max s
    → IsExclusive min max (record { allocator = reserve port s.allocator; held = port ∷ s.held })
reserve-IsExclusive min max port s t l h v = record {
  range = unfold reserve in v.range;
  distinct = unfold reserve in Distinct-insert port true s.allocator.used v.distinct;
  exact = λ q. ground (arith, is_taken-reserve port q s.allocator, v.exact q, ==_iff port q);
  within = λ q e. ground (arith, is_taken-reserve port q s.allocator, v.within q, ==_iff port q);
}

random_port-within :
    (draw : Option ℕ) (p : PortAllocator)
    → p.min < p.max
    → ((k : ℕ) → draw ≡ some k → k < p.max - p.min + 1)
    → (p.min ≤ random_port draw p) × (random_port draw p ≤ p.max)
unfolding random_port
random_port-within none p h d = (ground arith, ground arith)
random_port-within (some k) p h d = let b = d k refl in (ground (arith, b), ground (arith, b))

Attempts-IsExclusive :
    (min max i k : ℕ) (draw : ℕ → Option ℕ) (listens : ℕ → ℕ → Bool) (s : State)
    (r : PortAllocator × Result PortError ℕ)
    → min < max
    → ((i k : ℕ) → draw i ≡ some k → k < max - min + 1)
    → IsExclusive min max s
    → Attempts draw listens i k s.allocator r
    → IsExclusive min max (given r s.held)
Attempts-IsExclusive min max i k draw listens s r h d v (found n port a b e t o before) =
    let (l, u) =
      random_port-within (draw n) s.allocator (omega (arith, h, v.range.0, v.range.1))
        (λ k q. omega (arith, d n k q, v.range.0, v.range.1)) in
    reserve-IsExclusive min max port s t (omega (arith, e, l, v.range.0))
      (omega (arith, e, u, v.range.1)) v
Attempts-IsExclusive min max i k draw listens s r h d v (gave_up all) = v

allocate_specific-IsExclusive :
    (min max port : ℕ) (listens : Bool) (s : State)
    → IsExclusive min max s
    → IsExclusive min max (given (allocate_specific port listens s.allocator) s.held)
unfolding allocate_specific
allocate_specific-IsExclusive min max port listens s v =
    elim (Bool-cases (ltb port s.allocator.min || ltb s.allocator.max port)) [
      | inl e ↦ simp e v
      | inr e ↦ elim (Bool-cases (is_taken port s.allocator)) [
        | inl t ↦ simp (e, t) v
        | inr t ↦ elim (Bool-cases listens) [
          | inl o ↦
              simp (e, t, o)
                (reserve-IsExclusive min max port s t (ground (arith, v.range.0))
                  (ground (arith, v.range.1)) v)
          | inr o ↦ simp (e, t, o) v
        ]
      ]
    ]

release_port-IsExclusive :
    (min max port : ℕ) (s : State)
    → IsExclusive min max s
    → IsExclusive min max
        (record { allocator = release_port port s.allocator; held = without port s.held })
release_port-IsExclusive min max port s v = record {
  range = unfold release_port in v.range;
  distinct = unfold release_port in Distinct-erase port s.allocator.used v.distinct;
  exact = λ q. ground (
    arith,
    is_taken-release_port port q s.allocator v.distinct,
    times-without port q s.held,
    v.exact q,
  );
  within = λ q e. ground (arith, is_taken-release_port port q s.allocator v.distinct, v.within q);
}

run-IsExclusive_from :
    (min max : ℕ) (cs : List Call) (s : State)
    → min < max
    → DrawsBelow (max - min + 1) cs
    → IsExclusive min max s
    → IsExclusive min max (run cs s)
unfolding run perform
run-IsExclusive_from min max [] s h d v = v
run-IsExclusive_from min max (allocates draw listens ∷ cs) s h d v =
    run-IsExclusive_from min max cs _ h d.1 (
      Attempts-IsExclusive min max _ _ draw listens s _ h d.0 v
        (allocate-Attempts draw listens s.allocator))
run-IsExclusive_from min max (asks port listens ∷ cs) s h d v =
    run-IsExclusive_from min max cs _ h d (allocate_specific-IsExclusive min max port listens s v)
run-IsExclusive_from min max (releases port ∷ cs) s h d v =
    run-IsExclusive_from min max cs _ h d (release_port-IsExclusive min max port s v)

new_port_allocator_bounds :
    (min max : ℤ) (p : PortAllocator)
    → new_port_allocator min max ≡ some p
    → (p.used ≡ []) × (p.min < p.max) × (1 ≤ p.min) × (p.max ≤ 65535)
unfolding new_port_allocator
new_port_allocator_bounds min max p e = (ground arith, ground arith, ground arith, ground arith)

empty-IsExclusive :
    (p : PortAllocator)
    → p.used ≡ []
    → IsExclusive p.min p.max (record { allocator = p; held = [] })
unfolding is_taken lookup
empty-IsExclusive p e = record {
  range = (refl, refl);
  distinct = rw e tt;
  exact = λ q. rw e refl;
  within = λ q t. absurd (cc (t, e));
}

-- Whatever calls a new allocator has answered, a port that a caller got and has not released is given
-- to no one else, it lies between `min` and `max`, which are valid port numbers, and the ports that
-- are marked as used are exactly these.
pub run-IsExclusive :
    (min max : ℤ) (p : PortAllocator) (cs : List Call)
    → new_port_allocator min max ≡ some p
    → DrawsBelow (p.max - p.min + 1) cs
    → (1 ≤ p.min)
      × (p.max ≤ 65535)
      × IsExclusive p.min p.max (run cs (record { allocator = p; held = [] }))
run-IsExclusive min max p cs e d =
    let b = new_port_allocator_bounds min max p e in
    (b.2, b.3, run-IsExclusive_from p.min p.max cs _ b.1 d (empty-IsExclusive p b.0))
