-- ===== src/Tcp/PortAllocator/Outcome.antt =====
-- internal/server/tcp/port_allocator.go: when `Allocate` finds a port.
use tunl.Base.{
  ℕ, zero, suc, ◌+◌, ◌-◌, ◌≤◌, ◌<◌, ◌≡◌, refl, subst, ◌≢◌, inl, inr, Bool, true, false, Option,
  arith, ◌==◌, Bool-cases, ==_iff, nat_eq, ok, err,
}
use tunl.Base.Result.{Result}
use tunl.Tcp.PortAllocator.{
  PortAllocator, PortError, none_available, is_taken, random_port, reserve, try_from, allocate,
}

-- Attempt `j` draws a port that is reserved, or that the system does not let it listen on.
pub data Fails (draw : ℕ → Option ℕ) (listens : ℕ → ℕ → Bool) (p : PortAllocator) (j : ℕ)
    : Type 0 where
  taken : is_taken (random_port (draw j) p) p ≡ true → Fails draw listens p j
  busy : listens j (random_port (draw j) p) ≡ false → Fails draw listens p j

-- The attempts from `i` on, `k` of them: the first that does not fail reserves its port, and if there
-- is none the allocator is as it was.
pub data Attempts (draw : ℕ → Option ℕ) (listens : ℕ → ℕ → Bool) (i k : ℕ) (p : PortAllocator)
    : PortAllocator × Result PortError ℕ → Type 0 where
  found :
      (n port : ℕ)
      → i ≤ n
      → n < i + k
      → port ≡ random_port (draw n) p
      → is_taken port p ≡ false
      → listens n port ≡ true
      → ((j : ℕ) → i ≤ j → j < n → Fails draw listens p j)
      → Attempts draw listens i k p (reserve port p, ok port)
  gave_up :
      ((j : ℕ) → i ≤ j → j < i + k → Fails draw listens p j)
      → Attempts draw listens i k p (p, err none_available)

different : (i j : ℕ) → (i == j) ≡ false → i ≢ j
different i j e q = cc ((==_iff i j).1 q, e)

earlier :
    (draw : ℕ → Option ℕ) (listens : ℕ → ℕ → Bool) (i : ℕ) (p : PortAllocator)
    → Fails draw listens p i
    → (n : ℕ) → ((j : ℕ) → i + 1 ≤ j → j < n → Fails draw listens p j)
    → (j : ℕ) → i ≤ j
    → j < n
    → Fails draw listens p j
earlier draw listens i p f n before j a b = elim (Bool-cases (i == j)) [
  | inl e ↦ subst (Fails draw listens p) ((==_iff i j).0 e) f
  | inr e ↦ before j (omega (arith, different i j e)) b
]

-- One more failure before.
later :
    (draw : ℕ → Option ℕ) (listens : ℕ → ℕ → Bool) (i k : ℕ) (p : PortAllocator)
    (r : PortAllocator × Result PortError ℕ)
    → Fails draw listens p i
    → Attempts draw listens (i + 1) k p r
    → Attempts draw listens i (suc k) p r
later draw listens i k p r f (found n port l h e t o before) =
    found n port (omega arith) (omega arith) e t o (earlier draw listens i p f n before)
later draw listens i k p r f (gave_up all) =
    gave_up (λ j a b. earlier draw listens i p f (i + suc k) (λ j a b. all j a (omega arith)) j a b)

try_from-Attempts :
    (draw : ℕ → Option ℕ) (listens : ℕ → ℕ → Bool) (i k : ℕ) (p : PortAllocator)
    → Attempts draw listens i k p (try_from draw listens i k p)
unfolding try_from
try_from-Attempts draw listens i zero p = gave_up (λ j a b. absurd (omega arith))
try_from-Attempts draw listens i (suc k) p =
    let port = random_port (draw i) p in
    let rest = try_from-Attempts draw listens (i + 1) k p in
    elim (Bool-cases (is_taken port p)) [
      | inl t ↦ rw t (later draw listens i k p _ (taken t) rest)
      | inr t ↦ elim (Bool-cases (listens i port)) [
        | inl o ↦
            rw (t, o)
              (found i port (omega arith) (omega arith) refl t o (λ j a b. absurd (omega arith)))
        | inr o ↦ rw (t, o) (later draw listens i k p _ (busy o) rest)
      ]
    ]

-- `Allocate` makes one attempt for each port of the range. The first attempt that draws a port that
-- is not reserved, and that the system lets it listen on, reserves and returns it; if each attempt
-- fails, the call fails and the allocator is as it was.
pub allocate-Attempts :
    (draw : ℕ → Option ℕ) (listens : ℕ → ℕ → Bool) (p : PortAllocator)
    → Attempts draw listens 0 (p.max + 1 - p.min) p (allocate draw listens p)
unfolding allocate
allocate-Attempts draw listens p = try_from-Attempts draw listens 0 (p.max + 1 - p.min) p
