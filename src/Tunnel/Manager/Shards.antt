-- ===== src/Tunnel/Manager/Shards.antt =====
-- internal/server/tunnel/manager.go: what one write to a shard does to sums over all tunnels.
use tunl.Base.{
  ℕ, zero, suc, ◌+◌, ◌<◌, ◌≡◌, refl, ap, some, List, [], ◌∷◌, Text, text_beq, text_eq, length,
  get_or, get_elem?, set, sum_by, sum_by-set, length-set, bit, arith,
}
use tunl.Tunnel.Connection.{Connection}
use tunl.Tunnel.Manager.{Manager, Shard, empty_shard, shard_at, put_shard}

-- The sum of `f` over all tunnels.
abbrev pub weigh : (Text × Connection → ℕ) → Manager → ℕ
weigh f m = sum_by (λ s. sum_by f s.tunnels) m.shards

-- The number of tunnels, and of those of an address.
abbrev pub total : Manager → ℕ
total = weigh (λ p. 1)

abbrev pub held : Text → Manager → ℕ
held ip = weigh (λ p. bit (text_beq p.1.remote_ip ip))

get_elem?-get_or {ℓ} :
    {A : Type ℓ} (xs : List A) (i : ℕ) (d : A)
    → i < length xs
    → get_elem? xs i ≡ some (get_or xs i d)
get_elem?-get_or [] i d h = absurd (omega arith)
get_elem?-get_or (x ∷ xs) zero d h = refl
get_elem?-get_or (x ∷ xs) (suc i) d h = get_elem?-get_or xs i d (omega arith)

get_or-set_self {ℓ} :
    {A : Type ℓ} (xs : List A) (i : ℕ) (v d : A) → i < length xs → get_or (set xs i v) i d ≡ v
get_or-set_self [] i v d h = absurd (omega arith)
get_or-set_self (x ∷ xs) zero v d h = refl
get_or-set_self (x ∷ xs) (suc i) v d h = get_or-set_self xs i v d (omega arith)

get_or-set_ne {ℓ} :
    {A : Type ℓ} (xs : List A) (i j : ℕ) (v d : A)
    → (i ≡ j → ⊥)
    → get_or (set xs i v) j d ≡ get_or xs j d
get_or-set_ne [] i j v d h = refl
get_or-set_ne (x ∷ xs) zero zero v d h = absurd (h refl)
get_or-set_ne (x ∷ xs) zero (suc j) v d h = refl
get_or-set_ne (x ∷ xs) (suc i) zero v d h = refl
get_or-set_ne (x ∷ xs) (suc i) (suc j) v d h = get_or-set_ne xs i j v d (λ e. h (ap suc e))

-- A shard whose tunnels are replaced: the sum moves by the difference.
pub weigh-put_shard :
    (f : Text × Connection → ℕ) (i : ℕ) (s : Shard) (m : Manager)
    → i < length m.shards
    → weigh f (put_shard i s m) + sum_by f (shard_at i m).tunnels ≡ weigh f m + sum_by f s.tunnels
unfolding put_shard shard_at
weigh-put_shard f i s m h =
    sum_by-set (λ s. sum_by f s.tunnels) m.shards i s (get_or m.shards i empty_shard)
      (get_elem?-get_or m.shards i empty_shard h)

pub shard_at-put_shard_self :
    (i : ℕ) (s : Shard) (m : Manager) → i < length m.shards → shard_at i (put_shard i s m) ≡ s
unfolding put_shard shard_at
shard_at-put_shard_self i s m h = get_or-set_self m.shards i s empty_shard h

pub shard_at-put_shard_ne :
    (i j : ℕ) (s : Shard) (m : Manager) → (i ≡ j → ⊥) → shard_at j (put_shard i s m) ≡ shard_at j m
unfolding put_shard shard_at
shard_at-put_shard_ne i j s m h = get_or-set_ne m.shards i j s empty_shard h

pub length-put_shard :
    (i : ℕ) (s : Shard) (m : Manager) → length (put_shard i s m).shards ≡ length m.shards
unfolding put_shard
length-put_shard i s m = length-set m.shards i s
