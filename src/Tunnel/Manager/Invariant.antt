-- ===== src/Tunnel/Manager/Invariant.antt =====
-- internal/server/tunnel/manager.go: the invariant of the manager, and the steps on its counters.
use tunl.Base.{
  ℕ, suc, ◌+◌, ◌-◌, ◌≤◌, ◌<◌, ◌≡◌, refl, sym, ap, ◌∙◌, ◌≢◌, ◌⊎◌, inl, inr, Bool, true, false,
  Option, none, some, List, [], ◌∷◌, arith, ltb, leb, ◌==◌, if◌then◌else◌, lt→ltb, ==_iff,
  Bool-cases, Text, text_beq, text_beq_iff, text_beq_refl, text_eq, nat_eq, length, bit,
}
use tunl.Base.Int.{ℤ, pos, ◌+ℤ◌, ◌-ℤ◌, ltb_ℤ}
use tunl.Base.Map.{
  lookup, insert, erase, Distinct, lookup-insert, lookup-erase, Distinct-insert, Distinct-erase,
}
use tunl.Tunnel.Connection.{Connection}
use tunl.Tunnel.RateLimiter.{RateLimiter}
use tunl.Tunnel.Manager.{
  Manager, Shard, shard_at, shard_index, num_shards, reserve_global, rollback_global, ip_count,
  check_rate, reserve_ip, release_ip,
}
use tunl.Tunnel.Manager.Shards.{total, held}

abbrev pub flag : Option Connection → Option Bool
flag none = none
flag (some c) = some true

-- Shard `i`: every key once, in the shard of its hash, and marked as used exactly if it has a tunnel.
pub record ShardOk (i : ℕ) (s : Shard) : Type 0 where
  pub distinct : Distinct s.tunnels
  pub distinct_used : Distinct s.used
  pub homes : (k : Text) (c : Connection) → lookup k s.tunnels ≡ some c → shard_index k ≡ i
  pub marks : (k : Text) → lookup k s.used ≡ flag (lookup k s.tunnels)

-- The counters, where `g` slots and, for each address, `h` slots are taken by no tunnel: by a
-- registration that is on its way, or for good by one that overwrote a tunnel.
pub record Inv (g : ℕ) (h : Text → ℕ) (m : Manager) : Type 0 where
  pub width : length m.shards ≡ num_shards
  pub shards : (i : ℕ) → ShardOk i (shard_at i m)
  pub counted : m.tunnel_count ≡ pos (total m + g)
  pub within : total m + g ≤ m.max_tunnels
  pub distinct_ip : Distinct m.tunnels_by_ip
  pub by_ip : (ip : Text) → ip ≢ [] → ip_count ip m ≡ held ip m + h ip
  pub within_ip : (ip : Text) → ip ≢ [] → held ip m + h ip ≤ m.max_tunnels_per_ip

Inv-tunnel_count :
    (g g' : ℕ) (h : Text → ℕ) (m : Manager) (z : ℤ)
    → Inv g h m
    → z ≡ pos (total m + g')
    → total m + g' ≤ m.max_tunnels
    → Inv g' h (record m { tunnel_count = z })
unfolding shard_at ip_count
Inv-tunnel_count g g' h m z v e l = record {
  width = v.width;
  shards = v.shards;
  counted = e;
  within = l;
  distinct_ip = v.distinct_ip;
  by_ip = v.by_ip;
  within_ip = v.within_ip;
}

pos-add_one : (z : ℤ) (n : ℕ) → z ≡ pos n → z +ℤ pos 1 ≡ pos (suc n)
unfolding ◌+ℤ◌
pos-add_one z n e = rw e (ground arith)

pos-sub_one : (z : ℤ) (n : ℕ) → z ≡ pos (suc n) → z -ℤ pos 1 ≡ pos n
unfolding ◌-ℤ◌
pos-sub_one z n e = rw e (ground arith)

-- A slot is reserved exactly if not all are taken.
pub reserve_global-Inv :
    (g : ℕ) (h : Text → ℕ) (m : Manager)
    → Inv g h m
    → ((reserve_global m ≡ none) × (total m + g ≡ m.max_tunnels))
      ⊎ ((m' : Manager) × (reserve_global m ≡ some m') × Inv (suc g) h m')
unfolding reserve_global
reserve_global-Inv g h m v = elim (Bool-cases (ltb_ℤ m.tunnel_count (pos m.max_tunnels))) [
  | inl t ↦
      let lt : total m + g < m.max_tunnels = ground (arith, v.counted) in
      inr (
        record m { tunnel_count = m.tunnel_count +ℤ pos 1 },
        rw t refl,
        Inv-tunnel_count g (suc g) h m _ v (pos-add_one _ _ v.counted ∙ ap pos (omega arith))
            (omega arith),
      )
  | inr f ↦ inl (rw f refl, ground (arith, v.counted, v.within))
]

pub rollback_global-Inv :
    (g : ℕ) (h : Text → ℕ) (m : Manager) → Inv (suc g) h m → Inv g h (rollback_global m)
unfolding rollback_global
rollback_global-Inv g h m v =
    Inv-tunnel_count (suc g) g h m _ v (pos-sub_one _ _ (v.counted ∙ ap pos (omega arith)))
      (omega (arith, v.within))

pub Inv-rate_limiter :
    (g : ℕ) (h : Text → ℕ) (m : Manager) (rl : RateLimiter)
    → Inv g h m
    → Inv g h (record m { rate_limiter = rl })
unfolding shard_at ip_count
Inv-rate_limiter g h m rl v = record {
  width = v.width;
  shards = v.shards;
  counted = v.counted;
  within = v.within;
  distinct_ip = v.distinct_ip;
  by_ip = v.by_ip;
  within_ip = v.within_ip;
}

pub check_rate-Inv :
    (g : ℕ) (h : Text → ℕ) (ip : Text) (now : ℕ) (m : Manager)
    → Inv g h m
    → Inv g h (check_rate ip now m).0
unfolding check_rate
check_rate-Inv g h ip now m v = Inv-rate_limiter g h m _ v

-- One more slot of `ip`.
abbrev pub plus : Text → (Text → ℕ) → Text → ℕ
plus ip h j = bit (text_beq ip j) + h j

-- A table of counters that has `n` for `ip` and is otherwise as before.
Inv-tunnels_by_ip :
    (g : ℕ) (h h' : Text → ℕ) (m : Manager) (t : List (Text × ℕ))
    → Inv g h m
    → Distinct t
    → ((j : Text) → j ≢ [] → ip_count j (record m { tunnels_by_ip = t }) ≡ held j m + h' j)
    → ((j : Text) → j ≢ [] → held j m + h' j ≤ m.max_tunnels_per_ip)
    → Inv g h' (record m { tunnels_by_ip = t })
unfolding shard_at
Inv-tunnels_by_ip g h h' m t v d e l = record {
  width = v.width;
  shards = v.shards;
  counted = v.counted;
  within = v.within;
  distinct_ip = d;
  by_ip = e;
  within_ip = l;
}

ip_count-insert :
    (ip j : Text) (n : ℕ) (m : Manager)
    → ip_count j (record m { tunnels_by_ip = insert ip n m.tunnels_by_ip })
      ≡ (if text_beq ip j then n else ip_count j m)
unfolding ip_count
ip_count-insert ip j n m = ground (arith, lookup-insert ip j n m.tunnels_by_ip)

ip_count-erase :
    (ip j : Text) (m : Manager)
    → Distinct m.tunnels_by_ip
    → ip_count j (record m { tunnels_by_ip = erase ip m.tunnels_by_ip })
      ≡ (if text_beq ip j then 0 else ip_count j m)
unfolding ip_count
ip_count-erase ip j m d = ground (arith, lookup-erase ip j m.tunnels_by_ip d)

-- A slot of an address is reserved exactly if it has not got all of its own.
pub reserve_ip-Inv :
    (g : ℕ) (h : Text → ℕ) (ip : Text) (m : Manager)
    → ip ≢ []
    → Inv g h m
    → ((reserve_ip ip m ≡ none) × (held ip m + h ip ≡ m.max_tunnels_per_ip))
      ⊎ ((m' : Manager) × (reserve_ip ip m ≡ some m') × Inv g (plus ip h) m')
unfolding reserve_ip
reserve_ip-Inv g h ip m ne v = elim (Bool-cases (leb m.max_tunnels_per_ip (ip_count ip m))) [
  | inl t ↦ inl (rw t refl, ground (arith, v.by_ip ip ne, v.within_ip ip ne))
  | inr f ↦
      let lt : held ip m + h ip < m.max_tunnels_per_ip = ground (arith, v.by_ip ip ne) in
      inr (
        record m { tunnels_by_ip = insert ip (ip_count ip m + 1) m.tunnels_by_ip },
        rw f refl,
        Inv-tunnels_by_ip g h (plus ip h) m _ v
            (Distinct-insert ip (ip_count ip m + 1) m.tunnels_by_ip v.distinct_ip)
            (λ j nj. ip_count-insert ip j (ip_count ip m + 1) m ∙ counts j nj)
            (λ j nj. room lt j nj),
      )
]
  where
    counts :
        (j : Text)
        → j ≢ []
        → (if text_beq ip j then ip_count ip m + 1 else ip_count j m) ≡ held j m + plus ip h j
    counts j nj = elim (Bool-cases (text_beq ip j)) [
      | inl e ↦ rw e (rw (← (text_beq_iff ip j).0 e) (omega (arith, v.by_ip ip ne)))
      | inr e ↦ rw e (omega (arith, v.by_ip j nj))
    ]

    room :
        held ip m + h ip < m.max_tunnels_per_ip
        → (j : Text) → j ≢ []
        → held j m + plus ip h j ≤ m.max_tunnels_per_ip
    room lt j nj = elim (Bool-cases (text_beq ip j)) [
      | inl e ↦ rw e (rw (← (text_beq_iff ip j).0 e) (omega (arith, lt)))
      | inr e ↦ rw e (omega (arith, v.within_ip j nj))
    ]

-- `h` matters at addresses only.
pub Inv-slots :
    (g : ℕ) (h h' : Text → ℕ) (m : Manager)
    → Inv g h m
    → ((j : Text) → j ≢ [] → h j ≡ h' j)
    → Inv g h' m
Inv-slots g h h' m v e = record {
  width = v.width;
  shards = v.shards;
  counted = v.counted;
  within = v.within;
  distinct_ip = v.distinct_ip;
  by_ip = λ j nj. omega (arith, v.by_ip j nj, e j nj);
  within_ip = λ j nj. omega (arith, v.within_ip j nj, e j nj);
}

one_less :
    (g : ℕ) (h : Text → ℕ) (ip : Text) (m : Manager) (t : List (Text × ℕ))
    → Inv g (plus ip h) m
    → ip ≢ []
    → Distinct t
    → ((j : Text)
        → ip_count j (record m { tunnels_by_ip = t })
          ≡ (if text_beq ip j then ip_count ip m - 1 else ip_count j m))
    → Inv g h (record m { tunnels_by_ip = t })
one_less g h ip m t v ne d e =
    Inv-tunnels_by_ip g (plus ip h) h m t v d (λ j nj. e j ∙ counts j nj)
      (λ j nj. omega (arith, v.within_ip j nj))
  where
    counts :
        (j : Text)
        → j ≢ []
        → (if text_beq ip j then ip_count ip m - 1 else ip_count j m) ≡ held j m + h j
    counts j nj = elim (Bool-cases (text_beq ip j)) [
      | inl e ↦
          let q = (text_beq_iff ip j).0 e in
          rw e (rw (← q) (omega (arith, v.by_ip ip ne, ap bit (text_beq_refl ip))))
      | inr e ↦ rw e (omega (arith, v.by_ip j nj, ap bit e))
    ]

release_some :
    (g : ℕ) (h : Text → ℕ) (ip : Text) (m : Manager)
    → ip ≢ []
    → Inv g (plus ip h) m
    → Inv g h (release_ip ip m)
unfolding release_ip
release_some g h ip m ne v =
    let n = ip_count ip m in
    let has : ltb 0 n ≡ true =
      lt→ltb 0 n (omega (arith, v.by_ip ip ne, ap bit (text_beq_refl ip))) in
    let addr : text_beq ip [] ≡ false = ground (arith, text_beq_iff ip []) in
    elim (Bool-cases (n - 1 == 0)) [
      | inl e ↦
          let z : n - 1 ≡ 0 = (==_iff (n - 1) 0).0 e in
          rw addr (
            rw has (
              rw e (
                one_less g h ip m _ v ne (Distinct-erase ip m.tunnels_by_ip v.distinct_ip) (λ j.
                  ip_count-erase ip j m v.distinct_ip
                  ∙ ap (λ k. if text_beq ip j then k else ip_count j m) (sym z)))))
      | inr e ↦ rw addr (
          rw has (
            rw e (
              one_less g h ip m _ v ne (Distinct-insert ip (n - 1) m.tunnels_by_ip v.distinct_ip)
                (λ j. ip_count-insert ip j (n - 1) m))))
    ]

-- A slot of an address is given back; without an address nothing happens.
pub release_ip-Inv :
    (g : ℕ) (h : Text → ℕ) (ip : Text) (m : Manager)
    → Inv g (plus ip h) m
    → Inv g h (release_ip ip m)
release_ip-Inv g h [] m v =
    unfold release_ip text_beq in Inv-slots g (plus [] h) h m v (λ j nj. no_slot j nj)
  where
    no_slot : (j : Text) → j ≢ [] → plus [] h j ≡ h j
    no_slot j nj = ground (arith, text_beq_iff [] j)
release_ip-Inv g h (c ∷ ip) m v = release_some g h (c ∷ ip) m (λ e. cc) v
