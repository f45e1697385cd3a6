-- ===== src/Tunnel/Manager/Stored.antt =====
-- internal/server/tunnel/manager.go: a tunnel is put into its shard, or taken out of it.
use tunl.Base.{
  ℕ, suc, ◌+◌, ◌<◌, ◌≡◌, refl, sym, ap, subst, ◌∙◌, inl, inr, Bool, true, false, Option, none, some,
  arith, ◌==◌, if◌then◌else◌, ==_iff, Bool-cases, Option-cases, Text, text_beq, text_beq_iff,
  text_eq, nat_eq, bit,
}
use tunl.Base.Int.{pos}
use tunl.Base.Map.{
  lookup, insert, erase, lookup-insert, lookup-erase, Distinct-insert, Distinct-erase, sum_by-erase,
  sum_by-insert_fresh, sum_by-insert_old,
}
use tunl.Tunnel.Connection.{Connection, new_connection}
use tunl.Tunnel.Manager.{
  Manager, Shard, shard_at, put_shard, shard_index, num_shards, is_used, store_tunnel, ip_count,
}
use tunl.Tunnel.Manager.Removal.{take_out, drop_tunnel}
use tunl.Tunnel.Manager.Shards.{
  total, held, weigh, weigh-put_shard, shard_at-put_shard_self, shard_at-put_shard_ne,
  length-put_shard,
}
use tunl.Tunnel.Manager.Invariant.{ShardOk, Inv, flag, plus, release_ip-Inv, rollback_global-Inv}

pub Inv-put_shard :
    (g g' : ℕ) (h h' : Text → ℕ) (i : ℕ) (s : Shard) (m : Manager)
    → Inv g h m
    → i < num_shards
    → ShardOk i s
    → total (put_shard i s m) + g' ≡ total m + g
    → ((j : Text) → held j (put_shard i s m) + h' j ≡ held j m + h j)
    → Inv g' h' (put_shard i s m)
Inv-put_shard g g' h h' i s m v l k t e = record {
  width = length-put_shard i s m ∙ v.width;
  shards = at;
  counted = unfold put_shard in v.counted ∙ ap pos (sym t);
  within = rw t (unfold put_shard in v.within);
  distinct_ip = unfold put_shard in v.distinct_ip;
  by_ip = λ j nj. unfold put_shard ip_count in v.by_ip j nj ∙ sym (e j);
  within_ip = λ j nj. rw (e j) (unfold put_shard in v.within_ip j nj);
}
  where
    at : (j : ℕ) → ShardOk j (shard_at j (put_shard i s m))
    at j = elim (Bool-cases (i == j)) [
      | inl q ↦
          let p = (==_iff i j).0 q in
          subst (λ j. ShardOk j (shard_at j (put_shard i s m))) p
            (rw (shard_at-put_shard_self i s m (rw v.width l)) k)
      | inr n ↦ rw (shard_at-put_shard_ne i j s m (λ p. cc ((==_iff i j).1 p))) (v.shards j)
    ]

pub shard_index-lt : (s : Text) → shard_index s < num_shards
unfolding shard_index
shard_index-lt s = omega arith

eq_none_of_flag : (o : Option Connection) → flag o ≡ none → o ≡ none
eq_none_of_flag none e = refl
eq_none_of_flag (some c) e = cc

eq_true_of_flag : (o : Option Connection) (b : Bool) → flag o ≡ some b → b ≡ true
eq_true_of_flag none b e = cc
eq_true_of_flag (some c) b e = cc

pub lookup-is_used :
    (g : ℕ) (h : Text → ℕ) (s : Text) (m : Manager)
    → Inv g h m
    → is_used s m ≡ false
    → lookup s (shard_at (shard_index s) m).tunnels ≡ none
unfolding is_used
lookup-is_used g h s m v e =
    let o = v.shards (shard_index s) in
    elim (Option-cases (lookup s (shard_at (shard_index s) m).used)) [
      | inl n ↦ eq_none_of_flag _ (sym (o.marks s) ∙ n)
      | inr (b, q) ↦ absurd (ground (arith, eq_true_of_flag _ b (sym (o.marks s) ∙ q)))
    ]

-- The shard with one more tunnel, and with one less.
ShardOk-insert :
    (s : Text) (tc : Connection) (sh : Shard)
    → ShardOk (shard_index s) sh
    → ShardOk
        (shard_index s)
        (record { tunnels = insert s tc sh.tunnels; used = insert s true sh.used })
ShardOk-insert s tc sh o = record {
  distinct = Distinct-insert s tc sh.tunnels o.distinct;
  distinct_used = Distinct-insert s true sh.used o.distinct_used;
  homes = λ k c. rw (lookup-insert s k tc sh.tunnels) (home k c);
  marks = λ k. rw (lookup-insert s k tc sh.tunnels, lookup-insert s k true sh.used) (mark k);
}
  where
    home :
        (k : Text) (c : Connection)
        → (if text_beq s k then some tc else lookup k sh.tunnels) ≡ some c
        → shard_index k ≡ shard_index s
    home k c = elim (Bool-cases (text_beq s k)) [
      | inl e ↦ λ _. ap shard_index (sym ((text_beq_iff s k).0 e))
      | inr e ↦ rw e (o.homes k c)
    ]

    mark :
        (k : Text)
        → (if text_beq s k then some true else lookup k sh.used)
          ≡ flag (if text_beq s k then some tc else lookup k sh.tunnels)
    mark k = elim (Bool-cases (text_beq s k)) [ inl e ↦ rw e refl | inr e ↦ rw e (o.marks k) ]

ShardOk-erase :
    (i : ℕ) (s : Text) (sh : Shard)
    → ShardOk i sh
    → ShardOk i (record { tunnels = erase s sh.tunnels; used = erase s sh.used })
ShardOk-erase i s sh o = record {
  distinct = Distinct-erase s sh.tunnels o.distinct;
  distinct_used = Distinct-erase s sh.used o.distinct_used;
  homes = λ k c. rw (lookup-erase s k sh.tunnels o.distinct) (home k c);
  marks = λ k.
      rw (lookup-erase s k sh.tunnels o.distinct, lookup-erase s k sh.used o.distinct_used)
        (mark k);
}
  where
    home :
        (k : Text) (c : Connection)
        → (if text_beq s k then none else lookup k sh.tunnels) ≡ some c
        → shard_index k ≡ i
    home k c = elim (Bool-cases (text_beq s k)) [
      | inl e ↦ rw e (λ q. cc)
      | inr e ↦ rw e (o.homes k c)
    ]

    mark :
        (k : Text)
        → (if text_beq s k then none else lookup k sh.used)
          ≡ flag (if text_beq s k then none else lookup k sh.tunnels)
    mark k = elim (Bool-cases (text_beq s k)) [ inl e ↦ rw e refl | inr e ↦ rw e (o.marks k) ]

abbrev stored : Text → Text → Bool → ℕ → Connection
stored s ip has_conn now = record (new_connection s has_conn now) { remote_ip = ip }

-- A slot becomes a tunnel.
pub store_tunnel-fresh :
    (g : ℕ) (h : Text → ℕ) (s ip : Text) (has_conn : Bool) (now : ℕ) (m : Manager)
    → lookup s (shard_at (shard_index s) m).tunnels ≡ none
    → Inv (suc g) (plus ip h) m
    → Inv g h (store_tunnel s ip has_conn now m)
unfolding store_tunnel
store_tunnel-fresh g h s ip has_conn now m e v =
    Inv-put_shard (suc g) g (plus ip h) h i _ m v (shard_index-lt s)
      (ShardOk-insert s tc (shard_at i m) (v.shards i)) (omega (arith, grows (λ p. 1)))
      (λ j. omega (arith, grows (λ p. bit (text_beq p.1.remote_ip j))))
  where
    i : ℕ
    i = shard_index s

    tc : Connection
    tc = stored s ip has_conn now

    grows :
        (f : Text × Connection → ℕ)
        → weigh f (store_tunnel s ip has_conn now m) ≡ weigh f m + f (s, tc)
    grows f = omega (
      arith,
      weigh-put_shard f i
          (record {
            tunnels = insert s tc (shard_at i m).tunnels;
            used = insert s true (shard_at i m).used;
          })
          m (rw v.width (shard_index-lt s)),
      sum_by-insert_fresh f s tc (shard_at i m).tunnels e,
    )

-- A tunnel that stood there is overwritten: its slots are not given back.
pub store_tunnel-over :
    (g : ℕ) (h : Text → ℕ) (s ip : Text) (has_conn : Bool) (now : ℕ) (m : Manager)
    (old : Connection)
    → lookup s (shard_at (shard_index s) m).tunnels ≡ some old
    → Inv (suc g) (plus ip h) m
    → Inv (suc g) (plus old.remote_ip h) (store_tunnel s ip has_conn now m)
unfolding store_tunnel
store_tunnel-over g h s ip has_conn now m old e v =
    Inv-put_shard (suc g) (suc g) (plus ip h) (plus old.remote_ip h) i _ m v (shard_index-lt s)
      (ShardOk-insert s tc (shard_at i m) (v.shards i)) (omega (arith, moves (λ p. 1)))
      (λ j. omega (arith, moves (λ p. bit (text_beq p.1.remote_ip j))))
  where
    i : ℕ
    i = shard_index s

    tc : Connection
    tc = stored s ip has_conn now

    moves :
        (f : Text × Connection → ℕ)
        → weigh f (store_tunnel s ip has_conn now m) + f (s, old) ≡ weigh f m + f (s, tc)
    moves f = omega (
      arith,
      weigh-put_shard f i
          (record {
            tunnels = insert s tc (shard_at i m).tunnels;
            used = insert s true (shard_at i m).used;
          })
          m (rw v.width (shard_index-lt s)),
      sum_by-insert_old f s tc old (shard_at i m).tunnels e,
    )

-- A tunnel that is taken out leaves its slots.
pub take_out-Inv :
    (g : ℕ) (h : Text → ℕ) (i : ℕ) (s : Text) (m : Manager) (tc : Connection)
    → i < num_shards
    → lookup s (shard_at i m).tunnels ≡ some tc
    → Inv g h m
    → Inv (suc g) (plus tc.remote_ip h) (take_out i s m)
unfolding take_out
take_out-Inv g h i s m tc l e v =
    Inv-put_shard g (suc g) h (plus tc.remote_ip h) i less m v l
      (ShardOk-erase i s (shard_at i m) (v.shards i)) (omega (arith, falls (λ p. 1)))
      (λ j. omega (arith, falls (λ p. bit (text_beq p.1.remote_ip j))))
  where
    less : Shard
    less = record { tunnels = erase s (shard_at i m).tunnels; used = erase s (shard_at i m).used }

    falls : (f : Text × Connection → ℕ) → weigh f (put_shard i less m) + f (s, tc) ≡ weigh f m
    falls f = omega (
      arith,
      weigh-put_shard f i less m (rw v.width l),
      sum_by-erase f s tc (shard_at i m).tunnels e,
    )

-- A tunnel goes with its slots.
pub drop_tunnel-Inv :
    (g : ℕ) (h : Text → ℕ) (i : ℕ) (s : Text) (m : Manager)
    → i < num_shards
    → Inv g h m
    → Inv g h (drop_tunnel i s m).0
unfolding drop_tunnel
drop_tunnel-Inv g h i s m l v = elim (Option-cases (lookup s (shard_at i m).tunnels)) [
  | inl e ↦ rw (e, drop_tunnel) v
  | inr (tc, e) ↦
      rw (e, drop_tunnel)
        (release_ip-Inv g h tc.remote_ip _
          (rollback_global-Inv g (plus tc.remote_ip h) _ (take_out-Inv g h i s m tc l e v)))
]
