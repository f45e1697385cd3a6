-- ===== src/Tunnel/Manager/Runs.antt =====
-- internal/server/tunnel/manager.go: sequences of whole operations on a new manager.
use tunl.Base.{
  ℕ, zero, suc, ◌+◌, ◌≤◌, ◌<◌, ◌≡◌, refl, ap, ◌∙◌, ◌≢◌, Bool, Option, List, [], ◌∷◌, map, arith,
  Text, text_eq, nat_eq, length, get_or, replicate, length-append, sum_by,
}
use tunl.Base.Int.{pos}
use tunl.Base.Map.{lookup}
use tunl.Tunnel.Connection.{Connection}
use tunl.Tunnel.Manager.{
  Manager, ManagerConfig, Shard, empty_shard, shard_at, shard_index, num_shards, ip_count,
  new_manager, register_with_ip,
}
use tunl.Tunnel.Manager.Removal.{
  list, list_shards, count, drop_tunnel, unregister, drop_all, cleanup_shards, cleanup_stale,
  stale_subdomains,
}
use tunl.Tunnel.Manager.Shards.{total, held}
use tunl.Tunnel.Manager.Invariant.{Inv, ShardOk, Inv-rate_limiter}
use tunl.Tunnel.Manager.Stored.{drop_tunnel-Inv, shard_index-lt}
use tunl.Tunnel.Manager.Limits.{
  limits, register_with_ip-limits, unregister-limits, cleanup_stale-limits,
}
use tunl.Tunnel.Manager.Register.{IsFresh, register_with_ip-Inv}

unregister-Inv :
    (g : ℕ) (h : Text → ℕ) (s : Text) (m : Manager) → Inv g h m → Inv g h (unregister s m).0
unfolding unregister
unregister-Inv g h s m v = drop_tunnel-Inv g h (shard_index s) s m (shard_index-lt s) v

drop_all-Inv :
    (g : ℕ) (h : Text → ℕ) (i : ℕ) (ss : List Text) (m : Manager)
    → i < num_shards
    → Inv g h m
    → Inv g h (drop_all i ss m).0
unfolding drop_all
drop_all-Inv g h i [] m l v = v
drop_all-Inv g h i (s ∷ ss) m l v =
    drop_all-Inv g h i ss (drop_tunnel i s m).0 l (drop_tunnel-Inv g h i s m l v)

cleanup_shards-Inv :
    (g : ℕ) (h : Text → ℕ) (now timeout i k : ℕ) (m : Manager)
    → i + k ≤ num_shards
    → Inv g h m
    → Inv g h (cleanup_shards now timeout i k m).0
unfolding cleanup_shards
cleanup_shards-Inv g h now timeout i zero m l v = v
cleanup_shards-Inv g h now timeout i (suc k) m l v =
    cleanup_shards-Inv g h now timeout (i + 1) k _ (omega arith)
      (drop_all-Inv g h i (stale_subdomains now timeout (shard_at i m).tunnels) m (omega arith) v)

cleanup_stale-Inv :
    (g : ℕ) (h : Text → ℕ) (now timeout : ℕ) (m : Manager)
    → Inv g h m
    → Inv g h (cleanup_stale now timeout m).0
unfolding cleanup_stale
cleanup_stale-Inv g h now timeout m v =
    Inv-rate_limiter g h _ _ (cleanup_shards-Inv g h now timeout 0 32 m (omega arith) v)

-- The operations of a manager between its start and its shutdown.
pub data Op : Type 0 where
  registers : Text → Text → Bool → ℕ → (ℕ → ℕ → Option ℕ) → Op
  unregisters : Text → Op
  cleans : ℕ → ℕ → Op

unfoldable pub perform : Op → Manager → Manager
perform (registers custom ip has_conn now draws) m =
    (register_with_ip custom ip has_conn now draws m).0
perform (unregisters s) m = (unregister s m).0
perform (cleans now timeout) m = (cleanup_stale now timeout m).0

unfoldable pub run : List Op → Manager → Manager
unfolding perform
run [] m = m
run (o ∷ os) m = run os (perform o m)

-- No registration draws eleven subdomains in vain.
abbrev pub DrawsFresh : List Op → Manager → Type 0
DrawsFresh [] m = Unit
DrawsFresh (registers custom ip has_conn now draws ∷ os) m =
    (custom ≡ [] → IsFresh draws m)
    × DrawsFresh os (perform (registers custom ip has_conn now draws) m)
DrawsFresh (unregisters s ∷ os) m = DrawsFresh os (perform (unregisters s) m)
DrawsFresh (cleans now timeout ∷ os) m = DrawsFresh os (perform (cleans now timeout) m)

run-Inv :
    (g : ℕ) (h : Text → ℕ) (os : List Op) (m : Manager)
    → Inv g h m
    → DrawsFresh os m
    → Inv g h (run os m)
unfolding run
run-Inv g h [] m v f = v
run-Inv g h (registers custom ip has_conn now draws ∷ os) m v f =
    run-Inv g h os _ (register_with_ip-Inv g h custom ip has_conn now draws m v f.0) f.1
run-Inv g h (unregisters s ∷ os) m v f = run-Inv g h os _ (unregister-Inv g h s m v) f
run-Inv g h (cleans now timeout ∷ os) m v f =
    run-Inv g h os _ (cleanup_stale-Inv g h now timeout m v) f

ShardOk-empty : (i : ℕ) → ShardOk i empty_shard
unfolding lookup
ShardOk-empty i = record {
  distinct = tt;
  distinct_used = tt;
  homes = λ k c e. cc;
  marks = λ k. refl;
}

pub shard_at-replicate : (n i : ℕ) → get_or (replicate n empty_shard) i empty_shard ≡ empty_shard
shard_at-replicate zero i = refl
shard_at-replicate (suc n) zero = refl
shard_at-replicate (suc n) (suc i) = shard_at-replicate n i

pub new_manager-Inv : (cfg : ManagerConfig) → Inv 0 (λ ip. 0) (new_manager cfg)
unfolding new_manager shard_at ip_count lookup
new_manager-Inv cfg = record {
  width = refl;
  shards = λ i. rw (shard_at-replicate 32 i) (ShardOk-empty i);
  counted = refl;
  within = omega arith;
  distinct_ip = tt;
  by_ip = λ ip ne. omega arith;
  within_ip = λ ip ne. omega arith;
}

run-limits : (os : List Op) (m : Manager) → limits (run os m) ≡ limits m
unfolding run
run-limits [] m = refl
run-limits (registers custom ip has_conn now draws ∷ os) m =
    run-limits os _ ∙ register_with_ip-limits custom ip has_conn now draws m
run-limits (unregisters s ∷ os) m = run-limits os _ ∙ unregister-limits s m
run-limits (cleans now timeout ∷ os) m = run-limits os _ ∙ cleanup_stale-limits now timeout m

length-tunnels : (t : List (Text × Connection)) → length (map (λ p. p.1) t) ≡ sum_by (λ p. 1) t
length-tunnels [] = refl
length-tunnels (p ∷ t) = omega (arith, length-tunnels t)

length-list_shards :
    (ss : List Shard) → length (list_shards ss) ≡ sum_by (λ s. sum_by (λ p. 1) s.tunnels) ss
unfolding list_shards
length-list_shards [] = refl
length-list_shards (s ∷ ss) = omega (
  arith,
  length-append (map (λ p. p.1) s.tunnels) (list_shards ss),
  length-tunnels s.tunnels,
  length-list_shards ss,
)

pub length-list : (m : Manager) → length (list m) ≡ total m
unfolding list
length-list m = length-list_shards m.shards

-- The counters of a manager agree with its tunnels, and the tunnels are within its limits.
pub record IsCounted (cfg : Manager) (m : Manager) : Type 0 where
  pub exact : count m ≡ pos (length (list m))
  pub within : length (list m) ≤ cfg.max_tunnels
  pub exact_ip : (ip : Text) → ip ≢ [] → ip_count ip m ≡ held ip m
  pub within_ip : (ip : Text) → ip ≢ [] → held ip m ≤ cfg.max_tunnels_per_ip

-- Whatever registrations, removals and clean-ups a new manager has gone through, `Count` is the
-- number of tunnels that `List` returns, the counter of an address is the number of its tunnels, and
-- neither is above its limit, if no registration drew only taken or reserved random subdomains.
pub run-IsCounted :
    (cfg : ManagerConfig) (os : List Op)
    → DrawsFresh os (new_manager cfg)
    → IsCounted (new_manager cfg) (run os (new_manager cfg))
unfolding count
run-IsCounted cfg os f =
    let m0 = new_manager cfg in
    let m = run os m0 in
    let v = run-Inv 0 (λ ip. 0) os m0 (new_manager-Inv cfg) f in
    let max : m.max_tunnels ≡ m0.max_tunnels = ap (λ p. p.0) (run-limits os m0) in
    let max_ip : m.max_tunnels_per_ip ≡ m0.max_tunnels_per_ip = ap (λ p. p.1) (run-limits os m0) in
    record {
      exact = v.counted ∙ ap pos (omega (arith, length-list m));
      within = omega (arith, length-list m, v.within, max);
      exact_ip = λ ip ne. omega (arith, v.by_ip ip ne);
      within_ip = λ ip ne. omega (arith, v.within_ip ip ne, max_ip);
    }
