-- ===== src/Tunnel/Manager/Removal.antt =====
-- internal/server/tunnel/manager.go: lookup, and the operations that take tunnels out. Each returns
-- also the connections that it closed, as those who still hold them see them.
use tunl.Base.{
  ℕ, zero, suc, ◌+◌, Option, none, some, List, [], ◌∷◌, ◌++◌, map, if◌then◌else◌, Text, text_eq,
  length, replicate,
}
use tunl.Base.Int.{ℤ, pos}
use tunl.Base.Channel
use tunl.Base.Map.{lookup, erase}
use tunl.Tunnel.Connection.{Connection, is_alive, close}
use tunl.Tunnel.RateLimiter.{cleanup}
use tunl.Tunnel.Manager.{
  Manager, Shard, empty_shard, num_shards, shard_index, shard_at, put_shard, rollback_global,
  release_ip,
}

-- `Get`.
unfoldable pub get : Text → Manager → Option Connection
get subdomain m = lookup subdomain (shard_at (shard_index subdomain) m).tunnels

-- `List`, shard by shard.
unfoldable pub list_shards : List Shard → List Connection
list_shards [] = []
list_shards (s ∷ ss) = map (λ p. p.1) s.tunnels ++ list_shards ss

unfoldable pub list : Manager → List Connection
unfolding list_shards
list m = list_shards m.shards

unfoldable pub count : Manager → ℤ
count m = m.tunnel_count

-- A subdomain leaves both maps of shard `i`.
unfoldable pub take_out : ℕ → Text → Manager → Manager
take_out i subdomain m =
    let s = shard_at i m in
    put_shard i (record { tunnels = erase subdomain s.tunnels; used = erase subdomain s.used }) m

-- The code that takes a tunnel out of shard `i`, in `Unregister` and in `CleanupStale`.
unfoldable pub drop_tunnel : ℕ → Text → Manager → Manager × List Connection
unfolding take_out
drop_tunnel i subdomain m = elim (lookup subdomain (shard_at i m).tunnels) [
  | none ↦ (m, [])
  | some tc ↦ (release_ip tc.remote_ip (rollback_global (take_out i subdomain m)), close tc ∷ [])
]

unfoldable pub unregister : Text → Manager → Manager × List Connection
unfolding drop_tunnel
unregister subdomain m = drop_tunnel (shard_index subdomain) subdomain m

unfoldable pub stale_subdomains : ℕ → ℕ → List (Text × Connection) → List Text
stale_subdomains now timeout [] = []
stale_subdomains now timeout ((subdomain, tc) ∷ ts) =
    let rest = stale_subdomains now timeout ts in
    if is_alive now timeout tc then rest else subdomain ∷ rest

unfoldable pub drop_all : ℕ → List Text → Manager → Manager × List Connection
unfolding drop_tunnel
drop_all i [] m = (m, [])
drop_all i (subdomain ∷ rest) m =
    let (m1, one) = drop_tunnel i subdomain m in
    let (m2, more) = drop_all i rest m1 in (m2, one ++ more)

-- The shards from `i` on, `k` of them.
unfoldable pub cleanup_shards : ℕ → ℕ → ℕ → ℕ → Manager → Manager × List Connection × ℕ
unfolding drop_all stale_subdomains
cleanup_shards now timeout i zero m = (m, [], 0)
cleanup_shards now timeout i (suc k) m =
    let stale = stale_subdomains now timeout (shard_at i m).tunnels in
    let (m1, one) = drop_all i stale m in
    let (m2, more, n) = cleanup_shards now timeout (i + 1) k m1 in
    (m2, one ++ more, length stale + n)

unfoldable pub cleanup_stale : ℕ → ℕ → Manager → Manager × List Connection × ℕ
unfolding cleanup_shards
cleanup_stale now timeout m =
    let (m', closed, total) = cleanup_shards now timeout 0 num_shards m in
    (record m' { rate_limiter = (cleanup m'.rate_limiter now).0 }, closed, total)

unfoldable pub shutdown : Manager → Manager × List Connection
unfolding list
shutdown m = (
  record m {
    stop_ch = Channel.close m.stop_ch;
    shards = replicate num_shards empty_shard;
    tunnel_count = pos 0;
  },
  map close (list m),
)
