-- ===== src/Tunnel/Manager.antt =====
-- internal/server/tunnel/manager.go: the tunnels by subdomain, in 32 shards, and the counters that
-- bound their number. What one goroutine does under a lock, or by one atomic operation, is one
-- function; `register_with_ip` is the sequence of them that a registration runs. The number of
-- tunnels is an int64 that the theorems keep between 0 and `max_tunnels`, so it is an integer here.
-- Log lines and Prometheus metrics are left out.
pub mod Removal
pub mod Shards
pub mod Invariant
pub mod Stored
pub mod Register
pub mod Limits
pub mod Runs
pub mod Find
pub mod Outcome
pub mod Interleaving
pub mod Collision
pub mod Update
use Prim.Native.Nat.{bit_xor}
use tunl.Base.{
  ℕ, zero, suc, ◌+◌, ◌-◌, ◌*◌, ◌%◌, ◌^◌, ◌≡◌, refl, Bool, true, false, not, ◌&&◌, ◌||◌, Option,
  none, some, List, [], ◌∷◌, ◌++◌, ltb, leb, ◌==◌, if◌then◌else◌, Text, text_beq, text_eq, ok, err,
  length, get_or, set, replicate,
}
use tunl.Base.Int.{ℤ, pos, negsuc, ◌+ℤ◌, ◌-ℤ◌, ltb_ℤ}
use tunl.Base.Result.{Result}
use tunl.Base.Channel
use tunl.Base.Channel.{Channel}
use tunl.Base.Map.{lookup, insert, erase}
use tunl.Utils.Subdomain.{validate_subdomain, is_reserved, generate_subdomain}
use tunl.Tunnel.Connection.{Connection, new_connection, is_alive, close}
use tunl.Tunnel.RateLimiter.{RateLimiter, new_rate_limiter, check_and_increment, cleanup}

abbrev pub num_shards : ℕ
num_shards = 32

pub data Error : Type 0 where
  too_many_tunnels too_many_per_ip rate_limit_exceeded : Error
  subdomain_taken invalid_subdomain reserved_subdomain : Error

pub record Shard : Type 0 where
  pub tunnels : List (Text × Connection)
  pub used : List (Text × Bool)

pub record Manager : Type 0 where
  pub shards : List Shard
  pub max_tunnels : ℕ
  pub max_tunnels_per_ip : ℕ
  pub tunnel_count : ℤ
  pub tunnels_by_ip : List (Text × ℕ)
  pub rate_limiter : RateLimiter
  pub stop_ch : Channel (Unit {0})

pub record ManagerConfig : Type 0 where
  pub max_tunnels : ℤ
  pub max_tunnels_per_ip : ℤ
  pub rate_limit : ℤ
  pub rate_limit_window : ℤ

-- `if x <= 0 { x = default }`
unfoldable pub positive_or : ℕ → ℤ → ℕ
positive_or d (pos n) = if n == 0 then d else n
positive_or d (negsuc n) = d

abbrev pub empty_shard : Shard
empty_shard = record { tunnels = []; used = [] }

-- The window is in nanoseconds: one minute by default.
unfoldable pub new_manager : ManagerConfig → Manager
unfolding positive_or
new_manager cfg = record {
  shards = replicate num_shards empty_shard;
  max_tunnels = positive_or 1000 cfg.max_tunnels;
  max_tunnels_per_ip = positive_or 10 cfg.max_tunnels_per_ip;
  tunnel_count = pos 0;
  tunnels_by_ip = [];
  rate_limiter =
      new_rate_limiter (positive_or 10 cfg.rate_limit)
        (positive_or 60_000_000_000 cfg.rate_limit_window);
  stop_ch = Channel.make 0;
}

-- 32-bit FNV-1a, as `hash/fnv` computes it.
unfoldable pub fnv1a : ℕ → Text → ℕ
fnv1a h [] = h
fnv1a h (c ∷ s) = fnv1a (bit_xor h c * 16_777_619 % 2 ^ 32) s

unfoldable pub shard_index : Text → ℕ
unfolding fnv1a
shard_index s = fnv1a 2_166_136_261 s % num_shards

unfoldable pub shard_at : ℕ → Manager → Shard
shard_at i m = get_or m.shards i empty_shard

unfoldable pub put_shard : ℕ → Shard → Manager → Manager
put_shard i s m = record m { shards = set m.shards i s }

-- Reserving a slot: the compare-and-swap loop ends with one successful increment.
unfoldable pub reserve_global : Manager → Option Manager
reserve_global m =
    if ltb_ℤ m.tunnel_count (pos m.max_tunnels)
    then some (record m { tunnel_count = m.tunnel_count +ℤ pos 1 })
    else none

unfoldable pub rollback_global : Manager → Manager
rollback_global m = record m { tunnel_count = m.tunnel_count -ℤ pos 1 }

-- `m.tunnelsByIP[ip]`, which is 0 for an address that is not there.
unfoldable pub ip_count : Text → Manager → ℕ
ip_count ip m = elim (lookup ip m.tunnels_by_ip) [ none ↦ 0 | some n ↦ n ]

unfoldable pub check_rate : Text → ℕ → Manager → Manager × Bool
check_rate ip now m =
    let (rl, let_in) = check_and_increment m.rate_limiter ip now in
    (record m { rate_limiter = rl }, let_in)

unfoldable pub reserve_ip : Text → Manager → Option Manager
unfolding ip_count
reserve_ip ip m =
    if leb m.max_tunnels_per_ip (ip_count ip m)
    then none
    else some (record m { tunnels_by_ip = insert ip (ip_count ip m + 1) m.tunnels_by_ip })

-- The code that gives a slot of an address back, in `rollbackPerIP`, `Unregister` and
-- `CleanupStale`.
unfoldable pub release_ip : Text → Manager → Manager
unfolding ip_count
release_ip ip m =
    if text_beq ip []
    then m
    else let n = ip_count ip m in
      if ltb 0 n
      then if n - 1 == 0
        then record m { tunnels_by_ip = erase ip m.tunnels_by_ip }
        else record m { tunnels_by_ip = insert ip (n - 1) m.tunnels_by_ip }
      else m

unfoldable pub is_used : Text → Manager → Bool
unfolding shard_at
is_used s m = elim (lookup s (shard_at (shard_index s) m).used) [ none ↦ false | some b ↦ b ]

-- A new connection under a subdomain, in its shard; whatever stood there is overwritten.
unfoldable pub store_tunnel : Text → Text → Bool → ℕ → Manager → Manager
unfolding shard_at put_shard
store_tunnel subdomain ip has_conn now m =
    let i = shard_index subdomain in
    let s = shard_at i m in
    let tc = record (new_connection subdomain has_conn now) { remote_ip = ip } in
    put_shard i
      (record { tunnels = insert subdomain tc s.tunnels; used = insert subdomain true s.used }) m

-- The locked part of a registration under a custom subdomain.
unfoldable pub claim_custom : Text → Text → Bool → ℕ → Manager → Result Error Manager
claim_custom custom ip has_conn now m =
    if not (validate_subdomain custom)
    then err invalid_subdomain
    else if is_reserved custom
    then err reserved_subdomain
    else if is_used custom m
    then err subdomain_taken
    else ok (store_tunnel custom ip has_conn now m)

-- Attempt `i` draws its characters by `draws i`; the last attempt is not tested.
unfoldable pub unique_from : (ℕ → ℕ → Option ℕ) → Manager → ℕ → ℕ → Text
unique_from draws m i zero = generate_subdomain (draws i) 8
unique_from draws m i (suc n) =
    let subdomain = generate_subdomain (draws i) 6 in
    let rest = unique_from draws m (i + 1) n in
    if is_reserved subdomain then rest else if is_used subdomain m then rest else subdomain

unfoldable pub generate_unique_subdomain : (ℕ → ℕ → Option ℕ) → Manager → Text
unfolding unique_from
generate_unique_subdomain draws m = unique_from draws m 0 10

-- A registration that got its slots and then failed.
unfoldable pub roll_back : Text → Manager → Manager
roll_back ip m = rollback_global (release_ip ip m)

claim_generated : Text → Text → Bool → ℕ → Manager → Manager × Result Error Text
claim_generated subdomain ip has_conn now m =
    (store_tunnel subdomain ip has_conn now m, ok subdomain)

-- The last part of a registration.
unfoldable pub claim :
    Text → Text → Bool → ℕ → (ℕ → ℕ → Option ℕ) → Manager → Manager × Result Error Text
unfolding claim_generated
claim custom ip has_conn now draws m =
    if text_beq custom []
    then claim_generated (generate_unique_subdomain draws m) ip has_conn now m
    else elim (claim_custom custom ip has_conn now m) [
      | ok m' ↦ (m', ok custom)
      | err e ↦ (roll_back ip m, err e)
    ]

-- The checks of the address and then the last part, after the global slot.
unfoldable pub register_slot :
    Text → Text → Bool → ℕ → (ℕ → ℕ → Option ℕ) → Manager → Manager × Result Error Text
register_slot custom ip has_conn now draws m =
    if text_beq ip []
    then claim custom ip has_conn now draws m
    else let (m1, let_in) = check_rate ip now m in
      if let_in
      then elim (reserve_ip ip m1) [
        | none ↦ (rollback_global m1, err too_many_per_ip)
        | some m2 ↦ claim custom ip has_conn now draws m2
      ]
      else (rollback_global m1, err rate_limit_exceeded)

unfoldable pub register_with_ip :
    Text → Text → Bool → ℕ → (ℕ → ℕ → Option ℕ) → Manager → Manager × Result Error Text
register_with_ip custom ip has_conn now draws m = elim (reserve_global m) [
  | none ↦ (m, err too_many_tunnels)
  | some m' ↦ register_slot custom ip has_conn now draws m'
]
