-- ===== src/Client/Pool.antt =====
-- internal/client/tcp/pool_client.go, pool_session.go and session_scaler.go: the sessions of a client,
-- how many it keeps and which it gives up. Dialing is an argument: the identifier of the session that
-- it opens, if it succeeds. One goroutine works at a time.
pub mod Idle
pub mod Scaling
use tunl.Base.{
  ℕ, zero, suc, ◌+◌, ◌-◌, ◌*◌, ◌≡◌, Bool, true, false, not, ◌&&◌, ◌||◌, Option, none, some, List,
  [], ◌∷◌, ◌++◌, ltb, leb, ◌==◌, if◌then◌else◌, Text, text_eq, length, bit, codes, map,
}
use Prim.Native.Nat.{min, max}
use tunl.Base.Int.{ℤ}
use tunl.Base.Map.{lookup, insert, erase}
use tunl.Tunnel.Manager.{positive_or}

pub record SessionHandle : Type 0 where
  pub active : ℕ
  pub last_active : ℕ
  pub closed : Bool

-- `closings` records the sessions that were closed. The primary session is not among `data_sessions`.
pub record PoolClient : Type 0 where
  pub min_sessions : ℕ
  pub max_sessions : ℕ
  pub initial_sessions : ℕ
  pub has_primary : Bool
  pub has_tunnel_id : Bool
  pub data_sessions : List (Text × SessionHandle)
  pub desired_total : ℕ
  pub last_scale : ℕ
  pub stopped : Bool
  pub closings : List Text

-- The bounds that `NewPoolClient` makes of its settings.
unfoldable pub new_pool_client : ℕ → ℤ → ℤ → ℤ → PoolClient
new_pool_client num_cpu pool_min pool_max pool_size =
    let low = positive_or 2 pool_min in
    let high = max (positive_or (max (num_cpu * 16) low) pool_max) low in
    record {
      min_sessions = low;
      max_sessions = high;
      initial_sessions = min (max (positive_or 4 pool_size) low) high;
      has_primary = false;
      has_tunnel_id = false;
      data_sessions = [];
      desired_total = 0;
      last_scale = 0;
      stopped = false;
      closings = [];
    }

unfoldable pub session_count : PoolClient → ℕ
session_count c = length c.data_sessions + bit c.has_primary

-- The end of `addDataSession`, which stores the session; it does not test again whether the client was
-- closed while it dialed.
abbrev pub store_session : ℕ → Text → PoolClient → PoolClient
store_session now id c = record c {
  data_sessions =
      insert id (record { active = 0; last_active = now; closed = false }) c.data_sessions;
}

-- `addDataSession` with nothing in between, where `opened` is the identifier of the session that dialing
-- gave.
unfoldable pub add_data_session : ℕ → Option Text → PoolClient → PoolClient
add_data_session now opened c =
    if c.stopped || not c.has_tunnel_id
    then c
    else elim opened [ none ↦ c | some id ↦ store_session now id c ]

-- `n` calls of it; `opens` gives the outcome of each.
unfoldable pub add_sessions : ℕ → (ℕ → Option Text) → ℕ → PoolClient → PoolClient
unfolding add_data_session
add_sessions now opens zero c = c
add_sessions now opens (suc n) c = add_sessions now opens n (add_data_session now (opens n) c)

unfoldable pub remove_data_session : Text → PoolClient → PoolClient × Bool
remove_data_session id c =
    let c' = record c { data_sessions = erase id c.data_sessions } in
    elim (lookup id c.data_sessions) [
      | none ↦ (c', false)
      | some h ↦
          if h.closed then (c', false) else (record c' { closings = c.closings ++ (id ∷ []) }, true)
    ]

-- What `removeIdleSessions` notes of a session before it starts.
pub record Candidate : Type 0 where
  pub streams : ℕ
  pub since : ℕ

unfoldable pub snapshot : List (Text × SessionHandle) → List (Text × Candidate)
snapshot [] = []
snapshot ((id, h) ∷ hs) = (id, record { streams = h.active; since = h.last_active }) ∷ snapshot hs

unfoldable pub is_idle : Candidate → Bool
is_idle k = k.streams == 0

-- The candidate that has been idle for longest, the first of several.
unfoldable pub find_best : List (Text × Candidate) → Option (Text × Candidate)
unfolding is_idle
find_best [] = none
find_best ((id, k) ∷ ks) = elim (find_best ks) [
  | none ↦ if is_idle k then some (id, k) else none
  | some (j, b) ↦ if is_idle k && leb k.since b.since then some (id, k) else some (j, b)
]

-- The loop of `removeIdleSessions`, which has `left` sessions to remove yet. Without fuel there is no
-- answer.
unfoldable pub remove_loop : ℕ → ℕ → List (Text × Candidate) → PoolClient → Option (PoolClient × ℕ)
unfolding find_best remove_data_session
remove_loop zero left ks c = none
remove_loop (suc fuel) zero ks c = some (c, 0)
remove_loop (suc fuel) (suc left) ks c = elim (find_best ks) [
  | none ↦ some (c, suc left)
  | some (id, k) ↦
      let (c', removed) = remove_data_session id c in
      remove_loop fuel (if removed then left else suc left)
        (insert id (record k { streams = 1 }) ks) c'
]

-- `removeIdleSessions`, and how many it did not find to remove.
unfoldable pub remove_idle_sessions : ℕ → PoolClient → Option (PoolClient × ℕ)
unfolding remove_loop snapshot
remove_idle_sessions n c = remove_loop (suc (length c.data_sessions)) n (snapshot c.data_sessions) c

-- The sessions that are opened when the client has connected.
unfoldable pub warmup_sessions : ℕ → (ℕ → Option Text) → PoolClient → PoolClient
unfolding add_sessions session_count
warmup_sessions now opens c =
    if c.stopped || not c.has_tunnel_id
    then c
    else add_sessions now opens (c.desired_total - session_count c) c

-- What `Connect` does once the server has answered; `supports` says that the answer names a tunnel
-- that takes data connections.
unfoldable pub connected : ℕ → (ℕ → Option Text) → Bool → PoolClient → PoolClient
unfolding warmup_sessions
connected now opens supports c =
    let c' = record c { has_primary = true } in
    if supports
    then warmup_sessions now opens
        (record c' { has_tunnel_id = true; desired_total = c.initial_sessions })
    else c'

-- `Close`.
unfoldable pub close_client : PoolClient → PoolClient
close_client c = if c.stopped then c else record c {
  stopped = true;
  has_primary = false;
  data_sessions = [];
  closings =
      c.closings
      ++ map (λ x. x.0) c.data_sessions
      ++ (if c.has_primary then codes "primary" ∷ [] else []);
}
