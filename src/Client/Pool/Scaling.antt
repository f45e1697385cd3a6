-- ===== src/Client/Pool/Scaling.antt =====
-- internal/client/tcp/session_scaler.go: how many sessions the scaler keeps. Times are in nanoseconds,
-- and the tests on the load, a quotient of integers far below 2^53, are written on integers.
pub mod Branches
pub mod Bounds
pub mod Runs
use tunl.Base.{
  ℕ, ◌+◌, ◌-◌, ◌*◌, Bool, ◌&&◌, Option, none, some, List, [], ◌∷◌, ltb, ◌==◌, if◌then◌else◌, Text,
  text_eq,
}
use Prim.Native.Nat.{min, max}
use tunl.Base.Map.{lookup, insert}
use tunl.Client.Pool.{
  SessionHandle, PoolClient, session_count, add_data_session, add_sessions, remove_data_session,
  remove_idle_sessions, connected, close_client,
}

-- The number of sessions wanted, which the first round sets.
unfoldable pub with_desired : PoolClient → PoolClient
with_desired c = if c.desired_total == 0 then record c { desired_total = c.initial_sessions } else c

unfoldable pub rescale : ℕ → ℕ → PoolClient → PoolClient
rescale desired now c = record c { desired_total = desired; last_scale = now }

-- `load > threshold` where the threshold is `tenths` tenths.
unfoldable pub load_above : ℕ → ℕ → ℕ → Bool
load_above tenths active current = ltb (tenths * (current * 256)) (active * 10)

unfoldable pub load_below : ℕ → ℕ → ℕ → Bool
load_below tenths active current = ltb (active * 10) (tenths * (current * 256))

unfoldable pub burst : ℕ → (ℕ → Option Text) → PoolClient → PoolClient
unfolding add_sessions rescale session_count
burst now opens c =
    let current = session_count c in
    let to_add = min 4 (c.max_sessions - current) in
    rescale (current + to_add) now (add_sessions now opens to_add c)

unfoldable pub scale_up : ℕ → (ℕ → Option Text) → PoolClient → PoolClient
unfolding add_data_session rescale
scale_up now opens c =
    let new_desired = min (c.desired_total + 1) c.max_sessions in
    if ltb (now - c.last_scale) 1_000_000_000
    then c
    else if ltb c.desired_total new_desired
    then rescale new_desired now (add_data_session now (opens 0) c)
    else c

unfoldable pub scale_down : ℕ → PoolClient → Option PoolClient
unfolding remove_idle_sessions rescale session_count
scale_down now c =
    let new_desired = max (c.desired_total - 1) c.min_sessions in
    if ltb (now - c.last_scale) 60_000_000_000
    then some c
    else if ltb new_desired c.desired_total && ltb new_desired (session_count c)
    then elim (remove_idle_sessions 1 c) [
      | none ↦ none
      | some (c', _) ↦ some (rescale new_desired now c')
    ]
    else some c

-- What a round does with `current` sessions, once the wanted number is set.
unfoldable pub adjust : ℕ → ℕ → (ℕ → Option Text) → ℕ → PoolClient → Option PoolClient
unfolding burst scale_up scale_down load_above load_below
adjust now active opens current c =
    if current == 0
    then some c
    else if load_above 9 active current && ltb current c.max_sessions
    then some (burst now opens c)
    else if load_above 6 active current && ltb current c.max_sessions
    then some (scale_up now opens c)
    else if load_below 2 active current && ltb c.min_sessions current
    then scale_down now c
    else some c

-- A round of `scalerLoop` at the time `now`, with `active` connections.
unfoldable pub scaler_round : ℕ → ℕ → (ℕ → Option Text) → PoolClient → Option PoolClient
unfolding adjust with_desired session_count
scaler_round now active opens c =
    let c' = with_desired c in adjust now active opens (session_count c') c'

-- A stream that a session accepts, or that ends, changes its count.
unfoldable pub set_streams : Text → ℕ → ℕ → PoolClient → PoolClient
set_streams id n now c = elim (lookup id c.data_sessions) [
  | none ↦ c
  | some h ↦ record c {
    data_sessions = insert id (record h { active = n; last_active = now }) c.data_sessions;
  }
]
