-- ===== src/Client/Tests.antt =====
-- internal/client/tcp: runs at concrete inputs.
use tunl.Base.{
  ℕ, ◌+◌, ◌*◌, ◌≡◌, refl, Option, none, some, List, [], ◌∷◌, arith, false, true, Text, codes,
  text_beq, text_eq,
}
use tunl.Base.Int.{pos}
use tunl.Base.Map.{lookup, insert, erase, Distinct}
use tunl.Tunnel.Manager.{positive_or}
use tunl.Client.Pool.{
  SessionHandle, PoolClient, new_pool_client, session_count, remove_idle_sessions,
}
use tunl.Client.Pool.Idle.{AllOpen, Taken, remove_idle_sessions-Taken}
use tunl.Client.Pool.Scaling.Bounds.{Sound}
use tunl.Client.Pool.Scaling.Runs.{Event, connects, fails, streams, scales, run, run-Sound}

abbrev session : ℕ → ℕ → SessionHandle
session active last_active = record { active = active; last_active = last_active; closed = false }

-- Two idle sessions and one with streams.
abbrev three : PoolClient
three = record (new_pool_client 4 (pos 0) (pos 0) (pos 0)) {
  has_primary = true;
  has_tunnel_id = true;
  data_sessions =
      (codes "data-1", session 0 20)
      ∷ (codes "data-2", session 5 30)
      ∷ (codes "data-3", session 0 10)
      ∷ [];
}

abbrev remaining : Option (PoolClient × ℕ) → List (Text × SessionHandle)
remaining none = []
remaining (some (c, _)) = c.data_sessions

oldest_idle_goes :
    remaining (remove_idle_sessions 1 three)
    ≡ (((codes "data-1", session 0 20) ∷ (codes "data-2", session 5 30) ∷ []))
unfolding remove_idle_sessions lookup erase text_beq
oldest_idle_goes = refl

three-Distinct : Distinct three.data_sessions
unfolding lookup text_beq
three-Distinct = (refl, (refl, (refl, tt)))

three-AllOpen : AllOpen three
unfolding lookup
three-AllOpen id h e = ground arith

remove_idle_sessions-Taken_example : Taken 3 three (remove_idle_sessions 3 three)
remove_idle_sessions-Taken_example = remove_idle_sessions-Taken 3 three three-Distinct three-AllOpen

-- Every dialing succeeds.
abbrev opens : ℕ → ℕ → Option Text
opens first i = some ((first + i) ∷ [])

abbrev after : ℕ → List Event → ℕ × ℕ
after cpus es = elim (run es (new_pool_client cpus (pos 0) (pos 6) (pos 0))) [
  | none ↦ (0, 0)
  | some c ↦ (session_count c, c.desired_total)
]

abbrev second : ℕ
second = 1_000_000_000

-- Four sessions under a load above nine tenths become the six that are allowed.
burst_to_max : after 2 (connects 0 (opens 0) true ∷ scales second 1000 (opens 10) ∷ []) ≡ (6, 6)
unfolding run session_count new_pool_client positive_or lookup insert text_beq
burst_to_max = refl

-- A session that failed is not replaced while the load is between six and nine tenths.
not_replaced :
    after 2 (
      connects 0 (opens 0) true
      ∷ scales second 1000 (opens 10)
      ∷ fails (10 ∷ [])
      ∷ scales (100 * second) 1000 (opens 20)
      ∷ [])
    ≡ (5, 6)
unfolding run session_count new_pool_client positive_or lookup insert erase text_beq
not_replaced = refl

run-Sound_example :
    (end : PoolClient) × (run
        (connects 0 (opens 0) true
          ∷ scales second 1000 (opens 10)
          ∷ streams (10 ∷ []) 3 second
          ∷ fails (1 ∷ [])
          ∷ scales (100 * second) 1 (opens 20)
          ∷ [])
        (new_pool_client 2 (pos 0) (pos 6) (pos 0))
      ≡ some end)
    × Sound 2 6 end
unfolding new_pool_client positive_or
run-Sound_example = run-Sound 2 (pos 0) (pos 6) (pos 0) (
    connects 0 (opens 0) true
    ∷ scales second 1000 (opens 10)
    ∷ streams (10 ∷ []) 3 second
    ∷ fails (1 ∷ [])
    ∷ scales (100 * second) 1 (opens 20)
    ∷ [])
