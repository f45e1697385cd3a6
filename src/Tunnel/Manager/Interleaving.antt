-- ===== src/Tunnel/Manager/Interleaving.antt =====
-- internal/server/tunnel/manager.go: registrations and removals of many goroutines. Each step is
-- what one goroutine does under one lock or by one atomic operation, and any goroutine may run next;
-- `Shutdown` is no step.
pub mod Safety
use tunl.Base.{
  ℕ, zero, suc, ◌+◌, ◌-◌, ◌*◌, ◌/◌, ◌%◌, ◌^◌, ◌≤◌, ◌<◌, ◌≡◌, refl, sym, ap, subst, ◌∙◌, ◌≢◌, ◌↔◌,
  ◌⊎◌, inl, inr, Bool, true, false, not, ◌&&◌, ◌||◌, Option, none, some, List, [], ◌∷◌, ◌++◌, map,
  arith, ltb, leb, ◌==◌, if◌then◌else◌, ltb→lt, lt→ltb, leb→le, ==_iff, Bool-cases, Option-cases,
  holds_below, holds_below_lem, Text, codes, Eq, text_beq, text_beq_iff, text_beq_refl, text_eq,
  nat_eq, length, get_elem?, set, get_or, take, drop, replicate, length-append, length-set,
  length-take, length-drop, length-map, length-replicate, All, bit, sum_by, sum_by-append,
  sum_by-set, ok, err, take-append, take_all, take_none, take-nil, length_zero, take-append-drop,
  take-append_length, drop-append_length,
}
use tunl.Base.Result.{Result}
use tunl.Base.Map.{lookup}
use tunl.Tunnel.Connection.{Connection}
use tunl.Tunnel.RateLimiter.{cleanup}
use tunl.Tunnel.Manager.{
  Manager, Error, num_shards, shard_at, shard_index, is_used, store_tunnel, reserve_global,
  rollback_global, check_rate, reserve_ip, release_ip, claim_custom,
}
use tunl.Tunnel.Manager.Removal.{take_out}
use tunl.Tunnel.Manager.Invariant.{
  Inv, Inv-slots, Inv-rate_limiter, plus, reserve_global-Inv, rollback_global-Inv, check_rate-Inv,
  reserve_ip-Inv, release_ip-Inv,
}
use tunl.Tunnel.Manager.Stored.{
  lookup-is_used, store_tunnel-fresh, store_tunnel-over, take_out-Inv, shard_index-lt,
}
use tunl.Tunnel.Manager.Register.{claim_custom_cases}

-- Where a goroutine is: on its way through a registration (`slotted` to `named`), giving slots back
-- after a failure (`failing`, `unwinding`), or after it took a tunnel out (`removed`, `counted`).
pub data Phase : Type 0 where
  slotted rated holding failing unwinding removed counted : Phase
  named : Text → Phase

pub record Job : Type 0 where
  pub custom : Text
  pub ip : Text
  pub has_conn : Bool
  pub phase : Phase

-- One step of a goroutine: what is left of its job, and the manager after it. The subdomain that a
-- registration picks is any one, since the shards are read one after the other while others run.
pub data JobStep (j : Job) (m : Manager) : Option Job → Manager → Type 0 where
  skips : j.phase ≡ slotted → j.ip ≡ [] → JobStep j m (some (record j { phase = holding })) m
  passes :
      (now : ℕ)
      → j.phase ≡ slotted
      → j.ip ≢ []
      → (check_rate j.ip now m).1 ≡ true
      → JobStep j m (some (record j { phase = rated })) (check_rate j.ip now m).0
  limited :
      (now : ℕ)
      → j.phase ≡ slotted
      → j.ip ≢ []
      → (check_rate j.ip now m).1 ≡ false
      → JobStep j m (some (record j { phase = unwinding })) (check_rate j.ip now m).0
  reserves :
      (m' : Manager)
      → j.phase ≡ rated
      → j.ip ≢ []
      → reserve_ip j.ip m ≡ some m'
      → JobStep j m (some (record j { phase = holding })) m'
  crowded :
      j.phase ≡ rated
      → reserve_ip j.ip m ≡ none
      → JobStep j m (some (record j { phase = unwinding })) m
  claims :
      (now : ℕ) (m' : Manager)
      → j.phase ≡ holding
      → j.custom ≢ []
      → claim_custom j.custom j.ip j.has_conn now m ≡ ok m'
      → JobStep j m none m'
  refuses :
      (now : ℕ) (e : Error)
      → j.phase ≡ holding
      → j.custom ≢ []
      → claim_custom j.custom j.ip j.has_conn now m ≡ err e
      → JobStep j m (some (record j { phase = failing })) m
  picks :
      (s : Text)
      → j.phase ≡ holding
      → j.custom ≡ []
      → JobStep j m (some (record j { phase = named s })) m
  stores :
      (now : ℕ) (s : Text)
      → j.phase ≡ named s
      → JobStep j m none (store_tunnel s j.ip j.has_conn now m)
  gives_ip :
      j.phase ≡ failing → JobStep j m (some (record j { phase = unwinding })) (release_ip j.ip m)
  unwinds : j.phase ≡ unwinding → JobStep j m none (rollback_global m)
  uncounts :
      j.phase ≡ removed → JobStep j m (some (record j { phase = counted })) (rollback_global m)
  ends : j.phase ≡ counted → JobStep j m none (release_ip j.ip m)

pub record World : Type 0 where
  pub manager : Manager
  pub jobs : List Job

abbrev pub rest_of : Option Job → List Job
rest_of none = []
rest_of (some j) = j ∷ []

abbrev removal : Text → Job
removal ip = record { custom = []; ip = ip; has_conn = false; phase = removed }

pub data Step (w w' : World) : Type 0 where
  arrives :
      (custom ip : Text) (has_conn : Bool)
      → reserve_global w.manager ≡ some w'.manager
      → w'.jobs ≡ record { custom = custom; ip = ip; has_conn = has_conn; phase = slotted } ∷ w.jobs
      → Step w w'
  works :
      (before after : List Job) (j : Job) (r : Option Job)
      → w.jobs ≡ before ++ (j ∷ after)
      → JobStep j w.manager r w'.manager
      → w'.jobs ≡ before ++ (rest_of r ++ after)
      → Step w w'
  removes :
      (s : Text) (tc : Connection)
      → lookup s (shard_at (shard_index s) w.manager).tunnels ≡ some tc
      → w'.manager ≡ take_out (shard_index s) s w.manager
      → w'.jobs ≡ removal tc.remote_ip ∷ w.jobs
      → Step w w'
  sweeps :
      (now : ℕ)
      → w'.manager ≡ record w.manager { rate_limiter = (cleanup w.manager.rate_limiter now).0 }
      → w'.jobs ≡ w.jobs
      → Step w w'

-- The states that a manager gets to, from no goroutine at work.
pub data Reaches (m : Manager) : World → Type 0 where
  starts : (w : World) → w.manager ≡ m → w.jobs ≡ [] → Reaches m w
  moves : (u w : World) → Reaches m u → Step u w → Reaches m w

-- The slots that a goroutine holds.
abbrev pub global_slot : Phase → ℕ
global_slot counted = 0
global_slot p = 1

abbrev pub ip_slot : Text → Phase → Text → ℕ
ip_slot ip slotted k = 0
ip_slot ip rated k = 0
ip_slot ip unwinding k = 0
ip_slot ip p k = bit (text_beq ip k)

abbrev pub global_slots : List Job → ℕ
global_slots = sum_by (λ j. global_slot j.phase)

abbrev pub ip_slots : List Job → Text → ℕ
ip_slots js k = sum_by (λ j. ip_slot j.ip j.phase k) js
