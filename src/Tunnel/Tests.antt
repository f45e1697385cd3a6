-- ===== src/Tunnel/Tests.antt =====
-- internal/server/tunnel: runs at concrete inputs.
use Prim.Native.Nat.{min}
use tunl.Base.{
  ℕ, ◌+◌, ◌≡◌, refl, true, false, Option, none, some, List, [], ◌∷◌, arith, if◌then◌else◌, Text,
  codes, text_beq, text_eq, nat_eq,
}
use tunl.Base.Map.{lookup, insert}
use tunl.Base.Int.{pos, negsuc}
use tunl.Base.{length}
use tunl.Tunnel.Connection.{Connection}
use tunl.Tunnel.Manager.Removal.{count, list}
use tunl.Tunnel.Manager.Invariant.{Inv}
use tunl.Tunnel.Manager.Register.{register_with_ip-Inv}
use tunl.Tunnel.Manager.Collision.{register_with_ip-generate_unique_subdomain}
use tunl.Utils.Subdomain.{generate_subdomain, is_reserved}
use tunl.Tunnel.RateLimiter.{RateLimiter, check_and_increment, cleanup}
use tunl.Tunnel.RateLimiter.Window.{Call, accepted, calls_for, accepted_in_window}
use tunl.Tunnel.RateLimiter.Cleanup.{accepted-cleanup}
use tunl.Tunnel.Connection.{
  connection_closed, new_connection, send_check, send_push, send, close, pump, quit,
}
use tunl.Tunnel.Connection.Lifecycle.{
  IsSound, Action, sends, closes, increments, decrements, resets, sets_open, pumps, touches,
  act_all, act_all-IsSound, send_push-close, close_final,
}
use tunl.Tunnel.Connection.Streams.{count_all, counted, tally, active_connections-count_all}
use tunl.Tunnel.Manager.Interleaving.{
  Phase, slotted, rated, holding, named, Job, skips, passes, picks, stores, World, Reaches, starts,
  moves, arrives, works,
}
use tunl.Tunnel.Manager.Interleaving.Safety.{IsWithin, Reaches-IsWithin}
use tunl.Tunnel.Manager.{
  Manager, store_tunnel, check_rate, reserve_global, ManagerConfig, new_manager, register_with_ip,
  generate_unique_subdomain, is_used, shard_index, fnv1a,
}
use tunl.Tunnel.Manager.Removal.{get, unregister}
use tunl.Tunnel.Manager.Runs.{
  Op, registers, unregisters, cleans, run, DrawsFresh, IsCounted, run-IsCounted, new_manager-Inv,
}
use tunl.Tunnel.Manager.Find.{closed_of, get-unregister}
use tunl.Tunnel.Manager.Outcome.{Outcome, register_with_ip-Outcome}

abbrev home : Text
home = codes "10.0.0.1"

abbrev limiter : RateLimiter
limiter = record { rate_limits = []; rate_limit = 2; rate_limit_window = 60 }

abbrev later_calls : List Call
later_calls = (codes "10.0.0.2", 110) ∷ (home, 120) ∷ (home, 130) ∷ []

three_calls : accepted home limiter ((home, 100) ∷ later_calls) ≡ 2
unfolding accepted check_and_increment lookup insert text_beq
three_calls = refl

accepted_in_window_example :
    accepted home limiter ((home, 100) ∷ later_calls)
    ≡ min 2 (calls_for home ((home, 100) ∷ later_calls))
unfolding lookup
accepted_in_window_example =
    accepted_in_window limiter home 100 later_calls (λ e. cc) (omega arith) (λ entry e. cc)
      (omega arith)

abbrev full_limiter : RateLimiter
full_limiter = record limiter {
  rate_limits =
      (codes "10.0.0.2", record { count = 2; window_end = 50 })
      ∷ (home, record { count = 1; window_end = 160 })
      ∷ [];
}

accepted-cleanup_example :
    accepted home (cleanup full_limiter 100).0 later_calls ≡ accepted home full_limiter later_calls
unfolding lookup text_beq
accepted-cleanup_example =
    accepted-cleanup full_limiter 100 home later_calls (refl, (refl, tt)) (omega arith)

act_all-IsSound_example : IsSound (
    act_all
      (sends home ∷ closes ∷ sends home ∷ closes ∷ pumps quit false ∷ [])
      (new_connection home true 5))
act_all-IsSound_example =
    act_all-IsSound home true 5 (sends home ∷ closes ∷ sends home ∷ closes ∷ pumps quit false ∷ [])

open-IsSound : IsSound (new_connection home true 5)
unfolding new_connection
open-IsSound = ground arith

send_push-close_example :
    (send_push (1 ∷ []) (close (new_connection home true 5))).0.send_ch.panicked ≡ true
unfolding send_check new_connection
send_push-close_example = send_push-close (1 ∷ []) (new_connection home true 5) open-IsSound refl

close_final_example :
    (close (close (new_connection home true 5)) ≡ close (new_connection home true 5))
    × (send (1 ∷ []) (close (new_connection home true 5))
        ≡ (close (new_connection home true 5), some connection_closed))
    × (pump quit true (close (new_connection home true 5))
        ≡ (close (new_connection home true 5), false))
close_final_example = close_final (1 ∷ []) true (new_connection home true 5) open-IsSound

abbrev streams : List Action
streams =
    increments
    ∷ increments
    ∷ decrements
    ∷ touches 9
    ∷ sets_open
    ∷ decrements
    ∷ increments
    ∷ resets
    ∷ []

active_connections-count_all_example :
    ((count_all streams
        (record { conn = new_connection home true 5; owing = 0 })).conn.active_connections
      ≡ tally streams 0)
    × ((count_all streams (record { conn = new_connection home true 5; owing = 0 })).owing ≡ 0)
unfolding new_connection counted
active_connections-count_all_example =
    active_connections-count_all streams (new_connection home true 5) (omega arith)
      (tt, (tt, (omega arith, (tt, (tt, (omega arith, (tt, (tt, tt))))))))

abbrev config : ManagerConfig
config = record {
  max_tunnels = pos 3;
  max_tunnels_per_ip = pos 2;
  rate_limit = pos 0;
  rate_limit_window = negsuc 4;
}

abbrev draws : ℕ → ℕ → Option ℕ
draws i k = some (i + k)

hash_of_a : fnv1a 2_166_136_261 (codes "a") ≡ 0xe40c292c
unfolding fnv1a
hash_of_a = refl

drawn : generate_unique_subdomain draws (new_manager config) ≡ codes "abcdef"
unfolding generate_unique_subdomain generate_subdomain is_reserved is_used new_manager lookup
    text_beq shard_index
drawn = refl

abbrev history : List Op
history =
    registers [] home false 100 draws
    ∷ registers (codes "my-app") home true 110 draws
    ∷ registers (codes "other-app") home true 120 draws
    ∷ unregisters (codes "my-app")
    ∷ cleans 500 300
    ∷ []

history_fresh : DrawsFresh history (new_manager config)
history_fresh = ((λ e. first), ((λ e. cc), ((λ e. cc), tt)))
  where
    first :
        is_used (generate_unique_subdomain draws (new_manager config)) (new_manager config) ≡ false
    first =
        unfold generate_unique_subdomain generate_subdomain is_reserved is_used new_manager lookup
          text_beq shard_index in
        refl

run-IsCounted_example : IsCounted (new_manager config) (run history (new_manager config))
run-IsCounted_example = run-IsCounted config history history_fresh

register_with_ip-Outcome_example :
    Outcome 0
      (λ ip. 0)
      (codes "my-app")
      home
      true
      100
      draws
      (new_manager config)
      (register_with_ip (codes "my-app") home true 100 draws (new_manager config))
register_with_ip-Outcome_example =
    register_with_ip-Outcome 0 (λ ip. 0) (codes "my-app") home true 100 draws (new_manager config)
      (new_manager-Inv config)

abbrev or_new : Option Manager → Manager
or_new none = new_manager config
or_new (some m) = m

abbrev named_job : Phase → Job
named_job p = record { custom = codes "my-app"; ip = home; has_conn = true; phase = p }

abbrev local_job : Phase → Job
local_job p = record { custom = []; ip = []; has_conn = true; phase = p }

abbrev one_reserved : Manager
one_reserved = or_new (reserve_global (new_manager config))

abbrev two_reserved : Manager
two_reserved = or_new (reserve_global one_reserved)

-- Two registrations that take turns, until the second has stored its tunnel.
abbrev two_at_work : World
two_at_work = record {
  manager = store_tunnel (codes "abcdef") [] true 9 (check_rate home 8 two_reserved).0;
  jobs = named_job rated ∷ [];
}

two_turns : Reaches (new_manager config) two_at_work
unfolding tunl.Base.Int.◌+ℤ◌ text_beq tunl.Tunnel.RateLimiter.new_rate_limiter
two_turns =
    moves (world checked (local_job (named (codes "abcdef")) ∷ named_job rated ∷ [])) two_at_work
      (moves (world checked (local_job holding ∷ named_job rated ∷ [])) _
        (moves (world two_reserved (local_job holding ∷ named_job slotted ∷ [])) _
          (moves (world two_reserved (local_job slotted ∷ named_job slotted ∷ [])) _
            (moves (world one_reserved (named_job slotted ∷ [])) _
              (moves (world (new_manager config) []) _ (starts _ refl refl)
                (arrives (codes "my-app") home true first refl))
              (arrives [] [] true second refl))
            (works [] (named_job slotted ∷ []) (local_job slotted) (some (local_job holding)) refl
              (skips refl refl) refl))
          (works (local_job holding ∷ []) [] (named_job slotted) (some (named_job rated)) refl
            (passes 8 refl (λ e. cc) passed) refl))
        (works [] (named_job rated ∷ []) (local_job holding)
          (some (local_job (named (codes "abcdef")))) refl (picks (codes "abcdef") refl refl) refl))
      (works [] (named_job rated ∷ []) (local_job (named (codes "abcdef"))) none refl
        (stores 9 (codes "abcdef") refl) refl)
  where
    world : Manager → List Job → World
    world m js = record { manager = m; jobs = js }

    checked : Manager
    checked = (check_rate home 8 two_reserved).0

    first : reserve_global (new_manager config) ≡ some one_reserved
    first = unfold reserve_global new_manager in refl

    second : reserve_global one_reserved ≡ some two_reserved
    second = unfold reserve_global new_manager in refl

    passed : (check_rate home 8 two_reserved).1 ≡ true
    passed = unfold reserve_global new_manager check_rate check_and_increment lookup in refl

Reaches-IsWithin_example : IsWithin (new_manager config) two_at_work
Reaches-IsWithin_example = Reaches-IsWithin config two_at_work two_turns

-- Two subdomains that the random numbers hit again and again.
abbrev same_draws : ℕ → ℕ → Option ℕ
same_draws i k = some 0

abbrev with_six : Manager
with_six = (register_with_ip (codes "aaaaaa") [] true 1 draws (new_manager config)).0

abbrev with_both : Manager
with_both = (register_with_ip (codes "aaaaaaaa") [] true 2 draws with_six).0

with_both-Inv : Inv 0 (λ ip. 0) with_both
with_both-Inv =
    register_with_ip-Inv 0 (λ ip. 0) (codes "aaaaaaaa") [] true 2 draws with_six
      (register_with_ip-Inv 0 (λ ip. 0) (codes "aaaaaa") [] true 1 draws (new_manager config)
        (new_manager-Inv config) (λ e. cc))
      (λ e. cc)

get-unregister_example :
    ((k : Text)
      → get k (unregister (codes "aaaaaa") with_both).0
        ≡ (if text_beq (codes "aaaaaa") k then none else get k with_both))
    × ((unregister (codes "aaaaaa") with_both).1 ≡ closed_of (get (codes "aaaaaa") with_both))
get-unregister_example = get-unregister 0 (λ ip. 0) (codes "aaaaaa") with_both with_both-Inv

abbrev third_slot : Manager
third_slot = or_new (reserve_global with_both)

abbrev or_connection : Option Connection → Connection
or_connection none = new_connection [] true 0
or_connection (some tc) = tc

register_with_ip-generate_unique_subdomain_example :
    count (register_with_ip [] [] true 9 same_draws with_both).0
    ≡ pos (1 + length (list (register_with_ip [] [] true 9 same_draws with_both).0))
register_with_ip-generate_unique_subdomain_example =
    register_with_ip-generate_unique_subdomain true 9 same_draws with_both third_slot
      (or_connection (get (codes "aaaaaaaa") third_slot)) with_both-Inv reserved taken
  where
    reserved : reserve_global with_both ≡ some third_slot
    reserved =
        unfold reserve_global register_with_ip tunl.Tunnel.Manager.register_slot
          tunl.Tunnel.Manager.claim tunl.Tunnel.Manager.claim_custom
          tunl.Tunnel.Manager.store_tunnel tunl.Tunnel.Manager.positive_or
          tunl.Tunnel.Manager.shard_at tunl.Tunnel.Manager.put_shard new_manager text_beq lookup
          insert shard_index fnv1a is_used is_reserved generate_subdomain generate_unique_subdomain
          get tunl.Utils.Subdomain.validate_subdomain tunl.Utils.Subdomain.regex_matches
          tunl.Base.Int.◌+ℤ◌ tunl.Tunnel.RateLimiter.new_rate_limiter in
        refl

    taken :
        get (generate_unique_subdomain same_draws third_slot) third_slot
        ≡ some (or_connection (get (codes "aaaaaaaa") third_slot))
    taken =
        unfold reserve_global register_with_ip tunl.Tunnel.Manager.register_slot
          tunl.Tunnel.Manager.claim tunl.Tunnel.Manager.claim_custom
          tunl.Tunnel.Manager.store_tunnel tunl.Tunnel.Manager.positive_or
          tunl.Tunnel.Manager.shard_at tunl.Tunnel.Manager.put_shard new_manager text_beq lookup
          insert shard_index fnv1a is_used is_reserved generate_subdomain generate_unique_subdomain
          get tunl.Utils.Subdomain.validate_subdomain tunl.Utils.Subdomain.regex_matches
          tunl.Base.Int.◌+ℤ◌ tunl.Tunnel.RateLimiter.new_rate_limiter in
        refl
