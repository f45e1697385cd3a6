-- ===== src/Tcp/Tests.antt =====
-- internal/server/tcp: runs at concrete inputs.
use tunl.Base.{
  ℕ, ◌≡◌, ◌≤◌, ◌+◌, refl, true, Bool, Option, some, List, [], ◌∷◌, arith, ◌==◌, not, nat_eq,
  if◌then◌else◌,
}
use tunl.Base.Int.{pos}
use tunl.Base.Map.{lookup, insert, erase}
use tunl.Base.{Text, codes, text_eq, text_beq, none, false}
use tunl.Base.Channel
use tunl.Tcp.ConnectionGroup.{
  add_session, remove_session, new_connection_group, ConnectionGroup, Ping, failed, answered,
  heartbeat, close_group,
}
use tunl.Tcp.ConnectionGroup.Heartbeat.{answers, is_dead, heartbeat-is_dead}
use tunl.Tcp.ConnectionGroup.Streams.{Mux, open_stream}
use tunl.Tcp.ConnectionGroup.Streams.Choice.{Outcome, open_stream-Outcome}
use tunl.Base.Result.{ok, err}
use tunl.Tcp.GroupManager.{ConnectionGroupManager, get_group, cleanup_stale_groups}
use tunl.Tcp.GroupManager.Cleanup.{fresh_only, get_group-cleanup_stale_groups, close_group_final}
use tunl.Tcp.PortAllocator.{PortAllocator, new_port_allocator, allocate, is_taken}
use tunl.Base.{ne_of_text_beq, ap}
use tunl.Netutil.Tests.{known}
use tunl.Tunnel.Manager.{
  ManagerConfig, new_manager, is_used, generate_unique_subdomain, shard_at, shard_index,
}
use tunl.Tunnel.Manager.Runs.{new_manager-Inv, shard_at-replicate}
use tunl.Tcp.Registration.{give_back_port, Server, Draws, RegistrationRequest}
use tunl.Tcp.Lifecycle.{
  LifecycleManager, new_lifecycle_manager, DataConnectRequest, data_connect, ConnectionConfig,
  Traffic, registers, handle_and_close,
}
use tunl.Tcp.Lifecycle.Whole.{Ready, handle_and_close-Leaves}
use tunl.Tcp.Lifecycle.Visit.{Leaves}
use tunl.Proxy.Routing.{is_allowed_in}
use tunl.Tcp.Lifecycle.Groups.{group_in}
use tunl.Tcp.PortAllocator.Outcome.{Attempts, allocate-Attempts}
use tunl.Tcp.PortAllocator.Exclusive.{
  Call, allocates, asks, releases, IsExclusive, run, run-IsExclusive,
}

abbrev ports : PortAllocator
ports = record { min = 20_000; max = 20_002; used = (20_001, true) ∷ [] }

-- The first two attempts draw a port that is reserved and one that is busy.
abbrev draw : ℕ → Option ℕ
draw i = if i == 0 then some 1 else some 0

abbrev listens : ℕ → ℕ → Bool
listens i port = not (i == 1)

third : (allocate draw listens ports).0.used ≡ (20_001, true) ∷ (20_000, true) ∷ []
unfolding allocate lookup insert is_taken
third = refl

allocate-Attempts_example : Attempts draw listens 0 3 ports (allocate draw listens ports)
allocate-Attempts_example = allocate-Attempts draw listens ports

abbrev new_ports : PortAllocator
new_ports = record { min = 20_000; max = 20_002; used = [] }

abbrev port_calls : List Call
port_calls =
    asks 20_001 true ∷ allocates draw listens ∷ releases 20_001 ∷ allocates draw listens ∷ []

draw_below : (i k : ℕ) → draw i ≡ some k → k ≤ 2
draw_below i k e = ground arith

run-IsExclusive_example :
    (1 ≤ 20_000)
    × (20_002 ≤ 65535)
    × IsExclusive 20_000 20_002 (run port_calls (record { allocator = new_ports; held = [] }))
run-IsExclusive_example =
    run-IsExclusive (pos 20_000) (pos 20_002) new_ports port_calls
      (unfold new_port_allocator in refl)
      ((λ i k e. omega (arith, draw_below i k e)), ((λ i k e. omega (arith, draw_below i k e)), tt))

abbrev two_sessions : ConnectionGroup
two_sessions = record {
  token = [];
  sessions = (codes "a", 7) ∷ (codes "b", 8) ∷ [];
  last_activity = 5;
  stop_ch = Channel.make 0;
  heartbeat_started = true;
  closings = [];
}

abbrev pings : List (Text × Ping)
pings =
    (codes "a", failed)
    ∷ (codes "b", answered 10)
    ∷ (codes "a", failed)
    ∷ (codes "b", failed)
    ∷ (codes "a", failed)
    ∷ []

heartbeat-is_dead_example :
    lookup (codes "a") (heartbeat pings (two_sessions, [])).0.sessions
    ≡ (if is_dead 0 (answers (codes "a") pings) then none else some 7)
unfolding lookup text_beq
heartbeat-is_dead_example =
    heartbeat-is_dead (codes "a") 7 pings two_sessions (λ e. cc) (refl, (refl, tt)) refl

a_is_dead : is_dead 0 (answers (codes "a") pings) ≡ true
unfolding text_beq
a_is_dead = refl

abbrev one_group : ConnectionGroupManager
one_group = record {
  groups = (codes "t", two_sessions) ∷ [];
  stale_timeout = 20;
  stop_ch = Channel.make 0;
}

get_group-cleanup_stale_groups_example :
    get_group (codes "t") (cleanup_stale_groups 30 one_group).0
    ≡ fresh_only 30 20 (get_group (codes "t") one_group)
unfolding lookup
get_group-cleanup_stale_groups_example =
    get_group-cleanup_stale_groups 30 one_group (refl, tt) (codes "t")

close_group_final_example :
    ((close_group two_sessions).stop_ch.closed ≡ true)
    × (close_group (close_group two_sessions) ≡ close_group two_sessions)
    × ((close_group two_sessions).stop_ch.panicked ≡ false)
    × (two_sessions.stop_ch.closed ≡ false
        → ((close_group two_sessions).sessions ≡ [])
          × ((close_group two_sessions).closings ≡ 7 ∷ 8 ∷ []))
close_group_final_example = close_group_final two_sessions

abbrev config : ManagerConfig
config = record {
  max_tunnels = pos 5;
  max_tunnels_per_ip = pos 2;
  rate_limit = pos 3;
  rate_limit_window = pos 60;
}

abbrev server : Server
server = record {
  active = pos 0;
  manager = new_manager config;
  ports = some new_ports;
  groups = some (record { groups = []; stale_timeout = 10; stop_ch = Channel.make 0 });
}

abbrev draws : Draws
draws = record { now = 9; port_draw = draw; listens = listens; subdomain_draws = λ i k. some k }

abbrev connection_config : ConnectionConfig
connection_config = record {
  auth_token = codes "t0k3n";
  allowed_tunnel_types = [];
  allowed_transports = [];
  urls = record { tunnel_domain = codes "example.org"; public_port = 443 };
}

abbrev tcp_request : RegistrationRequest
tcp_request = record {
  tunnel_type = codes "tcp";
  custom_subdomain = [];
  token = codes "t0k3n";
  connection_type = codes "primary";
  has_pool_capabilities = true;
  allow_ips = [];
  deny_ips = [];
  proxy_auth = none;
}

abbrev traffic : Traffic
traffic = record { ack_sent = true; session = some 3; handed_off = false }

new_manager-is_used : (t : Text) → is_used t (new_manager config) ≡ false
unfolding is_used new_manager shard_at lookup
new_manager-is_used t =
    ap (λ sh. elim (lookup t sh.used) [ none ↦ false | some b ↦ b ])
      (shard_at-replicate 32 (shard_index t))

server-Ready : Ready 0 (λ ip. 0) draws (codes "id") server
server-Ready = record {
  inv = new_manager-Inv config;
  ports_ok = (omega arith, tt);
  distinct = tt;
  unnamed = unfold get_group lookup in refl;
  fresh =
      new_manager-is_used (generate_unique_subdomain draws.subdomain_draws (new_manager config));
  named = λ e. ne_of_text_beq (codes "id") [] (unfold text_beq in refl) e;
  free = unfold get_group lookup in refl;
}

-- A server with the group of a tunnel.
abbrev with_group : Server
with_group = record server {
  groups = some (record {
    groups = (codes "other", new_connection_group (codes "t0k3n") 5) ∷ [];
    stale_timeout = 10;
    stop_ch = Channel.make 0;
  });
}

abbrev data_request : DataConnectRequest
data_request = record {
  tunnel_id = codes "other";
  token = codes "t0k3n";
  connection_id = codes "data-1";
}

with_group-Ready : Ready 0 (λ ip. 0) draws (codes "id") with_group
with_group-Ready = record {
  inv = new_manager-Inv config;
  ports_ok = (omega arith, tt);
  distinct = unfold lookup in (refl, tt);
  unnamed = unfold get_group lookup text_beq in refl;
  fresh =
      new_manager-is_used (generate_unique_subdomain draws.subdomain_draws (new_manager config));
  named = λ e. ne_of_text_beq (codes "id") [] (unfold text_beq in refl) e;
  free = unfold get_group lookup text_beq in refl;
}

abbrev after_data : LifecycleManager × Server
after_data =
    handle_and_close known connection_config draws traffic (codes "id")
      (data_connect (some data_request)) with_group

data_visits :
    group_in (codes "other") after_data.1.groups
    ≡ some (record (new_connection_group (codes "t0k3n") 9) {
      heartbeat_started = true;
      closings = 3 ∷ [];
    })
unfolding handle_and_close get_group lookup insert erase text_beq new_connection_group is_allowed_in
    new_lifecycle_manager give_back_port remove_session add_session
data_visits = refl

handle_and_close-Leaves_example :
    Leaves connection_config traffic 9 (data_connect (some data_request)) with_group after_data.1
    × (after_data.1.active ≡ pos 0)
handle_and_close-Leaves_example =
    handle_and_close-Leaves 0 (λ ip. 0) known connection_config draws traffic (codes "id")
      (data_connect (some data_request)) with_group with_group-Ready

abbrev after_registration : LifecycleManager × Server
after_registration =
    handle_and_close known connection_config draws traffic (codes "id")
      (registers (some tcp_request)) server

after_a_registration :
    Leaves connection_config traffic 9 (registers (some tcp_request)) server after_registration.1
    × (after_registration.1.active ≡ pos 0)
after_a_registration =
    handle_and_close-Leaves 0 (λ ip. 0) known connection_config draws traffic (codes "id")
      (registers (some tcp_request)) server server-Ready

-- The session with fewer streams fails, the other has a stream.
abbrev mux : Mux
mux = record {
  seen = λ i s. record { is_closed = false; num_streams = s };
  tried = λ i s. record {
    is_closed = false;
    num_streams = s;
    opens = if s == 3 then err 1 else ok (100 + s);
    closed_after = true;
  };
  gone = λ i s t. t == 3;
}

abbrev mixed_group : ConnectionGroup
mixed_group = record {
  token = [];
  sessions = (codes "data-1", 7) ∷ (codes "data-2", 3) ∷ (codes "primary", 0) ∷ [];
  last_activity = 0;
  stop_ch = Channel.make 0;
  heartbeat_started = true;
  closings = [];
}

second_gives : (open_stream mux mixed_group).1 ≡ ok 107
unfolding open_stream text_beq
second_gives = refl

open_stream-Outcome_example : Outcome mux mixed_group.sessions (open_stream mux mixed_group).1
unfolding lookup text_beq
open_stream-Outcome_example = open_stream-Outcome mux mixed_group (refl, (refl, (refl, tt)))
