-- ===== src/Proxy/Tests.antt =====
-- Requests at concrete input.
use tunl.Base.{
  ◌≡◌, ◌↔◌, ◌<◌, refl, arith, true, false, none, some, [], ◌∷◌, ◌++◌, if◌then◌else◌, Text, codes,
  text_beq, text_eq, contains_byte, trim_prefix, trim_space, before, has_suffix, trim_suffix, ap,
  ne_of_text_beq,
}
use tunl.Base.Map.{lookup, insert}
use tunl.Base.Int.{pos}
use tunl.Netutil.{Request, in_network}
use tunl.Netutil.Access.{any_network}
use tunl.Netutil.Tests.{known, request}
use tunl.Tunnel.Connection.{
  Connection, ProxyAuth, has_ip_access_control, new_connection, validate_proxy_auth,
}
use tunl.Tunnel.Manager.{
  Manager, ManagerConfig, new_manager, put_shard, shard_at, shard_index, fnv1a,
}
use tunl.Tunnel.Manager.Removal.{get}
use tunl.Netutil.ClientIp.{extract_client_ip}
use tunl.Proxy.Sessions.{Session, create}
use tunl.Proxy.Bearer.{is_bearer_proxy_auth}
use tunl.Utils.Subdomain.{validate_subdomain}
use tunl.Utils.UrlBuilder.{TunnelUrlBuilder, build_http_url}
use tunl.Proxy.AuthLimiter.{Entry, record_failure, is_rate_limited, reset_failures}
use tunl.Proxy.AuthLimiter.Lockout
use tunl.Proxy.AuthLimiter.Lockout.{Reachable-no_lock, with_in_flight, Step}
use tunl.Proxy.Routing.{extract_subdomain, found, extract_subdomain-build_http_url}
use tunl.Proxy.Headers.{
  Web, Header, values, all_values, copy_response_headers, is_hop_by_hop,
  copy_response_headers-values,
}
use tunl.Proxy.Handler.{Handler, State, Draw, serve_http}
use tunl.Proxy.Handler.Access.{target, MayForward, serve_http-MayForward}
use tunl.Proxy.Handler.Provenance
use tunl.Proxy.Handler.Provenance.{Login, Reachable-Login}

abbrev visitor : Text
visitor = codes "203.0.113.9"

-- An address begins an attempt and fails.
abbrev before_all : Lockout.State
before_all = record { limiter = []; clock = 7; in_flight = λ ip. 0 }

abbrev begun : Lockout.State
begun = with_in_flight visitor 1 before_all

abbrev failed_once : Lockout.State
failed_once =
    with_in_flight visitor 0 (record begun { limiter = record_failure 7 visitor begun.limiter })

failed_once-Reachable : Lockout.Reachable 10 failed_once
unfolding text_beq
failed_once-Reachable =
    Lockout.Reachable.next begun failed_once
      (Lockout.Reachable.next before_all begun (Lockout.Reachable.start 7)
        (Step.begin visitor (unfold is_rate_limited lookup text_beq in refl) (omega arith)))
      (Step.fail visitor 0 refl)

abbrev one_failure : Entry
one_failure = record { failures = 1; window_start = 7; locked_until = none }

Reachable-no_lock_example : (one_failure.locked_until ≡ none) × (one_failure.failures < 20)
unfolding record_failure lookup text_beq insert
Reachable-no_lock_example =
    Reachable-no_lock 10 failed_once visitor one_failure (omega arith) failed_once-Reachable refl

abbrev urls : TunnelUrlBuilder
urls = record { tunnel_domain = codes "example.org"; public_port = 8443 }

extract_subdomain-build_http_url_example :
    extract_subdomain
      (codes "drip.example.org")
      (codes "example.org")
      (trim_prefix (build_http_url urls (codes "my-app")) (codes "https://"))
    ≡ (codes "my-app", found)
extract_subdomain-build_http_url_example =
    extract_subdomain-build_http_url urls (codes "drip.example.org") (codes "my-app")
      (unfold validate_subdomain in refl) (unfold contains_byte in refl)
      (ne_of_text_beq _ (codes "drip.example.org") (unfold text_beq in refl))

abbrev web : Web
web = record { parse_url = λ t. none; canonical_header_key = λ t. t }

abbrev answer : Header
answer =
    (codes "Upgrade", codes "h2c" ∷ []) ∷ (codes "Set-Cookie", codes "a=1" ∷ codes "b=2" ∷ []) ∷ []

copy_response_headers-values_example :
    values (codes "Set-Cookie") (copy_response_headers web (codes "my-app.example.org") answer [])
    ≡ (if is_hop_by_hop (codes "Set-Cookie")
        then values (codes "Set-Cookie") []
        else values (codes "Set-Cookie") [] ++ all_values web (codes "Set-Cookie") answer)
copy_response_headers-values_example =
    copy_response_headers-values web (codes "my-app.example.org") (codes "Set-Cookie") answer []
      (ne_of_text_beq _ (codes "Location") (unfold text_beq in refl))

abbrev handler : Handler
handler = record {
  server_domain = codes "drip.example.org";
  tunnel_domain = codes "example.org";
  metrics_token = [];
  allowed_transports = [];
  allowed_tunnel_types = [];
  has_ws_handler = true;
}

abbrev config : ManagerConfig
config = record {
  max_tunnels = pos 5;
  max_tunnels_per_ip = pos 2;
  rate_limit = pos 3;
  rate_limit_window = pos 60;
}

abbrev auth : ProxyAuth
auth = record { enabled = true; kind = []; password = codes "secret"; token = [] }

abbrev tunnel : Connection
tunnel = record (new_connection (codes "my-app") false 50) { proxy_auth = some auth }

-- A manager with one tunnel, which asks for a password.
abbrev manager : Manager
manager =
    put_shard (shard_index (codes "my-app"))
      (record { tunnels = (codes "my-app", tunnel) ∷ []; used = (codes "my-app", true) ∷ [] })
      (new_manager config)

abbrev state : State
state = record { manager = manager; limiter = []; sessions = [] }

abbrev draw : Draw
draw = record { now = 100; token = codes "t0k3n"; upgrades = true }

abbrev login : Request
login = record request {
  method = codes "POST";
  path = codes "/_drip/login";
  form_value = λ t. if text_beq t (codes "password") then codes "secret" else [];
}

abbrev logged : State
logged = (serve_http known handler draw login state).0

abbrev session : Session
session = record { subdomain = codes "my-app"; expires_at = 86_400_000_000_100 }

logged-sessions : logged.sessions ≡ (codes "t0k3n", session) ∷ []
unfolding serve_http extract_subdomain get put_shard shard_at shard_index fnv1a new_manager lookup
    insert text_beq extract_client_ip is_bearer_proxy_auth is_rate_limited validate_proxy_auth
    reset_failures create before has_suffix trim_suffix new_connection has_ip_access_control
    any_network in_network trim_space
logged-sessions = refl

Reachable-Login_example : Login known handler (codes "t0k3n") session
Reachable-Login_example =
    Reachable-Login known handler logged (codes "t0k3n") session
      (Provenance.Reachable.request state draw login (Provenance.Reachable.start state refl))
      (unfold lookup text_beq in ap (lookup (codes "t0k3n")) logged-sessions)

abbrev returns : Request
returns = record request {
  cookie = λ t. if text_beq t (codes "drip_auth_my-app") then some (codes "t0k3n") else none;
}

serve_http-MayForward_example :
    (target (serve_http known handler draw returns logged).1 ≡ some (codes "my-app", tunnel))
    ↔ MayForward known handler draw returns logged (codes "my-app") tunnel
serve_http-MayForward_example =
    serve_http-MayForward known handler draw returns logged (codes "my-app") tunnel
