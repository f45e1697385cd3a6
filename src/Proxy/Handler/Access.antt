-- ===== src/Proxy/Handler/Access.antt =====
-- internal/server/proxy/handler.go: which requests get to a tunnel.
use tunl.Base.{
  ◌≡◌, ◌≢◌, ◌↔◌, ◌⊎◌, refl, true, false, Option, none, some, [], arith, Text, codes, text_beq,
  text_beq_iff, text_eq, Option-cases, inl, inr, ok, err,
}
use tunl.Base.Result.{Result-cases}
use tunl.Netutil.{Parsers, Request}
use tunl.Netutil.ClientIp.{extract_client_ip}
use tunl.Tunnel.Connection.{Connection, has_ip_access_control, is_ip_allowed}
use tunl.Tunnel.Manager.{Manager}
use tunl.Tunnel.Manager.Removal.{get}
use tunl.Proxy.Routing.{extract_subdomain, found}
use tunl.Proxy.Handler.{
  Handler, State, Reply, to_web_socket, to_stream, Draw, fixed_path, find_tunnel, passes_ip_rules,
  check_auth, check_bearer, check_password, check_session, handle_proxy_login, accepts_http,
  dispatch, serve_tunnel, serve_http, handle_tunnel_web_socket,
}
use tunl.Proxy.Handler.Auth.{Authorized, check_auth-Authorized, Authorized-check_auth}

-- The tunnel that a reply gives the request to.
abbrev pub target : Reply → Option (Text × Connection)
target (to_web_socket subdomain c) = some (subdomain, c)
target (to_stream subdomain c) = some (subdomain, c)
target _ = none

-- What a request must have to be given to this tunnel.
pub record MayForward (p : Parsers) (h : Handler) (d : Draw) (r : Request) (s : State)
    (subdomain : Text) (c : Connection) : Type 0 where
  not_discover : r.path ≢ codes "/_drip/discover"
  not_ws : r.path ≢ codes "/_drip/ws"
  not_health : r.path ≢ codes "/health"
  not_stats : r.path ≢ codes "/stats"
  not_metrics : r.path ≢ codes "/metrics"
  named : extract_subdomain h.server_domain h.tunnel_domain r.host ≡ (subdomain, found)
  registered : get subdomain s.manager ≡ some c
  alive : c.closed ≡ false
  let_in : (has_ip_access_control c ≡ false) ⊎ (is_ip_allowed p (extract_client_ip p r) c ≡ true)
  authorized : Authorized p d r subdomain c s
  speaks_http :
      (c.tunnel_type ≡ []) ⊎ (c.tunnel_type ≡ codes "http") ⊎ (c.tunnel_type ≡ codes "https")
  no_connect : r.method ≢ codes "CONNECT"

fixed_path-none :
    (p : Parsers) (h : Handler) (d : Draw) (r : Request)
    → (fixed_path p h d r ≡ none) ↔ (
        (r.path ≢ codes "/_drip/discover")
        × (r.path ≢ codes "/_drip/ws")
        × (r.path ≢ codes "/health")
        × (r.path ≢ codes "/stats")
        × (r.path ≢ codes "/metrics"))
unfolding fixed_path
fixed_path-none p h d r = ground (
  arith,
  text_beq_iff r.path (codes "/_drip/discover"),
  text_beq_iff r.path (codes "/_drip/ws"),
  text_beq_iff r.path (codes "/health"),
  text_beq_iff r.path (codes "/stats"),
  text_beq_iff r.path (codes "/metrics"),
)

fixed_path-target :
    (p : Parsers) (h : Handler) (d : Draw) (r : Request) (reply : Reply)
    → fixed_path p h d r ≡ some reply
    → target reply ≡ none
unfolding fixed_path handle_tunnel_web_socket
fixed_path-target p h d r reply e = ground arith

find_tunnel-target :
    (h : Handler) (r : Request) (m : Manager) (reply : Reply)
    → find_tunnel h r m ≡ err reply
    → target reply ≡ none
unfolding find_tunnel
find_tunnel-target h r m reply e = ground arith

find_tunnel-ok :
    (h : Handler) (r : Request) (m : Manager) (subdomain : Text) (c : Connection)
    → (find_tunnel h r m ≡ ok (subdomain, c)) ↔ (
        (extract_subdomain h.server_domain h.tunnel_domain r.host ≡ (subdomain, found))
        × (get subdomain m ≡ some c)
        × (c.closed ≡ false))
unfolding find_tunnel
find_tunnel-ok h r m subdomain c = ground arith

accepts_http_iff :
    (t : Text) → (accepts_http t ≡ true) ↔ ((t ≡ []) ⊎ (t ≡ codes "http") ⊎ (t ≡ codes "https"))
unfolding accepts_http
accepts_http_iff t =
    ground (arith, text_beq_iff t [], text_beq_iff t (codes "http"), text_beq_iff t (codes "https"))

dispatch-target :
    (r : Request) (subdomain : Text) (c : Connection) (t : Text × Connection)
    → (target (dispatch r subdomain c) ≡ some t) ↔ (
        (accepts_http c.tunnel_type ≡ true)
        × (text_beq r.method (codes "CONNECT") ≡ false)
        × (t ≡ (subdomain, c)))
unfolding dispatch
dispatch-target r subdomain c t = ground arith

handle_proxy_login-target :
    (d : Draw) (r : Request) (c : Connection) (subdomain ip : Text) (s : State)
    → target (handle_proxy_login d r c subdomain ip s).1 ≡ none
unfolding handle_proxy_login
handle_proxy_login-target d r c subdomain ip s = ground arith

check_auth-target :
    (p : Parsers) (d : Draw) (r : Request) (subdomain : Text) (c : Connection) (s : State)
    (reply : Reply)
    → (check_auth p d r subdomain c s).1 ≡ some reply
    → target reply ≡ none
unfolding check_auth check_bearer check_password check_session
check_auth-target p d r subdomain c s reply e =
    ground (arith, handle_proxy_login-target d r c subdomain (extract_client_ip p r) s)

serve_tunnel-target :
    (p : Parsers) (d : Draw) (r : Request) (subdomain : Text) (c : Connection) (s : State)
    (t : Text × Connection)
    → (target (serve_tunnel p d r subdomain c s).1 ≡ some t) ↔ (
        (passes_ip_rules p r c ≡ true)
        × ((check_auth p d r subdomain c s).1 ≡ none)
        × (target (dispatch r subdomain c) ≡ some t))
unfolding serve_tunnel
serve_tunnel-target p d r subdomain c s t = elim (Option-cases (check_auth p d r subdomain c s).1) [
  | inl e ↦ ground arith
  | inr (reply, e) ↦ ground (arith, check_auth-target p d r subdomain c s reply e)
]

-- The stages of `ServeHTTP` that a request passes on its way.
serve_http-target :
    (p : Parsers) (h : Handler) (d : Draw) (r : Request) (s : State) (subdomain : Text)
    (c : Connection)
    → (target (serve_http p h d r s).1 ≡ some (subdomain, c)) ↔ (
        (fixed_path p h d r ≡ none)
        × (find_tunnel h r s.manager ≡ ok (subdomain, c))
        × (target (serve_tunnel p d r subdomain c s).1 ≡ some (subdomain, c)))
unfolding serve_http
serve_http-target p h d r s subdomain c = elim (Option-cases (fixed_path p h d r)) [
  | inr (reply, e) ↦ ground (arith, fixed_path-target p h d r reply e)
  | inl e ↦ elim (Result-cases (find_tunnel h r s.manager)) [
    | inl (reply, q) ↦ ground (arith, find_tunnel-target h r s.manager reply q)
    | inr ((sub, tc), q) ↦ ground (
      arith,
      serve_tunnel-target p d r sub tc s (subdomain, c),
      dispatch-target r sub tc (subdomain, c),
    )
  ]
]

serve_http-may :
    (p : Parsers) (h : Handler) (d : Draw) (r : Request) (s : State) (subdomain : Text)
    (c : Connection)
    → target (serve_http p h d r s).1 ≡ some (subdomain, c)
    → MayForward p h d r s subdomain c
serve_http-may p h d r s subdomain c e =
    let (own, there, rest) = (serve_http-target p h d r s subdomain c).0 e in
    let (rules, auth, sent) = (serve_tunnel-target p d r subdomain c s (subdomain, c)).0 rest in
    let (speaks, method, same) = (dispatch-target r subdomain c (subdomain, c)).0 sent in
    let (named, registered, alive) = (find_tunnel-ok h r s.manager subdomain c).0 there in
    let paths = (fixed_path-none p h d r).0 own in
    record {
      not_discover = paths.0;
      not_ws = paths.1;
      not_health = paths.2;
      not_stats = paths.3;
      not_metrics = paths.4;
      named = named;
      registered = registered;
      alive = alive;
      let_in = unfold passes_ip_rules in ground (arith, rules);
      authorized = check_auth-Authorized p d r subdomain c s auth;
      speaks_http = (accepts_http_iff c.tunnel_type).0 speaks;
      no_connect = λ q. cc (method, (text_beq_iff r.method (codes "CONNECT")).1 q);
    }

may-serve_http :
    (p : Parsers) (h : Handler) (d : Draw) (r : Request) (s : State) (subdomain : Text)
    (c : Connection)
    → MayForward p h d r s subdomain c
    → target (serve_http p h d r s).1 ≡ some (subdomain, c)
may-serve_http p h d r s subdomain c m =
    let rules : passes_ip_rules p r c ≡ true = unfold passes_ip_rules in ground (arith, m.let_in) in
    let method : text_beq r.method (codes "CONNECT") ≡ false =
      ground (arith, text_beq_iff r.method (codes "CONNECT"), m.no_connect) in
    (serve_http-target p h d r s subdomain c).1 (
      (fixed_path-none p h d r).1
          (m.not_discover, m.not_ws, m.not_health, m.not_stats, m.not_metrics),
      (find_tunnel-ok h r s.manager subdomain c).1 (m.named, m.registered, m.alive),
      (serve_tunnel-target p d r subdomain c s (subdomain, c)).1 (
        rules,
        Authorized-check_auth p d r subdomain c s m.authorized,
        (dispatch-target r subdomain c (subdomain, c)).1
            ((accepts_http_iff c.tunnel_type).1 m.speaks_http, method, refl),
      ),
    )

-- A request is given to the tunnel of a subdomain exactly if its path is none of the server's own,
-- its host names the subdomain, the tunnel is registered there and open, its address rules let the
-- client in, the visitor has shown what its authentication asks for (a token, or a session of this
-- subdomain that is not over, from an address that is not locked out and has less than ten failures in
-- its window), and the tunnel speaks HTTP and the method is not CONNECT.
pub serve_http-MayForward :
    (p : Parsers) (h : Handler) (d : Draw) (r : Request) (s : State) (subdomain : Text)
    (c : Connection)
    → (target (serve_http p h d r s).1 ≡ some (subdomain, c)) ↔ MayForward p h d r s subdomain c
serve_http-MayForward p h d r s subdomain c =
    (serve_http-may p h d r s subdomain c, may-serve_http p h d r s subdomain c)
