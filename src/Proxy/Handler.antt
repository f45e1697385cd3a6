-- ===== src/Proxy/Handler.antt =====
-- internal/server/proxy/handler.go: what becomes of a request. `serve_http` goes as far as the call
-- that opens a stream; `forward` is what follows. One request runs alone and at one time.
pub mod Auth
pub mod Access
pub mod Provenance
use tunl.Base.{
  ℕ, ◌+◌, ◌≡◌, Bool, true, false, not, ◌&&◌, ◌||◌, Option, none, some, List, [], ◌∷◌, ◌++◌, map,
  if◌then◌else◌, Text, codes, text_beq, ok, err, equal_fold, contains, lower,
}
use tunl.Base.Result.{Result}
use tunl.Netutil.{Parsers, Request}
use tunl.Netutil.ClientIp.{extract_client_ip}
use tunl.Tunnel.Connection.{
  Connection, ProxyAuth, has_ip_access_control, is_ip_allowed, validate_proxy_auth,
}
use tunl.Tunnel.Manager.{Manager}
use tunl.Tunnel.Manager.Removal.{get}
use tunl.Proxy.AuthLimiter.{Limiter, is_rate_limited, record_failure, reset_failures}
use tunl.Proxy.Sessions.{Sessions, create, validate}
use tunl.Proxy.Bearer.{is_bearer_proxy_auth, is_bearer_authenticated, validate_metrics_auth}
use tunl.Proxy.Routing.{is_allowed_in, extract_subdomain, home, found, not_found}

pub record Handler : Type 0 where
  pub server_domain : Text
  pub tunnel_domain : Text
  pub metrics_token : Text
  pub allowed_transports : List Text
  pub allowed_tunnel_types : List Text
  pub has_ws_handler : Bool

-- The manager of the handler, and the variables `authLimiter` and `sessionStore` of the package.
pub record State : Type 0 where
  pub manager : Manager
  pub limiter : Limiter
  pub sessions : Sessions

-- What is answered, or that the request goes to a tunnel (of a subdomain).
pub data Reply : Type 0 where
  discovery health stats metrics home_page : Reply
  metrics_unauthorized transport_forbidden ws_unconfigured upgrade_failed : Reply
  upgraded : Text → Reply
  tunnel_not_found tunnel_closed ip_denied too_many_attempts bearer_required : Reply
  login_page : Text → Reply
  logged_in : Text → Text → Reply
  not_http connect_unsupported : Reply
  to_web_socket to_stream : Text → Connection → Reply

-- What the world adds to a request: the time, the random token, whether the upgrade succeeds.
pub record Draw : Type 0 where
  pub now : ℕ
  pub token : Text
  pub upgrades : Bool

unfoldable pub handle_tunnel_web_socket : Parsers → Handler → Draw → Request → Reply
handle_tunnel_web_socket p h d r =
    if not (is_allowed_in h.allowed_transports (codes "wss"))
    then transport_forbidden
    else if not h.has_ws_handler
    then ws_unconfigured
    else if not d.upgrades
    then upgrade_failed
    else upgraded (extract_client_ip p r)

-- The paths that the server answers itself, whatever the host.
unfoldable pub fixed_path : Parsers → Handler → Draw → Request → Option Reply
unfolding handle_tunnel_web_socket
fixed_path p h d r =
    if text_beq r.path (codes "/_drip/discover")
    then some discovery
    else if text_beq r.path (codes "/_drip/ws")
    then some (handle_tunnel_web_socket p h d r)
    else if text_beq r.path (codes "/health")
    then some health
    else if text_beq r.path (codes "/stats")
    then some (if validate_metrics_auth h.metrics_token r then stats else metrics_unauthorized)
    else if text_beq r.path (codes "/metrics")
    then some (if validate_metrics_auth h.metrics_token r then metrics else metrics_unauthorized)
    else none

-- The tunnel that the host names, if it is there and open.
unfoldable pub find_tunnel : Handler → Request → Manager → Result Reply (Text × Connection)
find_tunnel h r m =
    let (subdomain, result) = extract_subdomain h.server_domain h.tunnel_domain r.host in
    elim result [
      | home ↦ err home_page
      | not_found ↦ err tunnel_not_found
      | found ↦ elim (get subdomain m) [
        | none ↦ err tunnel_not_found
        | some c ↦ if c.closed then err tunnel_closed else ok (subdomain, c)
      ]
    ]

unfoldable pub passes_ip_rules : Parsers → Request → Connection → Bool
passes_ip_rules p r c = not (has_ip_access_control c) || is_ip_allowed p (extract_client_ip p r) c

-- `handleProxyLoginWithRateLimit`.
unfoldable pub handle_proxy_login :
    Draw → Request → Connection → Text → Text → State → State × Reply
handle_proxy_login d r c subdomain client_ip s =
    if not (text_beq r.method (codes "POST"))
    then (s, login_page [])
    else if not (text_beq client_ip []) && is_rate_limited d.now client_ip s.limiter
    then (s, too_many_attempts)
    else if not r.form_parses
    then (s, login_page (codes "Invalid form data"))
    else if not (validate_proxy_auth (r.form_value (codes "password")) c)
    then (
      record s { limiter = record_failure d.now client_ip s.limiter },
      login_page (codes "Invalid password"),
    )
    else let redirect = r.form_value (codes "redirect") in
      (
        record s {
          limiter = reset_failures client_ip s.limiter;
          sessions = create d.now d.token subdomain s.sessions;
        },
        logged_in d.token (
            if text_beq redirect [] || text_beq redirect (codes "/_drip/login")
            then codes "/"
            else redirect),
      )

-- `isProxyAuthenticated`, and the login page for those who are not.
unfoldable pub check_session : Draw → Request → Text → State → State × Option Reply
check_session d r subdomain s = elim (r.cookie (codes "drip_auth_" ++ subdomain)) [
  | none ↦ (s, some (login_page []))
  | some token ↦
      let (kept, valid) = validate d.now token subdomain s.sessions in
      (record s { sessions = kept }, if valid then none else some (login_page []))
]

unfoldable pub check_bearer : Draw → Request → ProxyAuth → Text → State → State × Option Reply
check_bearer d r auth client_ip s =
    if is_bearer_authenticated r auth
    then (record s { limiter = reset_failures client_ip s.limiter }, none)
    else (record s { limiter = record_failure d.now client_ip s.limiter }, some bearer_required)

unfoldable pub check_password :
    Draw → Request → Connection → Text → Text → State → State × Option Reply
unfolding handle_proxy_login check_session
check_password d r c subdomain client_ip s =
    if text_beq r.path (codes "/_drip/login")
    then (let (s', reply) = handle_proxy_login d r c subdomain client_ip s in (s', some reply))
    else check_session d r subdomain s

-- The tunnel's own authentication. An answer ends the request.
unfoldable pub check_auth :
    Parsers → Draw → Request → Text → Connection → State → State × Option Reply
unfolding check_bearer check_password
check_auth p d r subdomain c s = elim c.proxy_auth [
  | none ↦ (s, none)
  | some auth ↦
      if not auth.enabled
      then (s, none)
      else if is_rate_limited d.now (extract_client_ip p r) s.limiter
      then (s, some too_many_attempts)
      else if is_bearer_proxy_auth (some auth)
      then check_bearer d r auth (extract_client_ip p r) s
      else check_password d r c subdomain (extract_client_ip p r) s
]

unfoldable pub accepts_http : Text → Bool
accepts_http t = text_beq t [] || text_beq t (codes "http") || text_beq t (codes "https")

unfoldable pub is_web_socket_upgrade : Request → Bool
is_web_socket_upgrade r =
    equal_fold (r.header (codes "Upgrade")) (codes "websocket")
    && contains (map lower (r.header (codes "Connection"))) (codes "upgrade")

unfoldable pub dispatch : Request → Text → Connection → Reply
unfolding accepts_http is_web_socket_upgrade
dispatch r subdomain c =
    if not (accepts_http c.tunnel_type)
    then not_http
    else if text_beq r.method (codes "CONNECT")
    then connect_unsupported
    else if is_web_socket_upgrade r
    then to_web_socket subdomain c
    else to_stream subdomain c

-- What `ServeHTTP` does once it has the tunnel.
unfoldable pub serve_tunnel : Parsers → Draw → Request → Text → Connection → State → State × Reply
unfolding passes_ip_rules check_auth dispatch
serve_tunnel p d r subdomain c s =
    if not (passes_ip_rules p r c)
    then (s, ip_denied)
    else let (s', answer) = check_auth p d r subdomain c s in
      (s', elim answer [ some reply ↦ reply | none ↦ dispatch r subdomain c ])

unfoldable pub serve_http : Parsers → Handler → Draw → Request → State → State × Reply
unfolding fixed_path find_tunnel serve_tunnel
serve_http p h d r s = elim (fixed_path p h d r) [
  | some reply ↦ (s, reply)
  | none ↦ elim (find_tunnel h r s.manager) [
    | err reply ↦ (s, reply)
    | ok (subdomain, c) ↦ serve_tunnel p d r subdomain c s
  ]
]
