-- ===== src/Tcp/Registration.antt =====
-- internal/server/tcp/registration_handler.go, and `parseTCPSubdomainPort` of connection.go: a client
-- gets its port and its tunnel. Log lines are left out.
pub mod Undo
use tunl.Base.{
  ℕ, ◌+◌, ◌≤◌, ◌≡◌, subst, refl, Bool, true, false, not, ◌&&◌, ◌||◌, Option, none, some, List, [],
  ◌∷◌, ◌++◌, arith, ltb, leb, ◌==◌, if◌then◌else◌, Text, codes, text_beq, ok, err, has_prefix,
  trim_prefix,
}
use tunl.Base.Int.{ℤ, pos, negsuc}
use tunl.Base.Decimal.{atoi, show, atoi-show, show_head}
use tunl.Base.Result.{Result}
use tunl.Netutil.{Parsers}
use tunl.Tunnel.Connection.{
  Connection, ProxyAuth, set_tunnel_type, set_ip_access_control, set_proxy_auth,
}
use tunl.Tunnel.Manager
use tunl.Tunnel.Manager.{Manager, register_with_ip}
use tunl.Tunnel.Manager.Removal.{get}
use tunl.Tunnel.Manager.Update.{update_tunnel}
use tunl.Tcp.PortAllocator.{PortAllocator, PortError, allocate, allocate_specific, release_port}
use tunl.Tcp.GroupManager.{ConnectionGroupManager}
use tunl.Utils.UrlBuilder.{TunnelUrlBuilder, build_url}

-- The port that a subdomain `tcp-<port>` asks for.
unfoldable pub parse_tcp_subdomain_port : Text → Option ℕ
parse_tcp_subdomain_port subdomain =
    if not (has_prefix subdomain (codes "tcp-"))
    then none
    else let port = trim_prefix subdomain (codes "tcp-") in
      if text_beq port [] then none else elim (atoi port) [
        | none ↦ none
        | some (negsuc n) ↦ none
        | some (pos n) ↦ if ltb n 1 || ltb 65535 n then none else some n
      ]

-- What the connections of clients share, and the count of adaptive.go (in internal/shared/protocol) of
-- connections under way. Without an allocator there are no TCP tunnels.
pub record Server : Type 0 where
  pub active : ℤ
  pub manager : Manager
  pub ports : Option PortAllocator
  pub groups : Option ConnectionGroupManager

pub record RegistrationRequest : Type 0 where
  pub tunnel_type : Text
  pub custom_subdomain : Text
  pub token : Text
  pub connection_type : Text
  pub has_pool_capabilities : Bool
  pub allow_ips : List Text
  pub deny_ips : List Text
  pub proxy_auth : Option ProxyAuth

pub record RegistrationResult : Type 0 where
  pub subdomain : Text
  pub port : ℕ
  pub tunnel_url : Text
  pub supports_data_conn : Bool
  pub recommended_conns : ℕ

pub data RegistrationError : Type 0 where
  no_allocator : RegistrationError
  no_port : PortError → RegistrationError
  no_tunnel : Manager.Error → RegistrationError
  lost_tunnel : RegistrationError

-- What the world adds: the time, the random numbers, and whether the system lets listen on a port.
pub record Draws : Type 0 where
  pub now : ℕ
  pub port_draw : ℕ → Option ℕ
  pub listens : ℕ → ℕ → Bool
  pub subdomain_draws : ℕ → ℕ → Option ℕ

unfoldable pub ask_port : Draws → Text → PortAllocator → PortAllocator × Result PortError ℕ
ask_port d custom p = elim (parse_tcp_subdomain_port custom) [
  | some port ↦ allocate_specific port (d.listens 0 port) p
  | none ↦ allocate d.port_draw d.listens p
]

-- The subdomain that is registered: one that is not given is named after the port.
unfoldable pub named_after : Text → ℕ → Text
named_after custom port = if text_beq custom [] then codes "tcp-" ++ show port else custom

-- What an answer of the allocator makes of the server.
unfoldable pub lend :
    Text
    → Server
    → PortAllocator × Result PortError ℕ
    → Server × Result RegistrationError (ℕ × Text)
unfolding named_after
lend custom s (p, err e) = (record s { ports = some p }, err (no_port e))
lend custom s (p, ok port) = (record s { ports = some p }, ok (port, named_after custom port))

-- The first part of `Register`: the port, 0 if none is needed, and the subdomain.
unfoldable pub allocate_port :
    Draws → RegistrationRequest → Server → Server × Result RegistrationError (ℕ × Text)
unfolding ask_port lend
allocate_port d req s =
    if not (text_beq req.tunnel_type (codes "tcp"))
    then (s, ok (0, req.custom_subdomain))
    else elim s.ports [
      | none ↦ (s, err no_allocator)
      | some p ↦ lend req.custom_subdomain s (ask_port d req.custom_subdomain p)
    ]

-- `if port > 0 && rh.portAlloc != nil { rh.portAlloc.Release(port) }`
unfoldable pub give_back_port : ℕ → Server → Server
give_back_port port s = elim s.ports [
  | none ↦ s
  | some p ↦ if ltb 0 port then record s { ports = some (release_port port p) } else s
]

unfoldable pub with_rules : Parsers → List Text → List Text → Connection → Connection
with_rules p [] [] c = c
with_rules p [] (t ∷ ts) c = set_ip_access_control p [] (t ∷ ts) c
with_rules p (t ∷ ts) deny c = set_ip_access_control p (t ∷ ts) deny c

unfoldable pub with_auth : Option ProxyAuth → Connection → Connection
with_auth none c = c
with_auth (some a) c = if a.enabled then set_proxy_auth (some a) c else c

-- The settings of the new tunnel.
unfoldable pub configure : Parsers → RegistrationRequest → Connection → Connection
unfolding with_rules with_auth
configure p req c =
    with_auth req.proxy_auth
      (with_rules p req.allow_ips req.deny_ips (set_tunnel_type req.tunnel_type c))

abbrev pub is_some {ℓ} : {A : Type ℓ} → Option A → Bool
is_some none = false
is_some (some a) = true

unfoldable pub result_of :
    TunnelUrlBuilder → RegistrationRequest → Bool → Text → ℕ → RegistrationResult
result_of b req has_groups subdomain port =
    let supports =
      req.has_pool_capabilities && (text_beq req.connection_type (codes "primary") && has_groups) in
    record {
      subdomain = subdomain;
      port = port;
      tunnel_url = build_url b subdomain req.tunnel_type port;
      supports_data_conn = supports;
      recommended_conns = if supports then 4 else 0;
    }

-- The second part: the tunnel, without a remote address, and its settings.
unfoldable pub register_tunnel :
    Parsers
    → TunnelUrlBuilder
    → Draws
    → RegistrationRequest
    → ℕ
    → Text
    → Server
    → Server × Result RegistrationError RegistrationResult
unfolding give_back_port result_of
register_tunnel p b d req port custom s =
    let (m, answer) = register_with_ip custom [] false d.now d.subdomain_draws s.manager in
    let s' = record s { manager = m } in
    elim answer [
      | err e ↦ (give_back_port port s', err (no_tunnel e))
      | ok subdomain ↦ elim (get subdomain m) [
        | none ↦ (s', err lost_tunnel)
        | some c ↦ (
          record s' { manager = update_tunnel subdomain (configure p req) m },
          ok (result_of b req (is_some s.groups) subdomain port),
        )
      ]
    ]

unfoldable pub register :
    Parsers
    → TunnelUrlBuilder
    → Draws
    → RegistrationRequest
    → Server
    → Server × Result RegistrationError RegistrationResult
unfolding allocate_port register_tunnel
register p b d req s =
    let (s', answer) = allocate_port d req s in
    elim answer [
      | err e ↦ (s', err e)
      | ok (port, custom) ↦ register_tunnel p b d req port custom s'
    ]

-- The name that a TCP tunnel gets from its port asks for this port again.
pub parse_tcp_subdomain_port-named_after :
    (port : ℕ)
    → 1 ≤ port
    → port ≤ 65535
    → parse_tcp_subdomain_port (named_after [] port) ≡ some port
unfolding parse_tcp_subdomain_port named_after text_beq has_prefix trim_prefix
parse_tcp_subdomain_port-named_after port l u =
    let (c, s, e) = show_head port in
    let v : atoi (c ∷ s) ≡ some (pos port) =
      subst (λ t. atoi t ≡ some (pos port)) e (atoi-show port (omega arith)) in
    rw e (ground (arith, v))
