-- ===== src/Tcp/Lifecycle.antt =====
-- internal/server/tcp/lifecycle_manager.go, and the registration part of `Handle` in connection.go: a
-- client's connection from its first bytes to its end. What is closed outside the server's own tables
-- (sockets, sessions, contexts) is a list of effects, in order.
pub mod Tunnels
pub mod Groups
pub mod Restore
pub mod Held
pub mod Visit
pub mod Data
pub mod Whole
use tunl.Base.{
  ℕ, ◌≡◌, Bool, true, false, not, ◌&&◌, ◌||◌, Option, none, some, List, [], ◌∷◌, ◌++◌, ltb,
  if◌then◌else◌, Text, codes, text_beq, text_eq, ok, err,
}
use tunl.Base.Result.{Result}
use tunl.Netutil.{Parsers}
use tunl.Base.Int.{ℤ, pos, ◌+ℤ◌, ◌-ℤ◌}
use tunl.Base.Map.{insert}
use tunl.Tunnel.Connection.{set_open_stream}
use tunl.Tunnel.Manager.Removal.{unregister}
use tunl.Tunnel.Manager.Update.{update_tunnel}
use tunl.Tcp.ConnectionGroup.{add_session, remove_session}
use tunl.Tcp.GroupManager.{ConnectionGroupManager, create_group, get_group, remove_group}
use tunl.Tcp.Registration.{
  Server, RegistrationRequest, RegistrationResult, RegistrationError, Draws, give_back_port,
  register,
}
use tunl.Utils.UrlBuilder.{TunnelUrlBuilder}
use tunl.Proxy.Routing.{is_allowed_in}

pub data Effect : Type 0 where
  unregister_connection close_stop_ch cancel set_deadline close_frame_writer : Effect
  stop_proxy close_session close_conn : Effect

pub record LifecycleManager : Type 0 where
  pub closed : Bool
  pub has_frame_writer : Bool
  pub has_proxy : Bool
  pub has_session : Bool
  pub port : ℕ
  pub subdomain : Text
  pub tunnel_id : Text
  pub effects : List Effect

-- `NewConnectionLifecycleManager` and `SetConnection`.
unfoldable pub new_lifecycle_manager : LifecycleManager
new_lifecycle_manager = record {
  closed = false;
  has_frame_writer = false;
  has_proxy = false;
  has_session = false;
  port = 0;
  subdomain = [];
  tunnel_id = [];
  effects = [];
}

unfoldable pub set_port_allocation : ℕ → LifecycleManager → LifecycleManager
set_port_allocation port l = record l { port = port }

unfoldable pub set_tunnel_registration : Text → Text → LifecycleManager → LifecycleManager
set_tunnel_registration subdomain tunnel_id l = record l {
  subdomain = subdomain;
  tunnel_id = tunnel_id;
}

abbrev when : Bool → Effect → List Effect
when true e = e ∷ []
when false e = []

unfoldable pub close_effects : LifecycleManager → List Effect
close_effects l =
    unregister_connection
    ∷ close_stop_ch
    ∷ cancel
    ∷ set_deadline
    ∷ (when l.has_frame_writer close_frame_writer
        ++ (when l.has_proxy stop_proxy ++ (when l.has_session close_session ++ close_conn ∷ [])))

unfoldable pub leave_group : Text → Server → Server
leave_group tunnel_id s = elim s.groups [
  | none ↦ s
  | some gm ↦
      if text_beq tunnel_id [] then s else record s { groups = some (remove_group tunnel_id gm).0 }
]

-- What `Close` does to the tables of the server, and to the count of connections.
unfoldable pub release_all : ℕ → Text → Text → Server → Server
unfolding leave_group
release_all port subdomain tunnel_id s =
    let s1 = give_back_port port (record s { active = s.active -ℤ pos 1 }) in
    if text_beq subdomain []
    then s1
    else leave_group tunnel_id (record s1 { manager = (unregister subdomain s1.manager).0 })

-- `Close`, whose body runs once.
unfoldable pub close_lifecycle : LifecycleManager → Server → LifecycleManager × Server
unfolding close_effects release_all
close_lifecycle l s = if l.closed then (l, s) else (
  record l { closed = true; effects = l.effects ++ close_effects l },
  release_all l.port l.subdomain l.tunnel_id s,
)

-- What a connection is set up with.
pub record ConnectionConfig : Type 0 where
  pub auth_token : Text
  pub allowed_tunnel_types : List Text
  pub allowed_transports : List Text
  pub urls : TunnelUrlBuilder

pub data HandleError : Type 0 where
  peek_failed tcp_not_allowed bad_frame unexpected_frame bad_request : HandleError
  tunnel_type_not_allowed authentication_failed : HandleError
  bad_data_request not_supported data_authentication_failed tunnel_not_found : HandleError
  registration_failed : RegistrationError → HandleError

pub record DataConnectRequest : Type 0 where
  pub tunnel_id : Text
  pub token : Text
  pub connection_id : Text

-- The first bytes: none come, an HTTP request, a frame that cannot be read, or a frame that asks for a
-- data connection or for a tunnel (if its payload parses), or for something else.
pub data FirstBytes : Type 0 where
  nothing http_request broken other : FirstBytes
  data_connect : Option DataConnectRequest → FirstBytes
  registers : Option RegistrationRequest → FirstBytes

-- What a connection turns into.
pub data Mode : Type 0 where
  http : Mode
  data_connection : DataConnectRequest → Mode
  tcp_tunnel http_proxy_tunnel framed : RegistrationResult → Mode

unfoldable pub admit : ConnectionConfig → RegistrationRequest → Option HandleError
admit cfg req =
    if not (is_allowed_in cfg.allowed_tunnel_types req.tunnel_type)
    then some tunnel_type_not_allowed
    else if not (text_beq cfg.auth_token []) && not (text_beq req.token cfg.auth_token)
    then some authentication_failed
    else none

-- The group of a client that can open more connections; `tunnel_id` is what `GenerateTunnelID` draws.
unfoldable pub join_group :
    Draws → Text → Text → RegistrationResult → LifecycleManager → Server → LifecycleManager × Server
join_group d tunnel_id token r l s = elim s.groups [
  | none ↦ (l, s)
  | some gm ↦
      if r.supports_data_conn
      then (
        set_tunnel_registration r.subdomain tunnel_id l,
        record s { groups = some (create_group tunnel_id token d.now gm) },
      )
      else (l, s)
]

unfoldable pub mode_of : Text → RegistrationResult → Mode
mode_of tunnel_type r =
    if text_beq tunnel_type (codes "tcp")
    then tcp_tunnel r
    else if text_beq tunnel_type (codes "http") || text_beq tunnel_type (codes "https")
    then http_proxy_tunnel r
    else framed r

abbrev pub Handled : Type 0
Handled = LifecycleManager × Server × Result HandleError Mode

-- What the connection notes of its registration.
unfoldable pub set_up :
    Draws → Text → Text → Text → Server × Result RegistrationError RegistrationResult → Handled
unfolding join_group mode_of
set_up d tunnel_id token tunnel_type (s, err e) =
    (new_lifecycle_manager, s, err (registration_failed e))
set_up d tunnel_id token tunnel_type (s, ok r) =
    let l =
      set_tunnel_registration r.subdomain [] (set_port_allocation r.port new_lifecycle_manager) in
    let (l', s') = join_group d tunnel_id token r l s in (l', s', ok (mode_of tunnel_type r))

-- A client's registration, up to its acknowledgement.
unfoldable pub handle_registration :
    Parsers → ConnectionConfig → Draws → Text → RegistrationRequest → Server → Handled
unfolding admit set_up
handle_registration p cfg d tunnel_id req s = elim (admit cfg req) [
  | some e ↦ (new_lifecycle_manager, s, err e)
  | none ↦ set_up d tunnel_id req.token req.tunnel_type (register p cfg.urls d req s)
]

-- The checks of a data connection, which wants to join the group of a tunnel.
unfoldable pub admit_data : ConnectionConfig → DataConnectRequest → Server → Option HandleError
admit_data cfg req s = elim s.groups [
  | none ↦ some not_supported
  | some gm ↦
      if not (text_beq cfg.auth_token []) && not (text_beq req.token cfg.auth_token)
      then some data_authentication_failed
      else elim (get_group req.tunnel_id gm) [
        | none ↦ some tunnel_not_found
        | some g ↦
            if not (text_beq g.token []) && not (text_beq req.token g.token)
            then some data_authentication_failed
            else none
      ]
]

unfoldable pub handle_data_connect : ConnectionConfig → DataConnectRequest → Server → Handled
unfolding admit_data
handle_data_connect cfg req s = elim (admit_data cfg req s) [
  | some e ↦ (new_lifecycle_manager, s, err e)
  | none ↦ (new_lifecycle_manager, s, ok (data_connection req))
]

unfoldable pub handle : Parsers → ConnectionConfig → Draws → Text → FirstBytes → Server → Handled
unfolding handle_registration handle_data_connect
handle p cfg d tunnel_id first s =
    let refuse : HandleError → Handled = λ e. (new_lifecycle_manager, s, err e) in
    let tcp = is_allowed_in cfg.allowed_transports (codes "tcp") in
    elim first [
      | nothing ↦ refuse peek_failed
      | http_request ↦ (new_lifecycle_manager, s, ok http)
      | broken ↦ refuse (if tcp then bad_frame else tcp_not_allowed)
      | other ↦ refuse (if tcp then unexpected_frame else tcp_not_allowed)
      | data_connect none ↦ refuse (if tcp then bad_data_request else tcp_not_allowed)
      | data_connect (some req) ↦
          if tcp then handle_data_connect cfg req s else refuse tcp_not_allowed
      | registers none ↦ refuse (if tcp then bad_request else tcp_not_allowed)
      | registers (some req) ↦
          if tcp then handle_registration p cfg d tunnel_id req s else refuse tcp_not_allowed
    ]

-- What the world adds once a tunnel is registered or a data connection admitted: whether the acknowledgement can be sent, the session
-- of the multiplexer if it starts, and, for an HTTP request, whether the HTTP server takes it over.
pub record Traffic : Type 0 where
  pub ack_sent : Bool
  pub session : Option ℕ
  pub handed_off : Bool

-- The group of the tunnel gets its first session.
unfoldable pub add_primary : ℕ → ℕ → Text → Server → Server
add_primary session now tunnel_id s = elim s.groups [
  | none ↦ s
  | some gm ↦ elim (get_group tunnel_id gm) [
    | none ↦ s
    | some g ↦ record s {
      groups = some (record gm {
        groups = insert tunnel_id (add_session (codes "primary") (some session) now g) gm.groups;
      });
    }
  ]
]

-- `handleTCPTunnel` and `handleHTTPProxyTunnel`, up to their waiting; `tcp` is which.
unfoldable pub start_session : Bool → ℕ → ℕ → LifecycleManager → Server → LifecycleManager × Server
unfolding add_primary
start_session tcp session now l s =
    let s' = add_primary session now l.tunnel_id s in
    if tcp then (record l { has_session = true; has_proxy = true }, s') else (
      record l { has_session = true },
      record s' { manager = update_tunnel l.subdomain set_open_stream s'.manager },
    )

unfoldable pub with_session :
    Bool → Option ℕ → ℕ → LifecycleManager → Server → LifecycleManager × Server
unfolding start_session
with_session tcp none now l s = (l, s)
with_session tcp (some session) now l s = start_session tcp session now l s

-- The session of a data connection joins the group, and leaves it when it is over.
unfoldable pub visit_group : ℕ → ℕ → DataConnectRequest → Server → Server
visit_group session now req s = elim s.groups [
  | none ↦ s
  | some gm ↦ elim (get_group req.tunnel_id gm) [
    | none ↦ s
    | some g ↦
        let added = add_session req.connection_id (some session) now g in
        record s {
          groups = some (record gm {
            groups = insert req.tunnel_id (remove_session req.connection_id added) gm.groups;
          });
        }
  ]
]

unfoldable pub run_data :
    Option ℕ → ℕ → DataConnectRequest → LifecycleManager → Server → LifecycleManager × Server
unfolding visit_group
run_data none now req l s = (l, s)
run_data (some session) now req l s =
    (record l { has_session = true }, visit_group session now req s)

-- What comes between the first frame and the end.
unfoldable pub start : Traffic → ℕ → Mode → LifecycleManager → Server → LifecycleManager × Server
unfolding with_session run_data
start t now http l s = (l, s)
start t now (data_connection req) l s =
    if t.ack_sent then run_data t.session now req l s else (l, s)
start t now (tcp_tunnel r) l s = if t.ack_sent then with_session true t.session now l s else (l, s)
start t now (http_proxy_tunnel r) l s =
    if t.ack_sent then with_session false t.session now l s else (l, s)
start t now (framed r) l s =
    if t.ack_sent then (record l { has_frame_writer = true }, s) else (l, s)

-- `Close`: a connection that the HTTP server took over is left alone.
unfoldable pub close_connection : Bool → LifecycleManager → Server → LifecycleManager × Server
unfolding close_lifecycle
close_connection handed_off l s = if handed_off then (l, s) else close_lifecycle l s

-- What follows the registration, up to the deferred `Close`.
unfoldable pub finish : Traffic → ℕ → Handled → LifecycleManager × Server
unfolding start close_connection
finish t now (l, s, err e) = close_connection false l s
finish t now (l, s, ok http) = close_connection t.handed_off l s
finish t now (l, s, ok mode) = let (l', s') = start t now mode l s in close_connection false l' s'

-- `Handle` whole. What others do meanwhile is left out.
unfoldable pub handle_and_close :
    Parsers
    → ConnectionConfig
    → Draws
    → Traffic
    → Text
    → FirstBytes
    → Server
    → LifecycleManager × Server
unfolding handle finish
handle_and_close p cfg d t tunnel_id first s =
    finish t d.now (handle p cfg d tunnel_id first (record s { active = s.active +ℤ pos 1 }))
