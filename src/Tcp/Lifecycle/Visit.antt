-- ===== src/Tcp/Lifecycle/Visit.antt =====
-- internal/server/tcp/data_connection_handler.go: who may join a group, and what a visit leaves of it.
use tunl.Base.{
  ℕ, ◌≡◌, ◌≢◌, ◌⊎◌, refl, true, false, not, ◌&&◌, none, some, List, [], ◌∷◌, ◌++◌, arith,
  if◌then◌else◌, Text, codes, text_beq, text_beq_iff, text_beq_refl, text_eq, Bool-cases,
  Option-cases, inl, inr,
}
use tunl.Base.Map.{insert, erase, lookup-insert}
use tunl.Tunnel.Manager.Removal.{get}
use tunl.Tcp.ConnectionGroup.{ConnectionGroup, add_session, remove_session}
use tunl.Tcp.GroupManager.{ConnectionGroupManager, get_group}
use tunl.Tcp.Registration.{Server, RegistrationRequest}
use tunl.Tcp.Registration.Undo.{taken}
use tunl.Tcp.Lifecycle.{
  ConnectionConfig, HandleError, DataConnectRequest, FirstBytes, nothing, http_request, broken,
  data_connect, other, registers, admit_data, Traffic, visit_group,
}
use tunl.Proxy.Routing.{is_allowed_in}
use tunl.Tcp.Lifecycle.Groups.{group_in}
use tunl.Tcp.Lifecycle.Restore.{Unchanged}

pub data IsPlain : FirstBytes → Type 0 where
  by_nothing : IsPlain nothing
  by_http_request : IsPlain http_request
  by_broken : IsPlain broken
  by_bad_data : IsPlain (data_connect none)
  by_other : IsPlain other
  by_bad_request : IsPlain (registers none)
  by_request : (req : RegistrationRequest) → IsPlain (registers (some req))

pub first_bytes_cases :
    (first : FirstBytes)
    → IsPlain first ⊎ ((req : DataConnectRequest) × (first ≡ data_connect (some req)))
first_bytes_cases nothing = inl by_nothing
first_bytes_cases http_request = inl by_http_request
first_bytes_cases broken = inl by_broken
first_bytes_cases other = inl by_other
first_bytes_cases (data_connect none) = inl by_bad_data
first_bytes_cases (data_connect (some req)) = inr (req, refl)
first_bytes_cases (registers none) = inl by_bad_request
first_bytes_cases (registers (some req)) = inl (by_request req)

pub IsPlain-data :
    (first : FirstBytes) (req : DataConnectRequest)
    → IsPlain first
    → first ≢ data_connect (some req)
IsPlain-data first req by_nothing e = cc e
IsPlain-data first req by_http_request e = cc e
IsPlain-data first req by_broken e = cc e
IsPlain-data first req by_bad_data e = cc e
IsPlain-data first req by_other e = cc e
IsPlain-data first req by_bad_request e = cc e
IsPlain-data first req (by_request q) e = cc e

-- A token that is wanted is shown.
abbrev pub Shows : Text → Text → Type 0
Shows wanted token = (wanted ≡ []) ⊎ (token ≡ wanted)

-- Why a data connection has no session in its group.
abbrev pub Refused : ConnectionConfig → Traffic → DataConnectRequest → Server → Type 0
Refused cfg t req s =
    (is_allowed_in cfg.allowed_transports (codes "tcp") ≡ false)
    ⊎ (t.ack_sent ≡ false)
    ⊎ (t.session ≡ none)
    ⊎ (group_in req.tunnel_id s.groups ≡ none)
    ⊎ ((cfg.auth_token ≢ []) × (req.token ≢ cfg.auth_token))
    ⊎ ((g : ConnectionGroup) × (group_in req.tunnel_id s.groups ≡ some g)
        × (g.token ≢ [])
        × (req.token ≢ g.token))

-- A group after a session was in it under an identifier.
abbrev pub visited : Text → ℕ → ℕ → ConnectionGroup → ConnectionGroup
visited id session now g = if text_beq id [] then g else record g {
  sessions = erase id g.sessions;
  last_activity = now;
  heartbeat_started = true;
  closings = g.closings ++ (session ∷ []);
}

pub record Visited (cfg : ConnectionConfig) (now : ℕ) (req : DataConnectRequest) (session : ℕ)
    (s s' : Server) : Type 0 where
  pub tunnels : (k : Text) → get k s'.manager ≡ get k s.manager
  pub count : s'.manager.tunnel_count ≡ s.manager.tunnel_count
  pub ports : (q : ℕ) → taken q s'.ports ≡ taken q s.ports
  pub others :
      (id : Text) → text_beq req.tunnel_id id ≡ false → group_in id s'.groups ≡ group_in id s.groups
  pub group : ConnectionGroup
  pub found : group_in req.tunnel_id s.groups ≡ some group
  pub shows : Shows cfg.auth_token req.token
  pub shows_group : Shows group.token req.token
  pub left : group_in req.tunnel_id s'.groups ≡ some (visited req.connection_id session now group)

-- What a connection leaves of the server, by its first bytes.
pub data Leaves (cfg : ConnectionConfig) (t : Traffic) (now : ℕ) (first : FirstBytes)
    (s s' : Server) : Type 0 where
  as_before :
      ((req : DataConnectRequest) → first ≡ data_connect (some req) → Refused cfg t req s)
      → Unchanged s s'
      → Leaves cfg t now first s s'
  visits :
      (req : DataConnectRequest) (session : ℕ)
      → first ≡ data_connect (some req)
      → is_allowed_in cfg.allowed_transports (codes "tcp") ≡ true
      → t.ack_sent ≡ true
      → t.session ≡ some session
      → Visited cfg now req session s s'
      → Leaves cfg t now first s s'

erase-insert : (id : Text) (n : ℕ) (m : List (Text × ℕ)) → erase id (insert id n m) ≡ erase id m
unfolding erase insert
erase-insert id n [] = ground (arith, text_beq_refl id)
erase-insert id n ((j, w) ∷ m) = ground (arith, erase-insert id n m, text_beq_refl id)

remove_session-add_session :
    (id : Text) (n now : ℕ) (g : ConnectionGroup)
    → remove_session id (add_session id (some n) now g) ≡ visited id n now g
unfolding remove_session add_session
remove_session-add_session id n now g = elim (Bool-cases (text_beq id [])) [
  | inl e ↦ ground arith
  | inr e ↦
      ground
        (arith, erase-insert id n g.sessions, lookup-insert id id n g.sessions, text_beq_refl id)
]

pub admit_data-Refused :
    (cfg : ConnectionConfig) (t : Traffic) (req : DataConnectRequest) (s : Server) (e : HandleError)
    → admit_data cfg req s ≡ some e
    → Refused cfg t req s
unfolding admit_data
admit_data-Refused cfg t req s e q = elim (Option-cases s.groups) [
  | inl n ↦ inr (inr (inr (inl (cc n))))
  | inr (gm, n) ↦
      elim (Bool-cases
        (not (text_beq cfg.auth_token []) && not (text_beq req.token cfg.auth_token))) [
          | inl b ↦ inr (
              inr (
                inr (
                  inr (
                    inl (
                      λ z. ground (arith, text_beq_iff cfg.auth_token []),
                      λ z. ground (arith, text_beq_iff req.token cfg.auth_token),
                    )))))
          | inr b ↦ elim (Option-cases (get_group req.tunnel_id gm)) [
            | inl k ↦ inr (inr (inr (inl (cc (n, k)))))
            | inr (g, k) ↦ inr (
                inr (
                  inr (
                    inr (
                      inr (
                        g,
                        cc (n, k),
                        (λ z. ground (arith, text_beq_iff g.token [])),
                        (λ z. ground (arith, text_beq_iff req.token g.token)),
                      )))))
          ]
        ]
]

pub admit_data-Shows :
    (cfg : ConnectionConfig) (req : DataConnectRequest) (s : Server)
    → admit_data cfg req s ≡ none
    → (gm : ConnectionGroupManager) × (g : ConnectionGroup) × (s.groups ≡ some gm)
      × (get_group req.tunnel_id gm ≡ some g)
      × Shows cfg.auth_token req.token
      × Shows g.token req.token
unfolding admit_data
admit_data-Shows cfg req s q = elim (Option-cases s.groups) [
  | inl n ↦ absurd (cc (n, q))
  | inr (gm, n) ↦ elim (Option-cases (get_group req.tunnel_id gm)) [
    | inl k ↦ absurd (ground arith)
    | inr (g, k) ↦ (
      gm,
      g,
      n,
      k,
      ground (arith, text_beq_iff cfg.auth_token [], text_beq_iff req.token cfg.auth_token),
      ground (arith, text_beq_iff g.token [], text_beq_iff req.token g.token),
    )
  ]
]

pub group_in-visit_group :
    (n now : ℕ) (req : DataConnectRequest) (s : Server) (gm : ConnectionGroupManager)
    (g : ConnectionGroup)
    → s.groups ≡ some gm
    → get_group req.tunnel_id gm ≡ some g
    → (id : Text)
    → group_in id (visit_group n now req s).groups ≡ (
        if text_beq req.tunnel_id id
        then some (visited req.connection_id n now g)
        else group_in id s.groups)
unfolding visit_group get_group
group_in-visit_group n now req s gm g e k id = ground (
  arith,
  remove_session-add_session req.connection_id n now g,
  lookup-insert req.tunnel_id id
      (remove_session req.connection_id (add_session req.connection_id (some n) now g)) gm.groups,
)

pub visit_group-keeps :
    (n now : ℕ) (req : DataConnectRequest) (s : Server)
    → ((visit_group n now req s).manager ≡ s.manager)
      × ((visit_group n now req s).ports ≡ s.ports)
      × ((visit_group n now req s).active ≡ s.active)
unfolding visit_group
visit_group-keeps n now req s = ground arith
