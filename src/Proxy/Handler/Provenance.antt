-- ===== src/Proxy/Handler/Provenance.antt =====
-- internal/server/proxy: where the sessions of the store come from.
use tunl.Base.{
  ℕ, ◌+◌, ◌≡◌, ◌⊎◌, subst, true, some, [], ◌++◌, arith, Text, codes, text_beq, text_beq_iff,
  text_eq, Bool-cases, Option-cases, inl, inr, ok, if◌then◌else◌,
}
use tunl.Base.Map.{lookup, Distinct, lookup-insert, Distinct-insert}
use tunl.Base.Result.{Result-cases}
use tunl.Netutil.{Parsers, Request}
use tunl.Netutil.ClientIp.{extract_client_ip}
use tunl.Tunnel.Connection.{Connection, ProxyAuth, validate_proxy_auth}
use tunl.Proxy.AuthLimiter.{is_rate_limited}
use tunl.Proxy.Sessions
use tunl.Proxy.Sessions.{
  Session, create, auth_session_duration, lookup-validate, Distinct-validate, lookup-cleanup,
  Distinct-cleanup,
}
use tunl.Proxy.Bearer.{is_bearer_proxy_auth}
use tunl.Proxy.Handler.{
  Handler, State, Draw, fixed_path, find_tunnel, check_auth, check_bearer, check_password,
  check_session, handle_proxy_login, serve_tunnel, serve_http, passes_ip_rules,
}

-- The request is a login at this tunnel with its password, and gets this session.
pub record GavePassword (d : Draw) (r : Request) (subdomain : Text) (c : Connection) (token : Text)
    (x : Session) : Type 0 where
  auth : ProxyAuth
  protected : (c.proxy_auth ≡ some auth) × (auth.enabled ≡ true)
  post : r.method ≡ codes "POST"
  path : r.path ≡ codes "/_drip/login"
  password : r.form_value (codes "password") ≡ auth.password
  drawn : token ≡ d.token
  session : x ≡ record { subdomain = subdomain; expires_at = d.now + auth_session_duration }

-- A login leaves the sessions, or adds one.
handle_proxy_login-sessions :
    (d : Draw) (r : Request) (c : Connection) (subdomain ip : Text) (s : State)
    → ((handle_proxy_login d r c subdomain ip s).0.sessions ≡ s.sessions)
      ⊎ ((text_beq r.method (codes "POST") ≡ true)
          × (validate_proxy_auth (r.form_value (codes "password")) c ≡ true)
          × ((handle_proxy_login d r c subdomain ip s).0.sessions
              ≡ create d.now d.token subdomain s.sessions))
unfolding handle_proxy_login
handle_proxy_login-sessions d r c subdomain ip s = ground arith

validate_proxy_auth_password :
    (w : Text) (c : Connection) (a : ProxyAuth)
    → c.proxy_auth ≡ some a
    → a.enabled ≡ true
    → validate_proxy_auth w c ≡ true
    → w ≡ a.password
unfolding validate_proxy_auth
validate_proxy_auth_password w c a e on v = ground (arith, text_beq_iff a.password w)

lookup-handle_proxy_login :
    (d : Draw) (r : Request) (c : Connection) (subdomain ip : Text) (s : State) (a : ProxyAuth)
    (t : Text) (x : Session)
    → c.proxy_auth ≡ some a
    → a.enabled ≡ true
    → r.path ≡ codes "/_drip/login"
    → lookup t (handle_proxy_login d r c subdomain ip s).0.sessions ≡ some x
    → (lookup t s.sessions ≡ some x) ⊎ GavePassword d r subdomain c t x
lookup-handle_proxy_login d r c subdomain ip s a t x e on path h =
    elim (handle_proxy_login-sessions d r c subdomain ip s) [
      | inl same ↦ inl (cc)
      | inr (post, valid, new) ↦
          let fresh : Session = record {
            subdomain = subdomain;
            expires_at = d.now + auth_session_duration;
          } in
          let at : lookup t (create d.now d.token subdomain s.sessions) ≡ some x = cc (h, new) in
          let l : lookup t (create d.now d.token subdomain s.sessions)
              ≡ (if text_beq d.token t then some fresh else lookup t s.sessions) =
            unfold create in lookup-insert d.token t fresh s.sessions in
          elim (Bool-cases (text_beq d.token t)) [
            | inr q ↦ inl (cc (q, l, at))
            | inl q ↦ inr (record {
              auth = a;
              protected = (e, on);
              post = (text_beq_iff r.method (codes "POST")).0 post;
              path = path;
              password =
                  validate_proxy_auth_password (r.form_value (codes "password")) c a e on valid;
              drawn = cc ((text_beq_iff d.token t).0 q);
              session = cc (q, l, at);
            })
          ]
    ]

Distinct-handle_proxy_login :
    (d : Draw) (r : Request) (c : Connection) (subdomain ip : Text) (s : State)
    → Distinct s.sessions
    → Distinct (handle_proxy_login d r c subdomain ip s).0.sessions
Distinct-handle_proxy_login d r c subdomain ip s u =
    elim (handle_proxy_login-sessions d r c subdomain ip s) [
      | inl same ↦ rw same u
      | inr (post, valid, new) ↦ unfold create in rw new (Distinct-insert d.token _ s.sessions u)
    ]

-- What the authentication does to the sessions.
check_auth-sessions :
    (p : Parsers) (d : Draw) (r : Request) (subdomain : Text) (c : Connection) (s : State)
    → ((check_auth p d r subdomain c s).0.sessions ≡ s.sessions)
      ⊎ ((token : Text) × ((check_auth p d r subdomain c s).0.sessions
            ≡ (Sessions.validate d.now token subdomain s.sessions).0))
      ⊎ ((a : ProxyAuth) × (c.proxy_auth ≡ some a)
          × (a.enabled ≡ true)
          × (r.path ≡ codes "/_drip/login")
          × ((check_auth p d r subdomain c s).0.sessions
              ≡ (handle_proxy_login d r c subdomain (extract_client_ip p r) s).0.sessions))
unfolding check_auth check_bearer check_password check_session
check_auth-sessions p d r subdomain c s = elim (Option-cases c.proxy_auth) [
  | inl e ↦ inl (ground arith)
  | inr (a, e) ↦ elim (Bool-cases a.enabled) [
    | inr off ↦ inl (ground arith)
    | inl on ↦ elim (Bool-cases (is_rate_limited d.now (extract_client_ip p r) s.limiter)) [
      | inl limited ↦ inl (ground arith)
      | inr free ↦ elim (Bool-cases (is_bearer_proxy_auth (some a))) [
        | inl bearer ↦ inl (ground arith)
        | inr password ↦ elim (Bool-cases (text_beq r.path (codes "/_drip/login"))) [
          | inl login ↦
              inr
                (inr (a, e, on, (text_beq_iff r.path (codes "/_drip/login")).0 login, ground arith))
          | inr other ↦ elim (Option-cases (r.cookie (codes "drip_auth_" ++ subdomain))) [
            | inl q ↦ inl (ground arith)
            | inr (token, q) ↦ inr (inl (token, ground arith))
          ]
        ]
      ]
    ]
  ]
]

check_auth_kept :
    (p : Parsers) (d : Draw) (r : Request) (subdomain : Text) (c : Connection) (s : State)
    (t : Text) (x : Session)
    → Distinct s.sessions
    → lookup t (check_auth p d r subdomain c s).0.sessions ≡ some x
    → (lookup t s.sessions ≡ some x) ⊎ GavePassword d r subdomain c t x
check_auth_kept p d r subdomain c s t x u h = elim (check_auth-sessions p d r subdomain c s) [
  | inl same ↦ inl (cc)
  | inr (inl (token, v)) ↦ inl (lookup-validate d.now token subdomain t s.sessions x u (cc))
  | inr (inr (a, e, on, path, v)) ↦
      lookup-handle_proxy_login d r c subdomain (extract_client_ip p r) s a t x e on path (cc)
]

Distinct-check_auth :
    (p : Parsers) (d : Draw) (r : Request) (subdomain : Text) (c : Connection) (s : State)
    → Distinct s.sessions
    → Distinct (check_auth p d r subdomain c s).0.sessions
Distinct-check_auth p d r subdomain c s u = elim (check_auth-sessions p d r subdomain c s) [
  | inl same ↦ rw same u
  | inr (inl (token, v)) ↦ rw v (Distinct-validate d.now token subdomain s.sessions u)
  | inr (inr (a, e, on, path, v)) ↦
      rw v (Distinct-handle_proxy_login d r c subdomain (extract_client_ip p r) s u)
]

-- A request leaves the sessions alone, or does what the authentication of its tunnel does.
serve_http-sessions :
    (p : Parsers) (h : Handler) (d : Draw) (r : Request) (s : State)
    → ((serve_http p h d r s).0.sessions ≡ s.sessions)
      ⊎ ((subdomain : Text) × (c : Connection) × (find_tunnel h r s.manager ≡ ok (subdomain, c))
          × ((serve_http p h d r s).0.sessions ≡ (check_auth p d r subdomain c s).0.sessions))
unfolding serve_http serve_tunnel
serve_http-sessions p h d r s = elim (Option-cases (fixed_path p h d r)) [
  | inr (reply, e) ↦ inl (ground arith)
  | inl e ↦ elim (Result-cases (find_tunnel h r s.manager)) [
    | inl (reply, q) ↦ inl (ground arith)
    | inr ((subdomain, c), q) ↦ elim (Bool-cases (passes_ip_rules p r c)) [
      | inl rules ↦ inr (subdomain, c, q, ground arith)
      | inr denied ↦ inl (ground arith)
    ]
  ]
]

-- The handler's state over time: requests, the cleanup of the sessions, and whatever happens to the
-- tunnels and the limiter.
pub data Reachable (p : Parsers) (h : Handler) : State → Type 0 where
  start : (s : State) → s.sessions ≡ [] → Reachable p h s
  request :
      (s : State) (d : Draw) (r : Request)
      → Reachable p h s
      → Reachable p h (serve_http p h d r s).0
  clean :
      (s : State) (now : ℕ)
      → Reachable p h s
      → Reachable p h (record s { sessions = Sessions.cleanup now s.sessions })
  elsewhere : (s s' : State) → Reachable p h s → s'.sessions ≡ s.sessions → Reachable p h s'

Reachable-Distinct : (p : Parsers) (h : Handler) (s : State) → Reachable p h s → Distinct s.sessions
Reachable-Distinct p h s (start _ e) = rw e tt
Reachable-Distinct p h s (request s0 d r w) = elim (serve_http-sessions p h d r s0) [
  | inl same ↦ rw same (Reachable-Distinct p h s0 w)
  | inr (subdomain, c, q, v) ↦
      rw v (Distinct-check_auth p d r subdomain c s0 (Reachable-Distinct p h s0 w))
]
Reachable-Distinct p h s (clean s0 now w) =
    Distinct-cleanup now s0.sessions (Reachable-Distinct p h s0 w)
Reachable-Distinct p h s (elsewhere s0 _ w e) = rw e (Reachable-Distinct p h s0 w)

-- Earlier, a request gave the password of the tunnel that was then at the subdomain of the session.
pub record Login (p : Parsers) (h : Handler) (token : Text) (x : Session) : Type 0 where
  before : State
  reached : Reachable p h before
  draw : Draw
  request : Request
  tunnel : Connection
  at : find_tunnel h request before.manager ≡ ok (x.subdomain, tunnel)
  gave : GavePassword draw request x.subdomain tunnel token x

-- Whatever requests came and whatever became of the tunnels: a session in the store was made by a
-- POST to the login page of a tunnel that was then at the session's subdomain and asked for a
-- password, with this password. It has the token drawn for that request and lasts a day from it.
pub Reachable-Login :
    (p : Parsers) (h : Handler) (s : State) (token : Text) (x : Session)
    → Reachable p h s
    → lookup token s.sessions ≡ some x
    → Login p h token x
Reachable-Login p h s token x (start _ e) l = absurd (unfold lookup in cc)
Reachable-Login p h s token x (request s0 d r w) l = elim (serve_http-sessions p h d r s0) [
  | inl same ↦ Reachable-Login p h s0 token x w (cc)
  | inr (subdomain, c, q, v) ↦
      elim (check_auth_kept p d r subdomain c s0 token x (Reachable-Distinct p h s0 w) (cc)) [
        | inl old ↦ Reachable-Login p h s0 token x w old
        | inr g ↦
            let same : subdomain ≡ x.subdomain = cc (g.session) in
            record {
              before = s0;
              reached = w;
              draw = d;
              request = r;
              tunnel = c;
              at = cc (q, same);
              gave = subst (λ n. GavePassword d r n c token x) same g;
            }
      ]
]
Reachable-Login p h s token x (clean s0 now w) l =
    Reachable-Login p h s0 token x w
      (lookup-cleanup now token s0.sessions x (Reachable-Distinct p h s0 w) l)
Reachable-Login p h s token x (elsewhere s0 _ w e) l = Reachable-Login p h s0 token x w (cc)
