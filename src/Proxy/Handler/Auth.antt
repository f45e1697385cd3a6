-- ===== src/Proxy/Handler/Auth.antt =====
-- internal/server/proxy: what a tunnel's own authentication asks for.
use tunl.Base.{
  ℕ, ◌+◌, ◌≤◌, ◌<◌, false, ◌≡◌, ◌≢◌, ◌↔◌, true, none, some, [], ◌++◌, arith, ltb, Text, codes,
  text_beq, text_beq_iff, text_eq, Bool-cases, Option-cases, inl, inr,
}
use tunl.Base.Map.{lookup}
use tunl.Netutil.{Parsers, Request}
use tunl.Netutil.ClientIp.{extract_client_ip}
use tunl.Tunnel.Connection.{Connection, ProxyAuth}
use tunl.Proxy.AuthLimiter.{
  Entry, Limiter, auth_rate_limit_window, auth_rate_limit_max, in_window, is_locked,
  is_rate_limited,
}
use tunl.Proxy.Sessions.{Session, validate, validate-lookup}
use tunl.Proxy.Bearer.{is_bearer_proxy_auth, is_bearer_authenticated, extract_bearer_token}
use tunl.Proxy.Handler.{State, Draw, check_auth, check_bearer, check_password, check_session}

-- An address that is known may try again: no lockout of it lasts, and it has less than ten failures in a
-- window that is not over.
abbrev pub MayTry : ℕ → Text → Limiter → Type 0
MayTry now ip l =
    (e : Entry)
    → ip ≢ []
    → lookup ip l ≡ some e
    → ((t : ℕ) → e.locked_until ≡ some t → t ≤ now)
      × (now < e.window_start + auth_rate_limit_window → e.failures < auth_rate_limit_max)

is_rate_limited-MayTry :
    (now : ℕ) (ip : Text) (l : Limiter) → is_rate_limited now ip l ≡ false → MayTry now ip l
unfolding is_rate_limited is_locked in_window
is_rate_limited-MayTry now ip l h e ne q =
    let named : text_beq ip [] ≡ false = ground (arith, text_beq_iff ip []) in
    (λ t k. ground arith, λ w. ground arith)

MayTry-is_rate_limited :
    (now : ℕ) (ip : Text) (l : Limiter) → MayTry now ip l → is_rate_limited now ip l ≡ false
unfolding is_rate_limited is_locked in_window
MayTry-is_rate_limited now ip l m = elim (Bool-cases (text_beq ip [])) [
  | inl q ↦ ground arith
  | inr q ↦
      let ne : ip ≢ [] = λ z. cc ((text_beq_iff ip []).1 z, q) in
      elim (Option-cases (lookup ip l)) [
        | inl n ↦ ground arith
        | inr (e, k) ↦
            let (unlocked, few) = m e ne k in
            elim (Option-cases e.locked_until) [
              | inl u ↦ ground (arith, few)
              | inr (t, u) ↦ ground (arith, few, unlocked t u)
            ]
      ]
]

-- The visitor has shown what the tunnel's authentication asks for: nothing, its token, or a session
-- of the subdomain that is not over.
pub data Authorized (p : Parsers) (d : Draw) (r : Request) (subdomain : Text) (c : Connection)
    (s : State) : Type 0 where
  open_to_all :
      ((a : ProxyAuth) → c.proxy_auth ≡ some a → a.enabled ≡ false) → Authorized p d r subdomain c s
  by_token :
      (a : ProxyAuth)
      → c.proxy_auth ≡ some a
      → a.enabled ≡ true
      → is_bearer_proxy_auth (some a) ≡ true
      → MayTry d.now (extract_client_ip p r) s.limiter
      → extract_bearer_token (r.header (codes "Authorization")) ≡ a.token
      → a.token ≢ []
      → Authorized p d r subdomain c s
  by_session :
      (a : ProxyAuth) (token : Text) (x : Session)
      → c.proxy_auth ≡ some a
      → a.enabled ≡ true
      → is_bearer_proxy_auth (some a) ≡ false
      → MayTry d.now (extract_client_ip p r) s.limiter
      → r.path ≢ codes "/_drip/login"
      → r.cookie (codes "drip_auth_" ++ subdomain) ≡ some token
      → lookup token s.sessions ≡ some x
      → x.subdomain ≡ subdomain
      → ltb x.expires_at d.now ≡ false
      → Authorized p d r subdomain c s

-- A cookie of the subdomain that names a session of it that is not over.
abbrev pub InSession : Draw → Request → Text → State → Type 0
InSession d r subdomain s =
    (token : Text) × (x : Session) × (r.cookie (codes "drip_auth_" ++ subdomain) ≡ some token)
    × (lookup token s.sessions ≡ some x)
    × (x.subdomain ≡ subdomain)
    × (ltb x.expires_at d.now ≡ false)

check_session-none :
    (d : Draw) (r : Request) (subdomain : Text) (s : State)
    → (check_session d r subdomain s).1 ≡ none
    → InSession d r subdomain s
unfolding check_session
check_session-none d r subdomain s h =
    elim (Option-cases (r.cookie (codes "drip_auth_" ++ subdomain))) [
      | inl e ↦ absurd (ground arith)
      | inr (token, e) ↦
          let valid : (validate d.now token subdomain s.sessions).1 ≡ true = ground arith in
          let v = validate-lookup d.now token subdomain s.sessions valid in
          (token, v.0, e, v.1, v.2, v.3)
    ]

check_password-none :
    (d : Draw) (r : Request) (c : Connection) (subdomain ip : Text) (s : State)
    → (check_password d r c subdomain ip s).1 ≡ none
    → (r.path ≢ codes "/_drip/login") × InSession d r subdomain s
unfolding check_password
check_password-none d r c subdomain ip s h =
    elim (Bool-cases (text_beq r.path (codes "/_drip/login"))) [
      | inl login ↦ absurd (ground arith)
      | inr other ↦ (
        λ e. cc (other, (text_beq_iff r.path (codes "/_drip/login")).1 e),
        check_session-none d r subdomain s (ground arith),
      )
    ]

abbrev HasToken : Request → ProxyAuth → Type 0
HasToken r a = (extract_bearer_token (r.header (codes "Authorization")) ≡ a.token) × (a.token ≢ [])

is_bearer_authenticated_iff :
    (r : Request) (a : ProxyAuth) → (is_bearer_authenticated r a ≡ true) ↔ HasToken r a
unfolding is_bearer_authenticated
is_bearer_authenticated_iff r a =
    let token = extract_bearer_token (r.header (codes "Authorization")) in
    ground (arith, text_beq_iff token [], text_beq_iff token a.token)

check_bearer-none :
    (d : Draw) (r : Request) (a : ProxyAuth) (ip : Text) (s : State)
    → (check_bearer d r a ip s).1 ≡ none
    → HasToken r a
unfolding check_bearer
check_bearer-none d r a ip s h = (is_bearer_authenticated_iff r a).0 (ground arith)

pub check_auth-Authorized :
    (p : Parsers) (d : Draw) (r : Request) (subdomain : Text) (c : Connection) (s : State)
    → (check_auth p d r subdomain c s).1 ≡ none
    → Authorized p d r subdomain c s
unfolding check_auth
check_auth-Authorized p d r subdomain c s h = elim (Option-cases c.proxy_auth) [
  | inl e ↦ open_to_all (λ a q. cc (e, q))
  | inr (a, e) ↦ elim (Bool-cases a.enabled) [
    | inr off ↦ open_to_all (λ b q. cc (e, q, off))
    | inl on ↦ elim (Bool-cases (is_rate_limited d.now (extract_client_ip p r) s.limiter)) [
      | inl limited ↦ absurd (ground arith)
      | inr free ↦ elim (Bool-cases (is_bearer_proxy_auth (some a))) [
        | inl bearer ↦
            let v = check_bearer-none d r a (extract_client_ip p r) s (ground arith) in
            by_token a e on bearer (is_rate_limited-MayTry _ _ _ free) v.0 v.1
        | inr password ↦
            let v = check_password-none d r c subdomain (extract_client_ip p r) s (ground arith) in
            by_session a v.1.0 v.1.1 e on password (is_rate_limited-MayTry _ _ _ free) v.0 v.1.2
              v.1.3 v.1.4 v.1.5
      ]
    ]
  ]
]

pub Authorized-check_auth :
    (p : Parsers) (d : Draw) (r : Request) (subdomain : Text) (c : Connection) (s : State)
    → Authorized p d r subdomain c s
    → (check_auth p d r subdomain c s).1 ≡ none
unfolding check_auth
Authorized-check_auth p d r subdomain c s (open_to_all f) = elim (Option-cases c.proxy_auth) [
  | inl e ↦ ground arith
  | inr (a, e) ↦ ground (arith, f a e)
]
Authorized-check_auth p d r subdomain c s (by_token a e on bearer free t ne) =
    unfold check_bearer in
    ground (
      arith,
      (is_bearer_authenticated_iff r a).1 (t, ne),
      MayTry-is_rate_limited d.now (extract_client_ip p r) s.limiter free,
    )
Authorized-check_auth p d r subdomain c s
      (by_session a token x e on password free path k l same over) =
    unfold check_password check_session validate in
    ground (
      arith,
      text_beq_iff x.subdomain subdomain,
      text_beq_iff r.path (codes "/_drip/login"),
      MayTry-is_rate_limited d.now (extract_client_ip p r) s.limiter free,
    )
