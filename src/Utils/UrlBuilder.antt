-- ===== src/Utils/UrlBuilder.antt =====
-- internal/shared/utils/url_builder.go: the address of a tunnel.
use tunl.Base.{
  ℕ, ◌≡◌, ◌⊎◌, ap, ◌∙◌, refl, true, false, ◌||◌, [], ◌∷◌, ◌++◌, arith, ◌==◌, if◌then◌else◌, Text,
  codes, text_beq, before, contains_byte, has_prefix, trim_prefix, All, Bool-cases, inl, inr,
}
use mathlib.Core.List.{append-nil}
use tunl.Base.Decimal.{show}
use tunl.Utils.Subdomain.{is_label, is_alnum, validate_subdomain}
use tunl.Utils.Subdomain.Shape.{validate_subdomain-IsSubdomain}

pub record TunnelUrlBuilder : Type 0 where
  pub tunnel_domain : Text
  pub public_port : ℕ

unfoldable pub build_http_url : TunnelUrlBuilder → Text → Text
build_http_url b subdomain =
    if b.public_port == 443
    then codes "https://" ++ (subdomain ++ b'.' ∷ b.tunnel_domain)
    else codes "https://" ++ (subdomain ++ b'.' ∷ (b.tunnel_domain ++ b':' ∷ show b.public_port))

unfoldable pub build_tcp_url : TunnelUrlBuilder → ℕ → Text
build_tcp_url b port = codes "tcp://" ++ (b.tunnel_domain ++ b':' ∷ show port)

unfoldable pub build_url : TunnelUrlBuilder → Text → Text → ℕ → Text
unfolding build_http_url build_tcp_url
build_url b subdomain tunnel_type port =
    if text_beq tunnel_type (codes "http") || text_beq tunnel_type (codes "https")
    then build_http_url b subdomain
    else build_tcp_url b port

before-append :
    (c : ℕ) (s t : Text) → contains_byte c s ≡ false → before c (s ++ t) ≡ s ++ before c t
unfolding before contains_byte
before-append c [] t h = refl
before-append c (d ∷ s) t h = ground (arith, before-append c s t)

before_none : (c : ℕ) (s : Text) → contains_byte c s ≡ false → before c s ≡ s
unfolding before contains_byte
before_none c [] h = refl
before_none c (d ∷ s) h = ground (arith, before_none c s)

no_colon : (s : Text) → All (λ c. is_label c ≡ true) s → contains_byte b':' s ≡ false
unfolding contains_byte is_label is_alnum
no_colon [] h = refl
no_colon (c ∷ s) h = ground (arith, no_colon s h.1, h.0)

-- A valid subdomain has no colon in it.
validate_subdomain-contains_byte :
    (s : Text) → validate_subdomain s ≡ true → contains_byte b':' s ≡ false
validate_subdomain-contains_byte s h =
    let i = (validate_subdomain-IsSubdomain s).0 h in no_colon s i.letters

contains_byte-append :
    (c : ℕ) (s t : Text) → contains_byte c (s ++ t) ≡ (contains_byte c s || contains_byte c t)
unfolding contains_byte
contains_byte-append c [] t = refl
contains_byte-append c (d ∷ s) t = ground (arith, contains_byte-append c s t)

trim_scheme : (x : Text) → trim_prefix (codes "https://" ++ x) (codes "https://") ≡ x
unfolding trim_prefix has_prefix
trim_scheme [] = refl
trim_scheme (c ∷ x) = refl

-- A host with its port, or without one.
before_port :
    (subdomain domain port : Text)
    → validate_subdomain subdomain ≡ true
    → contains_byte b':' domain ≡ false
    → (port ≡ []) ⊎ (before b':' port ≡ [])
    → before b':' (subdomain ++ b'.' ∷ (domain ++ port)) ≡ subdomain ++ b'.' ∷ domain
before_port subdomain domain port v d e =
    let p : before b':' port ≡ [] = unfold before in ground arith in
    let rest : before b':' (b'.' ∷ (domain ++ port)) ≡ b'.' ∷ domain =
      unfold before in ground (arith, before-append b':' domain port d, p, append-nil domain) in
    before-append b':' subdomain (b'.' ∷ (domain ++ port))
      (validate_subdomain-contains_byte subdomain v)
    ∙ ap (λ (t : Text). subdomain ++ t) rest

-- The host of the address of an HTTP tunnel, as a browser sends it, without its port.
pub before-build_http_url :
    (b : TunnelUrlBuilder) (subdomain : Text)
    → validate_subdomain subdomain ≡ true
    → contains_byte b':' b.tunnel_domain ≡ false
    → before b':' (trim_prefix (build_http_url b subdomain) (codes "https://"))
      ≡ subdomain ++ b'.' ∷ b.tunnel_domain
unfolding build_http_url
before-build_http_url b subdomain v d = elim (Bool-cases (b.public_port == 443)) [
  | inl q ↦ ground (
    arith,
    trim_scheme (subdomain ++ b'.' ∷ b.tunnel_domain),
    before_port subdomain b.tunnel_domain [] v d (inl refl),
    append-nil b.tunnel_domain,
  )
  | inr q ↦ ground (
    arith,
    trim_scheme (subdomain ++ b'.' ∷ (b.tunnel_domain ++ b':' ∷ show b.public_port)),
    before_port subdomain b.tunnel_domain (b':' ∷ show b.public_port) v d
        (inr (unfold before in refl)),
  )
]
