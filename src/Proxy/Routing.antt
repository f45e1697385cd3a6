-- ===== src/Proxy/Routing.antt =====
-- internal/server/proxy/handler.go: what the server lets in, and the subdomain that a host names.
use tunl.Base.{
  ◌≡◌, ◌≢◌, Bool, true, false, ◌||◌, List, [], ◌∷◌, ◌++◌, if◌then◌else◌, Text, codes, text_beq,
  text_beq_iff, arith, equal_fold, before, has_suffix, trim_suffix, has_suffix-append,
  trim_suffix-append, contains_byte, trim_prefix,
}
use tunl.Utils.Subdomain.{validate_subdomain}
use tunl.Utils.UrlBuilder.{TunnelUrlBuilder, build_http_url, before-build_http_url}

-- Whether a list has the text, but for case.
unfoldable pub contains_fold : Text → List Text → Bool
contains_fold t [] = false
contains_fold t (x ∷ xs) = equal_fold x t || contains_fold t xs

unfoldable pub is_allowed_in : List Text → Text → Bool
unfolding contains_fold
is_allowed_in [] t = true
is_allowed_in (x ∷ xs) t = contains_fold t (x ∷ xs)

unfoldable pub get_preferred_transport : List Text → Text
get_preferred_transport [] = codes "tcp"
get_preferred_transport (x ∷ []) = x
get_preferred_transport (x ∷ y ∷ rest) = codes "tcp"

pub data SubdomainResult : Type 0 where
  home found not_found : SubdomainResult

-- `serverDomain` and `tunnelDomain` of the handler.
unfoldable pub extract_subdomain : Text → Text → Text → Text × SubdomainResult
extract_subdomain server_domain tunnel_domain full_host =
    let host = before b':' full_host in
    if text_beq host server_domain
    then ([], home)
    else if has_suffix host (b'.' ∷ tunnel_domain)
    then (trim_suffix host (b'.' ∷ tunnel_domain), found)
    else ([], not_found)

-- The address that the server hands out for an HTTP tunnel leads back to it: of the host in it, with
-- or without a port, the proxy finds the tunnel's subdomain. The subdomain is a valid one, there is
-- no colon in the tunnel domain, and the host is not the server's own.
pub extract_subdomain-build_http_url :
    (b : TunnelUrlBuilder) (server_domain subdomain : Text)
    → validate_subdomain subdomain ≡ true
    → contains_byte b':' b.tunnel_domain ≡ false
    → subdomain ++ b'.' ∷ b.tunnel_domain ≢ server_domain
    → extract_subdomain server_domain b.tunnel_domain
        (trim_prefix (build_http_url b subdomain) (codes "https://"))
      ≡ (subdomain, found)
unfolding extract_subdomain
extract_subdomain-build_http_url b server_domain subdomain v d ne = ground (
  arith,
  before-build_http_url b subdomain v d,
  text_beq_iff (subdomain ++ b'.' ∷ b.tunnel_domain) server_domain,
  has_suffix-append subdomain (b'.' ∷ b.tunnel_domain),
  trim_suffix-append subdomain (b'.' ∷ b.tunnel_domain),
)
