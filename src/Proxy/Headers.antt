-- ===== src/Proxy/Headers.antt =====
-- internal/server/proxy/handler.go: the headers of a tunnel's answer on their way to the visitor. A
-- header is a list of names with their values.
use tunl.Base.{
  ℕ, ◌≡◌, Bool, not, ◌&&◌, ◌||◌, Option, none, some, List, [], ◌∷◌, ◌++◌, if◌then◌else◌, Text,
  codes, text_beq, text_beq_iff, arith, has_prefix, ◌≢◌, ap, text_eq,
}
use mathlib.Core.List.{append-nil, append_assoc}
use tunl.Base.Map.{lookup, insert, lookup-insert}

-- What `url.Parse` reads of a location.
pub record Url : Type 0 where
  pub host : Text
  pub path : Text
  pub raw_query : Text
  pub fragment : Text

pub record Web : Type 0 where
  pub parse_url : Text → Option Url
  pub canonical_header_key : Text → Text

-- The hosts of the machine that the client runs on.
unfoldable pub is_local_host : Text → Bool
is_local_host host =
    text_beq host (codes "localhost")
    || has_prefix host (codes "localhost:")
    || text_beq host (codes "127.0.0.1")
    || has_prefix host (codes "127.0.0.1:")

abbrev with_part : ℕ → Text → Text
with_part c [] = []
with_part c (d ∷ s) = c ∷ d ∷ s

unfoldable pub rewrite_location_header : Web → Text → Text → Text
unfolding is_local_host
rewrite_location_header web location proxy_host =
    if not (has_prefix location (codes "http://")) && not (has_prefix location (codes "https://"))
    then location
    else elim (web.parse_url location) [
      | none ↦ location
      | some u ↦
          if is_local_host u.host
          then codes "https://"
            ++ (proxy_host ++ (u.path ++ (with_part b'?' u.raw_query ++ with_part b'#' u.fragment)))
          else location
    ]

-- Hop-by-hop headers, which must not be forwarded.
unfoldable pub is_hop_by_hop : Text → Bool
is_hop_by_hop key =
    text_beq key (codes "Connection")
    || text_beq key (codes "Keep-Alive")
    || text_beq key (codes "Transfer-Encoding")
    || text_beq key (codes "Upgrade")
    || text_beq key (codes "Proxy-Connection")
    || text_beq key (codes "Te")
    || text_beq key (codes "Trailer")

abbrev pub Header : Type 0
Header = List (Text × List Text)

unfoldable pub values : Text → Header → List Text
values key h = elim (lookup key h) [ none ↦ [] | some vs ↦ vs ]

-- The loop of `Header.Add` over the values of one name.
unfoldable pub add_all : Text → List Text → Header → Header
unfolding values
add_all key [] dst = dst
add_all key (v ∷ vs) dst = add_all key vs (insert key (values key dst ++ v ∷ []) dst)

-- One round of the loop over the headers of the answer.
unfoldable pub copy_header : Web → Text → Text → List Text → Header → Header
unfolding add_all
copy_header web proxy_host key vs dst =
    let k = web.canonical_header_key key in
    if is_hop_by_hop k then dst else elim vs [
      | [] ↦ dst
      | v ∷ more ↦
          if text_beq k (codes "Location")
          then insert (codes "Location") (rewrite_location_header web v proxy_host ∷ []) dst
          else add_all k (v ∷ more) dst
    ]

unfoldable pub copy_response_headers : Web → Text → Header → Header → Header
unfolding copy_header
copy_response_headers web proxy_host [] dst = dst
copy_response_headers web proxy_host ((key, vs) ∷ src) dst =
    copy_response_headers web proxy_host src (copy_header web proxy_host key vs dst)

-- All the values that a header has under the names that mean this one.
unfoldable pub all_values : Web → Text → Header → List Text
all_values web k [] = []
all_values web k ((key, vs) ∷ src) =
    let rest = all_values web k src in
    if text_beq (web.canonical_header_key key) k then vs ++ rest else rest

values-insert :
    (key k : Text) (vs : List Text) (dst : Header)
    → values k (insert key vs dst) ≡ (if text_beq key k then vs else values k dst)
unfolding values
values-insert key k vs dst = ground (arith, lookup-insert key k vs dst)

values-add_all :
    (key k : Text) (vs : List Text) (dst : Header)
    → values k (add_all key vs dst) ≡ (if text_beq key k then values k dst ++ vs else values k dst)
unfolding add_all
values-add_all key k [] dst = ground (arith, append-nil (values k dst))
values-add_all key k (v ∷ vs) dst = ground (
  arith,
  values-add_all key k vs (insert key (values key dst ++ v ∷ []) dst),
  values-insert key k (values key dst ++ v ∷ []) dst,
  append_assoc (values k dst) (v ∷ []) vs,
  text_beq_iff key k,
  ap (λ (t : Text). values t dst) {x = key} {y = k},
)

values-copy_header :
    (web : Web) (proxy_host key k : Text) (vs : List Text) (dst : Header)
    → k ≢ codes "Location"
    → values k (copy_header web proxy_host key vs dst) ≡ (
        if text_beq (web.canonical_header_key key) k && not (is_hop_by_hop k)
        then values k dst ++ vs
        else values k dst)
unfolding copy_header
values-copy_header web proxy_host key k [] dst ne = ground (arith, append-nil (values k dst))
values-copy_header web proxy_host key k (v ∷ vs) dst ne = ground (
  arith,
  values-insert (codes "Location") k (rewrite_location_header web v proxy_host ∷ []) dst,
  values-add_all (web.canonical_header_key key) k (v ∷ vs) dst,
  text_beq_iff (web.canonical_header_key key) k,
  text_beq_iff (web.canonical_header_key key) (codes "Location"),
  text_beq_iff (codes "Location") k,
  ap is_hop_by_hop {x = web.canonical_header_key key} {y = k},
)

-- What the visitor gets of the headers of an answer, `Location` apart: of a hop-by-hop header
-- nothing is added to what was there, and of any other all values, in their order, under whatever
-- spelling of its name they came.
pub copy_response_headers-values :
    (web : Web) (proxy_host k : Text) (src dst : Header)
    → k ≢ codes "Location"
    → values k (copy_response_headers web proxy_host src dst)
      ≡ (if is_hop_by_hop k then values k dst else values k dst ++ all_values web k src)
unfolding copy_response_headers all_values
copy_response_headers-values web proxy_host k [] dst ne = ground (arith, append-nil (values k dst))
copy_response_headers-values web proxy_host k ((key, vs) ∷ src) dst ne = ground (
  arith,
  copy_response_headers-values web proxy_host k src (copy_header web proxy_host key vs dst) ne,
  values-copy_header web proxy_host key k vs dst ne,
  append_assoc (values k dst) vs (all_values web k src),
)
