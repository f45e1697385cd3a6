-- ===== src/Netutil/ClientIp.antt =====
-- internal/shared/netutil/ip.go: the address of the client of a request.
use tunl.Base.{
  ◌+◌, ◌*◌, ◌^◌, ◌≤◌, ◌<◌, ◌≡◌, subst, ◌↔◌, ◌⊎◌, inl, inr, Bool, true, false, not, Option, none,
  some, List, [], ◌∷◌, arith, if◌then◌else◌, Bool-cases, Option-cases, Text, codes, text_beq,
  trim_space, before,
}
use tunl.Netutil.{Address, v4, v6, Network, net4, net6, in_network, Parsers, Request}
use tunl.Netutil.Access.{any_network}

unfoldable pub extract_remote_ip : Parsers → Text → Text
extract_remote_ip p remote_addr = elim (p.split_host remote_addr) [
  | none ↦ remote_addr
  | some host ↦ host
]

-- 127.0.0.0/8, 10.0.0.0/8, 172.16.0.0/12, 192.168.0.0/16, ::1/128, fc00::/7 and fe80::/10.
unfoldable pub private_networks : List Network
private_networks =
    net4 (127 * 2 ^ 24) 8
    ∷ net4 (10 * 2 ^ 24) 8
    ∷ net4 (172 * 2 ^ 24 + 16 * 2 ^ 16) 12
    ∷ net4 (192 * 2 ^ 24 + 168 * 2 ^ 16) 16
    ∷ net6 1 128
    ∷ net6 (0xfc00 * 2 ^ 112) 7
    ∷ net6 (0xfe80 * 2 ^ 112) 10
    ∷ []

unfoldable pub is_private_ip : Parsers → Text → Bool
unfolding private_networks
is_private_ip p ip = elim (p.parse_ip ip) [ none ↦ false | some a ↦ any_network private_networks a ]

-- The client that the headers of a proxy name: the first entry of `X-Forwarded-For`, or `X-Real-IP`.
unfoldable pub forwarded_for : Request → Option Text
forwarded_for r =
    if not (text_beq (r.header (codes "X-Forwarded-For")) [])
    then some (trim_space (before b',' (r.header (codes "X-Forwarded-For"))))
    else if not (text_beq (r.header (codes "X-Real-IP")) [])
    then some (trim_space (r.header (codes "X-Real-IP")))
    else none

unfoldable pub extract_client_ip : Parsers → Request → Text
unfolding extract_remote_ip is_private_ip forwarded_for
extract_client_ip p r =
    let remote_ip = extract_remote_ip p r.remote_addr in
    if is_private_ip p remote_ip
    then elim (forwarded_for r) [ some ip ↦ ip | none ↦ remote_ip ]
    else remote_ip

-- The private and loopback ranges, by their first and last addresses.
abbrev pub IsPrivate : Address → Type 0
IsPrivate (v4 a) =
    (127 * 2 ^ 24 ≤ a × a < 128 * 2 ^ 24)
    ⊎ (10 * 2 ^ 24 ≤ a × a < 11 * 2 ^ 24)
    ⊎ (172 * 2 ^ 24 + 16 * 2 ^ 16 ≤ a × a < 172 * 2 ^ 24 + 32 * 2 ^ 16)
    ⊎ (192 * 2 ^ 24 + 168 * 2 ^ 16 ≤ a × a < 192 * 2 ^ 24 + 169 * 2 ^ 16)
IsPrivate (v6 a) =
    (a ≡ 1)
    ⊎ (0xfc00 * 2 ^ 112 ≤ a × a < 0xfe00 * 2 ^ 112)
    ⊎ (0xfe80 * 2 ^ 112 ≤ a × a < 0xfec0 * 2 ^ 112)

private_networks-IsPrivate : (a : Address) → (any_network private_networks a ≡ true) ↔ IsPrivate a
unfolding private_networks any_network in_network
private_networks-IsPrivate (v4 a) = ground arith
private_networks-IsPrivate (v6 a) = ground arith

-- The request came straight from an address of these ranges.
abbrev pub FromPrivate : Parsers → Request → Type 0
FromPrivate p r =
    (a : Address) × (p.parse_ip (extract_remote_ip p r.remote_addr) ≡ some a) × IsPrivate a

-- Which address counts as the client's.
pub data ClientIs (p : Parsers) (r : Request) (ip : Text) : Type 0 where
  named : FromPrivate p r → forwarded_for r ≡ some ip → ClientIs p r ip
  direct :
      ¬ FromPrivate p r ⊎ (forwarded_for r ≡ none)
      → extract_remote_ip p r.remote_addr ≡ ip
      → ClientIs p r ip

is_private_ip-IsPrivate :
    (p : Parsers) (ip : Text)
    → (is_private_ip p ip ≡ true) ↔ ((a : Address) × (p.parse_ip ip ≡ some a) × IsPrivate a)
unfolding is_private_ip
is_private_ip-IsPrivate p ip = elim (Option-cases (p.parse_ip ip)) [
  | inl e ↦ (λ h. cc, λ (a, q, v). cc)
  | inr (b, e) ↦ (
    λ h. (b, e, (private_networks-IsPrivate b).0 (cc)),
    λ (a, q, v). ground (arith, private_networks-IsPrivate a),
  )
]

client_is : (p : Parsers) (r : Request) → ClientIs p r (extract_client_ip p r)
unfolding extract_client_ip
client_is p r = elim (Bool-cases (is_private_ip p (extract_remote_ip p r.remote_addr))) [
  | inl e ↦
      let v : FromPrivate p r =
        (is_private_ip-IsPrivate p (extract_remote_ip p r.remote_addr)).0 e in
      elim (Option-cases (forwarded_for r)) [
        | inl f ↦ direct (inr f) (cc)
        | inr (ip, f) ↦ named v (cc)
      ]
  | inr e ↦
      direct
        (inl (λ v. cc (e, (is_private_ip-IsPrivate p (extract_remote_ip p r.remote_addr)).1 v)))
        (cc)
]

ClientIs-unique :
    (p : Parsers) (r : Request) (ip : Text) → ClientIs p r ip → extract_client_ip p r ≡ ip
unfolding extract_client_ip
ClientIs-unique p r ip (named v f) =
    cc (f, (is_private_ip-IsPrivate p (extract_remote_ip p r.remote_addr)).1 v)
ClientIs-unique p r ip (direct (inr f) e) = ground arith
ClientIs-unique p r ip (direct (inl nv) e) =
    elim (Bool-cases (is_private_ip p (extract_remote_ip p r.remote_addr))) [
      | inl q ↦ absurd (nv ((is_private_ip-IsPrivate p (extract_remote_ip p r.remote_addr)).0 q))
      | inr q ↦ ground arith
    ]

-- The client of a request is what its headers name exactly if it came straight from a private or
-- loopback address and they name someone; otherwise it is the address it came from.
pub extract_client_ip-ClientIs :
    (p : Parsers) (r : Request) (ip : Text) → (extract_client_ip p r ≡ ip) ↔ ClientIs p r ip
extract_client_ip-ClientIs p r ip =
    (λ e. subst (ClientIs p r) e (client_is p r), ClientIs-unique p r ip)
