-- ===== src/Netutil/Access.antt =====
-- internal/shared/netutil/ipaccess.go: allow and deny lists of networks.
use tunl.Base.{
  ◌≡◌, ◌≢◌, ◌↔◌, ◌⊎◌, inl, inr, refl, Bool, true, false, not, ◌&&◌, ◌||◌, none, some, List, [], ◌∷◌,
  ◌++◌, arith, if◌then◌else◌, Bool-cases, Option-cases, Text, codes, text_beq, text_beq_iff,
  trim_space, contains_byte,
}
use tunl.Netutil.{Address, v4, v6, Network, in_network, Parsers}

pub record IpAccessChecker : Type 0 where
  pub allow_nets : List Network
  pub deny_nets : List Network
  pub has_allow : Bool
  pub has_deny : Bool

abbrev pub is_nonempty : List Network → Bool
is_nonempty [] = false
is_nonempty (n ∷ ns) = true

module _ (p : Parsers) where
  -- A text without a slash that is an address stands for the network of this address alone.
  unfoldable pub with_bits : Text → Text
  with_bits cidr = if contains_byte b'/' cidr then cidr else elim (p.parse_ip cidr) [
    | none ↦ cidr
    | some (v4 a) ↦ cidr ++ codes "/32"
    | some (v6 a) ↦ cidr ++ codes "/128"
  ]

  -- The loop over one of the lists: what is empty or does not parse is skipped.
  unfoldable pub parse_nets : List Text → List Network
  unfolding with_bits
  parse_nets [] = []
  parse_nets (t ∷ ts) =
      let rest = parse_nets ts in
      let cidr = trim_space t in
      if text_beq cidr []
      then rest
      else elim (p.parse_cidr (with_bits cidr)) [ none ↦ rest | some n ↦ n ∷ rest ]

  unfoldable pub new_ip_access_checker : List Text → List Text → IpAccessChecker
  unfolding parse_nets
  new_ip_access_checker allow deny = record {
    allow_nets = parse_nets allow;
    deny_nets = parse_nets deny;
    has_allow = is_nonempty (parse_nets allow);
    has_deny = is_nonempty (parse_nets deny);
  }

-- Whether one of the networks has the address.
unfoldable pub any_network : List Network → Address → Bool
any_network [] a = false
any_network (n ∷ ns) a = in_network n a || any_network ns a

unfoldable pub has_rules : IpAccessChecker → Bool
has_rules c = c.has_allow || c.has_deny

unfoldable pub is_allowed : Parsers → IpAccessChecker → Text → Bool
unfolding any_network
is_allowed p c ip = if not c.has_allow && not c.has_deny then true else elim (p.parse_ip ip) [
  | none ↦ false
  | some a ↦
      if c.has_deny && any_network c.deny_nets a
      then false
      else if c.has_allow
      then any_network c.allow_nets a
      else true
]

-- An address is in some of the networks that the texts of a list name.
pub data Listed (p : Parsers) (a : Address) : List Text → Type 0 where
  here :
      (t : Text) (ts : List Text) (n : Network)
      → trim_space t ≢ []
      → p.parse_cidr (with_bits p (trim_space t)) ≡ some n
      → in_network n a ≡ true
      → Listed p a (t ∷ ts)
  there : (t : Text) (ts : List Text) → Listed p a ts → Listed p a (t ∷ ts)

-- No text of a list names a network.
abbrev pub IsVoid : Parsers → List Text → Type 0
IsVoid p ts = parse_nets p ts ≡ []

Listed-any_network :
    (p : Parsers) (a : Address) (ts : List Text)
    → any_network (parse_nets p ts) a ≡ true
    → Listed p a ts
unfolding any_network parse_nets
Listed-any_network p a [] e = cc
Listed-any_network p a (t ∷ ts) e = elim (Bool-cases (text_beq (trim_space t) [])) [
  | inl q ↦ there t ts (Listed-any_network p a ts (ground arith))
  | inr q ↦ elim (Option-cases (p.parse_cidr (with_bits p (trim_space t)))) [
    | inl r ↦ there t ts (Listed-any_network p a ts (ground arith))
    | inr (n, r) ↦ elim (Bool-cases (in_network n a)) [
      | inl m ↦ here t ts n (λ z. cc (q, (text_beq_iff (trim_space t) []).1 z)) r m
      | inr m ↦ there t ts (Listed-any_network p a ts (ground arith))
    ]
  ]
]

Listed-rest :
    (p : Parsers) (a : Address) (t : Text) (ts : List Text)
    → any_network (parse_nets p ts) a ≡ true
    → any_network (parse_nets p (t ∷ ts)) a ≡ true
unfolding any_network parse_nets
Listed-rest p a t ts e = elim (Bool-cases (text_beq (trim_space t) [])) [
  | inl q ↦ ground arith
  | inr q ↦ elim (Option-cases (p.parse_cidr (with_bits p (trim_space t)))) [
    | inl r ↦ ground arith
    | inr (n, r) ↦ ground arith
  ]
]

any_network-Listed :
    (p : Parsers) (a : Address) (ts : List Text)
    → Listed p a ts
    → any_network (parse_nets p ts) a ≡ true
any_network-Listed p a ts (here t rest n ne r m) =
    unfold any_network parse_nets in ground (arith, text_beq_iff (trim_space t) [])
any_network-Listed p a ts (there t rest l) = Listed-rest p a t rest (any_network-Listed p a rest l)

is_nonempty-nil : (ns : List Network) → is_nonempty ns ≡ false → ns ≡ []
is_nonempty-nil [] e = refl
is_nonempty-nil (n ∷ ns) e = cc

any_network-nil : (a : Address) → any_network [] a ≡ false
unfolding any_network
any_network-nil a = refl

-- Who may connect under these lists.
pub data MayConnect (p : Parsers) (allow deny : List Text) (ip : Text) : Type 0 where
  unrestricted : IsVoid p allow → IsVoid p deny → MayConnect p allow deny ip
  listed :
      (a : Address)
      → p.parse_ip ip ≡ some a
      → ¬ Listed p a deny
      → IsVoid p allow ⊎ Listed p a allow
      → MayConnect p allow deny ip

allowed-MayConnect :
    (p : Parsers) (allow deny : List Text) (ip : Text)
    → is_allowed p (new_ip_access_checker p allow deny) ip ≡ true
    → MayConnect p allow deny ip
unfolding is_allowed new_ip_access_checker
allowed-MayConnect p allow deny ip e = elim (Bool-cases (is_nonempty (parse_nets p allow))) [
  | inr va ↦ elim (Bool-cases (is_nonempty (parse_nets p deny))) [
    | inr vd ↦ unrestricted (is_nonempty-nil _ va) (is_nonempty-nil _ vd)
    | inl vd ↦ elim (Option-cases (p.parse_ip ip)) [
      | inl r ↦ absurd (ground arith)
      | inr (a, r) ↦
          listed a r (λ l. ground (arith, any_network-Listed p a deny l))
            (inl (is_nonempty-nil _ va))
    ]
  ]
  | inl va ↦ elim (Option-cases (p.parse_ip ip)) [
    | inl r ↦ absurd (ground arith)
    | inr (a, r) ↦
        listed a r (λ l. ground (arith, any_network-Listed p a deny l))
          (inr (Listed-any_network p a allow (ground arith)))
  ]
]

no_networks : (a : Address) (ns : List Network) → any_network ns a ≡ true → is_nonempty ns ≡ true
unfolding any_network
no_networks a [] e = cc
no_networks a (n ∷ ns) e = refl

-- The deny list wins; the allow list counts if it names a network. `l` is whether it has the address.
decided :
    (p : Parsers) (allow deny : List Text) (ip : Text) (a : Address)
    → p.parse_ip ip ≡ some a
    → any_network (parse_nets p deny) a ≡ false
    → (is_nonempty (parse_nets p allow) ≡ false) ⊎ (any_network (parse_nets p allow) a ≡ true)
    → is_allowed p (new_ip_access_checker p allow deny) ip ≡ true
unfolding is_allowed new_ip_access_checker
decided p allow deny ip a r d l = ground (arith, no_networks a (parse_nets p allow))

MayConnect-allowed :
    (p : Parsers) (allow deny : List Text) (ip : Text)
    → MayConnect p allow deny ip
    → is_allowed p (new_ip_access_checker p allow deny) ip ≡ true
unfolding is_allowed new_ip_access_checker
MayConnect-allowed p allow deny ip (unrestricted va vd) = rw (va, vd) refl
MayConnect-allowed p allow deny ip (listed a r d l) =
    decided p allow deny ip a r
      (elim (Bool-cases (any_network (parse_nets p deny) a)) [
        | inl e ↦ absurd (d (Listed-any_network p a deny e))
        | inr e ↦ e
      ])
      (elim l [ inl va ↦ inl (rw va refl) | inr m ↦ inr (any_network-Listed p a allow m) ])

-- `IsAllowed` with the checker of two lists says yes exactly if neither list names a network, or the
-- text is an address in no network of the deny list, and in one of the allow list if that names any.
-- Entries that are empty or do not parse count for nothing.
pub is_allowed-MayConnect :
    (p : Parsers) (allow deny : List Text) (ip : Text)
    → (is_allowed p (new_ip_access_checker p allow deny) ip ≡ true) ↔ MayConnect p allow deny ip
is_allowed-MayConnect p allow deny ip =
    (allowed-MayConnect p allow deny ip, MayConnect-allowed p allow deny ip)
