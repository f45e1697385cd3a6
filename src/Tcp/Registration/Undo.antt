-- ===== src/Tcp/Registration/Undo.antt =====
-- internal/server/tcp/registration_handler.go: a registration that fails leaves nothing behind.
use tunl.Base.{
  ℕ, zero, suc, ◌-◌, ◌+◌, ◌≤◌, ◌≡◌, subst, refl, sym, ap, ◌∙◌, Bool, true, false, ◌||◌, Option,
  none, some, [], arith, ltb, Text, codes, text_beq, ok, err, Bool-cases, Option-cases, inl, inr,
  nat_eq, text_eq,
}
use tunl.Base.Int.{pos, ◌+ℤ◌, +ℤ_cancel}
use tunl.Base.Map.{insert, Distinct, lookup-insert, lookup-erase, Distinct-insert}
use tunl.Base.Result.{Result}
use tunl.Tunnel.Manager
use tunl.Tunnel.Manager.{
  Manager, reserve_global, rollback_global, roll_back, release_ip, claim, register_slot,
  register_with_ip, store_tunnel, claim_custom, put_shard,
}
use tunl.Tcp.PortAllocator.{
  PortAllocator, PortError, is_taken, reserve, try_from, allocate, allocate_specific, release_port,
  random_port,
}
use tunl.Tcp.Registration.{
  Server, RegistrationRequest, RegistrationError, Draws, ask_port, allocate_port, give_back_port,
  parse_tcp_subdomain_port, no_allocator, no_port, lend, named_after,
}

-- A call for a port leaves the allocator as it is, or reserves one that was free.
pub data Asked (p : PortAllocator) : PortAllocator × Result PortError ℕ → Type 0 where
  refused : (e : PortError) → Asked p (p, err e)
  reserved : (port : ℕ) → p.min ≤ port → is_taken port p ≡ false → Asked p (reserve port p, ok port)

try_from-Asked :
    (draw : ℕ → Option ℕ) (listens : ℕ → ℕ → Bool) (i k : ℕ) (p : PortAllocator)
    → Asked p (try_from draw listens i k p)
unfolding try_from
try_from-Asked draw listens i zero p = refused _
try_from-Asked draw listens i (suc k) p =
    let rest = try_from-Asked draw listens (i + 1) k p in
    let port = random_port (draw i) p in
    let low : p.min ≤ port = unfold random_port in ground arith in
    elim (Bool-cases (is_taken port p)) [
      | inl t ↦ rw t rest
      | inr t ↦ elim (Bool-cases (listens i port)) [
        | inl l ↦ rw (t, l) (reserved port low t)
        | inr l ↦ rw (t, l) rest
      ]
    ]

allocate_specific-Asked :
    (port : ℕ) (listens : Bool) (p : PortAllocator) → Asked p (allocate_specific port listens p)
unfolding allocate_specific
allocate_specific-Asked port listens p = elim (Bool-cases (ltb port p.min || ltb p.max port)) [
  | inl o ↦ rw o (refused _)
  | inr o ↦ elim (Bool-cases (is_taken port p)) [
    | inl t ↦ rw (o, t) (refused _)
    | inr t ↦ elim (Bool-cases listens) [
      | inl l ↦ rw (o, t, l) (reserved port (ground arith) t)
      | inr l ↦ rw (o, t, l) (refused _)
    ]
  ]
]

pub ask_port-Asked : (d : Draws) (custom : Text) (p : PortAllocator) → Asked p (ask_port d custom p)
unfolding ask_port allocate
ask_port-Asked d custom p = elim (Option-cases (parse_tcp_subdomain_port custom)) [
  | inl e ↦ rw (e, ask_port) (try_from-Asked d.port_draw d.listens 0 (p.max + 1 - p.min) p)
  | inr (port, e) ↦ rw (e, ask_port) (allocate_specific-Asked port (d.listens 0 port) p)
]

claim_failed :
    (custom : Text) (has_conn : Bool) (now : ℕ) (draws : ℕ → ℕ → Option ℕ) (m : Manager)
    (e : Manager.Error)
    → (claim custom [] has_conn now draws m).1 ≡ err e
    → (claim custom [] has_conn now draws m).0 ≡ rollback_global m
unfolding claim roll_back release_ip text_beq
claim_failed custom has_conn now draws m e h = ground arith

claim_done :
    (custom : Text) (has_conn : Bool) (now : ℕ) (draws : ℕ → ℕ → Option ℕ) (m : Manager) (s : Text)
    → (claim custom [] has_conn now draws m).1 ≡ ok s
    → (claim custom [] has_conn now draws m).0 ≡ store_tunnel s [] has_conn now m
unfolding claim claim_custom
claim_done custom has_conn now draws m s h = ground arith

-- A registration with no address to count for, which fails, leaves the manager as it is.
pub register_with_ip_failed :
    (custom : Text) (has_conn : Bool) (now : ℕ) (draws : ℕ → ℕ → Option ℕ) (m : Manager)
    (e : Manager.Error)
    → (register_with_ip custom [] has_conn now draws m).1 ≡ err e
    → (register_with_ip custom [] has_conn now draws m).0 ≡ m
unfolding register_with_ip reserve_global register_slot text_beq
register_with_ip_failed custom has_conn now draws m e h =
    let m' : Manager = record m { tunnel_count = m.tunnel_count +ℤ pos 1 } in
    let same : rollback_global m' ≡ m =
      unfold rollback_global in
      ap (λ z. record m { tunnel_count = z }) (+ℤ_cancel m.tunnel_count (pos 1)) in
    ground (arith, claim_failed custom has_conn now draws m' e, same)

-- One that succeeds counts one more.
pub register_with_ip_done :
    (custom : Text) (has_conn : Bool) (now : ℕ) (draws : ℕ → ℕ → Option ℕ) (m : Manager) (s : Text)
    → (register_with_ip custom [] has_conn now draws m).1 ≡ ok s
    → (register_with_ip custom [] has_conn now draws m).0.tunnel_count ≡ m.tunnel_count +ℤ pos 1
unfolding register_with_ip reserve_global register_slot text_beq
register_with_ip_done custom has_conn now draws m s h =
    let m' : Manager = record m { tunnel_count = m.tunnel_count +ℤ pos 1 } in
    let same : (store_tunnel s [] has_conn now m').tunnel_count ≡ m'.tunnel_count =
      unfold store_tunnel put_shard in refl in
    ground (arith, claim_done custom has_conn now draws m' s, same)

abbrev pub taken : ℕ → Option PortAllocator → Bool
taken q none = false
taken q (some p) = is_taken q p

abbrev pub PortsOk : Option PortAllocator → Type 0
PortsOk none = Unit
PortsOk (some p) = (1 ≤ p.min) × Distinct p.used

-- The one allocator is the other, but for a port that it has lent; 0 stands for none.
pub data Lent (port : ℕ) (a b : Option PortAllocator) : Type 0 where
  nothing : port ≡ 0 → b ≡ a → Lent port a b
  one :
      (p : PortAllocator)
      → a ≡ some p
      → b ≡ some (reserve port p)
      → is_taken port p ≡ false
      → 1 ≤ port
      → Distinct p.used
      → Lent port a b

is_taken-release_port :
    (q port : ℕ) (p : PortAllocator)
    → is_taken port p ≡ false
    → Distinct p.used
    → is_taken q (release_port port (reserve port p)) ≡ is_taken q p
unfolding is_taken release_port reserve
is_taken-release_port q port p e d = ground (
  arith,
  lookup-erase port q (insert port true p.used) (Distinct-insert port true p.used d),
  lookup-insert port q true p.used,
)

-- What was lent is given back.
pub Lent-give_back_port :
    (q port : ℕ) (a : Option PortAllocator) (s : Server)
    → Lent port a s.ports
    → taken q (give_back_port port s).ports ≡ taken q a
Lent-give_back_port q port a s (nothing z e) = ap (taken q) (unfold give_back_port in ground arith)
Lent-give_back_port q port a s (one p e f t l d) =
    let back : (give_back_port port s).ports ≡ some (release_port port (reserve port p)) =
      unfold give_back_port in ground arith in
    ap (taken q) back ∙ is_taken-release_port q port p t d ∙ sym (ap (taken q) e)

-- How the first part of a registration ends.
pub data Allocated (s : Server) : Server × Result RegistrationError (ℕ × Text) → Type 0 where
  failed : (e : RegistrationError) → Allocated s (s, err e)
  lent :
      (s' : Server) (port : ℕ) (custom : Text)
      → s'.manager ≡ s.manager
      → s'.groups ≡ s.groups
      → s'.active ≡ s.active
      → Lent port s.ports s'.ports
      → Allocated s (s', ok (port, custom))

same_ports : (s : Server) (o : Option PortAllocator) → s.ports ≡ o → record s { ports = o } ≡ s
same_ports s o e = ap (λ o. record s { ports = o }) (sym e)

lend-Allocated :
    (custom : Text) (s : Server) (p : PortAllocator) (x : PortAllocator × Result PortError ℕ)
    → s.ports ≡ some p
    → PortsOk (some p)
    → Asked p x
    → Allocated s (lend custom s x)
unfolding lend
lend-Allocated custom s p x e v (refused y) =
    subst (λ s'. Allocated s (s', err (no_port y))) (sym (same_ports s (some p) e))
      (failed (no_port y))
lend-Allocated custom s p x e v (reserved port low t) =
    lent (record s { ports = some (reserve port p) }) port (named_after custom port) refl refl refl
      (one p e refl t (omega (arith, v.0)) v.1)

pub allocate_port-Allocated :
    (d : Draws) (req : RegistrationRequest) (s : Server)
    → PortsOk s.ports
    → Allocated s (allocate_port d req s)
unfolding allocate_port
allocate_port-Allocated d req s v = elim (Bool-cases (text_beq req.tunnel_type (codes "tcp"))) [
  | inr n ↦ rw n (lent s 0 req.custom_subdomain refl refl refl (nothing refl refl))
  | inl t ↦ elim (Option-cases s.ports) [
    | inl e ↦ subst (Allocated s) (ground arith) (failed no_allocator)
    | inr (p, e) ↦ subst (Allocated s) (ground arith) (
        lend-Allocated req.custom_subdomain s p (ask_port d req.custom_subdomain p) e
          (subst PortsOk e v) (ask_port-Asked d req.custom_subdomain p))
  ]
]
