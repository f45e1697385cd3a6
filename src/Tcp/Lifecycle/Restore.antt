-- ===== src/Tcp/Lifecycle/Restore.antt =====
-- internal/server/tcp: what a connection took from the server it gives back when it ends.
use tunl.Base.{
  ℕ, ◌≡◌, ◌≢◌, refl, sym, ap, subst, ◌∙◌, false, some, [], arith, Text, text_beq_iff, ok, err, inl,
  inr,
}
use tunl.Base.Int.{pos, ◌+ℤ◌, ◌-ℤ◌, +ℤ_cancel}
use tunl.Base.Result.{Result, Result-cases}
use tunl.Netutil.{Parsers}
use tunl.Tunnel.Connection.{Connection, set_tunnel_type, set_proxy_auth, set_ip_access_control}
use tunl.Tunnel.Manager
use tunl.Tunnel.Manager.{Manager, register_with_ip, generate_unique_subdomain, unique_from}
use tunl.Tunnel.Manager.Removal.{get, unregister}
use tunl.Tunnel.Manager.Invariant.{Inv}
use tunl.Tunnel.Manager.Register.{IsFresh}
use tunl.Tunnel.Manager.Update.{update_tunnel}
use tunl.Tcp.Registration.{
  Server, RegistrationRequest, RegistrationResult, RegistrationError, no_tunnel, Draws,
  allocate_port, give_back_port, register_tunnel, register, configure, with_rules, with_auth,
  result_of, is_some,
}
use tunl.Tcp.Registration.Undo.{
  PortsOk, Lent, Allocated, allocate_port-Allocated, taken, Lent-give_back_port,
  register_with_ip_failed,
}
use tunl.Tcp.Lifecycle.{LifecycleManager, release_all, leave_group, close_lifecycle}
use tunl.Tcp.Lifecycle.Groups.{group_in, Joined, Joined-leave_group}
use tunl.Tcp.Lifecycle.Tunnels.{
  Added, register_with_ip-Added, Added-update_tunnel, Added-unregister,
}
use tunl.Utils.UrlBuilder.{TunnelUrlBuilder}

configure-remote_ip :
    (p : Parsers) (req : RegistrationRequest) (c : Connection)
    → (configure p req c).remote_ip ≡ c.remote_ip
unfolding configure with_auth with_rules set_tunnel_type set_proxy_auth set_ip_access_control
configure-remote_ip p req c = ground arith

give_back_port_keeps :
    (port : ℕ) (s : Server)
    → ((give_back_port port s).manager ≡ s.manager)
      × ((give_back_port port s).groups ≡ s.groups)
      × ((give_back_port port s).active ≡ s.active)
unfolding give_back_port
give_back_port_keeps port s = ground arith

-- How a registration ends: with nothing changed, or with a tunnel, and a port if one was asked for.
pub data Registered (g : ℕ) (h : Text → ℕ) (s : Server)
    : Server × Result RegistrationError RegistrationResult → Type 0 where
  failed :
      (s' : Server) (e : RegistrationError)
      → s'.manager ≡ s.manager
      → s'.groups ≡ s.groups
      → s'.active ≡ s.active
      → ((q : ℕ) → taken q s'.ports ≡ taken q s.ports)
      → Registered g h s (s', err e)
  done :
      (s' : Server) (r : RegistrationResult)
      → Added g h r.subdomain s.manager s'.manager
      → Lent r.port s.ports s'.ports
      → s'.groups ≡ s.groups
      → s'.active ≡ s.active
      → Registered g h s (s', ok r)

module _ (p : Parsers) (b : TunnelUrlBuilder) (d : Draws) (req : RegistrationRequest) where
  register_tunnel_err :
      (port : ℕ) (custom : Text) (s : Server) (e : Manager.Error)
      → (register_with_ip custom [] false d.now d.subdomain_draws s.manager).1 ≡ err e
      → register_tunnel p b d req port custom s ≡ (
        give_back_port port (record s {
          manager = (register_with_ip custom [] false d.now d.subdomain_draws s.manager).0;
        }),
        err (no_tunnel e),
      )
  unfolding register_tunnel
  register_tunnel_err port custom s e q = ground arith

  register_tunnel_ok :
      (port : ℕ) (custom sub : Text) (s : Server) (c : Connection)
      → (register_with_ip custom [] false d.now d.subdomain_draws s.manager).1 ≡ ok sub
      → get sub (register_with_ip custom [] false d.now d.subdomain_draws s.manager).0 ≡ some c
      → register_tunnel p b d req port custom s ≡ (
        record s {
          manager =
              update_tunnel sub
                (configure p req)
                (register_with_ip custom [] false d.now d.subdomain_draws s.manager).0;
        },
        ok (result_of b req (is_some s.groups) sub port),
      )
  unfolding register_tunnel
  register_tunnel_ok port custom sub s c q t = ground arith

  register_tunnel-Registered :
      (g : ℕ) (h : Text → ℕ) (port : ℕ) (custom : Text) (s s1 : Server)
      → s1.manager ≡ s.manager
      → s1.groups ≡ s.groups
      → s1.active ≡ s.active
      → Lent port s.ports s1.ports
      → Inv g h s.manager
      → IsFresh d.subdomain_draws s.manager
      → Registered g h s (register_tunnel p b d req port custom s1)
  register_tunnel-Registered g h port custom s s1 em eg ea l v fresh =
      let reg = register_with_ip custom [] false d.now d.subdomain_draws s1.manager in
      let v1 : Inv g h s1.manager = subst (Inv g h) (sym em) v in
      let f1 : IsFresh d.subdomain_draws s1.manager =
        subst (IsFresh d.subdomain_draws) (sym em) fresh in
      elim (Result-cases reg.1) [
        | inl (e, q) ↦
            let k = give_back_port_keeps port (record s1 { manager = reg.0 }) in
            subst (Registered g h s) (sym (register_tunnel_err port custom s1 e q)) (
              failed _ (no_tunnel e)
                (k.0
                  ∙ register_with_ip_failed custom false d.now d.subdomain_draws s1.manager e q
                  ∙ em)
                (k.1 ∙ eg) (k.2 ∙ ea)
                (λ t. Lent-give_back_port t port s.ports (record s1 { manager = reg.0 }) l))
        | inr (sub, q) ↦
            let a =
              register_with_ip-Added g h custom false d.now d.subdomain_draws s1.manager sub v1
                (λ _. f1) q in
            let a' : Added g h sub s1.manager (update_tunnel sub (configure p req) reg.0) =
              Added-update_tunnel g h sub s1.manager reg.0 (configure p req)
                (configure-remote_ip p req) a in
            let m' : Manager = update_tunnel sub (configure p req) reg.0 in
            let s' : Server = record s1 { manager = m' } in
            let r : RegistrationResult = result_of b req (is_some s1.groups) sub port in
            let a2 : Added g h r.subdomain s.manager s'.manager =
              unfold result_of in subst (λ m. Added g h sub m m') em a' in
            let l2 : Lent r.port s.ports s'.ports = unfold result_of in l in
            subst (Registered g h s)
              (sym (register_tunnel_ok port custom sub s1 a.tunnel q a.there))
              (done s' r a2 l2 eg ea)
      ]

  pub register-Registered :
      (g : ℕ) (h : Text → ℕ) (s : Server)
      → PortsOk s.ports
      → Inv g h s.manager
      → IsFresh d.subdomain_draws s.manager
      → Registered g h s (register p b d req s)
  unfolding register
  register-Registered g h s o v fresh =
      then_tunnel (allocate_port d req s) (allocate_port-Allocated d req s o)
    where
      then_tunnel :
          (x : Server × Result RegistrationError (ℕ × Text))
          → Allocated s x
          → Registered g h s
              (elim x.1 [ err e ↦ (x.0, err e) | ok a ↦ register_tunnel p b d req a.0 a.1 x.0 ])
      then_tunnel x (Allocated.failed e) = failed s e refl refl refl (λ q. refl)
      then_tunnel x (Allocated.lent s1 port custom em eg ea l) =
          register_tunnel-Registered g h port custom s s1 em eg ea l v fresh

-- The tables are as they were: the tunnels by subdomain and their number, the ports that are taken, and
-- the groups.
pub record Unchanged (s s' : Server) : Type 0 where
  pub tunnels : (k : Text) → get k s'.manager ≡ get k s.manager
  pub count : s'.manager.tunnel_count ≡ s.manager.tunnel_count
  pub ports : (q : ℕ) → taken q s'.ports ≡ taken q s.ports
  pub groups : (id : Text) → group_in id s'.groups ≡ group_in id s.groups

-- A connection on its way, with what it holds of the server; `s` is how the server was before it.
pub record Holds (g : ℕ) (h : Text → ℕ) (s : Server) (l : LifecycleManager) (s' : Server)
    : Type 0 where
  pub is_open : l.closed ≡ false
  pub added : Added g h l.subdomain s.manager s'.manager
  pub lent : Lent l.port s.ports s'.ports
  pub joined : Joined l.tunnel_id s.groups s'.groups
  pub counted : s'.active ≡ s.active +ℤ pos 1

release_all_parts :
    (port : ℕ) (sub id : Text) (s : Server)
    → sub ≢ []
    → ((release_all port sub id s).manager ≡ (unregister sub s.manager).0)
      × ((release_all port sub id s).ports
          ≡ (give_back_port port (record s { active = s.active -ℤ pos 1 })).ports)
      × ((release_all port sub id s).groups ≡ (leave_group id s).groups)
      × ((release_all port sub id s).active ≡ s.active -ℤ pos 1)
unfolding release_all leave_group give_back_port
release_all_parts port sub id s n = ground (arith, text_beq_iff sub [])

close_open :
    (l : LifecycleManager) (s : Server)
    → l.closed ≡ false
    → (close_lifecycle l s).1 ≡ release_all l.port l.subdomain l.tunnel_id s
unfolding close_lifecycle
close_open l s e = ground arith

-- `Close` gives back what a connection holds.
pub Holds-close_lifecycle :
    (g : ℕ) (h : Text → ℕ) (s : Server) (l : LifecycleManager) (s' : Server)
    → Holds g h s l s'
    → Unchanged s (close_lifecycle l s').1 × ((close_lifecycle l s').1.active ≡ s.active)
Holds-close_lifecycle g h s l s' o =
    let r = release_all_parts l.port l.subdomain l.tunnel_id s' o.added.named in
    let u = Added-unregister g h l.subdomain s.manager s'.manager o.added in
    let c = close_open l s' o.is_open in
    (
      record {
        tunnels = λ k. ap (λ x. get k x.manager) c ∙ ap (get k) r.0 ∙ u.0 k;
        count = ap (λ x. x.manager.tunnel_count) c ∙ ap (λ m. m.tunnel_count) r.0 ∙ u.1;
        ports = λ q.
            ap (λ x. taken q x.ports) c
            ∙ ap (taken q) r.1
            ∙ Lent-give_back_port q l.port s.ports (record s' { active = s'.active -ℤ pos 1 })
                o.lent;
        groups = λ id.
            ap (λ x. group_in id x.groups) c
            ∙ ap (group_in id) r.2
            ∙ Joined-leave_group l.tunnel_id s.groups s' o.joined id;
      },
      ap (λ x. x.active) c ∙ r.3 ∙ ap (λ z. z -ℤ pos 1) o.counted ∙ +ℤ_cancel s.active (pos 1),
    )
