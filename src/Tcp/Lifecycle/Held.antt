-- ===== src/Tcp/Lifecycle/Held.antt =====
-- internal/server/tcp/tunnel.go and connection.go: a running tunnel keeps what its connection holds.
use tunl.Base.{
  ℕ, ◌≡◌, ◌≢◌, refl, sym, subst, ◌∙◌, Bool, true, false, Option, none, some, [], arith,
  if◌then◌else◌, Text, Bool-cases, Option-cases, inl, inr,
}
use tunl.Tunnel.Connection.{Connection, set_open_stream}
use tunl.Tcp.ConnectionGroup.{new_connection_group}
use tunl.Tcp.GroupManager.{ConnectionGroupManager, create_group}
use tunl.Tcp.Registration.{Server, RegistrationResult, Draws}
use tunl.Tcp.Registration.Undo.{Lent}
use tunl.Tcp.Lifecycle.{
  LifecycleManager, set_tunnel_registration, Mode, tcp_tunnel, http_proxy_tunnel, framed,
  join_group, Traffic, add_primary, start_session, with_session, start,
}
use tunl.Tcp.Lifecycle.Groups.{
  group_in, GroupsDistinct, Joined, Joined-refl, Joined-insert, Joined-add_primary,
}
use tunl.Tcp.Lifecycle.Tunnels.{Added, Added-update_tunnel}
use tunl.Tcp.Lifecycle.Restore.{Holds}

pub data IsTunnel : Mode → Type 0 where
  by_tcp : (r : RegistrationResult) → IsTunnel (tcp_tunnel r)
  by_http : (r : RegistrationResult) → IsTunnel (http_proxy_tunnel r)
  by_frames : (r : RegistrationResult) → IsTunnel (framed r)

module _ (g : ℕ) (h : Text → ℕ) (s : Server) where
  set_open_stream-remote_ip : (c : Connection) → (set_open_stream c).remote_ip ≡ c.remote_ip
  unfolding set_open_stream
  set_open_stream-remote_ip c = refl

  add_primary_keeps :
      (n now : ℕ) (id : Text) (s' : Server)
      → ((add_primary n now id s').manager ≡ s'.manager)
        × ((add_primary n now id s').ports ≡ s'.ports)
        × ((add_primary n now id s').active ≡ s'.active)
  unfolding add_primary
  add_primary_keeps n now id s' = ground arith

  Holds-add_primary :
      (n now : ℕ) (l : LifecycleManager) (s' : Server)
      → Holds g h s l s'
      → Holds g h s l (add_primary n now l.tunnel_id s')
  Holds-add_primary n now l s' o =
      let k = add_primary_keeps n now l.tunnel_id s' in
      record {
        is_open = o.is_open;
        added = subst (Added g h l.subdomain s.manager) (sym k.0) o.added;
        lent = subst (Lent l.port s.ports) (sym k.1) o.lent;
        joined = Joined-add_primary n now l.tunnel_id s.groups s' o.joined;
        counted = k.2 ∙ o.counted;
      }

  Holds-start_session :
      (tcp : Bool) (n now : ℕ) (l : LifecycleManager) (s' : Server)
      → Holds g h s l s'
      → Holds g h s (start_session tcp n now l s').0 (start_session tcp n now l s').1
  unfolding start_session
  Holds-start_session true n now l s' o =
      let k = Holds-add_primary n now l s' o in
      record {
        is_open = k.is_open;
        added = k.added;
        lent = k.lent;
        joined = k.joined;
        counted = k.counted;
      }
  Holds-start_session false n now l s' o =
      let k = Holds-add_primary n now l s' o in
      record {
        is_open = k.is_open;
        added =
            Added-update_tunnel g h l.subdomain s.manager _ set_open_stream
              set_open_stream-remote_ip k.added;
        lent = k.lent;
        joined = k.joined;
        counted = k.counted;
      }

  abbrev pub HoldsAt : LifecycleManager × Server → Type 0
  HoldsAt x = Holds g h s x.0 x.1

  HoldsAt-with_session :
      (tcp : Bool) (session : Option ℕ) (now : ℕ) (l : LifecycleManager) (s' : Server)
      → Holds g h s l s'
      → HoldsAt (with_session tcp session now l s')
  unfolding with_session
  HoldsAt-with_session tcp none now l s' o = o
  HoldsAt-with_session tcp (some n) now l s' o = Holds-start_session tcp n now l s' o

  either :
      (b : Bool) (x y : LifecycleManager × Server)
      → HoldsAt x
      → HoldsAt y
      → HoldsAt (if b then x else y)
  either true x y a c = a
  either false x y a c = c

  pub HoldsAt-start :
      (t : Traffic) (now : ℕ) (mode : Mode) (l : LifecycleManager) (s' : Server)
      → IsTunnel mode
      → Holds g h s l s'
      → HoldsAt (start t now mode l s')
  unfolding start
  HoldsAt-start t now mode l s' (by_tcp r) o =
      either t.ack_sent _ (l, s') (HoldsAt-with_session true t.session now l s' o) o
  HoldsAt-start t now mode l s' (by_http r) o =
      either t.ack_sent _ (l, s') (HoldsAt-with_session false t.session now l s' o) o
  HoldsAt-start t now mode l s' (by_frames r) o =
      either t.ack_sent (record l { has_frame_writer = true }, s') (l, s')
        (record {
          is_open = o.is_open;
          added = o.added;
          lent = o.lent;
          joined = o.joined;
          counted = o.counted;
        })
        o

  -- The connection of a tunnel that is just registered, and its group.
  module _ (d : Draws) (id token : Text) (r : RegistrationResult) (l : LifecycleManager)
      (s' : Server) (ne : id ≢ []) (same : l.subdomain ≡ r.subdomain)
      (free : group_in id s.groups ≡ none) where
    joined_group :
        (gm : ConnectionGroupManager)
        → s'.groups ≡ some gm
        → s'.groups ≡ s.groups
        → GroupsDistinct s.groups
        → group_in [] s.groups ≡ none
        → Holds g h s l s'
        → HoldsAt (
          set_tunnel_registration r.subdomain id l,
          record s' { groups = some (create_group id token d.now gm) },
        )
    unfolding set_tunnel_registration create_group
    joined_group gm q e distinct unnamed o = record {
      is_open = o.is_open;
      added = subst (λ k. Added g h k s.manager s'.manager) same o.added;
      lent = o.lent;
      joined =
          Joined-insert id s.groups gm (new_connection_group token d.now) ne (
            subst (Joined id s.groups) (sym e ∙ q) (Joined-refl id s.groups distinct free unnamed));
      counted = o.counted;
    }

    pub HoldsAt-join_group :
        s'.groups ≡ s.groups
        → GroupsDistinct s.groups
        → group_in [] s.groups ≡ none
        → Holds g h s l s'
        → HoldsAt (join_group d id token r l s')
    unfolding join_group
    HoldsAt-join_group e distinct unnamed o = elim (Option-cases s'.groups) [
      | inl q ↦ subst HoldsAt {x = (l, s')} (ground arith) o
      | inr (gm, q) ↦ elim (Bool-cases r.supports_data_conn) [
        | inr n ↦ subst HoldsAt {x = (l, s')} (ground arith) o
        | inl y ↦ subst HoldsAt (ground arith) (joined_group gm q e distinct unnamed o)
      ]
    ]
