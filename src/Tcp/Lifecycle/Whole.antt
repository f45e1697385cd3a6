-- ===== src/Tcp/Lifecycle/Whole.antt =====
-- internal/server/tcp/connection.go: `Handle` from its first bytes to its deferred `Close`.
use tunl.Base.{
  ℕ, ◌≡◌, ◌≢◌, refl, sym, ap, subst, ◌∙◌, Bool, true, false, ◌&&◌, ◌||◌, none, [], arith,
  if◌then◌else◌, Text, codes, text_beq, ok, err, Bool-cases, Option-cases, inl, inr,
}
use tunl.Base.Int.{pos, ◌+ℤ◌, ◌-ℤ◌, +ℤ_cancel}
use tunl.Base.Result.{Result}
use tunl.Netutil.{Parsers}
use tunl.Tunnel.Manager.Removal.{get}
use tunl.Tunnel.Manager.Invariant.{Inv}
use tunl.Tunnel.Manager.Register.{IsFresh}
use tunl.Tcp.Registration.{
  Server, RegistrationRequest, RegistrationResult, RegistrationError, Draws, register,
  give_back_port,
}
use tunl.Tcp.Registration.Undo.{PortsOk, taken}
use tunl.Tcp.Lifecycle.{
  LifecycleManager, new_lifecycle_manager, set_port_allocation, set_tunnel_registration,
  close_lifecycle, release_all, ConnectionConfig, HandleError, registration_failed, FirstBytes,
  http_request, Mode, http, admit, join_group, mode_of, Handled, set_up, handle_registration,
  handle, Traffic, start, close_connection, finish, handle_and_close,
}
use tunl.Proxy.Routing.{is_allowed_in}
use tunl.Tcp.Lifecycle.Groups.{group_in, GroupsDistinct, Joined, Joined-refl}
use tunl.Tcp.Lifecycle.Restore.{
  Unchanged, Holds, Holds-close_lifecycle, Registered, register-Registered,
}
use tunl.Tcp.Lifecycle.Data.{Leaves-data}
use tunl.Tcp.Lifecycle.Visit.{
  Leaves, as_before, IsPlain, by_nothing, by_http_request, by_broken, by_bad_data, by_other,
  by_bad_request, by_request, first_bytes_cases, IsPlain-data,
}
use tunl.Tcp.Lifecycle.Held.{
  IsTunnel, by_tcp, by_http, by_frames, HoldsAt-start, HoldsAt-join_group,
}

-- What a connection asks of the server when it comes: the tables are in order, and what is drawn at
-- random (a subdomain, the identifier of a tunnel) is not taken.
pub record Ready (g : ℕ) (h : Text → ℕ) (d : Draws) (id : Text) (s : Server) : Type 0 where
  pub inv : Inv g h s.manager
  pub ports_ok : PortsOk s.ports
  pub distinct : GroupsDistinct s.groups
  pub unnamed : group_in [] s.groups ≡ none
  pub fresh : IsFresh d.subdomain_draws s.manager
  pub named : id ≢ []
  pub free : group_in id s.groups ≡ none

abbrev pub is_http : FirstBytes → Bool
is_http http_request = true
is_http _ = false

module _ (g : ℕ) (h : Text → ℕ) (s : Server) where
  abbrev counted_in : Server
  counted_in = record s { active = s.active +ℤ pos 1 }

  -- How `Handle` goes on after the first bytes.
  data Ended (web : Bool) : Handled → Type 0 where
    refused :
        (s' : Server) (e : HandleError)
        → Unchanged s s'
        → s'.active ≡ s.active +ℤ pos 1
        → web ≡ false
        → Ended web (new_lifecycle_manager, s', err e)
    served : web ≡ true → Ended web (new_lifecycle_manager, counted_in, ok http)
    tunnels :
        (l : LifecycleManager) (s' : Server) (tunnel_type : Text) (r : RegistrationResult)
        → Holds g h s l s'
        → web ≡ false
        → Ended web (l, s', ok (mode_of tunnel_type r))

  Unchanged-refl :
      (s' : Server)
      → s'.manager ≡ s.manager
      → s'.groups ≡ s.groups
      → ((q : ℕ) → taken q s'.ports ≡ taken q s.ports)
      → Unchanged s s'
  Unchanged-refl s' em eg ep = record {
    tunnels = λ k. ap (get k) em;
    count = ap (λ m. m.tunnel_count) em;
    ports = ep;
    groups = λ id. ap (group_in id) eg;
  }

  Ended-set_up :
      (d : Draws) (id token tunnel_type : Text)
      (x : Server × Result RegistrationError RegistrationResult)
      → Ready g h d id s
      → Registered g h counted_in x
      → Ended false (set_up d id token tunnel_type x)
  unfolding set_up set_tunnel_registration set_port_allocation new_lifecycle_manager
  Ended-set_up d id token tunnel_type x v (Registered.failed s' e em eg ea ep) =
      refused s' (registration_failed e) (Unchanged-refl s' em eg ep) ea refl
  Ended-set_up d id token tunnel_type x v (Registered.done s' r added lent eg ea) =
      let l : LifecycleManager =
        set_tunnel_registration r.subdomain [] (set_port_allocation r.port new_lifecycle_manager) in
      let o : Holds g h s l s' = record {
        is_open = refl;
        added = added;
        lent = lent;
        joined =
            subst (Joined [] s.groups) (sym eg)
              (Joined-refl [] s.groups v.distinct v.unnamed v.unnamed);
        counted = ea;
      } in
      let j =
        HoldsAt-join_group g h s d id token r l s' v.named refl v.free eg v.distinct v.unnamed o in
      tunnels (join_group d id token r l s').0 (join_group d id token r l s').1 tunnel_type r j refl

  Ended-registration :
      (p : Parsers) (cfg : ConnectionConfig) (d : Draws) (id : Text) (req : RegistrationRequest)
      → Ready g h d id s
      → Ended false (handle_registration p cfg d id req counted_in)
  unfolding handle_registration
  Ended-registration p cfg d id req v =
      let x = register p cfg.urls d req counted_in in
      let r : Registered g h counted_in x =
        register-Registered p cfg.urls d req g h counted_in v.ports_ok v.inv v.fresh in
      elim (Option-cases (admit cfg req)) [
        | inr (e, q) ↦
            subst (Ended false) (ground arith)
              (refused counted_in e (Unchanged-refl counted_in refl refl (λ q. refl)) refl refl)
        | inl q ↦
            subst (Ended false) (ground arith) (Ended-set_up d id req.token req.tunnel_type x v r)
      ]

  refuses : (e : HandleError) → Ended false (new_lifecycle_manager, counted_in, err e)
  refuses e = refused counted_in e (Unchanged-refl counted_in refl refl (λ q. refl)) refl refl

  if_tcp :
      (b : Bool) (x y : Handled) → Ended false x → Ended false y → Ended false (if b then x else y)
  if_tcp true x y a c = a
  if_tcp false x y a c = c

  Ended-handle :
      (p : Parsers) (cfg : ConnectionConfig) (d : Draws) (id : Text) (first : FirstBytes)
      → IsPlain first
      → Ready g h d id s
      → Ended (is_http first) (handle p cfg d id first counted_in)
  unfolding handle
  Ended-handle p cfg d id first by_nothing v = refuses _
  Ended-handle p cfg d id first by_http_request v = served refl
  Ended-handle p cfg d id first by_broken v = refuses _
  Ended-handle p cfg d id first by_bad_data v = refuses _
  Ended-handle p cfg d id first by_other v = refuses _
  Ended-handle p cfg d id first by_bad_request v = refuses _
  Ended-handle p cfg d id first (by_request req) v =
      if_tcp (is_allowed_in cfg.allowed_transports (codes "tcp")) _ _
        (Ended-registration p cfg d id req v) (refuses _)

  close_new :
      (s' : Server)
      → ((close_lifecycle new_lifecycle_manager s').1.manager ≡ s'.manager)
        × ((close_lifecycle new_lifecycle_manager s').1.groups ≡ s'.groups)
        × ((close_lifecycle new_lifecycle_manager s').1.ports ≡ s'.ports)
        × ((close_lifecycle new_lifecycle_manager s').1.active ≡ s'.active -ℤ pos 1)
  unfolding close_lifecycle new_lifecycle_manager release_all give_back_port text_beq
  close_new s' = ground arith

  -- How things are at the end, where `left` is whether the connection was left to the HTTP server.
  abbrev Restored : Bool → LifecycleManager × Server → Type 0
  Restored left x = Unchanged s x.1 × (x.1.active ≡ (if left then s.active +ℤ pos 1 else s.active))

  Restored-close_new :
      (s' : Server)
      → Unchanged s s'
      → s'.active ≡ s.active +ℤ pos 1
      → Restored false (close_lifecycle new_lifecycle_manager s')
  Restored-close_new s' u e =
      let k = close_new s' in
      (
        record {
          tunnels = λ t. ap (get t) k.0 ∙ u.tunnels t;
          count = ap (λ m. m.tunnel_count) k.0 ∙ u.count;
          ports = λ q. ap (taken q) k.2 ∙ u.ports q;
          groups = λ id. ap (group_in id) k.1 ∙ u.groups id;
        },
        k.3 ∙ ap (λ z. z -ℤ pos 1) e ∙ +ℤ_cancel s.active (pos 1),
      )

  Restored-tunnel :
      (t : Traffic) (now : ℕ) (mode : Mode) (l : LifecycleManager) (s' : Server)
      → IsTunnel mode
      → Holds g h s l s'
      → Restored false (close_lifecycle (start t now mode l s').0 (start t now mode l s').1)
  Restored-tunnel t now mode l s' i o =
      Holds-close_lifecycle g h s (start t now mode l s').0 (start t now mode l s').1
        (HoldsAt-start g h s t now mode l s' i o)

  Restored-served :
      (left : Bool) → Restored left (close_connection left new_lifecycle_manager counted_in)
  unfolding close_connection
  Restored-served true = (Unchanged-refl counted_in refl refl (λ q. refl), refl)
  Restored-served false =
      Restored-close_new counted_in (Unchanged-refl counted_in refl refl (λ q. refl)) refl

  Restored-finish_tunnel :
      (t : Traffic) (now : ℕ) (mode : Mode) (l : LifecycleManager) (s' : Server)
      → IsTunnel mode
      → Holds g h s l s'
      → Restored false (finish t now (l, s', ok mode))
  unfolding finish close_connection
  Restored-finish_tunnel t now mode l s' (by_tcp r) o = Restored-tunnel t now mode l s' (by_tcp r) o
  Restored-finish_tunnel t now mode l s' (by_http r) o =
      Restored-tunnel t now mode l s' (by_http r) o
  Restored-finish_tunnel t now mode l s' (by_frames r) o =
      Restored-tunnel t now mode l s' (by_frames r) o

  mode_of-IsTunnel :
      (tunnel_type : Text) (r : RegistrationResult) → IsTunnel (mode_of tunnel_type r)
  unfolding mode_of
  mode_of-IsTunnel tunnel_type r = elim (Bool-cases (text_beq tunnel_type (codes "tcp"))) [
    | inl e ↦ subst IsTunnel (ground arith) (by_tcp r)
    | inr e ↦
        elim (Bool-cases
          (text_beq tunnel_type (codes "http") || text_beq tunnel_type (codes "https"))) [
            | inl f ↦ subst IsTunnel (ground arith) (by_http r)
            | inr f ↦ subst IsTunnel (ground arith) (by_frames r)
          ]
  ]

  Restored-finish :
      (web : Bool) (t : Traffic) (now : ℕ) (x : Handled)
      → Ended web x
      → Restored (web && t.handed_off) (finish t now x)
  unfolding finish close_connection
  Restored-finish web t now x (refused s' e u c w) =
      subst (λ b. Restored (b && t.handed_off) (close_lifecycle new_lifecycle_manager s')) (sym w)
        (Restored-close_new s' u c)
  Restored-finish web t now x (served w) =
      subst
        (λ b.
          Restored (b && t.handed_off)
            (close_connection t.handed_off new_lifecycle_manager counted_in))
        (sym w) (Restored-served t.handed_off)
  Restored-finish web t now x (tunnels l s' tunnel_type r o w) =
      subst (λ b. Restored (b && t.handed_off) (finish t now (l, s', ok (mode_of tunnel_type r))))
        (sym w)
        (Restored-finish_tunnel t now (mode_of tunnel_type r) l s' (mode_of-IsTunnel tunnel_type r)
          o)

-- Whatever a client sends, and whatever fails on the way (a check, the port, the tunnel, the
-- acknowledgement, the session), when its connection has ended the tunnels by subdomain, their number
-- and the ports that are taken are as they were before it, if its tables were in order and what was
-- drawn at random was not taken. So are the groups, unless it was a data connection on an allowed
-- transport with the right tokens for a group that is there, whose acknowledgement was sent and whose
-- session started; then every other group is as it was, and this one has its last activity at that
-- time, its heartbeat runs, this session was closed, and the entry of the data connection's identifier
-- is gone from its sessions (no part of it changes if the identifier is empty). The count of connections
-- under way is as it was too, but one higher for each HTTP request that was handed to the HTTP server.
pub handle_and_close-Leaves :
    (g : ℕ) (h : Text → ℕ) (p : Parsers) (cfg : ConnectionConfig) (d : Draws) (t : Traffic)
    (id : Text) (first : FirstBytes) (s : Server)
    → Ready g h d id s
    → Leaves cfg t d.now first s (handle_and_close p cfg d t id first s).1
      × ((handle_and_close p cfg d t id first s).1.active
          ≡ (if is_http first && t.handed_off then s.active +ℤ pos 1 else s.active))
unfolding handle_and_close
handle_and_close-Leaves g h p cfg d t id first s v = elim (first_bytes_cases first) [
  | inl i ↦
      let (u, c) =
        Restored-finish g h s (is_http first) t d.now _ (Ended-handle g h s p cfg d id first i v) in
      (as_before (λ req e. absurd (IsPlain-data first req i e)) u, c)
  | inr (req, e) ↦
      subst
        (λ f.
          Leaves cfg t d.now f s (handle_and_close p cfg d t id f s).1
          × ((handle_and_close p cfg d t id f s).1.active
              ≡ (if is_http f && t.handed_off then s.active +ℤ pos 1 else s.active)))
        (sym e) (Leaves-data p cfg d t id req s)
]
