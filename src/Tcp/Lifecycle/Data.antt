-- ===== src/Tcp/Lifecycle/Data.antt =====
-- internal/server/tcp/data_connection_handler.go: what a data connection leaves of the groups.
use tunl.Base.{
  ℕ, ◌≡◌, refl, ap, subst, ◌∙◌, Bool, true, false, none, some, arith, if◌then◌else◌, Text, codes,
  text_beq, text_beq_refl, text_eq, Bool-cases, Option-cases, inl, inr,
}
use tunl.Base.Int.{pos, ◌+ℤ◌, ◌-ℤ◌, +ℤ_cancel}
use tunl.Netutil.{Parsers}
use tunl.Tunnel.Manager.Removal.{get}
use tunl.Tcp.Registration.{Server, Draws, give_back_port}
use tunl.Tcp.Registration.Undo.{taken}
use tunl.Tcp.Lifecycle.{
  new_lifecycle_manager, close_lifecycle, release_all, ConnectionConfig, DataConnectRequest,
  data_connect, admit_data, handle_data_connect, handle, Traffic, visit_group, run_data, start,
  close_connection, finish, handle_and_close,
}
use tunl.Proxy.Routing.{is_allowed_in}
use tunl.Tcp.Lifecycle.Groups.{group_in}
use tunl.Tcp.Lifecycle.Visit.{
  Refused, visited, Leaves, as_before, visits, admit_data-Refused, admit_data-Shows,
  group_in-visit_group, visit_group-keeps,
}

-- The end of a connection that holds nothing but perhaps a session.
close_idle :
    (b : Bool) (s : Server)
    → let s' = (close_lifecycle (record new_lifecycle_manager { has_session = b }) s).1 in
      (s'.manager ≡ s.manager)
      × (s'.groups ≡ s.groups)
      × (s'.ports ≡ s.ports)
      × (s'.active ≡ s.active -ℤ pos 1)
unfolding close_lifecycle new_lifecycle_manager release_all give_back_port text_beq
close_idle b s = ground arith

module _ (p : Parsers) (cfg : ConnectionConfig) (d : Draws) (t : Traffic) (id : Text)
    (req : DataConnectRequest) (s : Server) where
  abbrev one_more : Server
  one_more = record s { active = s.active +ℤ pos 1 }

  abbrev whole : Server
  whole = (handle_and_close p cfg d t id (data_connect (some req)) s).1

  abbrev closed_with : Bool → Server → Server
  closed_with b s' = (close_lifecycle (record new_lifecycle_manager { has_session = b }) s').1

  -- How the whole call ends.
  data Course : Type 0 where
    stays : Refused cfg t req s → whole ≡ closed_with false one_more → Course
    joins :
        (n : ℕ)
        → admit_data cfg req one_more ≡ none
        → is_allowed_in cfg.allowed_transports (codes "tcp") ≡ true
        → t.ack_sent ≡ true
        → t.session ≡ some n
        → whole ≡ closed_with true (visit_group n d.now req one_more)
        → Course

  course : Course
  unfolding handle_and_close finish handle handle_data_connect start run_data close_connection
      new_lifecycle_manager
  course = elim (Bool-cases (is_allowed_in cfg.allowed_transports (codes "tcp"))) [
    | inr q ↦ stays (inl q) (ground arith)
    | inl q ↦ elim (Option-cases (admit_data cfg req one_more)) [
      | inr (e, a) ↦ stays (admit_data-Refused cfg t req one_more e a) (ground arith)
      | inl a ↦ elim (Bool-cases t.ack_sent) [
        | inr k ↦ stays (inr (inl k)) (ground arith)
        | inl k ↦ elim (Option-cases t.session) [
          | inl z ↦ stays (inr (inr (inl z))) (ground arith)
          | inr (n, z) ↦ joins n a q k z (ground arith)
        ]
      ]
    ]
  ]

  back : (z : Server) → z.active ≡ s.active +ℤ pos 1 → z.active -ℤ pos 1 ≡ s.active
  back z e = ap (λ x. x -ℤ pos 1) e ∙ +ℤ_cancel s.active (pos 1)

  pub Leaves-data : Leaves cfg t d.now (data_connect (some req)) s whole × (whole.active ≡ s.active)
  Leaves-data = elim course [
    | stays why e ↦
        let k = close_idle false one_more in
        (
          as_before (λ r q. subst (λ x. Refused cfg t x s) {x = req} {y = r} (cc q) why)
              (record {
                tunnels = λ j. ap (λ x. get j x.manager) e ∙ ap (get j) k.0;
                count = ap (λ x. x.manager.tunnel_count) e ∙ ap (λ m. m.tunnel_count) k.0;
                ports = λ q. ap (λ x. taken q x.ports) e ∙ ap (taken q) k.2;
                groups = λ j. ap (λ x. group_in j x.groups) e ∙ ap (group_in j) k.1;
              }),
          ap (λ x. x.active) e ∙ k.3 ∙ back one_more refl,
        )
    | joins n a allowed sent z e ↦
        let (gm, g, eg, found, shows, shows_group) = admit_data-Shows cfg req one_more a in
        let v = visit_group n d.now req one_more in
        let k = close_idle true v in
        let w = visit_group-keeps n d.now req one_more in
        let groups : (j : Text)
            → group_in j whole.groups ≡ (
                if text_beq req.tunnel_id j
                then some (visited req.connection_id n d.now g)
                else group_in j s.groups) =
          λ j.
            ap (λ x. group_in j x.groups) e
            ∙ ap (group_in j) k.1
            ∙ group_in-visit_group n d.now req one_more gm g eg found j in
        (
          visits req n refl allowed sent z (record {
            tunnels = λ j. ap (λ x. get j x.manager) e ∙ ap (get j) (k.0 ∙ w.0);
            count = ap (λ x. x.manager.tunnel_count) e ∙ ap (λ m. m.tunnel_count) (k.0 ∙ w.0);
            ports = λ q. ap (λ x. taken q x.ports) e ∙ ap (taken q) (k.2 ∙ w.1);
            others = λ j q. groups j ∙ rw q refl;
            group = g;
            found = ground (arith, eg, found);
            shows = shows;
            shows_group = shows_group;
            left = groups req.tunnel_id ∙ rw (text_beq_refl req.tunnel_id) refl;
          }),
          ap (λ x. x.active) e ∙ k.3 ∙ back v w.2,
        )
  ]
