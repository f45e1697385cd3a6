-- ===== src/Tcp/Lifecycle/Tunnels.antt =====
-- internal/server/tcp with internal/server/tunnel: a tunnel comes, is changed, and goes again.
use tunl.Base.{
  ℕ, zero, suc, ◌+◌, ◌≡◌, refl, sym, subst, ◌≢◌, ap, ◌∙◌, Bool, false, Option, none, some, [],
  arith, Text, text_beq, text_beq_iff, text_beq_refl, text_eq, ok, Bool-cases, inl, inr,
}
use tunl.Base.Int.{pos, ◌+ℤ◌, ◌-ℤ◌, +ℤ_cancel}
use tunl.Tunnel.Connection.{Connection, new_connection}
use tunl.Tunnel.Manager.{
  Manager, register_with_ip, is_used, generate_unique_subdomain, unique_from, rollback_global,
  release_ip, put_shard,
}
use tunl.Tunnel.Manager.Removal.{get, unregister, drop_tunnel, take_out}
use tunl.Tunnel.Manager.Invariant.{Inv}
use tunl.Tunnel.Manager.Register.{IsFresh, register_with_ip-Inv}
use tunl.Tunnel.Manager.Outcome.{Outcome, register_with_ip-Outcome}
use tunl.Tunnel.Manager.Stored.{lookup-is_used}
use tunl.Tunnel.Manager.Find.{get-unregister}
use tunl.Tunnel.Manager.Update.{update_tunnel, get-update_tunnel, Inv-update_tunnel}
use tunl.Utils.Subdomain.{generate_subdomain, generate_from}
use tunl.Tcp.Registration.Undo.{register_with_ip_done}

-- The one manager has what the other has, and a tunnel under a subdomain that was free.
pub record Added (g : ℕ) (h : Text → ℕ) (s : Text) (m0 m : Manager) : Type 0 where
  pub inv : Inv g h m
  pub named : s ≢ []
  pub free : get s m0 ≡ none
  pub tunnel : Connection
  pub there : get s m ≡ some tunnel
  pub others : (k : Text) → text_beq s k ≡ false → get k m ≡ get k m0
  pub count : m.tunnel_count ≡ m0.tunnel_count +ℤ pos 1

update_tunnel-tunnel_count :
    (s : Text) (f : Connection → Connection) (m : Manager)
    → (update_tunnel s f m).tunnel_count ≡ m.tunnel_count
unfolding update_tunnel put_shard
update_tunnel-tunnel_count s f m = ground arith

pub Added-update_tunnel :
    (g : ℕ) (h : Text → ℕ) (s : Text) (m0 m : Manager) (f : Connection → Connection)
    → ((c : Connection) → (f c).remote_ip ≡ c.remote_ip)
    → Added g h s m0 m
    → Added g h s m0 (update_tunnel s f m)
Added-update_tunnel g h s m0 m f keeps a = record {
  inv = Inv-update_tunnel g h s f m keeps a.inv;
  named = a.named;
  free = a.free;
  tunnel = f a.tunnel;
  there = ground (arith, get-update_tunnel s s f m a.inv.width, text_beq_refl s, a.there);
  others = λ k n. ground (arith, get-update_tunnel s k f m a.inv.width, a.others k n);
  count = update_tunnel-tunnel_count s f m ∙ a.count;
}

drop_tunnel-tunnel_count :
    (s : Text) (m : Manager) (c : Connection)
    → get s m ≡ some c
    → (unregister s m).0.tunnel_count ≡ m.tunnel_count -ℤ pos 1
unfolding unregister drop_tunnel get release_ip rollback_global take_out put_shard
drop_tunnel-tunnel_count s m c e = ground arith

-- When the tunnel goes, all is as it was.
pub Added-unregister :
    (g : ℕ) (h : Text → ℕ) (s : Text) (m0 m : Manager)
    → Added g h s m0 m
    → ((k : Text) → get k (unregister s m).0 ≡ get k m0)
      × ((unregister s m).0.tunnel_count ≡ m0.tunnel_count)
Added-unregister g h s m0 m a = (
  λ k. elim (Bool-cases (text_beq s k)) [
    | inl q ↦ ground (
      arith,
      (get-unregister g h s m a.inv).0 k,
      text_beq_iff s k,
      ap (λ (t : Text). get t m0) {x = s} {y = k},
      a.free,
    )
    | inr q ↦ ground (arith, (get-unregister g h s m a.inv).0 k, a.others k q)
  ],
  drop_tunnel-tunnel_count s m a.tunnel a.there
      ∙ ap (λ z. z -ℤ pos 1) a.count
      ∙ +ℤ_cancel m0.tunnel_count (pos 1),
)

generate_subdomain_named : (draw : ℕ → Option ℕ) (n : ℕ) → generate_subdomain draw (suc n) ≢ []
unfolding generate_subdomain generate_from
generate_subdomain_named draw n = λ e. ground arith

unique_from_named :
    (draws : ℕ → ℕ → Option ℕ) (m : Manager) (i n : ℕ) → unique_from draws m i n ≢ []
unfolding unique_from
unique_from_named draws m i zero = generate_subdomain_named (draws i) 7
unique_from_named draws m i (suc n) =
    λ e. ground (arith, generate_subdomain_named (draws i) 5, unique_from_named draws m (i + 1) n)

-- A registration without an address to count for, that succeeds.
pub register_with_ip-Added :
    (g : ℕ) (h : Text → ℕ) (custom : Text) (has_conn : Bool) (now : ℕ) (draws : ℕ → ℕ → Option ℕ)
    (m : Manager) (s : Text)
    → Inv g h m
    → (custom ≡ [] → IsFresh draws m)
    → (register_with_ip custom [] has_conn now draws m).1 ≡ ok s
    → Added g h s m (register_with_ip custom [] has_conn now draws m).0
register_with_ip-Added g h custom has_conn now draws m s v fresh e =
    elim (register_with_ip-Outcome g h custom [] has_conn now draws m v) [
      | Outcome.full _ r ↦ absurd (cc (r, e))
      | Outcome.limited ne _ _ _ _ ↦ absurd (ne refl)
      | Outcome.crowded ne _ _ _ _ _ ↦ absurd (ne refl)
      | Outcome.refused x _ _ _ r _ ↦ absurd (cc (r, e))
      | Outcome.stored t _ how r finds ↦
          let unused : is_used t m ≡ false = elim how [
            | inl (_, _, _, _, u) ↦ u
            | inr (c, q) ↦ subst (λ k. is_used k m ≡ false) (sym q) (fresh c)
          ] in
          let same : t ≡ s = cc (r, e) in
          let named : s ≢ [] = elim how [
            | inl (ne, c, _, _, _) ↦ λ z. ne (sym c ∙ same ∙ z)
            | inr (c, q) ↦ λ z.
                unique_from_named draws m 0 10
                  (unfold generate_unique_subdomain in (sym q ∙ same ∙ z))
          ] in
          let empty : get t m ≡ none = unfold get in lookup-is_used g h t m v unused in
          let reg = register_with_ip custom [] has_conn now draws m in
          record {
            inv = register_with_ip-Inv g h custom [] has_conn now draws m v fresh;
            named = named;
            free = subst (λ k. get k m ≡ none) same empty;
            tunnel = record (new_connection t has_conn now) { remote_ip = [] };
            there = ap (λ k. get k reg.0) (sym same) ∙ finds t ∙ rw (text_beq_refl t) refl;
            others = λ k n. finds k ∙ rw (same, n) refl;
            count = register_with_ip_done custom has_conn now draws m s e;
          }
    ]
