-- ===== src/Tunnel/Manager/Collision.antt =====
-- internal/server/tunnel/manager.go: the last random subdomain, which is not tested.
use tunl.Base.{
  ℕ, ◌+◌, ◌≡◌, refl, ap, subst, sym, inl, inr, text_beq_iff, ◌∙◌, Bool, Option, some, [], arith,
  text_beq, text_eq, nat_eq, length,
}
use tunl.Base.Int.{pos}
use tunl.Tunnel.Connection.{Connection}
use tunl.Tunnel.Manager.{
  Manager, generate_unique_subdomain, reserve_global, store_tunnel, register_with_ip, register_slot,
  claim, claim_generated,
}
use tunl.Tunnel.Manager.Removal.{list, count, get}
use tunl.Tunnel.Manager.Invariant.{Inv, reserve_global-Inv, Inv-slots, plus}
use tunl.Tunnel.Manager.Stored.{store_tunnel-over}
use tunl.Tunnel.Manager.Runs.{length-list}

registered :
    (has_conn : Bool) (now : ℕ) (draws : ℕ → ℕ → Option ℕ) (m m1 : Manager)
    → reserve_global m ≡ some m1
    → (register_with_ip [] [] has_conn now draws m).0
      ≡ store_tunnel (generate_unique_subdomain draws m1) [] has_conn now m1
unfolding register_with_ip register_slot claim claim_generated text_beq
registered has_conn now draws m m1 e = rw (e, register_with_ip) refl

reserved : (m m1 : Manager) → Inv 0 (λ ip. 0) m → reserve_global m ≡ some m1 → Inv 1 (λ ip. 0) m1
reserved m m1 v r = elim (reserve_global-Inv 0 (λ ip. 0) m v) [
  | inl (q, _) ↦ absurd (cc (q, r))
  | inr (m', q, w) ↦ let e : m' ≡ m1 = cc (q, r) in subst (Inv 1 (λ ip. 0)) e w
]

-- A registration without an address whose random subdomains are all taken overwrites the tunnel of
-- the last one: afterwards `Count` is one more than the number of tunnels that `List` returns.
pub register_with_ip-generate_unique_subdomain :
    (has_conn : Bool) (now : ℕ) (draws : ℕ → ℕ → Option ℕ) (m m1 : Manager) (old : Connection)
    → Inv 0 (λ ip. 0) m
    → reserve_global m ≡ some m1
    → get (generate_unique_subdomain draws m1) m1 ≡ some old
    → count (register_with_ip [] [] has_conn now draws m).0
      ≡ pos (1 + length (list (register_with_ip [] [] has_conn now draws m).0))
unfolding count get
register_with_ip-generate_unique_subdomain has_conn now draws m m1 old v r e =
    let s = generate_unique_subdomain draws m1 in
    let q = registered has_conn now draws m m1 r in
    let w =
      store_tunnel-over 0 (λ ip. 0) s [] has_conn now m1 old e
        (Inv-slots 1 (λ ip. 0) (plus [] (λ ip. 0)) m1 (reserved m m1 v r)
          (λ j ne. ground (arith, text_beq_iff [] j))) in
    ap (λ m. m.tunnel_count) q
    ∙ w.counted
    ∙ ap pos (omega (arith, length-list (store_tunnel s [] has_conn now m1)))
    ∙ ap (λ m. pos (1 + length (list m))) (sym q)
