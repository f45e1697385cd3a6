-- ===== src/Tunnel/Manager/Outcome.antt =====
-- internal/server/tunnel/manager.go: how a registration ends, and what `Get` finds then.
use tunl.Base.{
  ℕ, suc, ◌+◌, ◌<◌, ◌≡◌, refl, sym, ap, ◌∙◌, ◌≢◌, ◌⊎◌, inl, inr, Bool, true, false, Option, none,
  some, [], arith, Bool-cases, Text, text_beq, text_beq_iff, text_eq, nat_eq, length, get_or, bit,
  sum_by, ok, err,
}
use tunl.Base.Result.{Result}
use tunl.Base.Map.{lookup}
use tunl.Utils.Subdomain.{validate_subdomain, is_reserved}
use tunl.Tunnel.Manager.{
  Manager, empty_shard, Error, too_many_tunnels, too_many_per_ip, rate_limit_exceeded, shard_index,
  num_shards, is_used, generate_unique_subdomain, claim, register_slot, register_with_ip,
  rollback_global, roll_back, check_rate, reserve_ip, reserve_global,
}
use tunl.Tunnel.Manager.Removal.{get}
use tunl.Tunnel.Manager.Invariant.{Inv, check_rate-Inv, reserve_ip-Inv, reserve_global-Inv}
use tunl.Tunnel.RateLimiter.{check_and_increment}
use tunl.Tunnel.Manager.Register.{Refuses, claim_custom_cases, unique_from-cong}
use tunl.Tunnel.Manager.Shards.{total, held}
use tunl.Tunnel.Manager.Find.{get-shards, with_tunnel, get-store_tunnel, release_ip-shards}

-- The limits let a registration through: there is a slot left, and for an address the rate limiter lets
-- it in and it has a slot left too.
pub record Admits (g : ℕ) (h : Text → ℕ) (ip : Text) (now : ℕ) (m : Manager) : Type 0 where
  pub room : total m + g < m.max_tunnels
  pub rated : ip ≢ [] → (check_and_increment m.rate_limiter ip now).1 ≡ true
  pub room_for_ip : ip ≢ [] → held ip m + h ip < m.max_tunnels_per_ip

-- How a registration ends, and what `Get` finds then. No two of the conditions hold at once.
pub data Outcome (g : ℕ) (h : Text → ℕ) (custom ip : Text) (has_conn : Bool) (now : ℕ)
    (draws : ℕ → ℕ → Option ℕ) (m : Manager) (r : Manager × Result Error Text) : Type 0 where
  full :
      total m + g ≡ m.max_tunnels
      → r ≡ (m, err too_many_tunnels)
      → Outcome g h custom ip has_conn now draws m r
  limited :
      ip ≢ []
      → total m + g < m.max_tunnels
      → (check_and_increment m.rate_limiter ip now).1 ≡ false
      → r.1 ≡ err rate_limit_exceeded
      → ((k : Text) → get k r.0 ≡ get k m)
      → Outcome g h custom ip has_conn now draws m r
  crowded :
      ip ≢ []
      → total m + g < m.max_tunnels
      → (check_and_increment m.rate_limiter ip now).1 ≡ true
      → held ip m + h ip ≡ m.max_tunnels_per_ip
      → r.1 ≡ err too_many_per_ip
      → ((k : Text) → get k r.0 ≡ get k m)
      → Outcome g h custom ip has_conn now draws m r
  refused :
      (e : Error)
      → custom ≢ []
      → Admits g h ip now m
      → Refuses custom m e
      → r.1 ≡ err e
      → ((k : Text) → get k r.0 ≡ get k m)
      → Outcome g h custom ip has_conn now draws m r
  stored :
      (s : Text)
      → Admits g h ip now m
      → (((custom ≢ [])
            × (s ≡ custom)
            × (validate_subdomain s ≡ true)
            × (is_reserved s ≡ false)
            × (is_used s m ≡ false))
          ⊎ ((custom ≡ []) × (s ≡ generate_unique_subdomain draws m)))
      → r.1 ≡ ok s
      → ((k : Text) → get k r.0 ≡ with_tunnel s ip has_conn now k (get k m))
      → Outcome g h custom ip has_conn now draws m r

used-shards : (s : Text) (a b : Manager) → a.shards ≡ b.shards → is_used s a ≡ is_used s b
unfolding is_used
used-shards s a b e =
    ap
      (λ ss. elim (lookup s (get_or ss (shard_index s) empty_shard).used) [
        | none ↦ false
        | some b ↦ b
      ])
      e

unique-shards :
    (draws : ℕ → ℕ → Option ℕ) (a b : Manager)
    → a.shards ≡ b.shards
    → generate_unique_subdomain draws a ≡ generate_unique_subdomain draws b
unfolding generate_unique_subdomain
unique-shards draws a b e = unique_from-cong draws a b 0 10 (λ s. used-shards s a b e)

roll_back-shards : (ip : Text) (m : Manager) → (roll_back ip m).shards ≡ m.shards
unfolding roll_back rollback_global
roll_back-shards ip m = release_ip-shards ip m

claim_outcome :
    (g : ℕ) (h : Text → ℕ) (custom ip : Text) (has_conn : Bool) (now : ℕ) (draws : ℕ → ℕ → Option ℕ)
    (m m2 : Manager)
    → length m.shards ≡ num_shards
    → m2.shards ≡ m.shards
    → Admits g h ip now m
    → Outcome g h custom ip has_conn now draws m (claim custom ip has_conn now draws m2)
unfolding claim
claim_outcome g h custom ip has_conn now draws m m2 w e ad =
    elim (Bool-cases (text_beq custom [])) [
      | inl c ↦ rw c (
          stored (generate_unique_subdomain draws m2) ad
            (inr ((text_beq_iff custom []).0 c, unique-shards draws m2 m e)) refl
            (λ k.
              get-store_tunnel _ ip k has_conn now m2 (ap length e ∙ w)
              ∙ ap (with_tunnel _ ip has_conn now k) (get-shards k m2 m e)))
      | inr c ↦
          let ne : custom ≢ [] = λ p. cc ((text_beq_iff custom []).1 p) in
          rw c (elim (claim_custom_cases custom ip has_conn now m2) [
            | inl (v, r, u, q) ↦
                rw (q, claim)
                  (stored custom ad (inl (ne, refl, v, r, sym (used-shards custom m2 m e) ∙ u)) refl
                    (λ k.
                      get-store_tunnel custom ip k has_conn now m2 (ap length e ∙ w)
                      ∙ ap (with_tunnel custom ip has_conn now k) (get-shards k m2 m e)))
            | inr (x, q, why) ↦
                rw (q, claim)
                  (refused x ne ad (why_kept x why) refl
                    (λ k. get-shards k _ m (roll_back-shards ip m2 ∙ e)))
          ])
    ]
  where
    why_kept : (x : Error) → Refuses custom m2 x → Refuses custom m x
    why_kept x (inl a) = inl a
    why_kept x (inr (inl a)) = inr (inl a)
    why_kept x (inr (inr (a, v, r, u))) = inr (inr (a, v, r, sym (used-shards custom m2 m e) ∙ u))

same_rate : (ip : Text) (now : ℕ) (m : Manager) → (check_rate ip now m).0.shards ≡ m.shards
unfolding check_rate
same_rate ip now m = refl

same_slot : (ip : Text) (m m' : Manager) → reserve_ip ip m ≡ some m' → m'.shards ≡ m.shards
unfolding reserve_ip
same_slot ip m m' e = ground arith

same_global :
    (m m' : Manager)
    → reserve_global m ≡ some m'
    → (m'.shards ≡ m.shards)
      × (m'.rate_limiter ≡ m.rate_limiter)
      × (m'.max_tunnels_per_ip ≡ m.max_tunnels_per_ip)
unfolding reserve_global
same_global m m' e = ground arith

rolled-shards : (m : Manager) → (rollback_global m).shards ≡ m.shards
unfolding rollback_global
rolled-shards m = refl

reserve_global-room :
    (g : ℕ) (h : Text → ℕ) (m m' : Manager)
    → Inv g h m
    → reserve_global m ≡ some m'
    → total m + g < m.max_tunnels
unfolding reserve_global
reserve_global-room g h m m' v e = ground (arith, v.counted)

reserve_ip-room :
    (g : ℕ) (h : Text → ℕ) (ip : Text) (m m' : Manager)
    → ip ≢ []
    → Inv g h m
    → reserve_ip ip m ≡ some m'
    → held ip m + h ip < m.max_tunnels_per_ip
unfolding reserve_ip
reserve_ip-room g h ip m m' ne v e = ground (arith, v.by_ip ip ne)

register_slot_outcome :
    (g : ℕ) (h : Text → ℕ) (custom ip : Text) (has_conn : Bool) (now : ℕ) (draws : ℕ → ℕ → Option ℕ)
    (m m' : Manager)
    → length m.shards ≡ num_shards
    → total m + g < m.max_tunnels
    → Inv (suc g) h m'
    → (m'.shards ≡ m.shards)
      × (m'.rate_limiter ≡ m.rate_limiter)
      × (m'.max_tunnels_per_ip ≡ m.max_tunnels_per_ip)
    → Outcome g h custom ip has_conn now draws m (register_slot custom ip has_conn now draws m')
unfolding register_slot
register_slot_outcome g h custom ip has_conn now draws m m' w room v (e, rl, mx) =
    elim (Bool-cases (text_beq ip [])) [
      | inl c ↦ rw c (
          claim_outcome g h custom ip has_conn now draws m m' w e (record {
            room = room;
            rated = λ ne. absurd (ne ((text_beq_iff ip []).0 c));
            room_for_ip = λ ne. absurd (ne ((text_beq_iff ip []).0 c));
          }))
      | inr c ↦
          let ne : ip ≢ [] = λ p. cc ((text_beq_iff ip []).1 p) in
          rw c (elim (Bool-cases (check_rate ip now m').1) [
            | inr no_more ↦ rw no_more (
                limited ne room
                  (ap (λ l. (check_and_increment l ip now).1) (sym rl) ∙ rated false no_more) refl
                  (λ k. get-shards k _ m (rolled-shards m1 ∙ same_rate ip now m' ∙ e)))
            | inl let_in ↦
                rw let_in
                  (elim (reserve_ip-Inv (suc g) h ip m1 ne (check_rate-Inv (suc g) h ip now m' v)) [
                    | inl (r, f) ↦
                        rw (r, register_slot)
                          (crowded ne room (passes let_in) (held_kept ∙ f ∙ max_kept) refl
                            (λ k. get-shards k _ m (rolled-shards m1 ∙ same_rate ip now m' ∙ e)))
                    | inr (m2, r, _) ↦
                        rw (r, register_slot)
                          (claim_outcome g h custom ip has_conn now draws m m2 w
                            (same_slot ip m1 m2 r ∙ same_rate ip now m' ∙ e)
                            (record {
                              room = room;
                              rated = λ _. passes let_in;
                              room_for_ip = λ _. omega (
                                arith,
                                held_kept,
                                max_kept,
                                reserve_ip-room (suc g) h ip m1 m2 ne
                                    (check_rate-Inv (suc g) h ip now m' v) r,
                              );
                            }))
                  ])
          ])
    ]
  where
    m1 : Manager
    m1 = (check_rate ip now m').0

    rated :
        (b : Bool)
        → (check_rate ip now m').1 ≡ b
        → (check_and_increment m'.rate_limiter ip now).1 ≡ b
    rated b q = unfold check_rate in q

    passes : (check_rate ip now m').1 ≡ true → (check_and_increment m.rate_limiter ip now).1 ≡ true
    passes q = ap (λ l. (check_and_increment l ip now).1) (sym rl) ∙ rated true q

    held_kept : held ip m + h ip ≡ held ip m1 + h ip
    held_kept =
        ap (λ ss. sum_by (λ s. sum_by (λ p. bit (text_beq p.1.remote_ip ip)) s.tunnels) ss + h ip)
          (sym (same_rate ip now m' ∙ e))

    max_kept : m1.max_tunnels_per_ip ≡ m.max_tunnels_per_ip
    max_kept = unfold check_rate in mx

-- Every outcome of `RegisterWithIP`, each with its condition, of which no two hold at once: the tunnels
-- are at their limit; they are not, and the rate limiter refuses the address; it lets it in, and the
-- address is at its limit; none of these, and a custom subdomain is invalid, or valid and reserved, or
-- neither and taken; or none of these. Only in the last case the registration succeeds, and adds one
-- tunnel under the subdomain that it returns; an error changes no tunnel.
pub register_with_ip-Outcome :
    (g : ℕ) (h : Text → ℕ) (custom ip : Text) (has_conn : Bool) (now : ℕ) (draws : ℕ → ℕ → Option ℕ)
    (m : Manager)
    → Inv g h m
    → Outcome g h custom ip has_conn now draws m (register_with_ip custom ip has_conn now draws m)
unfolding register_with_ip
register_with_ip-Outcome g h custom ip has_conn now draws m v = elim (reserve_global-Inv g h m v) [
  | inl (r, f) ↦ rw (r, register_with_ip) (full f refl)
  | inr (m', r, w) ↦
      rw (r, register_with_ip)
        (register_slot_outcome g h custom ip has_conn now draws m m' v.width
          (reserve_global-room g h m m' v r) w (same_global m m' r))
]
