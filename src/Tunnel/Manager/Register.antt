-- ===== src/Tunnel/Manager/Register.antt =====
-- internal/server/tunnel/manager.go: `RegisterWithIP` as a whole, against the invariant.
use tunl.Base.{
  ℕ, zero, suc, ◌+◌, ◌≡◌, refl, sym, ap, ◌∙◌, ◌≢◌, ◌⊎◌, inl, inr, Bool, true, false, Option, some,
  [], arith, Bool-cases, Text, text_beq, text_beq_iff, text_eq, nat_eq, ok, err,
}
use tunl.Utils.Subdomain.{validate_subdomain, is_reserved, generate_subdomain}
use tunl.Tunnel.Manager.{
  Manager, Error, subdomain_taken, invalid_subdomain, reserved_subdomain, is_used, store_tunnel,
  reserve_global, check_rate, reserve_ip, roll_back, claim_custom, claim, register_slot,
  register_with_ip, unique_from, generate_unique_subdomain,
}
use tunl.Tunnel.Manager.Invariant.{
  Inv, Inv-slots, plus, reserve_global-Inv, rollback_global-Inv, check_rate-Inv, reserve_ip-Inv,
  release_ip-Inv,
}
use tunl.Tunnel.Manager.Stored.{lookup-is_used, store_tunnel-fresh}

-- The random subdomain is not taken. Of the eleven attempts only the last one can be.
abbrev pub IsFresh : (ℕ → ℕ → Option ℕ) → Manager → Type 0
IsFresh draws m = is_used (generate_unique_subdomain draws m) m ≡ false

abbrev SameTunnels : Manager → Manager → Type 0
SameTunnels a b = (s : Text) → is_used s a ≡ is_used s b

pub unique_from-cong :
    (draws : ℕ → ℕ → Option ℕ) (a b : Manager) (i n : ℕ)
    → SameTunnels a b
    → unique_from draws a i n ≡ unique_from draws b i n
unfolding unique_from
unique_from-cong draws a b i zero h = refl
unique_from-cong draws a b i (suc n) h =
    ground (arith, h (generate_subdomain (draws i) 6), unique_from-cong draws a b (i + 1) n h)

IsFresh-of_same :
    (draws : ℕ → ℕ → Option ℕ) (a b : Manager) → SameTunnels a b → IsFresh draws a → IsFresh draws b
unfolding generate_unique_subdomain
IsFresh-of_same draws a b h e =
    sym (h _) ∙ ap (λ s. is_used s a) (sym (unique_from-cong draws a b 0 10 h)) ∙ e

pub roll_back-Inv :
    (g : ℕ) (h : Text → ℕ) (ip : Text) (m : Manager)
    → Inv (suc g) (plus ip h) m
    → Inv g h (roll_back ip m)
unfolding roll_back
roll_back-Inv g h ip m v = rollback_global-Inv g h _ (release_ip-Inv (suc g) h ip m v)

-- Why a custom subdomain is refused.
abbrev pub Refuses : Text → Manager → Error → Type 0
Refuses custom m e =
    ((e ≡ invalid_subdomain) × (validate_subdomain custom ≡ false))
    ⊎ ((e ≡ reserved_subdomain) × (validate_subdomain custom ≡ true) × (is_reserved custom ≡ true))
    ⊎ ((e ≡ subdomain_taken)
        × (validate_subdomain custom ≡ true)
        × (is_reserved custom ≡ false)
        × (is_used custom m ≡ true))

-- A custom subdomain is accepted exactly if it is valid, not reserved and not taken.
pub claim_custom_cases :
    (custom ip : Text) (has_conn : Bool) (now : ℕ) (m : Manager)
    → ((validate_subdomain custom ≡ true)
        × (is_reserved custom ≡ false)
        × (is_used custom m ≡ false)
        × (claim_custom custom ip has_conn now m ≡ ok (store_tunnel custom ip has_conn now m)))
      ⊎ ((e : Error) × (claim_custom custom ip has_conn now m ≡ err e) × Refuses custom m e)
unfolding claim_custom
claim_custom_cases custom ip has_conn now m = elim (Bool-cases (validate_subdomain custom)) [
  | inr a ↦ inr (invalid_subdomain, rw a refl, inl (refl, a))
  | inl a ↦ elim (Bool-cases (is_reserved custom)) [
    | inl b ↦ inr (reserved_subdomain, rw (a, b) refl, inr (inl (refl, a, b)))
    | inr b ↦ elim (Bool-cases (is_used custom m)) [
      | inl c ↦ inr (subdomain_taken, rw (a, b, c) refl, inr (inr (refl, a, b, c)))
      | inr c ↦ inl (a, b, c, rw (a, b, c) refl)
    ]
  ]
]

claim-Inv :
    (g : ℕ) (h : Text → ℕ) (custom ip : Text) (has_conn : Bool) (now : ℕ) (draws : ℕ → ℕ → Option ℕ)
    (m : Manager)
    → Inv (suc g) (plus ip h) m
    → (custom ≡ [] → IsFresh draws m)
    → Inv g h (claim custom ip has_conn now draws m).0
unfolding claim
claim-Inv g h custom ip has_conn now draws m v fresh = elim (Bool-cases (text_beq custom [])) [
  | inl e ↦ rw e (
      store_tunnel-fresh g h _ ip has_conn now m
        (lookup-is_used (suc g) (plus ip h) _ m v (fresh ((text_beq_iff custom []).0 e))) v)
  | inr e ↦ rw e (elim (claim_custom_cases custom ip has_conn now m) [
    | inl (_, _, c, r) ↦
        rw (r, claim)
          (store_tunnel-fresh g h custom ip has_conn now m
            (lookup-is_used (suc g) (plus ip h) custom m v c) v)
    | inr (x, r, _) ↦ rw (r, claim) (roll_back-Inv g h ip m v)
  ])
]

same_rate : (ip : Text) (now : ℕ) (m : Manager) → SameTunnels m (check_rate ip now m).0
unfolding check_rate is_used
same_rate ip now m s = refl

same_ip : (ip : Text) (m m' : Manager) → reserve_ip ip m ≡ some m' → SameTunnels m m'
unfolding reserve_ip is_used
same_ip ip m m' e s = ground arith

same_global : (m m' : Manager) → reserve_global m ≡ some m' → SameTunnels m m'
unfolding reserve_global is_used
same_global m m' e s = ground arith

register_slot-Inv :
    (g : ℕ) (h : Text → ℕ) (custom ip : Text) (has_conn : Bool) (now : ℕ) (draws : ℕ → ℕ → Option ℕ)
    (m : Manager)
    → Inv (suc g) h m
    → (custom ≡ [] → IsFresh draws m)
    → Inv g h (register_slot custom ip has_conn now draws m).0
unfolding register_slot
register_slot-Inv g h custom ip has_conn now draws m v fresh = elim (Bool-cases (text_beq ip [])) [
  | inl e ↦ rw e (
      claim-Inv g h custom ip has_conn now draws m
        (Inv-slots (suc g) h (plus ip h) m v (no_slot ((text_beq_iff ip []).0 e))) fresh)
  | inr e ↦ rw e (elim (Bool-cases (check_rate ip now m).1) [
    | inr no_more ↦ rw no_more (rollback_global-Inv g h m1 rated)
    | inl let_in ↦ rw let_in (elim (reserve_ip-Inv (suc g) h ip m1 (not_empty e) rated) [
      | inl (r, _) ↦ rw (r, register_slot) (rollback_global-Inv g h m1 rated)
      | inr (m2, r, w) ↦
          rw (r, register_slot)
            (claim-Inv g h custom ip has_conn now draws m2 w (λ c.
              IsFresh-of_same draws m1 m2 (same_ip ip m1 m2 r)
                (IsFresh-of_same draws m m1 (same_rate ip now m) (fresh c))))
    ])
  ])
]
  where
    m1 : Manager
    m1 = (check_rate ip now m).0

    rated : Inv (suc g) h m1
    rated = check_rate-Inv (suc g) h ip now m v

    not_empty : text_beq ip [] ≡ false → ip ≢ []
    not_empty e p = cc ((text_beq_iff ip []).1 p)

    no_slot : ip ≡ [] → (j : Text) → j ≢ [] → h j ≡ plus ip h j
    no_slot p j nj = rw p (ground (arith, text_beq_iff [] j))

pub register_with_ip-Inv :
    (g : ℕ) (h : Text → ℕ) (custom ip : Text) (has_conn : Bool) (now : ℕ) (draws : ℕ → ℕ → Option ℕ)
    (m : Manager)
    → Inv g h m
    → (custom ≡ [] → IsFresh draws m)
    → Inv g h (register_with_ip custom ip has_conn now draws m).0
unfolding register_with_ip
register_with_ip-Inv g h custom ip has_conn now draws m v fresh =
    elim (reserve_global-Inv g h m v) [
      | inl (r, _) ↦ rw (r, register_with_ip) v
      | inr (m', r, w) ↦
          rw (r, register_with_ip)
            (register_slot-Inv g h custom ip has_conn now draws m' w
              (λ c. IsFresh-of_same draws m m' (same_global m m' r) (fresh c)))
    ]
