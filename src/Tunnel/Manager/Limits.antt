-- ===== src/Tunnel/Manager/Limits.antt =====
-- internal/server/tunnel/manager.go: the limits that a manager was made with stay.
use tunl.Base.{
  ℕ, zero, suc, ◌+◌, ◌≡◌, refl, ◌∙◌, inl, inr, Bool, Option, some, List, [], ◌∷◌, arith,
  Option-cases, Text, text_eq, nat_eq,
}
use tunl.Base.{ok}
use tunl.Base.Map.{lookup}
use tunl.Tunnel.Manager.{
  Manager, shard_at, register_with_ip, register_slot, claim, claim_custom, roll_back,
  rollback_global, store_tunnel, release_ip, put_shard, check_rate, reserve_ip, reserve_global,
}
use tunl.Tunnel.Manager.Removal.{
  drop_tunnel, unregister, drop_all, cleanup_shards, cleanup_stale, stale_subdomains,
}

abbrev pub limits : Manager → ℕ × ℕ
limits m = (m.max_tunnels, m.max_tunnels_per_ip)

pub release_ip-limits : (ip : Text) (m : Manager) → limits (release_ip ip m) ≡ limits m
unfolding release_ip
release_ip-limits ip m = ground arith

drop_tunnel-limits : (i : ℕ) (s : Text) (m : Manager) → limits (drop_tunnel i s m).0 ≡ limits m
unfolding drop_tunnel rollback_global put_shard
drop_tunnel-limits i s m = elim (Option-cases (lookup s (shard_at i m).tunnels)) [
  | inl e ↦ rw (e, drop_tunnel) refl
  | inr (tc, e) ↦ rw (e, drop_tunnel) (release_ip-limits tc.remote_ip _)
]

pub unregister-limits : (s : Text) (m : Manager) → limits (unregister s m).0 ≡ limits m
unfolding unregister
unregister-limits s m = drop_tunnel-limits _ s m

drop_all-limits : (i : ℕ) (ss : List Text) (m : Manager) → limits (drop_all i ss m).0 ≡ limits m
unfolding drop_all
drop_all-limits i [] m = refl
drop_all-limits i (s ∷ ss) m = drop_all-limits i ss (drop_tunnel i s m).0 ∙ drop_tunnel-limits i s m

cleanup_shards-limits :
    (now timeout i k : ℕ) (m : Manager) → limits (cleanup_shards now timeout i k m).0 ≡ limits m
unfolding cleanup_shards
cleanup_shards-limits now timeout i zero m = refl
cleanup_shards-limits now timeout i (suc k) m =
    let stale = stale_subdomains now timeout (shard_at i m).tunnels in
    cleanup_shards-limits now timeout (i + 1) k (drop_all i stale m).0 ∙ drop_all-limits i stale m

pub cleanup_stale-limits :
    (now timeout : ℕ) (m : Manager) → limits (cleanup_stale now timeout m).0 ≡ limits m
unfolding cleanup_stale
cleanup_stale-limits now timeout m = cleanup_shards-limits now timeout 0 32 m

claim-limits :
    (custom ip : Text) (has_conn : Bool) (now : ℕ) (draws : ℕ → ℕ → Option ℕ) (m : Manager)
    → limits (claim custom ip has_conn now draws m).0 ≡ limits m
unfolding claim claim_custom roll_back rollback_global store_tunnel
claim-limits custom ip has_conn now draws m = ground (arith, release_ip-limits ip m)

pub check_rate-limits :
    (ip : Text) (now : ℕ) (m : Manager) → limits (check_rate ip now m).0 ≡ limits m
unfolding check_rate
check_rate-limits ip now m = refl

pub reserve_ip-limits :
    (ip : Text) (m m' : Manager) → reserve_ip ip m ≡ some m' → limits m' ≡ limits m
unfolding reserve_ip
reserve_ip-limits ip m m' e = ground arith

pub rollback_global-limits : (m : Manager) → limits (rollback_global m) ≡ limits m
unfolding rollback_global
rollback_global-limits m = refl

pub reserve_global-limits : (m m' : Manager) → reserve_global m ≡ some m' → limits m' ≡ limits m
unfolding reserve_global
reserve_global-limits m m' e = ground arith

pub store_tunnel-limits :
    (s ip : Text) (has_conn : Bool) (now : ℕ) (m : Manager)
    → limits (store_tunnel s ip has_conn now m) ≡ limits m
unfolding store_tunnel put_shard
store_tunnel-limits s ip has_conn now m = refl

pub claim_custom-limits :
    (custom ip : Text) (has_conn : Bool) (now : ℕ) (m m' : Manager)
    → claim_custom custom ip has_conn now m ≡ ok m'
    → limits m' ≡ limits m
unfolding claim_custom store_tunnel put_shard
claim_custom-limits custom ip has_conn now m m' e = ground arith

register_slot-limits :
    (custom ip : Text) (has_conn : Bool) (now : ℕ) (draws : ℕ → ℕ → Option ℕ) (m : Manager)
    → limits (register_slot custom ip has_conn now draws m).0 ≡ limits m
unfolding register_slot rollback_global
register_slot-limits custom ip has_conn now draws m =
    let m1 = (check_rate ip now m).0 in
    elim (Option-cases (reserve_ip ip m1)) [
      | inl e ↦
          ground (arith, claim-limits custom ip has_conn now draws m, check_rate-limits ip now m)
      | inr (m2, e) ↦ ground (
        arith,
        claim-limits custom ip has_conn now draws m,
        claim-limits custom ip has_conn now draws m2,
        reserve_ip-limits ip m1 m2 e,
        check_rate-limits ip now m,
      )
    ]

pub register_with_ip-limits :
    (custom ip : Text) (has_conn : Bool) (now : ℕ) (draws : ℕ → ℕ → Option ℕ) (m : Manager)
    → limits (register_with_ip custom ip has_conn now draws m).0 ≡ limits m
unfolding register_with_ip
register_with_ip-limits custom ip has_conn now draws m = elim (Option-cases (reserve_global m)) [
  | inl e ↦ rw (e, register_with_ip) refl
  | inr (m', e) ↦
      rw (e, register_with_ip)
        (register_slot-limits custom ip has_conn now draws m' ∙ reserve_global-limits m m' e)
]
