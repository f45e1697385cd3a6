-- ===== src/Tunnel/Manager/Find.antt =====
-- internal/server/tunnel/manager.go: what `Get` finds after a write to a shard and after a removal.
use tunl.Base.{
  ℕ, ◌≡◌, refl, ap, ◌∙◌, inl, inr, Bool, true, Option, none, some, List, [], ◌∷◌, arith, ◌==◌,
  if◌then◌else◌, ==_iff, Bool-cases, Option-cases, Text, text_beq, text_beq_iff, text_eq, nat_eq,
  length, get_or,
}
use tunl.Base.Map.{lookup, lookup-insert, lookup-erase}
use tunl.Tunnel.Connection.{Connection, new_connection, close}
use tunl.Tunnel.Manager.{
  Manager, Shard, empty_shard, shard_at, shard_index, num_shards, put_shard, store_tunnel,
  release_ip, rollback_global,
}
use tunl.Tunnel.Manager.Removal.{get, drop_tunnel, unregister}
use tunl.Tunnel.Manager.Shards.{shard_at-put_shard_self, shard_at-put_shard_ne}
use tunl.Tunnel.Manager.Invariant.{Inv}
use tunl.Tunnel.Manager.Stored.{shard_index-lt}

pub get-put_shard :
    (s k : Text) (sh : Shard) (m : Manager)
    → length m.shards ≡ num_shards
    → get k (put_shard (shard_index s) sh m)
      ≡ (if shard_index s == shard_index k then lookup k sh.tunnels else get k m)
unfolding get
get-put_shard s k sh m w = elim (Bool-cases (shard_index s == shard_index k)) [
  | inl e ↦
      let p = (==_iff (shard_index s) (shard_index k)).0 e in
      rw e (rw (← p, shard_at-put_shard_self (shard_index s) sh m (rw w (shard_index-lt s))) refl)
  | inr e ↦ rw e (
      rw
        (shard_at-put_shard_ne (shard_index s) (shard_index k) sh m
          (λ p. cc ((==_iff (shard_index s) (shard_index k)).1 p)))
        refl)
]

same_shard : (s k : Text) → text_beq s k ≡ true → (shard_index s == shard_index k) ≡ true
same_shard s k e =
    (==_iff (shard_index s) (shard_index k)).1 (ap shard_index ((text_beq_iff s k).0 e))

pub shard_split :
    (s k : Text) (m : Manager) (a : Option Connection)
    → (if shard_index s == shard_index k
        then (if text_beq s k then a else lookup k (shard_at (shard_index s) m).tunnels)
        else get k m)
      ≡ (if text_beq s k then a else get k m)
unfolding get
shard_split s k m a = elim (Bool-cases (text_beq s k)) [
  | inl e ↦ rw (e, same_shard s k e) refl
  | inr e ↦ elim (Bool-cases (shard_index s == shard_index k)) [
    | inl q ↦
        rw (e, q)
          (ap (λ i. lookup k (shard_at i m).tunnels) ((==_iff (shard_index s) (shard_index k)).0 q))
    | inr q ↦ rw (e, q) refl
  ]
]

-- What `Get` finds under `k` once a new tunnel stands under `s`.
abbrev pub with_tunnel : Text → Text → Bool → ℕ → Text → Option Connection → Option Connection
with_tunnel s ip has_conn now k old =
    if text_beq s k then some (record (new_connection s has_conn now) { remote_ip = ip }) else old

pub get-store_tunnel :
    (s ip k : Text) (has_conn : Bool) (now : ℕ) (m : Manager)
    → length m.shards ≡ num_shards
    → get k (store_tunnel s ip has_conn now m) ≡ with_tunnel s ip has_conn now k (get k m)
unfolding store_tunnel
get-store_tunnel s ip k has_conn now m w =
    let tc : Connection = record (new_connection s has_conn now) { remote_ip = ip } in
    get-put_shard s k _ m w
    ∙ ap (λ o. if shard_index s == shard_index k then o else get k m)
        (lookup-insert s k tc (shard_at (shard_index s) m).tunnels)
    ∙ shard_split s k m (some tc)

pub release_ip-shards : (ip : Text) (m : Manager) → (release_ip ip m).shards ≡ m.shards
unfolding release_ip
release_ip-shards ip m = ground arith

pub get-shards : (k : Text) (a b : Manager) → a.shards ≡ b.shards → get k a ≡ get k b
unfolding get shard_at
get-shards k a b e = ap (λ ss. lookup k (get_or ss (shard_index k) empty_shard).tunnels) e

get-release : (k ip : Text) (m : Manager) → get k (release_ip ip (rollback_global m)) ≡ get k m
unfolding rollback_global
get-release k ip m = get-shards k _ m (release_ip-shards ip (rollback_global m))

abbrev pub closed_of : Option Connection → List Connection
closed_of none = []
closed_of (some tc) = close tc ∷ []

get-drop_tunnel :
    (g : ℕ) (h : Text → ℕ) (s : Text) (m : Manager)
    → Inv g h m
    → ((k : Text)
        → get k (drop_tunnel (shard_index s) s m).0 ≡ (if text_beq s k then none else get k m))
      × ((drop_tunnel (shard_index s) s m).1 ≡ closed_of (get s m))
unfolding drop_tunnel
get-drop_tunnel g h s m v = elim (Option-cases (lookup s (shard_at (shard_index s) m).tunnels)) [
  | inl e ↦ ((λ k. rw (e, drop_tunnel) (missing e k)), unfold get in rw (e, drop_tunnel) refl)
  | inr (tc, e) ↦ (
    (λ k.
        rw (e, drop_tunnel)
          (get-release k tc.remote_ip _
            ∙ get-put_shard s k _ m v.width
            ∙ ap (λ o. if shard_index s == shard_index k then o else get k m)
                (lookup-erase s k (shard_at (shard_index s) m).tunnels
                  (v.shards (shard_index s)).distinct)
            ∙ shard_split s k m none)),
    unfold get in rw (e, drop_tunnel) refl,
  )
]
  where
    missing :
        lookup s (shard_at (shard_index s) m).tunnels ≡ none
        → (k : Text) → get k m ≡ (if text_beq s k then none else get k m)
    missing e k = elim (Bool-cases (text_beq s k)) [
      | inl q ↦ rw q (rw (← (text_beq_iff s k).0 q) (unfold get in e))
      | inr q ↦ rw q refl
    ]

-- `Unregister` closes the tunnel of the subdomain, if there is one, and takes it away; `Get` finds
-- every other tunnel as before.
pub get-unregister :
    (g : ℕ) (h : Text → ℕ) (s : Text) (m : Manager)
    → Inv g h m
    → ((k : Text) → get k (unregister s m).0 ≡ (if text_beq s k then none else get k m))
      × ((unregister s m).1 ≡ closed_of (get s m))
unfolding unregister
get-unregister g h s m v = get-drop_tunnel g h s m v
