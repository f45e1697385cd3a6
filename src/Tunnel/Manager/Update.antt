-- ===== src/Tunnel/Manager/Update.antt =====
-- internal/server/tunnel: a tunnel that stays where it is and changes, as when its owner sets its type
-- or its rules. In the code it is a pointer that `Get` returns.
use tunl.Base.{
  ℕ, ◌+◌, ◌<◌, ◌≡◌, sym, ap, subst, ◌∙◌, inl, inr, Option, none, some, arith, ◌==◌, if◌then◌else◌,
  Option-cases, Text, text_beq, text_beq_iff, text_eq, nat_eq, bit, length,
}
use tunl.Base.Map.{lookup, insert, lookup-insert, Distinct-insert, sum_by-insert_old}
use tunl.Tunnel.Connection.{Connection}
use tunl.Tunnel.Manager.{Manager, Shard, shard_at, shard_index, put_shard, num_shards}
use tunl.Tunnel.Manager.Removal.{get}
use tunl.Tunnel.Manager.Shards.{weigh, weigh-put_shard}
use tunl.Tunnel.Manager.Invariant.{ShardOk, Inv}
use tunl.Tunnel.Manager.Stored.{Inv-put_shard, shard_index-lt}
use tunl.Tunnel.Manager.Find.{get-put_shard, shard_split}

abbrev with_changed : Text → Connection → Shard → Shard
with_changed s c sh = record sh { tunnels = insert s c sh.tunnels }

unfoldable pub update_tunnel : Text → (Connection → Connection) → Manager → Manager
update_tunnel s f m = elim (get s m) [
  | none ↦ m
  | some c ↦ put_shard (shard_index s) (with_changed s (f c) (shard_at (shard_index s) m)) m
]

abbrev pub map_option : (Connection → Connection) → Option Connection → Option Connection
map_option f none = none
map_option f (some c) = some (f c)

update_tunnel-some :
    (s : Text) (f : Connection → Connection) (m : Manager) (c : Connection)
    → get s m ≡ some c
    → update_tunnel s f m
      ≡ put_shard (shard_index s) (with_changed s (f c) (shard_at (shard_index s) m)) m
unfolding update_tunnel
update_tunnel-some s f m c e = ground arith

update_tunnel-none :
    (s : Text) (f : Connection → Connection) (m : Manager)
    → get s m ≡ none
    → update_tunnel s f m ≡ m
unfolding update_tunnel
update_tunnel-none s f m e = ground arith

pub get-update_tunnel :
    (s k : Text) (f : Connection → Connection) (m : Manager)
    → length m.shards ≡ num_shards
    → get k (update_tunnel s f m) ≡ (if text_beq s k then map_option f (get s m) else get k m)
get-update_tunnel s k f m w = elim (Option-cases (get s m)) [
  | inl e ↦ ground (
    arith,
    update_tunnel-none s f m e,
    text_beq_iff s k,
    ap (λ (t : Text). get t m) {x = s} {y = k},
  )
  | inr (c, e) ↦
      let i = shard_index s in
      let sh = shard_at i m in
      ap (get k) (update_tunnel-some s f m c e)
      ∙ (get-put_shard s k (with_changed s (f c) sh) m w
          ∙ ap (λ o. if shard_index s == shard_index k then o else get k m)
              (lookup-insert s k (f c) sh.tunnels)
          ∙ shard_split s k m (some (f c))
          ∙ ap (λ o. if text_beq s k then map_option f o else get k m) (sym e))
]

ShardOk-change :
    (s : Text) (c c' : Connection) (sh : Shard)
    → lookup s sh.tunnels ≡ some c
    → ShardOk (shard_index s) sh
    → ShardOk (shard_index s) (with_changed s c' sh)
ShardOk-change s c c' sh e o = record {
  distinct = Distinct-insert s c' sh.tunnels o.distinct;
  distinct_used = o.distinct_used;
  homes = λ k d h. ground (
    arith,
    lookup-insert s k c' sh.tunnels,
    o.homes k d,
    text_beq_iff s k,
    ap shard_index {x = s} {y = k},
  );
  marks = λ k. ground (
    arith,
    lookup-insert s k c' sh.tunnels,
    o.marks k,
    text_beq_iff s k,
    ap (λ (t : Text). lookup t sh.tunnels) {x = s} {y = k},
    o.marks s,
  );
}

pub Inv-update_tunnel :
    (g : ℕ) (h : Text → ℕ) (s : Text) (f : Connection → Connection) (m : Manager)
    → ((c : Connection) → (f c).remote_ip ≡ c.remote_ip)
    → Inv g h m
    → Inv g h (update_tunnel s f m)
Inv-update_tunnel g h s f m keeps v = elim (Option-cases (get s m)) [
  | inl e ↦ subst (Inv g h) (sym (update_tunnel-none s f m e)) v
  | inr (c, e) ↦
      let i = shard_index s in
      let sh = shard_at i m in
      let e' : lookup s sh.tunnels ≡ some c = unfold get in e in
      let moves : (w : Text × Connection → ℕ)
          → weigh w (put_shard i (with_changed s (f c) sh) m) + w (s, c) ≡ weigh w m + w (s, f c) =
        λ w. omega (
          arith,
          weigh-put_shard w i (with_changed s (f c) sh) m
              (subst (λ n. i < n) (sym v.width) (shard_index-lt s)),
          sum_by-insert_old w s (f c) c sh.tunnels e',
        ) in
      subst (Inv g h) (sym (update_tunnel-some s f m c e)) (
        Inv-put_shard g g h h i (with_changed s (f c) sh) m v (shard_index-lt s)
          (ShardOk-change s c (f c) sh e' (v.shards i)) (omega (arith, moves (λ p. 1)))
          (λ j. omega (
            arith,
            moves (λ p. bit (text_beq p.1.remote_ip j)),
            ap (λ (t : Text). bit (text_beq t j)) (keeps c),
          )))
]
