-- ===== src/Tcp/GroupManager.antt =====
-- internal/server/tcp/connection_group_manager.go: the groups by tunnel. The identifiers that
-- `GenerateTunnelID` draws are arguments. Each operation returns also the groups that it closed, as
-- those who still hold them see them.
pub mod Cleanup
use tunl.Base.{
  ℕ, ◌+◌, ◌≡◌, refl, ap, subst, ◌∙◌, ◌≢◌, ◌↔◌, Bool, true, false, ◌||◌, ◌&&◌, Option, none, some,
  List, [], ◌∷◌, ◌++◌, map, arith, if◌then◌else◌, Bool-cases, Option-cases, inl, inr, Text,
  text_beq, text_beq_iff, text_eq,
}
use tunl.Base.Channel
use tunl.Base.Channel.{Channel}
use tunl.Base.Map.{lookup, insert, erase, Distinct, lookup-erase, Distinct-erase}
use tunl.Tcp.ConnectionGroup.{ConnectionGroup, new_connection_group, close_group, is_stale}

pub record ConnectionGroupManager : Type 0 where
  pub groups : List (Text × ConnectionGroup)
  pub stale_timeout : ℕ
  pub stop_ch : Channel (Unit {0})

unfoldable pub new_group_manager : ConnectionGroupManager
new_group_manager = record {
  groups = [];
  stale_timeout = 300_000_000_000;
  stop_ch = Channel.make 0;
}

unfoldable pub create_group : Text → Text → ℕ → ConnectionGroupManager → ConnectionGroupManager
create_group tunnel_id token now m = record m {
  groups = insert tunnel_id (new_connection_group token now) m.groups;
}

unfoldable pub get_group : Text → ConnectionGroupManager → Option ConnectionGroup
get_group tunnel_id m = lookup tunnel_id m.groups

unfoldable pub remove_group :
    Text → ConnectionGroupManager → ConnectionGroupManager × List ConnectionGroup
remove_group tunnel_id m = elim (lookup tunnel_id m.groups) [
  | none ↦ (m, [])
  | some g ↦ (record m { groups = erase tunnel_id m.groups }, close_group g ∷ [])
]

unfoldable pub stale_groups : ℕ → ℕ → List (Text × ConnectionGroup) → List (Text × ConnectionGroup)
stale_groups now timeout [] = []
stale_groups now timeout ((id, g) ∷ gs) =
    let rest = stale_groups now timeout gs in
    if is_stale now timeout g then (id, g) ∷ rest else rest

unfoldable pub erase_all :
    List (Text × ConnectionGroup) → List (Text × ConnectionGroup) → List (Text × ConnectionGroup)
erase_all [] gs = gs
erase_all ((id, g) ∷ ids) gs = erase_all ids (erase id gs)

unfoldable pub cleanup_stale_groups :
    ℕ → ConnectionGroupManager → ConnectionGroupManager × List ConnectionGroup
unfolding stale_groups erase_all
cleanup_stale_groups now m =
    let stale = stale_groups now m.stale_timeout m.groups in
    (record m { groups = erase_all stale m.groups }, map (λ p. close_group p.1) stale)

unfoldable pub close_manager :
    ConnectionGroupManager → ConnectionGroupManager × List ConnectionGroup
close_manager m = (
  record m { stop_ch = Channel.close m.stop_ch; groups = [] },
  map (λ p. close_group p.1) m.groups,
)
