-- ===== src/Tcp/GroupManager/Cleanup.antt =====
-- internal/server/tcp/connection_group_manager.go: which groups are taken out, and what closing one
-- does.
use tunl.Base.{
  ℕ, ◌+◌, leb, not, ◌≡◌, refl, ap, subst, ◌∙◌, Bool, true, false, ◌||◌, Option, none, some, List,
  [], ◌∷◌, ◌++◌, map, arith, if◌then◌else◌, Bool-cases, inl, inr, Text, text_beq_iff, text_eq,
}
use tunl.Base.Channel
use tunl.Base.Map.{lookup, erase, Distinct, lookup-erase, Distinct-erase}
use tunl.Tcp.ConnectionGroup.{ConnectionGroup, close_group, is_stale}
use tunl.Tcp.GroupManager.{
  ConnectionGroupManager, get_group, stale_groups, erase_all, cleanup_stale_groups,
}

-- What is left of a group that was found: it stays while its last activity is no longer ago than the
-- timeout.
abbrev pub fresh_only : ℕ → ℕ → Option ConnectionGroup → Option ConnectionGroup
fresh_only now timeout none = none
fresh_only now timeout (some g) = if leb now (g.last_activity + timeout) then some g else none

is_stale-leb :
    (now timeout : ℕ) (g : ConnectionGroup)
    → is_stale now timeout g ≡ not (leb now (g.last_activity + timeout))
unfolding is_stale
is_stale-leb now timeout g = elim (Bool-cases (leb now (g.last_activity + timeout))) [
  | inl e ↦ ground arith
  | inr e ↦ ground arith
]

abbrev is_some : Option ConnectionGroup → Bool
is_some none = false
is_some (some g) = true

lookup-erase_all :
    (id : Text) (ids gs : List (Text × ConnectionGroup))
    → Distinct gs
    → lookup id (erase_all ids gs) ≡ (if is_some (lookup id ids) then none else lookup id gs)
unfolding erase_all lookup
lookup-erase_all id [] gs d = refl
lookup-erase_all id ((k, g) ∷ ids) gs d = ground (
  arith,
  lookup-erase_all id ids (erase k gs) (Distinct-erase k gs d),
  lookup-erase k id gs d,
  text_beq_iff k id,
)

lookup-stale_groups-none :
    (now timeout : ℕ) (id : Text) (gs : List (Text × ConnectionGroup))
    → lookup id gs ≡ none
    → lookup id (stale_groups now timeout gs) ≡ none
unfolding stale_groups lookup
lookup-stale_groups-none now timeout id [] e = refl
lookup-stale_groups-none now timeout id ((k, g) ∷ gs) e =
    ground (arith, lookup-stale_groups-none now timeout id gs)

lookup-stale_groups :
    (now timeout : ℕ) (id : Text) (gs : List (Text × ConnectionGroup))
    → Distinct gs
    → (if is_some (lookup id (stale_groups now timeout gs)) then none else lookup id gs)
      ≡ fresh_only now timeout (lookup id gs)
unfolding stale_groups lookup
lookup-stale_groups now timeout id [] d = refl
lookup-stale_groups now timeout id ((k, g) ∷ gs) d = ground (
  arith,
  is_stale-leb now timeout g,
  lookup-stale_groups now timeout id gs d.1,
  lookup-stale_groups-none now timeout id gs,
  text_beq_iff k id,
  subst (λ t. lookup t gs ≡ none) {x = k} {y = id},
)

-- The clean-up at a time takes out exactly the groups that had no activity for longer than the
-- timeout; every other group is found as before.
pub get_group-cleanup_stale_groups :
    (now : ℕ) (m : ConnectionGroupManager)
    → Distinct m.groups
    → (id : Text)
    → get_group id (cleanup_stale_groups now m).0 ≡ fresh_only now m.stale_timeout (get_group id m)
unfolding get_group cleanup_stale_groups
get_group-cleanup_stale_groups now m d id =
    lookup-erase_all id (stale_groups now m.stale_timeout m.groups) m.groups d
    ∙ lookup-stale_groups now m.stale_timeout id m.groups d

or_false : (b : Bool) → b || false ≡ b
or_false true = refl
or_false false = refl

abbrev shut : ConnectionGroup → ConnectionGroup
shut g = record g {
  stop_ch = Channel.close g.stop_ch;
  sessions = [];
  closings = g.closings ++ map (λ p. p.1) g.sessions;
}

close_group-if : (g : ConnectionGroup) → close_group g ≡ (if g.stop_ch.closed then g else shut g)
unfolding close_group
close_group-if g = refl

close_group-again : (g : ConnectionGroup) → g.stop_ch.closed ≡ true → close_group g ≡ g
close_group-again g e = close_group-if g ∙ ap (λ b. if b then g else shut g) e

close_group-first : (g : ConnectionGroup) → g.stop_ch.closed ≡ false → close_group g ≡ shut g
close_group-first g e = close_group-if g ∙ ap (λ b. if b then g else shut g) e

-- A group that was closed stays closed when it is closed again; the first time each of its sessions
-- is closed and none is left, and `stop_ch` is closed once.
pub close_group_final :
    (g : ConnectionGroup)
    → ((close_group g).stop_ch.closed ≡ true)
      × (close_group (close_group g) ≡ close_group g)
      × ((close_group g).stop_ch.panicked ≡ g.stop_ch.panicked)
      × (g.stop_ch.closed ≡ false
          → ((close_group g).sessions ≡ [])
            × ((close_group g).closings ≡ g.closings ++ map (λ p. p.1) g.sessions))
close_group_final g = elim (Bool-cases g.stop_ch.closed) [
  | inl e ↦
      let q = close_group-again g e in
      (
        ap (λ g. g.stop_ch.closed) q ∙ e,
        ap close_group q,
        ap (λ g. g.stop_ch.panicked) q,
        λ o. absurd (cc (e, o)),
      )
  | inr e ↦
      let q = close_group-first g e in
      let c = ap (λ g. g.stop_ch.closed) q in
      (
        c,
        close_group-again (close_group g) c,
        ap (λ g. g.stop_ch.panicked) q
            ∙ ap (◌||◌ g.stop_ch.panicked) e
            ∙ or_false g.stop_ch.panicked,
        λ o. (ap (λ g. g.sessions) q, ap (λ g. g.closings) q),
      )
]
