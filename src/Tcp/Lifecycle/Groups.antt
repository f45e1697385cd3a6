-- ===== src/Tcp/Lifecycle/Groups.antt =====
-- internal/server/tcp/connection_group_manager.go: a tunnel's group comes, gets its first session, and
-- goes again.
use tunl.Base.{
  ℕ, ◌≡◌, ◌≢◌, ◌⊎◌, subst, refl, sym, ap, ◌∙◌, false, Option, none, some, [], arith, if◌then◌else◌,
  Text, codes, text_beq, text_beq_iff, text_eq, Bool-cases, Option-cases, inl, inr,
}
use tunl.Base.Map.{lookup, insert, Distinct, lookup-insert, lookup-erase, Distinct-insert}
use tunl.Tcp.ConnectionGroup.{ConnectionGroup, add_session}
use tunl.Tcp.GroupManager.{ConnectionGroupManager, get_group, remove_group}
use tunl.Tcp.Registration.{Server}
use tunl.Tcp.Lifecycle.{add_primary, leave_group}

abbrev pub group_in : Text → Option ConnectionGroupManager → Option ConnectionGroup
group_in id none = none
group_in id (some gm) = get_group id gm

abbrev pub GroupsDistinct : Option ConnectionGroupManager → Type 0
GroupsDistinct none = Unit
GroupsDistinct (some gm) = Distinct gm.groups

-- The one table has what the other has, but perhaps a group under an identifier that was free.
pub record Joined (id : Text) (a b : Option ConnectionGroupManager) : Type 0 where
  pub distinct : GroupsDistinct b
  pub free : group_in id a ≡ none
  pub others : (j : Text) → text_beq id j ≡ false → group_in j b ≡ group_in j a
  pub unnamed : id ≡ [] → group_in [] b ≡ none

pub Joined-refl :
    (id : Text) (a : Option ConnectionGroupManager)
    → GroupsDistinct a
    → group_in id a ≡ none
    → group_in [] a ≡ none
    → Joined id a a
Joined-refl id a d e u = record { distinct = d; free = e; others = λ j n. refl; unnamed = λ _. u }

pub Joined-insert :
    (id : Text) (a : Option ConnectionGroupManager) (gm : ConnectionGroupManager)
    (x : ConnectionGroup)
    → id ≢ []
    → Joined id a (some gm)
    → Joined id a (some (record gm { groups = insert id x gm.groups }))
unfolding get_group
Joined-insert id a gm x ne i = record {
  distinct = Distinct-insert id x gm.groups i.distinct;
  free = i.free;
  others = λ j n. ground (arith, lookup-insert id j x gm.groups, i.others j n);
  unnamed = λ e. absurd (ne e);
}

add_primary-some :
    (session now : ℕ) (id : Text) (s : Server) (gm : ConnectionGroupManager) (x : ConnectionGroup)
    → s.groups ≡ some gm
    → get_group id gm ≡ some x
    → (add_primary session now id s).groups
      ≡ some (record gm {
        groups = insert id (add_session (codes "primary") (some session) now x) gm.groups;
      })
unfolding add_primary
add_primary-some session now id s gm x e f = ground arith

add_primary-none :
    (session now : ℕ) (id : Text) (s : Server)
    → group_in id s.groups ≡ none
    → (add_primary session now id s).groups ≡ s.groups
unfolding add_primary
add_primary-none session now id s e = elim (Option-cases s.groups) [
  | inl q ↦ ground arith
  | inr (gm, q) ↦ ground arith
]

pub Joined-add_primary :
    (session now : ℕ) (id : Text) (a : Option ConnectionGroupManager) (s : Server)
    → Joined id a s.groups
    → Joined id a (add_primary session now id s).groups
Joined-add_primary session now id a s i = elim (Option-cases s.groups) [
  | inl e ↦ subst (Joined id a) (sym (add_primary-none session now id s (cc e))) i
  | inr (gm, e) ↦ elim (Option-cases (get_group id gm)) [
    | inl f ↦ subst (Joined id a) (sym (add_primary-none session now id s (cc (e, f)))) i
    | inr (x, f) ↦ subst (Joined id a) (sym (add_primary-some session now id s gm x e f)) (
        Joined-insert id a gm _ (λ q. cc (f, e, i.unnamed q, ap (λ (t : Text). get_group t gm) q))
          (subst (Joined id a) e i))
  ]
]

leave_group-some :
    (id j : Text) (s : Server) (gm : ConnectionGroupManager)
    → s.groups ≡ some gm
    → text_beq id [] ≡ false
    → Distinct gm.groups
    → group_in j (leave_group id s).groups ≡ (if text_beq id j then none else get_group j gm)
unfolding leave_group get_group remove_group
leave_group-some id j s gm e n d = ground (
  arith,
  lookup-erase id j gm.groups d,
  text_beq_iff id j,
  ap (λ (t : Text). lookup t gm.groups) {x = id} {y = j},
)

leave_group_same :
    (id : Text) (s : Server) → (s.groups ≡ none) ⊎ (id ≡ []) → (leave_group id s).groups ≡ s.groups
unfolding leave_group text_beq
leave_group_same id s e = ground arith

-- When the group goes, all is as it was.
pub Joined-leave_group :
    (id : Text) (a : Option ConnectionGroupManager) (s : Server)
    → Joined id a s.groups
    → (j : Text) → group_in j (leave_group id s).groups ≡ group_in j a
Joined-leave_group id a s i j = elim (Bool-cases (text_beq id j)) [
  | inr n ↦ elim (Bool-cases (text_beq id [])) [
    | inl q ↦
        ap (group_in j) (leave_group_same id s (inr ((text_beq_iff id []).0 q))) ∙ i.others j n
    | inr q ↦ elim (Option-cases s.groups) [
      | inl e ↦ ap (group_in j) (leave_group_same id s (inl e)) ∙ i.others j n
      | inr (gm, e) ↦
          leave_group-some id j s gm e q (subst GroupsDistinct e i.distinct)
          ∙ rw n (ap (group_in j) (sym e) ∙ i.others j n)
    ]
  ]
  | inl t ↦
      let same : id ≡ j = (text_beq_iff id j).0 t in
      let empty : group_in j a ≡ none = subst (λ k. group_in k a ≡ none) same i.free in
      elim (Bool-cases (text_beq id [])) [
        | inl q ↦
            let z : id ≡ [] = (text_beq_iff id []).0 q in
            ap (group_in j) (leave_group_same id s (inr z))
            ∙ ap (λ k. group_in k s.groups) (sym same ∙ z)
            ∙ i.unnamed z
            ∙ sym empty
        | inr q ↦ elim (Option-cases s.groups) [
          | inl e ↦ ap (group_in j) (leave_group_same id s (inl e) ∙ e) ∙ sym empty
          | inr (gm, e) ↦
              leave_group-some id j s gm e q (subst GroupsDistinct e i.distinct) ∙ rw t (sym empty)
        ]
      ]
]
