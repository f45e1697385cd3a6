-- ===== src/Tcp/ConnectionGroup/Streams/Heap.antt =====
-- internal/server/tcp/connection_group.go: the heap holds sessions of the group.
use tunl.Base.{
  ℕ, ◌≡◌, ◌⊎◌, refl, sym, subst, Bool, true, false, not, ◌&&◌, ◌||◌, some, List, [], ◌∷◌, arith,
  leb, Text, text_beq, text_beq_iff, text_eq, codes, Bool-cases, inl, inr,
}
use tunl.Base.{All}
use tunl.Base.Map.{lookup, keep_if, Distinct}
use tunl.Tcp.ConnectionGroup.Streams.{
  SessionEntry, Seen, insert_entry, build_session_heap, session_heap,
}

All-weaken {ℓ κ μ} :
    {A : Type ℓ} {P : A → Type κ} {Q : A → Type μ}
    → ((x : A) → P x → Q x)
    → (xs : List A) → All P xs
    → All Q xs
All-weaken f [] a = tt
All-weaken f (x ∷ xs) a = (f x a.0, All-weaken f xs a.1)

pub empty_or_not {ℓ} :
    {A : Type ℓ} (xs : List A) → (xs ≡ []) ⊎ ((x : A) × (ys : List A) × (xs ≡ x ∷ ys))
empty_or_not [] = inl refl
empty_or_not (x ∷ xs) = inr (x, xs, refl)

pub All-keep_if {κ} :
    (P : Text × ℕ → Type κ) (test : Text × ℕ → Bool) (m : List (Text × ℕ))
    → All P m
    → All P (keep_if test m)
unfolding keep_if
All-keep_if P test [] a = tt
All-keep_if P test (x ∷ m) a =
    let rest = All-keep_if P test m a.1 in
    elim (Bool-cases (test x)) [
      | inl q ↦ subst (All P) {x = x ∷ keep_if test m} (ground arith) (a.0, rest)
      | inr q ↦ subst (All P) {x = keep_if test m} (ground arith) rest
    ]

pub sessions_present : (m : List (Text × ℕ)) → Distinct m → All (λ x. lookup x.0 m ≡ some x.1) m
unfolding lookup
sessions_present [] d = tt
sessions_present ((i, w) ∷ m) d = (
  ground (arith, text_beq_iff i i),
  All-weaken
      (λ x e. elim (Bool-cases (text_beq i x.0)) [
        | inl q ↦ absurd (cc (d.0, e, (text_beq_iff i x.0).0 q))
        | inr q ↦ ground arith
      ])
      m (sessions_present m d.1),
)

build_session_heap-cases :
    (seen : ℕ → Seen) (m : List (Text × ℕ))
    → (session_heap seen m ≡ build_session_heap seen true m)
      ⊎ (session_heap seen m ≡ build_session_heap seen false m)
unfolding session_heap
build_session_heap-cases seen m = elim (empty_or_not (build_session_heap seen false m)) [
  | inl q ↦ inl (ground arith)
  | inr (e, es, q) ↦ inr (ground arith)
]

module _ (P : Text × ℕ → Type 0) where
  abbrev Each : List SessionEntry → Type 0
  Each = All (λ x. P (x.id, x.session))

  All-insert_entry :
      (e : SessionEntry) (xs : List SessionEntry)
      → P (e.id, e.session)
      → Each xs
      → Each (insert_entry e xs)
  unfolding insert_entry
  All-insert_entry e [] p a = (p, tt)
  All-insert_entry e (x ∷ xs) p a =
      let rest = All-insert_entry e xs p a.1 in
      elim (Bool-cases (leb e.streams x.streams)) [
        | inl q ↦ subst Each {x = e ∷ x ∷ xs} (ground arith) (p, a)
        | inr q ↦ subst Each {x = x ∷ insert_entry e xs} (ground arith) (a.0, rest)
      ]

  All-build_session_heap :
      (seen : ℕ → Seen) (b : Bool) (m : List (Text × ℕ))
      → All P m
      → Each (build_session_heap seen b m)
  unfolding build_session_heap
  All-build_session_heap seen b [] a = tt
  All-build_session_heap seen b ((id, s) ∷ m) a =
      let rest = All-build_session_heap seen b m a.1 in
      elim (Bool-cases ((seen s).is_closed || (text_beq id (codes "primary") && not b))) [
        | inl q ↦ subst Each {x = build_session_heap seen b m} (ground arith) rest
        | inr q ↦
            let e : SessionEntry = record {
              id = id;
              session = s;
              streams = (seen s).num_streams;
            } in
            subst Each {x = insert_entry e (build_session_heap seen b m)} (ground arith)
              (All-insert_entry e (build_session_heap seen b m) a.0 rest)
      ]

  pub All-session_heap :
      (seen : ℕ → Seen) (m : List (Text × ℕ)) → All P m → Each (session_heap seen m)
  All-session_heap seen m a = elim (build_session_heap-cases seen m) [
    | inl e ↦ subst Each (sym e) (All-build_session_heap seen true m a)
    | inr e ↦ subst Each (sym e) (All-build_session_heap seen false m a)
  ]
