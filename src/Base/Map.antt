-- ===== src/Base/Map.antt =====
-- Go's maps as association lists: a write replaces the first entry of its key or adds one.
use tunl.Base.{
  ℕ, ◌+◌, ◌≡◌, refl, subst, Option, none, some, List, [], ◌∷◌, arith, if◌then◌else◌, Eq, sum_by,
  Bool, Bool-cases, inl, inr,
}

module _ {ℓ κ} {K : Type ℓ} {V : Type κ} ⦃e : Eq K⦄ where
  unfoldable pub lookup : K → List (K × V) → Option V
  lookup k [] = none
  lookup k ((j, v) ∷ m) = if e.same j k then some v else lookup k m

  unfoldable pub insert : K → V → List (K × V) → List (K × V)
  insert k v [] = (k, v) ∷ []
  insert k v ((j, w) ∷ m) = if e.same j k then (k, v) ∷ m else (j, w) ∷ insert k v m

  unfoldable pub erase : K → List (K × V) → List (K × V)
  erase k [] = []
  erase k ((j, w) ∷ m) = if e.same j k then m else (j, w) ∷ erase k m

  -- No key stands twice.
  abbrev pub Distinct : List (K × V) → Type κ
  Distinct [] = Unit
  Distinct ((k, v) ∷ m) = (lookup k m ≡ none) × Distinct m

  pub lookup-insert :
      (k j : K) (v : V) (m : List (K × V))
      → lookup j (insert k v m) ≡ (if e.same k j then some v else lookup j m)
  unfolding lookup insert
  lookup-insert k j v [] = refl
  lookup-insert k j v ((i, w) ∷ m) =
      ground (arith, e.same_iff k j, e.same_iff i k, e.same_iff i j, lookup-insert k j v m)

  erase_absent : (k : K) (m : List (K × V)) → lookup k m ≡ none → erase k m ≡ m
  unfolding lookup erase
  erase_absent k [] h = refl
  erase_absent k ((i, w) ∷ m) h = ground (arith, erase_absent k m)

  pub lookup-erase :
      (k j : K) (m : List (K × V))
      → Distinct m
      → lookup j (erase k m) ≡ (if e.same k j then none else lookup j m)
  unfolding lookup erase
  lookup-erase k j [] d = ground arith
  lookup-erase k j ((i, w) ∷ m) d = ground (
    arith,
    e.same_iff k j,
    e.same_iff i k,
    e.same_iff i j,
    lookup-erase k j m d.1,
    subst (λ t. lookup t m ≡ none) {x = i} {y = j},
  )

  pub Distinct-insert : (k : K) (v : V) (m : List (K × V)) → Distinct m → Distinct (insert k v m)
  unfolding lookup insert
  Distinct-insert k v [] d = (refl, tt)
  Distinct-insert k v ((i, w) ∷ m) d =
      ground
        (arith, e.same_iff i k, e.same_iff k i, lookup-insert k i v m, Distinct-insert k v m d.1)

  lookup-erase-none : (k j : K) (m : List (K × V)) → lookup j m ≡ none → lookup j (erase k m) ≡ none
  unfolding lookup erase
  lookup-erase-none k j [] h = refl
  lookup-erase-none k j ((i, w) ∷ m) h = ground (arith, lookup-erase-none k j m)

  pub Distinct-erase : (k : K) (m : List (K × V)) → Distinct m → Distinct (erase k m)
  unfolding erase
  Distinct-erase k [] d = tt
  Distinct-erase k ((i, w) ∷ m) d =
      ground (arith, lookup-erase-none k i m d.0, Distinct-erase k m d.1)

  -- What an entry counts for is taken away by `erase`, and replaced by `insert`.
  pub sum_by-erase :
      (f : K × V → ℕ) (k : K) (v : V) (m : List (K × V))
      → lookup k m ≡ some v
      → sum_by f (erase k m) + f (k, v) ≡ sum_by f m
  unfolding lookup erase
  sum_by-erase f k v [] h = cc
  sum_by-erase f k v ((i, w) ∷ m) h = ground (arith, e.same_iff i k, sum_by-erase f k v m)

  pub sum_by-insert_fresh :
      (f : K × V → ℕ) (k : K) (v : V) (m : List (K × V))
      → lookup k m ≡ none
      → sum_by f (insert k v m) ≡ sum_by f m + f (k, v)
  unfolding lookup insert
  sum_by-insert_fresh f k v [] h = omega arith
  sum_by-insert_fresh f k v ((i, w) ∷ m) h = ground (arith, sum_by-insert_fresh f k v m)

  pub sum_by-insert_old :
      (f : K × V → ℕ) (k : K) (v w : V) (m : List (K × V))
      → lookup k m ≡ some w
      → sum_by f (insert k v m) + f (k, w) ≡ sum_by f m + f (k, v)
  unfolding lookup insert
  sum_by-insert_old f k v w [] h = cc
  sum_by-insert_old f k v w ((i, u) ∷ m) h =
      ground (arith, e.same_iff i k, sum_by-insert_old f k v w m)

  -- The entries that pass a test.
  unfoldable pub keep_if : (K × V → Bool) → List (K × V) → List (K × V)
  keep_if test [] = []
  keep_if test (e ∷ m) = let rest = keep_if test m in if test e then e ∷ rest else rest

  pub lookup-keep_if-none :
      (test : K × V → Bool) (k : K) (m : List (K × V))
      → lookup k m ≡ none
      → lookup k (keep_if test m) ≡ none
  unfolding lookup keep_if
  lookup-keep_if-none test k [] h = refl
  lookup-keep_if-none test k ((i, w) ∷ m) h = ground (arith, lookup-keep_if-none test k m)

  pub lookup-keep_if :
      (test : K × V → Bool) (k : K) (v : V) (m : List (K × V))
      → Distinct m
      → lookup k (keep_if test m) ≡ some v
      → lookup k m ≡ some v
  unfolding lookup keep_if
  lookup-keep_if test k v [] d h = h
  lookup-keep_if test k v ((i, w) ∷ m) d h = elim (Bool-cases (e.same i k)) [
    | inl q ↦
        let gone : lookup k (keep_if test m) ≡ none =
          subst (λ j. lookup j (keep_if test m) ≡ none) ((e.same_iff i k).0 q)
            (lookup-keep_if-none test i m d.0) in
        ground (arith, gone)
    | inr q ↦ ground (arith, lookup-keep_if test k v m d.1)
  ]

  pub Distinct-keep_if :
      (test : K × V → Bool) (m : List (K × V)) → Distinct m → Distinct (keep_if test m)
  unfolding keep_if
  Distinct-keep_if test [] d = tt
  Distinct-keep_if test ((i, w) ∷ m) d =
      ground (arith, lookup-keep_if-none test i m d.0, Distinct-keep_if test m d.1)
