-- ===== src/Client/Pool/Idle.antt =====
-- internal/client/tcp/pool_session.go: `removeIdleSessions` ends, and which sessions it takes.
use tunl.Base.{
  ℕ, Bool, ◌||◌, zero, suc, ◌++◌, ◌+◌, ◌-◌, ◌≤◌, ◌<◌, ◌≡◌, ◌⊎◌, refl, sym, ap, subst, ◌∙◌, true,
  false, Option, none, some, List, [], ◌∷◌, arith, ◌==◌, Text, text_beq, text_beq_iff, text_eq,
  length, bit, sum_by, Bool-cases, Option-cases, inl, inr,
}
use Prim.Native.Nat.{min}
use mathlib.Core.List.{append-nil, append_assoc}
use tunl.Base.Map.{
  lookup, insert, erase, Distinct, lookup-insert, lookup-erase, Distinct-insert, Distinct-erase,
  sum_by-insert_old,
}
use tunl.Client.Pool.{
  SessionHandle, PoolClient, remove_data_session, Candidate, snapshot, is_idle, find_best,
  remove_loop, remove_idle_sessions,
}

abbrev idle_bit : Text × Candidate → ℕ
idle_bit x = bit (is_idle x.1)

-- The candidates that no stream uses.
abbrev pub idle_count : List (Text × Candidate) → ℕ
idle_count = sum_by idle_bit

find_best-none : (ks : List (Text × Candidate)) → find_best ks ≡ none → idle_count ks ≡ 0
unfolding find_best
find_best-none [] e = refl
find_best-none ((id, k) ∷ ks) e = ground (arith, find_best-none ks)

find_best-lookup :
    (ks : List (Text × Candidate)) (id : Text) (k : Candidate)
    → Distinct ks
    → find_best ks ≡ some (id, k)
    → (lookup id ks ≡ some k) × (is_idle k ≡ true)
unfolding find_best lookup
find_best-lookup [] id k d e = cc
find_best-lookup ((j, b) ∷ ks) id k d e = elim (Option-cases (find_best ks)) [
  | inl q ↦ ground (arith, text_beq_iff j id)
  | inr ((i, x), q) ↦ ground (
    arith,
    text_beq_iff j id,
    text_beq_iff j i,
    find_best-lookup ks i x d.1 q,
    ap (λ (t : Text). lookup t ks) {x = j} {y = i},
    d.0,
  )
]

length-erase :
    (id : Text) (h : SessionHandle) (m : List (Text × SessionHandle))
    → lookup id m ≡ some h
    → length (erase id m) + 1 ≡ length m
unfolding lookup erase
length-erase id h [] e = cc
length-erase id h ((j, w) ∷ m) e = ground (arith, length-erase id h m)

-- Every idle candidate is a session of the client that is not closed.
record Fits (ks : List (Text × Candidate)) (c : PoolClient) : Type 0 where
  distinct : Distinct ks
  distinct_data : Distinct c.data_sessions
  there :
      (id : Text) (k : Candidate)
      → lookup id ks ≡ some k
      → is_idle k ≡ true
      → (h : SessionHandle) × (lookup id c.data_sessions ≡ some h) × (h.closed ≡ false)

abbrev pub is_in : Text → List Text → Bool
is_in id [] = false
is_in id (j ∷ js) = text_beq j id || is_in id js

-- How the loop ends that is to remove `left` sessions.
pub record Removed (left : ℕ) (ks : List (Text × Candidate)) (c : PoolClient)
    (r : Option (PoolClient × ℕ)) : Type 0 where
  pub end : PoolClient
  pub ends : r ≡ some (end, left - idle_count ks)
  pub fewer : length end.data_sessions + min left (idle_count ks) ≡ length c.data_sessions
  pub ids : List Text
  pub closed : end.closings ≡ c.closings ++ ids
  pub as_many : length ids ≡ min left (idle_count ks)
  pub kept :
      (id : Text)
      → ((is_in id ids ≡ false) × (lookup id end.data_sessions ≡ lookup id c.data_sessions))
        ⊎ ((is_in id ids ≡ true)
            × ((k : Candidate) × (lookup id ks ≡ some k)
                × (is_idle k ≡ true)
                × (lookup id end.data_sessions ≡ none)))

remove_data_session-open :
    (id : Text) (h : SessionHandle) (c : PoolClient)
    → lookup id c.data_sessions ≡ some h
    → h.closed ≡ false
    → remove_data_session id c ≡ (
      record c { data_sessions = erase id c.data_sessions; closings = c.closings ++ (id ∷ []) },
      true,
    )
unfolding remove_data_session
remove_data_session-open id h c e o = ground arith

abbrev busy : Candidate → Candidate
busy k = record k { streams = 1 }

abbrev without : Text → PoolClient → PoolClient
without id c = record c {
  data_sessions = erase id c.data_sessions;
  closings = c.closings ++ (id ∷ []);
}

Fits-without :
    (id : Text) (k : Candidate) (ks : List (Text × Candidate)) (c : PoolClient)
    → Fits ks c
    → Fits (insert id (busy k) ks) (without id c)
Fits-without id k ks c f = record {
  distinct = Distinct-insert id (busy k) ks f.distinct;
  distinct_data = Distinct-erase id c.data_sessions f.distinct_data;
  there = λ j x e i. elim (Bool-cases (text_beq id j)) [
    | inl q ↦ absurd (unfold is_idle in ground (arith, lookup-insert id j (busy k) ks))
    | inr q ↦
        let old : lookup j ks ≡ some x = ground (arith, lookup-insert id j (busy k) ks) in
        let t = f.there j x old i in
        (t.0, ground (arith, lookup-erase id j c.data_sessions f.distinct_data, t.1), t.2)
  ];
}

idle_count-busy :
    (id : Text) (k : Candidate) (ks : List (Text × Candidate))
    → lookup id ks ≡ some k
    → is_idle k ≡ true
    → idle_count (insert id (busy k) ks) + 1 ≡ idle_count ks
idle_count-busy id k ks e i =
    let used : is_idle (busy k) ≡ false = unfold is_idle in refl in
    let s = sum_by-insert_old idle_bit id (busy k) k ks e in omega (arith, s, ap bit i, ap bit used)

remove_loop-step :
    (fuel left : ℕ) (ks : List (Text × Candidate)) (c : PoolClient) (id : Text) (k : Candidate)
    → find_best ks ≡ some (id, k)
    → remove_data_session id c ≡ (without id c, true)
    → remove_loop (suc fuel) (suc left) ks c
      ≡ remove_loop fuel left (insert id (busy k) ks) (without id c)
unfolding remove_loop
remove_loop-step fuel left ks c id k e r = ground arith

remove_loop-none :
    (fuel left : ℕ) (ks : List (Text × Candidate)) (c : PoolClient)
    → find_best ks ≡ none
    → remove_loop (suc fuel) (suc left) ks c ≡ some (c, suc left)
unfolding remove_loop
remove_loop-none fuel left ks c e = ground arith

find_none :
    (fuel left : ℕ) (ks : List (Text × Candidate)) (c : PoolClient)
    → find_best ks ≡ none
    → Removed (suc left) ks c (remove_loop (suc fuel) (suc left) ks c)
find_none fuel left ks c e =
    let z : idle_count ks ≡ 0 = find_best-none ks e in
    record {
      end = c;
      ends = remove_loop-none fuel left ks c e ∙ ap (λ n. some (c, n)) (omega (arith, z));
      fewer = omega (arith, z);
      ids = [];
      closed = sym (append-nil c.closings);
      as_many = omega (arith, z);
      kept = λ id. inl (refl, refl);
    }

take_best :
    (left : ℕ) (ks : List (Text × Candidate)) (c : PoolClient) (id : Text) (k : Candidate)
    (h : SessionHandle) (r : Option (PoolClient × ℕ))
    → Fits ks c
    → lookup id ks ≡ some k
    → is_idle k ≡ true
    → lookup id c.data_sessions ≡ some h
    → Removed left (insert id (busy k) ks) (without id c) r
    → Removed (suc left) ks c r
take_best left ks c id k h r f e i t ih =
    let n = idle_count-busy id k ks e i in
    record {
      end = ih.end;
      ends = ih.ends ∙ ap (λ m. some (ih.end, m)) (omega (arith, n));
      fewer = omega (arith, n, ih.fewer, length-erase id h c.data_sessions t);
      ids = id ∷ ih.ids;
      closed = ih.closed ∙ append_assoc c.closings (id ∷ []) ih.ids;
      as_many = omega (arith, n, ih.as_many);
      kept = λ j. elim (Bool-cases (text_beq id j)) [
        | inl q ↦
            let gone : lookup j (erase id c.data_sessions) ≡ none =
              ground (arith, lookup-erase id j c.data_sessions f.distinct_data) in
            let at : lookup j ks ≡ some k = cc (e, (text_beq_iff id j).0 q) in
            inr (
              ground arith,
              (
                k,
                at,
                i,
                elim (ih.kept j) [
                  | inl (_, same) ↦ same ∙ gone
                  | inr (_, (x, _, _, none_there)) ↦ none_there
                ],
              ),
            )
        | inr q ↦
            let same_data : lookup j (erase id c.data_sessions) ≡ lookup j c.data_sessions =
              ground (arith, lookup-erase id j c.data_sessions f.distinct_data) in
            let same_ks : lookup j (insert id (busy k) ks) ≡ lookup j ks =
              ground (arith, lookup-insert id j (busy k) ks) in
            elim (ih.kept j) [
              | inl (b, same) ↦ inl (ground arith, same ∙ same_data)
              | inr (b, (x, a, l, g)) ↦ inr (ground arith, (x, sym same_ks ∙ a, l, g))
            ]
      ];
    }

remove_loop-Removed :
    (fuel left : ℕ) (ks : List (Text × Candidate)) (c : PoolClient)
    → Fits ks c
    → idle_count ks < fuel
    → Removed left ks c (remove_loop fuel left ks c)
remove_loop-Removed zero left ks c f l = absurd (omega arith)
remove_loop-Removed (suc fuel) zero ks c f l = record {
  end = c;
  ends = unfold remove_loop in ap (λ n. some (c, n)) (omega arith);
  fewer = omega arith;
  ids = [];
  closed = sym (append-nil c.closings);
  as_many = omega arith;
  kept = λ id. inl (refl, refl);
}
remove_loop-Removed (suc fuel) (suc left) ks c f l = elim (Option-cases (find_best ks)) [
  | inl e ↦ find_none fuel left ks c e
  | inr ((id, k), e) ↦
      let (at, i) = find_best-lookup ks id k f.distinct e in
      let (h, t, o) = f.there id k at i in
      let n = idle_count-busy id k ks at i in
      subst (Removed (suc left) ks c)
        (sym (remove_loop-step fuel left ks c id k e (remove_data_session-open id h c t o)))
        (take_best left ks c id k h (remove_loop fuel left (insert id (busy k) ks) (without id c)) f
          at i t
          (remove_loop-Removed fuel left (insert id (busy k) ks) (without id c)
            (Fits-without id k ks c f) (omega (arith, n, l))))
]

lookup-snapshot :
    (id : Text) (m : List (Text × SessionHandle))
    → ((lookup id m ≡ none) × (lookup id (snapshot m) ≡ none))
      ⊎ ((h : SessionHandle) × (lookup id m ≡ some h)
          × (lookup id (snapshot m) ≡ some (record { streams = h.active; since = h.last_active })))
unfolding lookup snapshot
lookup-snapshot id [] = inl (refl, refl)
lookup-snapshot id ((j, h) ∷ m) = elim (Bool-cases (text_beq j id)) [
  | inl q ↦ inr (h, ground arith, ground arith)
  | inr q ↦ elim (lookup-snapshot id m) [
    | inl (a, b) ↦ inl (ground arith, ground arith)
    | inr (x, a, b) ↦ inr (x, ground arith, ground arith)
  ]
]

Distinct-snapshot : (m : List (Text × SessionHandle)) → Distinct m → Distinct (snapshot m)
unfolding snapshot
Distinct-snapshot [] d = tt
Distinct-snapshot ((j, h) ∷ m) d = elim (lookup-snapshot j m) [
  | inl (a, b) ↦ (b, Distinct-snapshot m d.1)
  | inr (x, a, b) ↦ absurd (cc (a, d.0))
]

-- The sessions of the client that no stream uses.
abbrev pub idle_sessions : List (Text × SessionHandle) → ℕ
idle_sessions = sum_by (λ x. bit (x.1.active == 0))

idle_count-snapshot : (m : List (Text × SessionHandle)) → idle_count (snapshot m) ≡ idle_sessions m
unfolding snapshot is_idle
idle_count-snapshot [] = refl
idle_count-snapshot ((j, h) ∷ m) = ap (λ n. bit (h.active == 0) + n) (idle_count-snapshot m)

idle_sessions-le : (m : List (Text × SessionHandle)) → idle_sessions m ≤ length m
idle_sessions-le [] = omega arith
idle_sessions-le ((j, h) ∷ m) = ground (arith, idle_sessions-le m)

-- How a call ends that is to remove `n` sessions.
pub record Taken (n : ℕ) (c : PoolClient) (r : Option (PoolClient × ℕ)) : Type 0 where
  pub end : PoolClient
  pub ends : r ≡ some (end, n - idle_sessions c.data_sessions)
  pub fewer :
      length end.data_sessions + min n (idle_sessions c.data_sessions) ≡ length c.data_sessions
  pub ids : List Text
  pub closed : end.closings ≡ c.closings ++ ids
  pub as_many : length ids ≡ min n (idle_sessions c.data_sessions)
  pub kept :
      (id : Text)
      → ((is_in id ids ≡ false) × (lookup id end.data_sessions ≡ lookup id c.data_sessions))
        ⊎ ((is_in id ids ≡ true)
            × ((h : SessionHandle) × (lookup id c.data_sessions ≡ some h)
                × (h.active ≡ 0)
                × (lookup id end.data_sessions ≡ none)))

abbrev pub AllOpen : PoolClient → Type 0
AllOpen c = (id : Text) (h : SessionHandle) → lookup id c.data_sessions ≡ some h → h.closed ≡ false

-- The loop of `removeIdleSessions` ends within as many rounds as there are sessions, and one more. The
-- sessions that it has then closed, one after another, are those that it has taken out: each was there
-- without an open stream and is no more, they are as many as it was asked for, or all idle ones if
-- there are fewer, and every other session stays as it is. The identifiers differ, and no session is
-- closed yet.
pub remove_idle_sessions-Taken :
    (n : ℕ) (c : PoolClient)
    → Distinct c.data_sessions
    → AllOpen c
    → Taken n c (remove_idle_sessions n c)
unfolding remove_idle_sessions
remove_idle_sessions-Taken n c d o =
    let m = c.data_sessions in
    let ks = snapshot m in
    let same : idle_count ks ≡ idle_sessions m = idle_count-snapshot m in
    let f : Fits ks c = record {
      distinct = Distinct-snapshot m d;
      distinct_data = d;
      there = λ id k e i. elim (lookup-snapshot id m) [
        | inl (a, b) ↦ absurd (cc (b, e))
        | inr (h, a, b) ↦ (h, a, o id h a)
      ];
    } in
    let r =
      remove_loop-Removed (suc (length m)) n ks c f (omega (arith, same, idle_sessions-le m)) in
    record {
      end = r.end;
      ends = r.ends ∙ ap (λ k. some (r.end, n - k)) same;
      fewer = omega (arith, r.fewer, same);
      ids = r.ids;
      closed = r.closed;
      as_many = omega (arith, r.as_many, same);
      kept = λ id. elim (r.kept id) [
        | inl e ↦ inl e
        | inr (t, (k, e, i, g)) ↦ elim (lookup-snapshot id m) [
          | inl (a, b) ↦ absurd (cc (b, e))
          | inr (h, a, b) ↦ inr (t, (h, a, unfold is_idle in ground arith, g))
        ]
      ];
    }
