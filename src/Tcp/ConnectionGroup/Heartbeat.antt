-- ===== src/Tcp/ConnectionGroup/Heartbeat.antt =====
-- internal/server/tcp/connection_group.go: which sessions the heartbeat removes.
use tunl.Base.{
  ℕ, ◌+◌, ◌≡◌, refl, ap, ◌∙◌, ◌≢◌, inl, inr, Bool, true, false, ◌||◌, Option, none, some, List, [],
  ◌∷◌, arith, leb, if◌then◌else◌, Bool-cases, Text, text_beq, text_beq_iff, text_beq_refl, text_eq,
}
use tunl.Base.Map.{
  lookup, insert, erase, Distinct, lookup-insert, lookup-erase, Distinct-insert, Distinct-erase,
}
use tunl.Tcp.ConnectionGroup.{
  ConnectionGroup, remove_session, Ping, gone, failed, answered, failures, ping_failed,
  ping_session, heartbeat,
}

-- The answers of one session.
abbrev pub answers : Text → List (Text × Ping) → List Ping
answers id [] = []
answers id ((k, p) ∷ ps) = if text_beq k id then p ∷ answers id ps else answers id ps

-- Three failures in a row, of which `n` were before these answers, or a session that is closed.
abbrev pub is_dead : ℕ → List Ping → Bool
is_dead n [] = false
is_dead n (gone ∷ ps) = true
is_dead n (failed ∷ ps) = leb 2 n || is_dead (n + 1) ps
is_dead n (answered now ∷ ps) = is_dead 0 ps

-- The session of an identifier.
abbrev session_of : Text → ConnectionGroup × List (Text × ℕ) → Option ℕ
session_of id s = lookup id s.0.sessions

record Sound (s : ConnectionGroup × List (Text × ℕ)) : Type 0 where
  distinct : Distinct s.0.sessions
  distinct_failures : Distinct s.1

remove_session-lookup :
    (id k : Text) (g : ConnectionGroup)
    → id ≢ []
    → Distinct g.sessions
    → lookup k (remove_session id g).sessions
      ≡ (if text_beq id k then none else lookup k g.sessions)
unfolding remove_session
remove_session-lookup id k g n d =
    ground (arith, lookup-erase id k g.sessions d, text_beq_iff id [], text_beq_iff id k)

remove_session-Distinct :
    (id : Text) (g : ConnectionGroup)
    → Distinct g.sessions
    → Distinct (remove_session id g).sessions
unfolding remove_session
remove_session-Distinct id g d = ground (arith, Distinct-erase id g.sessions d)

remove_session-none :
    (id k : Text) (g : ConnectionGroup)
    → Distinct g.sessions
    → lookup k g.sessions ≡ none
    → lookup k (remove_session id g).sessions ≡ none
unfolding remove_session
remove_session-none id k g d e = ground (arith, lookup-erase id k g.sessions d)

remove_session-other :
    (id k : Text) (g : ConnectionGroup)
    → text_beq id k ≡ false
    → Distinct g.sessions
    → lookup k (remove_session id g).sessions ≡ lookup k g.sessions
unfolding remove_session
remove_session-other id k g n d = ground (arith, lookup-erase id k g.sessions d)

ping_session-Sound :
    (id : Text) (p : Ping) (s : ConnectionGroup × List (Text × ℕ))
    → Sound s
    → Sound (ping_session id p s)
unfolding ping_session ping_failed
ping_session-Sound id gone (g, t) v = record {
  distinct = remove_session-Distinct id g v.distinct;
  distinct_failures = Distinct-erase id t v.distinct_failures;
}
ping_session-Sound id failed (g, t) v = elim (Bool-cases (leb 3 (failures id t + 1))) [
  | inl e ↦ rw e (record {
    distinct = remove_session-Distinct id g v.distinct;
    distinct_failures = Distinct-erase id _ (Distinct-insert id _ t v.distinct_failures);
  })
  | inr e ↦ rw e (record {
    distinct = v.distinct;
    distinct_failures = Distinct-insert id _ t v.distinct_failures;
  })
]
ping_session-Sound id (answered now) (g, t) v = record {
  distinct = v.distinct;
  distinct_failures = Distinct-insert id 0 t v.distinct_failures;
}

failures-insert :
    (id k : Text) (n : ℕ) (t : List (Text × ℕ))
    → failures k (insert id n t) ≡ (if text_beq id k then n else failures k t)
unfolding failures
failures-insert id k n t = ground (arith, lookup-insert id k n t)

failures-erase :
    (id k : Text) (t : List (Text × ℕ))
    → Distinct t
    → failures k (erase id t) ≡ (if text_beq id k then 0 else failures k t)
unfolding failures
failures-erase id k t d = ground (arith, lookup-erase id k t d)

-- Another session's answer.
ping_session-other :
    (id k : Text) (p : Ping) (s : ConnectionGroup × List (Text × ℕ))
    → text_beq k id ≡ false
    → Sound s
    → (session_of id (ping_session k p s) ≡ session_of id s)
      × (failures id (ping_session k p s).1 ≡ failures id s.1)
unfolding ping_session ping_failed
ping_session-other id k gone (g, t) e v = (
  remove_session-other k id g e v.distinct,
  ground (arith, failures-erase k id t v.distinct_failures),
)
ping_session-other id k failed (g, t) e v =
    let t' = insert k (failures k t + 1) t in
    ground (
      arith,
      remove_session-other k id g e v.distinct,
      failures-erase k id t' (Distinct-insert k (failures k t + 1) t v.distinct_failures),
      failures-insert k id (failures k t + 1) t,
    )
ping_session-other id k (answered now) (g, t) e v = (refl, ground (arith, failures-insert k id 0 t))

-- What is removed stays so.
ping_session-none :
    (id k : Text) (p : Ping) (s : ConnectionGroup × List (Text × ℕ))
    → Sound s
    → session_of id s ≡ none
    → session_of id (ping_session k p s) ≡ none
unfolding ping_session ping_failed
ping_session-none id k gone (g, t) v e = remove_session-none k id g v.distinct e
ping_session-none id k failed (g, t) v e = ground (arith, remove_session-none k id g v.distinct e)
ping_session-none id k (answered now) (g, t) v e = e

heartbeat-none :
    (id : Text) (ps : List (Text × Ping)) (s : ConnectionGroup × List (Text × ℕ))
    → Sound s
    → session_of id s ≡ none
    → session_of id (heartbeat ps s) ≡ none
unfolding heartbeat
heartbeat-none id [] s v e = e
heartbeat-none id ((k, p) ∷ ps) s v e =
    heartbeat-none id ps (ping_session k p s) (ping_session-Sound k p s v)
      (ping_session-none id k p s v e)

remove_session_self :
    (id : Text) (g : ConnectionGroup)
    → id ≢ []
    → Distinct g.sessions
    → lookup id (remove_session id g).sessions ≡ none
remove_session_self id g n d = remove_session-lookup id id g n d ∙ rw (text_beq_refl id) refl

-- The session's own failure: the third in a row removes it.
ping_failed_self :
    (id : Text) (s : ConnectionGroup × List (Text × ℕ))
    → id ≢ []
    → Sound s
    → (session_of id (ping_session id failed s)
        ≡ (if leb 2 (failures id s.1) then none else session_of id s))
      × (leb 2 (failures id s.1) ≡ false
          → failures id (ping_session id failed s).1 ≡ failures id s.1 + 1)
unfolding ping_session ping_failed
ping_failed_self id (g, t) n v = (
  ground (arith, remove_session_self id g n v.distinct),
  λ e. ground (arith, failures-insert id id (failures id t + 1) t, text_beq_refl id),
)

failures-answered :
    (id : Text) (now : ℕ) (s : ConnectionGroup × List (Text × ℕ))
    → failures id (ping_session id (answered now) s).1 ≡ 0
unfolding ping_session
failures-answered id now (g, t) = failures-insert id id 0 t ∙ rw (text_beq_refl id) refl

heartbeat-own :
    (id : Text) (c : ℕ) (p : Ping) (ps : List (Text × Ping)) (s : ConnectionGroup × List (Text × ℕ))
    → id ≢ []
    → Sound s
    → session_of id s ≡ some c
    → ((s' : ConnectionGroup × List (Text × ℕ))
        → Sound s'
        → session_of id s' ≡ some c
        → session_of id (heartbeat ps s')
          ≡ (if is_dead (failures id s'.1) (answers id ps) then none else some c))
    → session_of id (heartbeat ps (ping_session id p s))
      ≡ (if is_dead (failures id s.1) (p ∷ answers id ps) then none else some c)
heartbeat-own id c gone ps (g, t) n v e next =
    heartbeat-none id ps _ (ping_session-Sound id gone (g, t) v)
      (unfold ping_session in remove_session_self id g n v.distinct)
heartbeat-own id c failed ps (g, t) n v e next =
    let s' = ping_session id failed (g, t) in
    let v' = ping_session-Sound id failed (g, t) v in
    let own = ping_failed_self id (g, t) n v in
    elim (Bool-cases (leb 2 (failures id t))) [
      | inl q ↦ rw q (heartbeat-none id ps s' v' (own.0 ∙ rw q refl))
      | inr q ↦ rw q (next s' v' (own.0 ∙ rw q e) ∙ rw (own.1 q) refl)
    ]
heartbeat-own id c (answered now) ps (g, t) n v e next =
    next (ping_session id (answered now) (g, t)) (ping_session-Sound id (answered now) (g, t) v)
      (unfold ping_session in e)
    ∙ rw (failures-answered id now (g, t)) refl

heartbeat-is_dead_from :
    (id : Text) (c : ℕ) (ps : List (Text × Ping)) (s : ConnectionGroup × List (Text × ℕ))
    → id ≢ []
    → Sound s
    → session_of id s ≡ some c
    → session_of id (heartbeat ps s)
      ≡ (if is_dead (failures id s.1) (answers id ps) then none else some c)
unfolding heartbeat
heartbeat-is_dead_from id c [] s n v e = e
heartbeat-is_dead_from id c ((k, p) ∷ ps) s n v e = elim (Bool-cases (text_beq k id)) [
  | inl q ↦
      let own =
        heartbeat-own id c p ps s n v e (λ s' v' e'. heartbeat-is_dead_from id c ps s' n v' e') in
      rw q (
        ap (λ k. session_of id (heartbeat ps (ping_session k p s))) ((text_beq_iff k id).0 q) ∙ own)
  | inr q ↦
      let other = ping_session-other id k p s q v in
      rw q (
        heartbeat-is_dead_from id c ps (ping_session k p s) n (ping_session-Sound k p s v)
          (other.0 ∙ e)
        ∙ rw other.1 refl)
]

none_yet : (id : Text) → failures id [] ≡ 0
unfolding failures lookup
none_yet id = refl

-- A group whose heartbeat starts, with a session under every identifier at most once: after any
-- rounds with any answers, a session is still there exactly if it was never closed and did not fail
-- three pings in a row; the answers of other sessions do not matter.
pub heartbeat-is_dead :
    (id : Text) (c : ℕ) (ps : List (Text × Ping)) (g : ConnectionGroup)
    → id ≢ []
    → Distinct g.sessions
    → lookup id g.sessions ≡ some c
    → lookup id (heartbeat ps (g, [])).0.sessions
      ≡ (if is_dead 0 (answers id ps) then none else some c)
heartbeat-is_dead id c ps g n d e =
    heartbeat-is_dead_from id c ps (g, []) n (record { distinct = d; distinct_failures = tt }) e
    ∙ rw (none_yet id) refl
