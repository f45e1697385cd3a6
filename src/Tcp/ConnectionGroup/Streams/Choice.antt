-- ===== src/Tcp/ConnectionGroup/Streams/Choice.antt =====
-- internal/server/tcp/connection_group.go: which session gives the stream.
use tunl.Base.{
  ℕ, zero, suc, ◌-◌, ◌<◌, ◌≡◌, ◌⊎◌, refl, sym, subst, ◌∙◌, true, false, not, ◌||◌, Option, none,
  some, List, [], ◌∷◌, arith, leb, Text, text_eq, Bool-cases, Option-cases, inl, inr,
}
use tunl.Base.{All}
use tunl.Base.Result.{Result, ok, err, Result-cases}
use tunl.Base.Map.{lookup, Distinct}
use tunl.Tcp.ConnectionGroup.{ConnectionGroup}
use tunl.Tcp.ConnectionGroup.Streams.{
  max_retries, SessionEntry, Mux, OpenError, closed, at_capacity, nothing_opened, open_failed,
  max_streams_per_session, session_heap, delete_closed_sessions, Progress, try_entry, try_entries,
  error_after, open_attempts, open_stream,
}
use tunl.Tcp.ConnectionGroup.Streams.Heap.{
  empty_or_not, All-keep_if, sessions_present, All-session_heap,
}

-- A session of the group, open and below the limit, answered so when it was asked for a stream.
pub record Asked (m : Mux) (sessions : List (Text × ℕ)) (answer : Result ℕ ℕ) : Type 0 where
  pub attempt : ℕ
  pub id : Text
  pub session : ℕ
  pub found : lookup id sessions ≡ some session
  pub live : (m.tried attempt session).is_closed ≡ false
  pub below : (m.tried attempt session).num_streams < max_streams_per_session
  pub answered : (m.tried attempt session).opens ≡ answer

abbrev pub Outcome : Mux → List (Text × ℕ) → Result OpenError ℕ → Type 0
Outcome m sessions (ok stream) = Asked m sessions (ok stream)
Outcome m sessions (err closed) = Unit
Outcome m sessions (err at_capacity) = Unit
Outcome m sessions (err nothing_opened) = ⊥
Outcome m sessions (err (open_failed x)) = Asked m sessions (err x)

module _ (m : Mux) (sessions : List (Text × ℕ)) where
  abbrev Found : Text × ℕ → Type 0
  Found x = lookup x.0 sessions ≡ some x.1

  abbrev FitsErr : Option OpenError → Type 0
  FitsErr none = Unit
  FitsErr (some e) = Outcome m sessions (err e)

  record Fits (p : Progress) : Type 0 where
    sessions_present : All Found p.group.sessions
    opened : (stream : ℕ) → p.opened ≡ some stream → Asked m sessions (ok stream)
    last : FitsErr p.last_err
    told :
        p.any_under_cap ≡ true
        → ((e : OpenError) × (p.last_err ≡ some e)) ⊎ ((stream : ℕ) × (p.opened ≡ some stream))

  asked :
      (i : ℕ) (e : SessionEntry) (r : Result ℕ ℕ)
      → Found (e.id, e.session)
      → ((m.tried i e.session).is_closed
          || leb max_streams_per_session (m.tried i e.session).num_streams)
        ≡ false
      → (m.tried i e.session).opens ≡ r
      → Asked m sessions r
  asked i e r f q a = record {
    attempt = i;
    id = e.id;
    session = e.session;
    found = f;
    live = ground arith;
    below = ground arith;
    answered = a;
  }

  Fits-failed :
      (x : ℕ) (g : ConnectionGroup) (p : Progress)
      → p.opened ≡ none
      → All Found g.sessions
      → Asked m sessions (err x)
      → Fits (record p { any_under_cap = true; last_err = some (open_failed x); group = g })
  Fits-failed x g p n a k = record {
    sessions_present = a;
    opened = λ s e. absurd (cc (n, e));
    last = k;
    told = λ _. inl (open_failed x, refl);
  }

  Fits-try_entry :
      (i : ℕ) (e : SessionEntry) (p : Progress)
      → Found (e.id, e.session)
      → p.opened ≡ none
      → Fits p
      → Fits (try_entry m i e p)
  unfolding try_entry
  Fits-try_entry i e p f n k =
      let t = m.tried i e.session in
      elim (Bool-cases (t.is_closed || leb max_streams_per_session t.num_streams)) [
        | inl q ↦ subst Fits {x = p} (ground arith) k
        | inr q ↦ elim (Result-cases t.opens) [
          | inl (x, a) ↦
              let g = delete_closed_sessions (m.gone i e.session) p.group in
              let failed = asked i e (err x) f q a in
              elim (Bool-cases t.closed_after) [
                | inl c ↦
                    subst Fits
                      {x = record p {
                        any_under_cap = true;
                        last_err = some (open_failed x);
                        group = g;
                      }}
                      (ground arith)
                      (Fits-failed x g p n
                        (unfold delete_closed_sessions in
                          All-keep_if Found (λ y. not (m.gone i e.session y.1)) p.group.sessions
                            k.sessions_present)
                        failed)
                | inr c ↦
                    subst Fits
                      {x = record p { any_under_cap = true; last_err = some (open_failed x) }}
                      (ground arith) (Fits-failed x p.group p n k.sessions_present failed)
              ]
          | inr (stream, a) ↦
              subst Fits {x = record p { any_under_cap = true; opened = some stream }}
                (ground arith)
                (record {
                  sessions_present = k.sessions_present;
                  opened = λ s w. asked i e (ok s) f q (ground arith);
                  last = k.last;
                  told = λ _. inr (stream, refl);
                })
        ]
      ]

  Fits-try_entries :
      (i : ℕ) (es : List SessionEntry) (p : Progress)
      → All (λ x. Found (x.id, x.session)) es
      → p.opened ≡ none
      → Fits p
      → Fits (try_entries m i es p)
  unfolding try_entries
  Fits-try_entries i [] p a n k = k
  Fits-try_entries i (e ∷ es) p a n k =
      let p' = try_entry m i e p in
      let k' = Fits-try_entry i e p a.0 n k in
      elim (Option-cases p'.opened) [
        | inl q ↦
            subst Fits {x = try_entries m i es p'} (ground arith)
              (Fits-try_entries i es p' a.1 q k')
        | inr (s, q) ↦ subst Fits {x = p'} (ground arith) k'
      ]

  FitsErr-error_after :
      (p : Progress)
      → p.opened ≡ none
      → Fits p
      → FitsErr (error_after p) × ((e : OpenError) × (error_after p ≡ some e))
  unfolding error_after
  FitsErr-error_after p n k = elim (Bool-cases p.any_under_cap) [
    | inl q ↦
        let same : p.last_err ≡ error_after p = ground arith in
        (
          subst FitsErr same k.last,
          elim (k.told q) [ inl (e, w) ↦ (e, sym same ∙ w) | inr (s, w) ↦ absurd (cc (n, w)) ],
        )
    | inr q ↦
        let same : some at_capacity ≡ error_after p = ground arith in
        (subst FitsErr same tt, (at_capacity, sym same))
  ]

  Outcome-open_attempts :
      (n : ℕ) (last : Option OpenError) (g : ConnectionGroup)
      → FitsErr last
      → ((n ≡ 0) → (e : OpenError) × (last ≡ some e))
      → All Found g.sessions
      → Outcome m sessions (open_attempts m n last g).1
  unfolding open_attempts
  Outcome-open_attempts zero none g f t a = absurd (cc ((t refl).1))
  Outcome-open_attempts zero (some e) g f t a = f
  Outcome-open_attempts (suc n) last g f t a =
      let i = max_retries - suc n in
      let h = session_heap (m.seen i) g.sessions in
      let found = All-session_heap Found (m.seen i) g.sessions a in
      elim (Bool-cases g.stop_ch.closed) [
        | inl q ↦ subst (Outcome m sessions) {x = err closed} (ground arith) tt
        | inr q ↦ elim (empty_or_not h) [
          | inl z ↦ subst (Outcome m sessions) {x = err closed} (ground arith) tt
          | inr (e, es, z) ↦
              let p0 : Progress = record {
                group = g;
                any_under_cap = false;
                last_err = last;
                opened = none;
              } in
              let p = try_entries m i (e ∷ es) p0 in
              let k : Fits p =
                Fits-try_entries i (e ∷ es) p0 (subst (All (λ x. Found (x.id, x.session))) z found)
                  refl
                  (record {
                    sessions_present = a;
                    opened = λ s w. cc w;
                    last = f;
                    told = λ w. cc w;
                  }) in
              elim (Option-cases p.opened) [
                | inl w ↦
                    let (f', t') = FitsErr-error_after p w k in
                    subst (Outcome m sessions) {x = (open_attempts m n (error_after p) p.group).1}
                      (ground arith)
                      (Outcome-open_attempts n (error_after p) p.group f' (λ _. t')
                        k.sessions_present)
                | inr (s, w) ↦ subst (Outcome m sessions) {x = ok s} (ground arith) (k.opened s w)
              ]
        ]
      ]

-- A stream comes from a session of the group that was not closed and had less than 256 streams, and an
-- error of a session was the answer of such a session; the fallback error, that no stream was opened,
-- is never the answer. No identifier stands twice.
pub open_stream-Outcome :
    (m : Mux) (g : ConnectionGroup) → Distinct g.sessions → Outcome m g.sessions (open_stream m g).1
unfolding open_stream
open_stream-Outcome m g d =
    Outcome-open_attempts m g.sessions max_retries none g tt (λ e. absurd (omega (arith, e)))
      (sessions_present g.sessions d)
