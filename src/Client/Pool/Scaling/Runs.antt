-- ===== src/Client/Pool/Scaling/Runs.antt =====
-- internal/client/tcp/session_scaler.go and pool_client.go: a client over its life.
use tunl.Base.{
  ℕ, ◌≡◌, Bool, bit, none, some, List, map, codes, ◌++◌, ◌-◌, ap, refl, subst, ◌∙◌, true, false,
  not, ◌||◌, Option, [], ◌∷◌, arith, ◌==◌, if◌then◌else◌, Text, text_eq, Bool-cases, Option-cases,
  inl, inr,
}
use tunl.Base.Int.{ℤ}
use tunl.Base.Map.{lookup, insert, Distinct-insert}
use tunl.Client.Pool.{
  SessionHandle, PoolClient, new_pool_client, session_count, remove_data_session, warmup_sessions,
  connected, close_client,
}
use tunl.Client.Pool.Scaling.{with_desired, scaler_round, set_streams}
use tunl.Client.Pool.Scaling.Bounds.{
  Sound, new_pool_client-Sound, length-insert_old, Sound-adjust, Sound-add_sessions,
  Sound-remove_data_session, AllOpen-insert,
}

-- What happens to a client: it connects, a session fails, the streams of a session change, the scaler
-- has a round, or the client is closed.
pub data Event : Type 0 where
  connects : ℕ → (ℕ → Option Text) → Bool → Event
  fails : Text → Event
  streams : Text → ℕ → ℕ → Event
  scales : ℕ → ℕ → (ℕ → Option Text) → Event
  closes : Event

unfoldable pub perform : Event → PoolClient → Option PoolClient
unfolding connected remove_data_session set_streams scaler_round close_client
perform (connects now opens supports) c = some (connected now opens supports c)
perform (fails id) c = some (remove_data_session id c).0
perform (streams id n now) c = some (set_streams id n now c)
perform (scales now active opens) c = scaler_round now active opens c
perform closes c = some (close_client c)

-- The events one after another. There is no answer if a loop runs out of fuel.
unfoldable pub run : List Event → PoolClient → Option PoolClient
unfolding perform
run [] c = some c
run (e ∷ es) c = elim (perform e c) [ none ↦ none | some c' ↦ run es c' ]

-- What `Close` leaves.
abbrev closed : PoolClient → PoolClient
closed c = record c {
  stopped = true;
  has_primary = false;
  data_sessions = [];
  closings =
      c.closings
      ++ map (λ x. x.0) c.data_sessions
      ++ (if c.has_primary then codes "primary" ∷ [] else []);
}

module _ (low high : ℕ) where
  Sound-with_desired : (c : PoolClient) → Sound low high c → Sound low high (with_desired c)
  unfolding with_desired session_count
  Sound-with_desired c s =
      let s' : Sound low high (record c { desired_total = c.initial_sessions }) = record {
        low_pos = s.low_pos;
        ordered = s.ordered;
        same_min = s.same_min;
        same_max = s.same_max;
        initial = s.initial;
        desired = s.initial.1;
        within = s.within;
        primary = s.primary;
        distinct = s.distinct;
        all_open = s.all_open;
      } in
      elim (Bool-cases (c.desired_total == 0)) [
        | inl q ↦ subst (Sound low high) (ground arith) s'
        | inr q ↦ subst (Sound low high) (ground arith) s
      ]

  Sound-set_streams :
      (id : Text) (n now : ℕ) (c : PoolClient)
      → Sound low high c
      → Sound low high (set_streams id n now c)
  unfolding set_streams session_count
  Sound-set_streams id n now c s = elim (Option-cases (lookup id c.data_sessions)) [
    | inl e ↦ subst (Sound low high) (ground arith) s
    | inr (h, e) ↦
        let h' : SessionHandle = record h { active = n; last_active = now } in
        let l = length-insert_old id h' h c.data_sessions e in
        let s' : Sound low high (record c { data_sessions = insert id h' c.data_sessions }) =
          record {
            low_pos = s.low_pos;
            ordered = s.ordered;
            same_min = s.same_min;
            same_max = s.same_max;
            initial = s.initial;
            desired = s.desired;
            within = omega (arith, l, s.within);
            primary = elim s.primary [ inl p ↦ inl p | inr (p, z, r) ↦ inr (p, l ∙ z, r) ];
            distinct = Distinct-insert id h' c.data_sessions s.distinct;
            all_open = AllOpen-insert id h' c (s.all_open id h e) s.all_open;
          } in
        subst (Sound low high) (ground arith) s'
  ]

  Sound-warmup_sessions :
      (now : ℕ) (opens : ℕ → Option Text) (c : PoolClient)
      → Sound low high c
      → Sound low high (warmup_sessions now opens c)
  unfolding warmup_sessions
  Sound-warmup_sessions now opens c s = elim (Bool-cases (c.stopped || not c.has_tunnel_id)) [
    | inl q ↦ subst (Sound low high) (ground arith) s
    | inr q ↦ subst (Sound low high) (ground arith) (
        Sound-add_sessions low high now opens (c.desired_total - session_count c) c s
          (omega (arith, s.within, s.desired)))
  ]

  Sound-close_client : (c : PoolClient) → Sound low high c → Sound low high (close_client c)
  unfolding close_client session_count lookup
  Sound-close_client c s = elim (Bool-cases c.stopped) [
    | inl q ↦ subst (Sound low high) (ground arith) s
    | inr q ↦ subst (Sound low high) {x = closed c} (ground arith) (record {
      low_pos = s.low_pos;
      ordered = s.ordered;
      same_min = s.same_min;
      same_max = s.same_max;
      initial = s.initial;
      desired = s.desired;
      within = omega arith;
      primary = inr (refl, refl, refl);
      distinct = tt;
      all_open = λ id h e. cc e;
    })
  ]

  Sound-primary :
      (supports : Bool) (c : PoolClient)
      → Sound low high c
      → Sound low high (record c {
        has_primary = true;
        has_tunnel_id = supports || c.has_tunnel_id;
        desired_total = if supports then c.initial_sessions else c.desired_total;
      })
  unfolding session_count
  Sound-primary supports c s = record {
    low_pos = s.low_pos;
    ordered = s.ordered;
    same_min = s.same_min;
    same_max = s.same_max;
    initial = s.initial;
    desired = ground (arith, s.initial.1, s.desired);
    within = elim s.primary [
      | inl p ↦ omega (arith, s.within, ap bit p)
      | inr (p, e, _) ↦ omega (arith, e, s.low_pos, s.ordered)
    ];
    primary = inl refl;
    distinct = s.distinct;
    all_open = s.all_open;
  }

  Sound-connected :
      (now : ℕ) (opens : ℕ → Option Text) (supports : Bool) (c : PoolClient)
      → Sound low high c
      → Sound low high (connected now opens supports c)
  unfolding connected
  Sound-connected now opens false c s = Sound-primary false c s
  Sound-connected now opens true c s =
      Sound-warmup_sessions now opens
        (record c { has_primary = true; has_tunnel_id = true; desired_total = c.initial_sessions })
        (Sound-primary true c s)

  Sound-perform :
      (e : Event) (c : PoolClient)
      → Sound low high c
      → (c' : PoolClient) × (perform e c ≡ some c') × Sound low high c'
  unfolding perform scaler_round
  Sound-perform (connects now opens supports) c s =
      (connected now opens supports c, refl, Sound-connected now opens supports c s)
  Sound-perform (fails id) c s =
      ((remove_data_session id c).0, refl, Sound-remove_data_session low high id c s)
  Sound-perform (streams id n now) c s =
      (set_streams id n now c, refl, Sound-set_streams id n now c s)
  Sound-perform (scales now active opens) c s =
      Sound-adjust low high now active opens (with_desired c) (Sound-with_desired c s)
  Sound-perform closes c s = (close_client c, refl, Sound-close_client c s)

  run-some :
      (e : Event) (es : List Event) (c c' : PoolClient)
      → perform e c ≡ some c'
      → run (e ∷ es) c ≡ run es c'
  unfolding run
  run-some e es c c' q = ground arith

  Sound-run :
      (es : List Event) (c : PoolClient)
      → Sound low high c
      → (c' : PoolClient) × (run es c ≡ some c') × Sound low high c'
  unfolding run
  Sound-run [] c s = (c, refl, s)
  Sound-run (e ∷ es) c s =
      let (c', q, s') = Sound-perform e c s in
      let (d, r, t) = Sound-run es c' s' in (d, run-some e es c c' q ∙ r, t)

-- A client that `NewPoolClient` made goes through any events, each a whole call, with no loop out of fuel. Afterwards it
-- has the bounds it began with, no more sessions than the upper one, no identifier twice, no session
-- that is closed, and none at all without a primary one; the number it wants is within the upper bound
-- too.
pub run-Sound :
    (cpus : ℕ) (pool_min pool_max pool_size : ℤ) (es : List Event)
    → let c = new_pool_client cpus pool_min pool_max pool_size in
      (end : PoolClient) × (run es c ≡ some end) × Sound c.min_sessions c.max_sessions end
run-Sound cpus pool_min pool_max pool_size es =
    let c = new_pool_client cpus pool_min pool_max pool_size in
    Sound-run c.min_sessions c.max_sessions es c
      (new_pool_client-Sound cpus pool_min pool_max pool_size)
