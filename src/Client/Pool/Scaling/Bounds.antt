-- ===== src/Client/Pool/Scaling/Bounds.antt =====
-- internal/client/tcp/session_scaler.go: the client stays within its bounds, whatever happens.
use tunl.Base.{
  ℕ, zero, suc, ◌++◌, ◌+◌, ◌-◌, ◌≤◌, ◌<◌, ◌≡◌, ◌⊎◌, refl, sym, ap, subst, ◌∙◌, true, false, not,
  ◌||◌, Option, none, some, List, [], ◌∷◌, arith, Text, text_beq, text_eq, length, bit, Bool-cases,
  inl, inr,
}
use Prim.Native.Nat.{min, max}
use tunl.Base.Int.{ℤ, pos, negsuc}
use tunl.Base.Map.{
  lookup, insert, erase, Distinct, lookup-insert, lookup-erase, Distinct-insert, Distinct-erase,
}
use tunl.Tunnel.Manager.{positive_or}
use tunl.Client.Pool.{
  SessionHandle, PoolClient, new_pool_client, session_count, add_data_session, add_sessions,
  remove_data_session, snapshot, remove_idle_sessions,
}
use tunl.Client.Pool.Idle.{AllOpen, idle_sessions, remove_idle_sessions-Taken}
use tunl.Client.Pool.Scaling.{rescale, burst, scale_up, scale_down, adjust}
use tunl.Client.Pool.Scaling.Branches.{
  remove_data_session-closings, remove_loop-keeps, scale_down-cases, scale_up-cases, adjust-cases,
}

-- A client whose settings are `low` and `high`, with no more sessions than it may have.
pub record Sound (low high : ℕ) (c : PoolClient) : Type 0 where
  pub low_pos : 1 ≤ low
  pub ordered : low ≤ high
  pub same_min : c.min_sessions ≡ low
  pub same_max : c.max_sessions ≡ high
  pub initial : (low ≤ c.initial_sessions) × (c.initial_sessions ≤ high)
  pub desired : c.desired_total ≤ high
  pub within : session_count c ≤ high
  pub primary :
      (c.has_primary ≡ true)
      ⊎ ((c.has_primary ≡ false)
          × (length c.data_sessions ≡ 0)
          × ((c.stopped || not c.has_tunnel_id) ≡ true))
  pub distinct : Distinct c.data_sessions
  pub all_open : AllOpen c

positive_or-pos : (d : ℕ) (x : ℤ) → 1 ≤ positive_or (suc d) x
unfolding positive_or
positive_or-pos d (pos n) = ground arith
positive_or-pos d (negsuc n) = omega arith

pub new_pool_client-Sound :
    (cpus : ℕ) (pool_min pool_max pool_size : ℤ)
    → let c = new_pool_client cpus pool_min pool_max pool_size in
      Sound c.min_sessions c.max_sessions c
unfolding new_pool_client positive_or session_count lookup
new_pool_client-Sound cpus pool_min pool_max pool_size = record {
  low_pos = positive_or-pos 1 pool_min;
  ordered = omega arith;
  same_min = refl;
  same_max = refl;
  initial = (omega arith, omega arith);
  desired = omega arith;
  within = omega arith;
  primary = inr (refl, refl, refl);
  distinct = tt;
  all_open = λ id h e. cc e;
}

length-insert :
    (id : Text) (h : SessionHandle) (m : List (Text × SessionHandle))
    → length (insert id h m) ≤ length m + 1
unfolding insert
length-insert id h [] = omega arith
length-insert id h ((j, w) ∷ m) = ground (arith, length-insert id h m)

length-erase_le : (id : Text) (m : List (Text × SessionHandle)) → length (erase id m) ≤ length m
unfolding erase
length-erase_le id [] = omega arith
length-erase_le id ((j, w) ∷ m) = ground (arith, length-erase_le id m)

pub length-insert_old :
    (id : Text) (h w : SessionHandle) (m : List (Text × SessionHandle))
    → lookup id m ≡ some w
    → length (insert id h m) ≡ length m
unfolding lookup insert
length-insert_old id h w [] e = cc
length-insert_old id h w ((j, v) ∷ m) e = ground (arith, length-insert_old id h w m)

-- A session that is open joins or replaces one.
pub AllOpen-insert :
    (id : Text) (h : SessionHandle) (c : PoolClient)
    → h.closed ≡ false
    → AllOpen c
    → AllOpen (record c { data_sessions = insert id h c.data_sessions })
AllOpen-insert id h c o all j k e = elim (Bool-cases (text_beq id j)) [
  | inl q ↦ ground (arith, lookup-insert id j h c.data_sessions)
  | inr q ↦ all j k (ground (arith, lookup-insert id j h c.data_sessions))
]

module _ (low high : ℕ) where
  pub Sound-insert :
      (id : Text) (h : SessionHandle) (c : PoolClient)
      → h.closed ≡ false
      → c.has_primary ≡ true
      → length (insert id h c.data_sessions) < high
      → Sound low high c
      → Sound low high (record c { data_sessions = insert id h c.data_sessions })
  unfolding session_count
  Sound-insert id h c o p l s = record {
    low_pos = s.low_pos;
    ordered = s.ordered;
    same_min = s.same_min;
    same_max = s.same_max;
    initial = s.initial;
    desired = s.desired;
    within = omega (arith, l, ap bit p);
    primary = inl p;
    distinct = Distinct-insert id h c.data_sessions s.distinct;
    all_open = AllOpen-insert id h c o s.all_open;
  }

  Sound-rescale :
      (desired now : ℕ) (c : PoolClient)
      → desired ≤ high
      → Sound low high c
      → Sound low high (rescale desired now c)
  unfolding rescale session_count
  Sound-rescale desired now c l s = record {
    low_pos = s.low_pos;
    ordered = s.ordered;
    same_min = s.same_min;
    same_max = s.same_max;
    initial = s.initial;
    desired = l;
    within = s.within;
    primary = s.primary;
    distinct = s.distinct;
    all_open = s.all_open;
  }

  Sound-add_data_session :
      (now : ℕ) (opened : Option Text) (c : PoolClient)
      → Sound low high c
      → session_count c < high
      → Sound low high (add_data_session now opened c)
        × (session_count (add_data_session now opened c) ≤ session_count c + 1)
  unfolding add_data_session session_count
  Sound-add_data_session now none c s l = elim (Bool-cases (c.stopped || not c.has_tunnel_id)) [
    | inl q ↦ (subst (Sound low high) (ground arith) s, ground arith)
    | inr q ↦ (subst (Sound low high) (ground arith) s, ground arith)
  ]
  Sound-add_data_session now (some id) c s l =
      elim (Bool-cases (c.stopped || not c.has_tunnel_id)) [
        | inl q ↦ (subst (Sound low high) (ground arith) s, ground arith)
        | inr q ↦
            let h : SessionHandle = record { active = 0; last_active = now; closed = false } in
            let n = length-insert id h c.data_sessions in
            let c' : PoolClient = record c { data_sessions = insert id h c.data_sessions } in
            let p : c.has_primary ≡ true = elim s.primary [
              | inl p ↦ p
              | inr (_, _, r) ↦ absurd (cc (q, r))
            ] in
            let s' : Sound low high c' =
              Sound-insert id h c refl p (omega (arith, l, n, ap bit p)) s in
            (subst (Sound low high) (ground arith) s', ground (arith, n))
      ]

  pub Sound-add_sessions :
      (now : ℕ) (opens : ℕ → Option Text) (n : ℕ) (c : PoolClient)
      → Sound low high c
      → session_count c + n ≤ high
      → Sound low high (add_sessions now opens n c)
  unfolding add_sessions
  Sound-add_sessions now opens zero c s l = s
  Sound-add_sessions now opens (suc n) c s l =
      let (s', g) = Sound-add_data_session now (opens n) c s (omega (arith, l)) in
      Sound-add_sessions now opens n (add_data_session now (opens n) c) s' (omega (arith, l, g))

  pub Sound-remove_data_session :
      (id : Text) (c : PoolClient) → Sound low high c → Sound low high (remove_data_session id c).0
  unfolding session_count
  Sound-remove_data_session id c s =
      let n = length-erase_le id c.data_sessions in
      let without : (closings : List Text)
          → Sound low high
              (record c { data_sessions = erase id c.data_sessions; closings = closings }) =
        λ closings. record {
          low_pos = s.low_pos;
          ordered = s.ordered;
          same_min = s.same_min;
          same_max = s.same_max;
          initial = s.initial;
          desired = s.desired;
          within = omega (arith, n, s.within);
          primary = elim s.primary [
            | inl p ↦ inl p
            | inr (p, e, r) ↦ inr (p, omega (arith, n, e), r)
          ];
          distinct = Distinct-erase id c.data_sessions s.distinct;
          all_open = λ j h e. elim (Bool-cases (text_beq id j)) [
            | inl q ↦ absurd (ground (arith, lookup-erase id j c.data_sessions s.distinct))
            | inr q ↦ s.all_open j h (ground (arith, lookup-erase id j c.data_sessions s.distinct))
          ];
        } in
      elim (remove_data_session-closings id c) [
        | inl e ↦ subst (Sound low high) (sym e) (without c.closings)
        | inr e ↦ subst (Sound low high) (sym e) (without (c.closings ++ (id ∷ [])))
      ]

  Sound-scale_down :
      (now : ℕ) (c : PoolClient)
      → Sound low high c
      → (c' : PoolClient) × (scale_down now c ≡ some c') × Sound low high c'
  Sound-scale_down now c s =
      let t = remove_idle_sessions-Taken 1 c s.distinct s.all_open in
      let new_desired = max (c.desired_total - 1) c.min_sessions in
      let kept : Sound low high t.end =
        remove_loop-keeps (Sound low high) Sound-remove_data_session (suc (length c.data_sessions))
          1 (snapshot c.data_sessions) c t.end (1 - idle_sessions c.data_sessions) s
          (unfold remove_idle_sessions in t.ends) in
      elim (scale_down-cases now c t.end (1 - idle_sessions c.data_sessions) t.ends) [
        | inl e ↦ (c, e, s)
        | inr e ↦ (
          rescale new_desired now t.end,
          e,
          Sound-rescale new_desired now t.end (omega (arith, s.desired, s.same_min, s.ordered))
              kept,
        )
      ]

  Sound-burst :
      (now : ℕ) (opens : ℕ → Option Text) (c : PoolClient)
      → Sound low high c
      → Sound low high (burst now opens c)
  unfolding burst
  Sound-burst now opens c s =
      let to_add = min 4 (c.max_sessions - session_count c) in
      let room : session_count c + to_add ≤ high = omega (arith, s.within, s.same_max) in
      Sound-rescale (session_count c + to_add) now (add_sessions now opens to_add c) room
        (Sound-add_sessions now opens to_add c s room)

  Sound-scale_up :
      (now : ℕ) (opens : ℕ → Option Text) (c : PoolClient)
      → Sound low high c
      → session_count c < high
      → Sound low high (scale_up now opens c)
  Sound-scale_up now opens c s l =
      let new_desired = min (c.desired_total + 1) c.max_sessions in
      let s' =
        Sound-rescale new_desired now (add_data_session now (opens 0) c) (omega (arith, s.same_max))
          (Sound-add_data_session now (opens 0) c s l).0 in
      elim (scale_up-cases now opens c) [
        | inl e ↦ subst (Sound low high) (sym e) s
        | inr e ↦ subst (Sound low high) (sym e) s'
      ]

  pub Sound-adjust :
      (now active : ℕ) (opens : ℕ → Option Text) (c : PoolClient)
      → Sound low high c
      → (c' : PoolClient) × (adjust now active opens (session_count c) c ≡ some c')
        × Sound low high c'
  Sound-adjust now active opens c s = elim (adjust-cases now active opens (session_count c) c) [
    | inl e ↦ (c, e, s)
    | inr (inl e) ↦ (burst now opens c, e, Sound-burst now opens c s)
    | inr (inr (inl (e, l))) ↦
        (scale_up now opens c, e, Sound-scale_up now opens c s (omega (arith, l, s.same_max)))
    | inr (inr (inr e)) ↦ let (c', e', s') = Sound-scale_down now c s in (c', e ∙ e', s')
  ]
