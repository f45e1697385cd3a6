-- ===== src/Client/Pool/Scaling/Branches.antt =====
-- internal/client/tcp/session_scaler.go and pool_session.go: how a removal and a round may end.
use tunl.Base.{
  ℕ, zero, suc, ◌++◌, ◌+◌, ◌-◌, ◌<◌, ◌≡◌, ◌⊎◌, subst, ◌&&◌, Option, some, List, [], ◌∷◌, arith, ltb,
  ◌==◌, if◌then◌else◌, Text, text_eq, Bool-cases, Option-cases, inl, inr,
}
use Prim.Native.Nat.{min, max}
use tunl.Base.Map.{lookup, insert, erase}
use tunl.Client.Pool.{
  PoolClient, session_count, add_data_session, remove_data_session, Candidate, find_best,
  remove_loop, remove_idle_sessions,
}
use tunl.Client.Pool.Scaling.{rescale, load_above, load_below, burst, scale_up, scale_down, adjust}

pub remove_data_session-closings :
    (id : Text) (c : PoolClient)
    → ((remove_data_session id c).0
        ≡ record c { data_sessions = erase id c.data_sessions; closings = c.closings })
      ⊎ ((remove_data_session id c).0 ≡ record c {
        data_sessions = erase id c.data_sessions;
        closings = c.closings ++ (id ∷ []);
      })
unfolding remove_data_session
remove_data_session-closings id c = elim (Option-cases (lookup id c.data_sessions)) [
  | inl e ↦ inl (ground arith)
  | inr (h, e) ↦ elim (Bool-cases h.closed) [
    | inl q ↦ inl (ground arith)
    | inr q ↦ inr (ground arith)
  ]
]

-- What every removal keeps, the loop keeps.
pub remove_loop-keeps {ℓ} :
    (P : PoolClient → Type ℓ)
    → ((id : Text) (c : PoolClient) → P c → P (remove_data_session id c).0)
    → (fuel left : ℕ) (ks : List (Text × Candidate)) (c end : PoolClient) (n : ℕ) → P c
    → remove_loop fuel left ks c ≡ some (end, n)
    → P end
unfolding remove_loop
remove_loop-keeps P step zero left ks c end n p e = cc e
remove_loop-keeps P step (suc fuel) zero ks c end n p e = subst P (ground arith) p
remove_loop-keeps P step (suc fuel) (suc left) ks c end n p e = elim (Option-cases (find_best ks)) [
  | inl q ↦ subst P (ground arith) p
  | inr ((id, k), q) ↦
      let r = remove_data_session id c in
      remove_loop-keeps P step fuel (if r.1 then left else suc left)
        (insert id (record k { streams = 1 }) ks) r.0 end n (step id c p) (ground arith)
]

pub scale_down-cases :
    (now : ℕ) (c end : PoolClient) (n : ℕ)
    → remove_idle_sessions 1 c ≡ some (end, n)
    → (scale_down now c ≡ some c)
      ⊎ (scale_down now c ≡ some (rescale (max (c.desired_total - 1) c.min_sessions) now end))
unfolding scale_down
scale_down-cases now c end n e = elim (Bool-cases (ltb (now - c.last_scale) 60_000_000_000)) [
  | inl q ↦ inl (ground arith)
  | inr q ↦
      let low = max (c.desired_total - 1) c.min_sessions in
      elim (Bool-cases (ltb low c.desired_total && ltb low (session_count c))) [
        | inl w ↦ inr (ground arith)
        | inr w ↦ inl (ground arith)
      ]
]

pub scale_up-cases :
    (now : ℕ) (opens : ℕ → Option Text) (c : PoolClient)
    → (scale_up now opens c ≡ c)
      ⊎ (scale_up now opens c
          ≡ rescale
              (min (c.desired_total + 1) c.max_sessions)
              now
              (add_data_session now (opens 0) c))
unfolding scale_up
scale_up-cases now opens c = elim (Bool-cases (ltb (now - c.last_scale) 1_000_000_000)) [
  | inl q ↦ inl (ground arith)
  | inr q ↦ elim (Bool-cases (ltb c.desired_total (min (c.desired_total + 1) c.max_sessions))) [
    | inl w ↦ inr (ground arith)
    | inr w ↦ inl (ground arith)
  ]
]

pub adjust-cases :
    (now active : ℕ) (opens : ℕ → Option Text) (current : ℕ) (c : PoolClient)
    → (adjust now active opens current c ≡ some c)
      ⊎ ((adjust now active opens current c ≡ some (burst now opens c))
          ⊎ (((adjust now active opens current c ≡ some (scale_up now opens c))
                × (current < c.max_sessions))
              ⊎ (adjust now active opens current c ≡ scale_down now c)))
unfolding adjust
adjust-cases now active opens current c = elim (Bool-cases (current == 0)) [
  | inl q ↦ inl (ground arith)
  | inr q ↦ elim (Bool-cases (load_above 9 active current && ltb current c.max_sessions)) [
    | inl b ↦ inr (inl (ground arith))
    | inr b ↦ elim (Bool-cases (load_above 6 active current && ltb current c.max_sessions)) [
      | inl u ↦ inr (inr (inl (ground arith, ground arith)))
      | inr u ↦ elim (Bool-cases (load_below 2 active current && ltb c.min_sessions current)) [
        | inl d ↦ inr (inr (inr (ground arith)))
        | inr d ↦ inl (ground arith)
      ]
    ]
  ]
]
