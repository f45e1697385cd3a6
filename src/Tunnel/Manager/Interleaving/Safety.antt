-- ===== src/Tunnel/Manager/Interleaving/Safety.antt =====
-- internal/server/tunnel/manager.go: the limits hold in every interleaving.
use tunl.Tunnel.Manager.Limits.{
  limits, release_ip-limits, check_rate-limits, reserve_ip-limits, rollback_global-limits,
  reserve_global-limits, store_tunnel-limits, claim_custom-limits,
}
use tunl.Tunnel.Manager.Removal.{take_out, list, count}
use tunl.Tunnel.Manager.Runs.{length-list}
use tunl.Base.{
  ℕ, suc, ◌+◌, ◌≤◌, ◌≡◌, refl, ap, subst, ◌∙◌, ◌≢◌, inl, inr, Option, some, List, [], ◌∷◌, ◌++◌,
  arith, Option-cases, Text, text_beq, text_beq_iff, text_eq, nat_eq, length, bit, sum_by,
  sum_by-append, ok,
}
use tunl.Base.Int.{pos}
use tunl.Base.Map.{lookup}
use tunl.Tunnel.Manager.{
  Manager, ManagerConfig, put_shard, new_manager, shard_at, shard_index, store_tunnel, reserve_ip,
  claim_custom,
}
use tunl.Tunnel.Manager.Shards.{total, held}
use tunl.Tunnel.Manager.Invariant.{
  Inv, Inv-slots, Inv-rate_limiter, plus, reserve_global-Inv, rollback_global-Inv, check_rate-Inv,
  reserve_ip-Inv, release_ip-Inv,
}
use tunl.Tunnel.Manager.Stored.{
  lookup-is_used, store_tunnel-fresh, store_tunnel-over, take_out-Inv, shard_index-lt,
}
use tunl.Tunnel.Manager.Register.{claim_custom_cases}
use tunl.Tunnel.Manager.Runs.{new_manager-Inv}
use tunl.Tunnel.Manager.Interleaving.{
  holding, Job, JobStep, skips, passes, limited, reserves, crowded, claims, refuses, picks, stores,
  gives_ip, unwinds, uncounts, ends, World, rest_of, Step, Reaches, starts, moves, arrives, works,
  removes, sweeps, global_slot, ip_slot, global_slots, ip_slots,
}

-- The invariant for other numbers of slots that are equal.
Inv-eq :
    {g g' : ℕ} {h h' : Text → ℕ} {m : Manager}
    → g ≡ g'
    → ((k : Text) → k ≢ [] → h k ≡ h' k)
    → Inv g h m
    → Inv g' h' m
Inv-eq {h = h} {h' = h'} {m = m} e f v = subst (λ g. Inv g h' m) e (Inv-slots _ h h' m v f)

-- The invariant with the slots of the jobs, and some that are lost.
record Held (js : List Job) (g : ℕ) (h : Text → ℕ) (m : Manager) : Type 0 where
  lost : ℕ
  lost_ip : Text → ℕ
  inv : Inv (global_slots js + (lost + g)) (λ k. ip_slots js k + (lost_ip k + h k)) m

keeps :
    {js : List Job} {g g' : ℕ} {h h' : Text → ℕ} {m : Manager}
    → Inv g' h' m
    → g' ≡ global_slots js + g
    → ((k : Text) → k ≢ [] → h' k ≡ ip_slots js k + h k)
    → Held js g h m
keeps v e f = record {
  lost = 0;
  lost_ip = λ k. 0;
  inv = Inv-eq (omega (arith, e)) (λ k nk. omega (arith, f k nk)) v;
}

no_slot : (ip k : Text) → ip ≡ [] → k ≢ [] → bit (text_beq ip k) ≡ 0
no_slot ip k e nk = rw e (ground (arith, text_beq_iff [] k))

reserves-Held :
    (j : Job) (m m' : Manager) (g : ℕ) (h : Text → ℕ)
    → j.ip ≢ []
    → reserve_ip j.ip m ≡ some m'
    → Inv (suc g) h m
    → Held (record j { phase = holding } ∷ []) g h m'
reserves-Held j m m' g h ne e v = elim (reserve_ip-Inv (suc g) h j.ip m ne v) [
  | inl (r, _) ↦ absurd (cc (r, e))
  | inr (m3, r, w) ↦
      let q : m3 ≡ m' = cc (r, e) in
      keeps (subst (Inv (suc g) (plus j.ip h)) q w) (omega arith) (λ k nk. omega arith)
]

claims-Held :
    (j : Job) (m m' : Manager) (now g : ℕ) (h : Text → ℕ)
    → claim_custom j.custom j.ip j.has_conn now m ≡ ok m'
    → Inv (suc g) (plus j.ip h) m
    → Held [] g h m'
claims-Held j m m' now g h e v = elim (claim_custom_cases j.custom j.ip j.has_conn now m) [
  | inr (x, r, _) ↦ absurd (cc (r, e))
  | inl (_, _, u, r) ↦
      let q : store_tunnel j.custom j.ip j.has_conn now m ≡ m' = cc (r, e) in
      keeps
        (subst (Inv g h) q (
          store_tunnel-fresh g h j.custom j.ip j.has_conn now m
            (lookup-is_used (suc g) (plus j.ip h) j.custom m v u) v))
        (omega arith) (λ k nk. omega arith)
]

stores-Held :
    (j : Job) (m : Manager) (s : Text) (now g : ℕ) (h : Text → ℕ)
    → Inv (suc g) (plus j.ip h) m
    → Held [] g h (store_tunnel s j.ip j.has_conn now m)
stores-Held j m s now g h v = elim (Option-cases (lookup s (shard_at (shard_index s) m).tunnels)) [
  | inl e ↦
      keeps (store_tunnel-fresh g h s j.ip j.has_conn now m e v) (omega arith) (λ k nk. omega arith)
  | inr (old, e) ↦ record {
    lost = 1;
    lost_ip = λ k. bit (text_beq old.remote_ip k);
    inv =
        Inv-eq (omega arith) (λ k nk. omega arith)
          (store_tunnel-over g h s j.ip j.has_conn now m old e v);
  }
]

JobStep-Held :
    (j : Job) (m m' : Manager) (r : Option Job) (g : ℕ) (h : Text → ℕ)
    → JobStep j m r m'
    → Inv (global_slot j.phase + g) (λ k. ip_slot j.ip j.phase k + h k) m
    → Held (rest_of r) g h m'
JobStep-Held j m m' r g h (skips p e) v =
    keeps v (rw p (omega arith)) (λ k nk. rw p (omega (arith, no_slot j.ip k e nk)))
JobStep-Held j m m' r g h (passes now p ne let_in) v =
    keeps (check_rate-Inv _ _ j.ip now m v) (rw p (omega arith)) (λ k nk. rw p (omega arith))
JobStep-Held j m m' r g h (limited now p ne full) v =
    keeps (check_rate-Inv _ _ j.ip now m v) (rw p (omega arith)) (λ k nk. rw p (omega arith))
JobStep-Held j m m' r g h (reserves m'' p ne e) v =
    reserves-Held j m m'' g h ne e (Inv-eq (rw p (omega arith)) (λ k nk. rw p (omega arith)) v)
JobStep-Held j m m' r g h (crowded p e) v =
    keeps v (rw p (omega arith)) (λ k nk. rw p (omega arith))
JobStep-Held j m m' r g h (claims now m'' p ne e) v =
    claims-Held j m m'' now g h e (Inv-eq (rw p (omega arith)) (λ k nk. rw p refl) v)
JobStep-Held j m m' r g h (refuses now x p ne e) v =
    keeps v (rw p (omega arith)) (λ k nk. rw p (omega arith))
JobStep-Held j m m' r g h (picks s p e) v =
    keeps v (rw p (omega arith)) (λ k nk. rw p (omega arith))
JobStep-Held j m m' r g h (stores now s p) v =
    stores-Held j m s now g h (Inv-eq (rw p (omega arith)) (λ k nk. rw p refl) v)
JobStep-Held j m m' r g h (gives_ip p) v =
    keeps (release_ip-Inv (suc g) h j.ip m (Inv-eq (rw p (omega arith)) (λ k nk. rw p refl) v))
      (omega arith) (λ k nk. omega arith)
JobStep-Held j m m' r g h (unwinds p) v =
    keeps (rollback_global-Inv g h m (Inv-eq (rw p (omega arith)) (λ k nk. rw p (omega arith)) v))
      (omega arith) (λ k nk. omega arith)
JobStep-Held j m m' r g h (uncounts p) v =
    keeps
      (rollback_global-Inv g (plus j.ip h) m (Inv-eq (rw p (omega arith)) (λ k nk. rw p refl) v))
      (omega arith) (λ k nk. omega arith)
JobStep-Held j m m' r g h (ends p) v =
    keeps (release_ip-Inv g h j.ip m (Inv-eq (rw p (omega arith)) (λ k nk. rw p refl) v))
      (omega arith) (λ k nk. omega arith)

-- What is lost stays lost, and the slots that goroutines hold are counted.
record Counted (w : World) : Type 0 where
  lost : ℕ
  lost_ip : Text → ℕ
  inv : Inv (global_slots w.jobs + lost) (λ k. ip_slots w.jobs k + lost_ip k) w.manager

Counted-of :
    (w : World) (js : List Job) (m : Manager) (n : ℕ) (n_ip : Text → ℕ)
    → w.jobs ≡ js
    → w.manager ≡ m
    → Inv (global_slots js + n) (λ k. ip_slots js k + n_ip k) m
    → Counted w
Counted-of w js m n n_ip e q v = record { lost = n; lost_ip = n_ip; inv = rw (e, q) v }

-- The sum over the jobs, with the jobs in the middle first.
middle :
    (f : Job → ℕ) (before js after : List Job)
    → sum_by f (before ++ (js ++ after)) ≡ sum_by f js + (sum_by f before + sum_by f after)
middle f before js after =
    omega (arith, sum_by-append f before (js ++ after), sum_by-append f js after)

works-Counted :
    (w w' : World) (before after : List Job) (j : Job) (r : Option Job)
    → w.jobs ≡ before ++ (j ∷ after)
    → JobStep j w.manager r w'.manager
    → w'.jobs ≡ before ++ (rest_of r ++ after)
    → Counted w
    → Counted w'
works-Counted w w' before after j r js st js' c =
    Counted-of w' (before ++ (rest_of r ++ after)) w'.manager (hd.lost + c.lost)
      (λ k. hd.lost_ip k + c.lost_ip k) js' refl
      (Inv-eq (omega (arith, middle (λ j. global_slot j.phase) before (rest_of r) after))
        (λ k nk. omega (arith, middle (λ j. ip_slot j.ip j.phase k) before (rest_of r) after))
        hd.inv)
  where
    g : ℕ
    g = global_slots before + global_slots after + c.lost

    h : Text → ℕ
    h k = ip_slots before k + ip_slots after k + c.lost_ip k

    global_eq : global_slots w.jobs + c.lost ≡ global_slot j.phase + g
    global_eq = rw js (omega (arith, middle (λ j. global_slot j.phase) before (j ∷ []) after))

    ip_eq : (k : Text) → ip_slots w.jobs k + c.lost_ip k ≡ ip_slot j.ip j.phase k + h k
    ip_eq k = rw js (omega (arith, middle (λ j. ip_slot j.ip j.phase k) before (j ∷ []) after))

    hd : Held (rest_of r) g h w'.manager
    hd = JobStep-Held j w.manager w'.manager r g h st (Inv-eq global_eq (λ k nk. ip_eq k) c.inv)

Step-Counted : (w w' : World) → Step w w' → Counted w → Counted w'
Step-Counted w w' (arrives custom ip has_conn e js) c =
    elim (reserve_global-Inv _ _ w.manager c.inv) [
      | inl (r, _) ↦ absurd (cc (r, e))
      | inr (m', r, v) ↦
          let q : w'.manager ≡ m' = cc (r, e) in
          Counted-of w' _ m' c.lost c.lost_ip js q (Inv-eq (omega arith) (λ k nk. omega arith) v)
    ]
Step-Counted w w' (works before after j r js st js') c =
    works-Counted w w' before after j r js st js' c
Step-Counted w w' (removes s tc e q js) c = Counted-of w' _ _ c.lost c.lost_ip js q (
    Inv-eq (omega arith) (λ k nk. omega arith)
      (take_out-Inv _ _ (shard_index s) s w.manager tc (shard_index-lt s) e c.inv))
Step-Counted w w' (sweeps now e js) c =
    Counted-of w' w.jobs _ c.lost c.lost_ip js e (Inv-rate_limiter _ _ _ _ c.inv)

take_out-limits : (i : ℕ) (s : Text) (m : Manager) → limits (take_out i s m) ≡ limits m
unfolding take_out put_shard
take_out-limits i s m = refl

JobStep-limits :
    (j : Job) (m m' : Manager) (r : Option Job) → JobStep j m r m' → limits m' ≡ limits m
JobStep-limits j m m' r (skips p e) = refl
JobStep-limits j m m' r (passes now p ne let_in) = check_rate-limits j.ip now m
JobStep-limits j m m' r (limited now p ne full) = check_rate-limits j.ip now m
JobStep-limits j m m' r (reserves m'' p ne e) = reserve_ip-limits j.ip m m'' e
JobStep-limits j m m' r (crowded p e) = refl
JobStep-limits j m m' r (claims now m'' p ne e) =
    claim_custom-limits j.custom j.ip j.has_conn now m m'' e
JobStep-limits j m m' r (refuses now x p ne e) = refl
JobStep-limits j m m' r (picks s p e) = refl
JobStep-limits j m m' r (stores now s p) = store_tunnel-limits s j.ip j.has_conn now m
JobStep-limits j m m' r (gives_ip p) = release_ip-limits j.ip m
JobStep-limits j m m' r (unwinds p) = rollback_global-limits m
JobStep-limits j m m' r (uncounts p) = rollback_global-limits m
JobStep-limits j m m' r (ends p) = release_ip-limits j.ip m

Step-limits : (w w' : World) → Step w w' → limits w'.manager ≡ limits w.manager
Step-limits w w' (arrives custom ip has_conn e js) = reserve_global-limits w.manager w'.manager e
Step-limits w w' (works before after j r js st js') = JobStep-limits j w.manager w'.manager r st
Step-limits w w' (removes s tc e q js) = ap limits q ∙ take_out-limits (shard_index s) s w.manager
Step-limits w w' (sweeps now e js) = ap limits e

Reaches-Counted : (cfg : ManagerConfig) (w : World) → Reaches (new_manager cfg) w → Counted w
Reaches-Counted cfg x (starts w e js) =
    Counted-of w [] _ 0 (λ k. 0) js e
      (Inv-eq (omega arith) (λ k nk. omega arith) (new_manager-Inv cfg))
Reaches-Counted cfg x (moves u w r s) = Step-Counted u w s (Reaches-Counted cfg u r)

Reaches-limits : (m : Manager) (w : World) → Reaches m w → limits w.manager ≡ limits m
Reaches-limits m x (starts w e js) = ap limits e
Reaches-limits m x (moves u w r s) = Step-limits u w s ∙ Reaches-limits m u r

-- The tunnels and the slots that goroutines hold are together within the limits of `m`, and
-- `Count` is neither below what they add up to nor above the limit.
pub record IsWithin (m : Manager) (w : World) : Type 0 where
  pub counted : ℕ
  pub count_eq : count w.manager ≡ pos counted
  pub enough : length (list w.manager) + global_slots w.jobs ≤ counted
  pub within : counted ≤ m.max_tunnels
  pub within_ip :
      (ip : Text) → ip ≢ [] → held ip w.manager + ip_slots w.jobs ip ≤ m.max_tunnels_per_ip

-- In every state that a new manager reaches by steps of any number of goroutines, in any order,
-- `Count` is at least the number of tunnels and of slots that registrations and removals hold, and at
-- most the limit, and so are the tunnels and slots of each address at most the limit of an address.
pub Reaches-IsWithin :
    (cfg : ManagerConfig) (w : World) → Reaches (new_manager cfg) w → IsWithin (new_manager cfg) w
unfolding count
Reaches-IsWithin cfg w r =
    let c = Reaches-Counted cfg w r in
    let l = Reaches-limits (new_manager cfg) w r in
    let max : w.manager.max_tunnels ≡ (new_manager cfg).max_tunnels = ap (λ p. p.0) l in
    let max_ip : w.manager.max_tunnels_per_ip ≡ (new_manager cfg).max_tunnels_per_ip =
      ap (λ p. p.1) l in
    record {
      counted = total w.manager + (global_slots w.jobs + c.lost);
      count_eq = c.inv.counted;
      enough = omega (arith, length-list w.manager);
      within = omega (arith, c.inv.within, max);
      within_ip = λ ip ne. omega (arith, c.inv.within_ip ip ne, max_ip);
    }
