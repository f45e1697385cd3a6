-- ===== src/Proxy/Sessions.antt =====
-- internal/server/proxy/auth_handler.go: the sessions of those who gave a tunnel's password. Times are
-- in nanoseconds, the time of a call and the token that `generateSessionToken` draws are arguments.
use tunl.Base.{
  ℕ, ◌+◌, ◌*◌, ◌≡◌, Bool, true, false, not, none, some, List, ltb, if◌then◌else◌, Text, text_beq,
  text_eq, text_beq_iff, arith, Option-cases, inl, inr,
}
use tunl.Base.Map.{
  lookup, insert, erase, keep_if, Distinct, lookup-erase, lookup-keep_if, Distinct-erase,
  Distinct-keep_if,
}
use tunl.Proxy.AuthLimiter.{second}

abbrev pub auth_session_duration : ℕ
auth_session_duration = 24 * 3600 * second

pub record Session : Type 0 where
  pub subdomain : Text
  pub expires_at : ℕ

abbrev pub Sessions : Type 0
Sessions = List (Text × Session)

unfoldable pub create : ℕ → Text → Text → Sessions → Sessions
create now token subdomain s =
    insert token (record { subdomain = subdomain; expires_at = now + auth_session_duration }) s

unfoldable pub validate : ℕ → Text → Text → Sessions → Sessions × Bool
validate now token subdomain s = elim (lookup token s) [
  | none ↦ (s, false)
  | some session ↦
      if ltb session.expires_at now
      then (erase token s, false)
      else (s, text_beq session.subdomain subdomain)
]

unfoldable pub cleanup : ℕ → Sessions → Sessions
cleanup now s = keep_if (λ (x : Text × Session). not (ltb x.1.expires_at now)) s

-- The test says yes exactly for a token whose session is of this subdomain and not over.
pub validate-lookup :
    (now : ℕ) (token subdomain : Text) (s : Sessions)
    → (validate now token subdomain s).1 ≡ true
    → (x : Session) × (lookup token s ≡ some x)
      × (x.subdomain ≡ subdomain)
      × (ltb x.expires_at now ≡ false)
unfolding validate
validate-lookup now token subdomain s h = elim (Option-cases (lookup token s)) [
  | inl r ↦ absurd (ground arith)
  | inr (x, r) ↦ (x, r, ground (arith, text_beq_iff x.subdomain subdomain), ground arith)
]

-- It only ever takes sessions away.
pub lookup-validate :
    (now : ℕ) (token subdomain t : Text) (s : Sessions) (x : Session)
    → Distinct s
    → lookup t (validate now token subdomain s).0 ≡ some x
    → lookup t s ≡ some x
unfolding validate
lookup-validate now token subdomain t s x d h = ground (arith, lookup-erase token t s d)

pub Distinct-validate :
    (now : ℕ) (token subdomain : Text) (s : Sessions)
    → Distinct s
    → Distinct (validate now token subdomain s).0
unfolding validate
Distinct-validate now token subdomain s d = ground (arith, Distinct-erase token s d)

pub lookup-cleanup :
    (now : ℕ) (t : Text) (s : Sessions) (x : Session)
    → Distinct s
    → lookup t (cleanup now s) ≡ some x
    → lookup t s ≡ some x
unfolding cleanup
lookup-cleanup now t s x d h = lookup-keep_if _ t x s d h

pub Distinct-cleanup : (now : ℕ) (s : Sessions) → Distinct s → Distinct (cleanup now s)
unfolding cleanup
Distinct-cleanup now s d = Distinct-keep_if _ s d
