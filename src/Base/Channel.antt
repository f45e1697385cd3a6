-- ===== src/Base/Channel.antt =====
-- Go's buffered channels. Closing a closed channel and sending on one are run-time panics: they set
-- `panicked`, and the proofs show where that stays false.
use tunl.Base.{ℕ, Bool, true, false, ◌||◌, List, [], ◌∷◌, ◌++◌, ltb, if◌then◌else◌, length}

pub record Channel {ℓ} (A : Type ℓ) : Type ℓ where
  pub items : List A
  pub cap : ℕ
  pub closed : Bool
  pub panicked : Bool

module _ {ℓ} {A : Type ℓ} where
  abbrev pub make : ℕ → Channel A
  make n = record { items = []; cap = n; closed = false; panicked = false }

  abbrev pub close : Channel A → Channel A
  close c = record c { closed = true; panicked = c.panicked || c.closed }

  -- Whether a send goes through without waiting (on a closed channel it panics at once).
  abbrev pub ready : Channel A → Bool
  ready c = c.closed || ltb (length c.items) c.cap

  abbrev pub send : A → Channel A → Channel A
  send a c =
      if c.closed then record c { panicked = true } else record c { items = c.items ++ (a ∷ []) }
