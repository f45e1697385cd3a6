-- ===== src/Base/Equality.antt =====
-- Equality tests as an interface, and its instances for numbers, texts and truth values.
-- A Go string is the list of its bytes.
use Prim.Native.Nat.{ℕ}
use mathlib.Core.Path.{◌≡◌, refl}
use mathlib.Core.Logic.{◌↔◌, ◌≢◌}
use mathlib.Core.Bool.{Bool, true, false, ◌&&◌}
use mathlib.Core.List.{List, [], ◌∷◌}
use native.Mathlib.Omega.{arith}
use Prim.Native.Char.{code}
use Prim.Native.String.{String}
use tunl.Base.Tests.{◌==◌, ==_iff}

abbrev pub Text : Type 0
Text = List ℕ

-- The bytes of an ASCII literal.
abbrev pub codes : String → Text
codes String.[] = []
codes (String.◌∷◌ c s) = code c ∷ codes s

-- A test `same` that decides equality.
pub record Eq {ℓ} (K : Type ℓ) : Type ℓ where
  pub same : K → K → Bool
  pub same_iff : (k j : K) → (same k j ≡ true) ↔ (k ≡ j)

unfoldable pub text_beq : Text → Text → Bool
text_beq [] [] = true
text_beq [] (y ∷ ys) = false
text_beq (x ∷ xs) [] = false
text_beq (x ∷ xs) (y ∷ ys) = (x == y) && text_beq xs ys

text_beq→eq : (a b : Text) → text_beq a b ≡ true → a ≡ b
unfolding text_beq
text_beq→eq [] [] h = refl
text_beq→eq [] (y ∷ ys) h = cc
text_beq→eq (x ∷ xs) [] h = cc
text_beq→eq (x ∷ xs) (y ∷ ys) h = ground (arith, text_beq→eq xs ys)

text_beq_self : (a : Text) → text_beq a a ≡ true
unfolding text_beq
text_beq_self [] = refl
text_beq_self (x ∷ xs) = ground (arith, text_beq_self xs)

pub text_beq_iff : (a b : Text) → (text_beq a b ≡ true) ↔ (a ≡ b)
text_beq_iff a b = (text_beq→eq a b, λ e. rw e (text_beq_self b))

pub text_beq_refl : (a : Text) → text_beq a a ≡ true
text_beq_refl a = text_beq_self a

instance abbrev pub text_eq : Eq Text
text_eq = record { same = text_beq; same_iff = text_beq_iff }

instance abbrev pub nat_eq : Eq ℕ
nat_eq = record { same = ◌==◌; same_iff = ==_iff }

-- Two texts that the test tells apart differ.
pub ne_of_text_beq : (a b : Text) → text_beq a b ≡ false → a ≢ b
ne_of_text_beq a b h = λ e. cc (h, (text_beq_iff a b).1 e)
