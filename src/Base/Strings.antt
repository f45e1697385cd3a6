-- ===== src/Base/Strings.antt =====
-- What the code uses of Go's package strings, on texts as lists of bytes. `equal_fold` and `fields`
-- are exact on ASCII texts.
use Prim.Native.Nat.{ℕ, ◌+◌, ◌-◌}
use mathlib.Core.Path.{◌≡◌, refl}
use mathlib.Core.Bool.{Bool, true, false, ◌&&◌, ◌||◌}
use mathlib.Core.List.{List, [], ◌∷◌, ◌++◌, map}
use native.Mathlib.Omega.{arith}
use tunl.Base.Tests.{leb, ◌==◌, if◌then◌else◌}
use tunl.Base.Lists.{length, take, drop, take-append_length, drop-append_length, length-append}
use tunl.Base.Equality.{Text, text_beq, text_beq_refl}

unfoldable pub has_prefix : Text → Text → Bool
has_prefix s [] = true
has_prefix [] (c ∷ p) = false
has_prefix (d ∷ s) (c ∷ p) = d == c && has_prefix s p

unfoldable pub has_suffix : Text → Text → Bool
has_suffix s p = leb (length p) (length s) && text_beq (drop (length s - length p) s) p

unfoldable pub trim_suffix : Text → Text → Text
unfolding has_suffix
trim_suffix s p = if has_suffix s p then take (length s - length p) s else s

unfoldable pub trim_prefix : Text → Text → Text
unfolding has_prefix
trim_prefix s p = if has_prefix s p then drop (length p) s else s

-- The text before the first byte `c`, all of it if there is none.
unfoldable pub before : ℕ → Text → Text
before c [] = []
before c (d ∷ s) = let rest = before c s in if d == c then [] else d ∷ rest

unfoldable pub contains_byte : ℕ → Text → Bool
contains_byte c [] = false
contains_byte c (d ∷ s) = d == c || contains_byte c s

unfoldable pub contains : Text → Text → Bool
unfolding has_prefix
contains [] p = has_prefix [] p
contains (c ∷ s) p = has_prefix (c ∷ s) p || contains s p

unfoldable pub lower : ℕ → ℕ
lower c = if leb b'A' c && leb c b'Z' then c + 32 else c

unfoldable pub equal_fold : Text → Text → Bool
unfolding lower
equal_fold s t = text_beq (map lower s) (map lower t)

unfoldable pub is_space : ℕ → Bool
is_space c = c == 32 || leb 9 c && leb c 13

unfoldable pub trim_left : Text → Text
unfolding is_space
trim_left [] = []
trim_left (c ∷ s) = let rest = trim_left s in if is_space c then rest else c ∷ s

unfoldable pub trim_right : Text → Text
unfolding is_space
trim_right [] = []
trim_right (c ∷ s) = elim (trim_right s) [
  | [] ↦ if is_space c then [] else c ∷ []
  | d ∷ t ↦ c ∷ d ∷ t
]

unfoldable pub trim_space : Text → Text
unfolding trim_left trim_right
trim_space s = trim_right (trim_left s)

-- The words of a text, where `word` holds what has been read of the current one.
unfoldable pub fields_from : Text → Text → List Text
unfolding is_space
fields_from [] [] = []
fields_from (w ∷ ws) [] = (w ∷ ws) ∷ []
fields_from [] (c ∷ s) = fields_from (if is_space c then [] else c ∷ []) s
fields_from (w ∷ ws) (c ∷ s) =
    let more = fields_from (w ∷ ws ++ (c ∷ [])) s in
    let next = (w ∷ ws) ∷ fields_from [] s in if is_space c then next else more

unfoldable pub fields : Text → List Text
unfolding fields_from
fields s = fields_from [] s

-- A text has the suffix exactly if it ends in it.
pub has_suffix-append : (s p : Text) → has_suffix (s ++ p) p ≡ true
unfolding has_suffix
has_suffix-append s p = ground (arith, length-append s p, lemma)
  where
    lemma : text_beq (drop (length (s ++ p) - length p) (s ++ p)) p ≡ true
    lemma =
        let e : length (s ++ p) - length p ≡ length s = omega (arith, length-append s p) in
        rw (e, drop-append_length s p) (text_beq_refl p)

pub trim_suffix-append : (s p : Text) → trim_suffix (s ++ p) p ≡ s
unfolding trim_suffix
trim_suffix-append s p =
    let e : length (s ++ p) - length p ≡ length s = omega (arith, length-append s p) in
    rw (has_suffix-append s p, e, take-append_length s p) refl
