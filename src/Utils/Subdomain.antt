-- ===== src/Utils/Subdomain.antt =====
-- internal/shared/utils/subdomain.go: which subdomains are valid, which are reserved, and how a
-- random one is made. `ValidateSubdomain` asks the regular expression
-- ^[a-z0-9][a-z0-9-]{1,61}[a-z0-9]$.
pub mod Shape
use tunl.Base.{
  ℕ, zero, suc, ◌+◌, ◌-◌, ◌%◌, ◌≤◌, ◌<◌, ◌≡◌, ◌↔◌, refl, ap, Bool, true, false, not, ◌&&◌, ◌||◌,
  Option, none, some, List, [], ◌∷◌, ◌++◌, arith, ltb, leb, ◌==◌, if◌then◌else◌, Text, codes,
  text_beq, length, get_or, All,
}

-- The constant `SubdomainChars`.
abbrev pub subdomain_chars : Text
subdomain_chars = codes "abcdefghijklmnopqrstuvwxyz0123456789"

abbrev pub default_subdomain_length : ℕ
default_subdomain_length = 6

-- The character classes [a-z0-9] and [a-z0-9-].
unfoldable pub is_alnum : ℕ → Bool
is_alnum c = leb b'a' c && leb c b'z' || leb b'0' c && leb c b'9'

unfoldable pub is_label : ℕ → Bool
unfolding is_alnum
is_label c = is_alnum c || c == b'-'

-- The rest of a text after its first character, with `n` characters of the middle part behind.
unfoldable pub rest_matches : ℕ → Text → Bool
unfolding is_label
rest_matches n [] = false
rest_matches n (c ∷ []) = is_alnum c && leb 1 n && leb n 61
rest_matches n (c ∷ d ∷ s) = is_label c && rest_matches (n + 1) (d ∷ s)

unfoldable pub regex_matches : Text → Bool
unfolding rest_matches
regex_matches [] = false
regex_matches (c ∷ s) = is_alnum c && rest_matches 0 s

unfoldable pub validate_subdomain : Text → Bool
unfolding regex_matches
validate_subdomain s = if ltb (length s) 3 || ltb 63 (length s) then false else regex_matches s

abbrev pub reserved_words : List Text
reserved_words =
    codes "www"
    ∷ codes "api"
    ∷ codes "admin"
    ∷ codes "app"
    ∷ codes "mail"
    ∷ codes "ftp"
    ∷ codes "blog"
    ∷ codes "shop"
    ∷ codes "status"
    ∷ codes "health"
    ∷ codes "test"
    ∷ codes "dev"
    ∷ codes "staging"
    ∷ []

unfoldable pub contains : List Text → Text → Bool
contains [] s = false
contains (w ∷ ws) s = text_beq w s || contains ws s

unfoldable pub is_reserved : Text → Bool
unfolding contains
is_reserved s = contains reserved_words s

-- Character `i` of a generated subdomain: `draw i` is what `rand.Int` gives, or none on its error.
unfoldable pub generate_from : (ℕ → Option ℕ) → ℕ → ℕ → Text
generate_from draw i zero = []
generate_from draw i (suc n) =
    elim (draw i) [ some k ↦ get_or subdomain_chars k 0 | none ↦ get_or subdomain_chars (i % 36) 0 ]
    ∷ generate_from draw (i + 1) n

-- `length <= 0` asks for the default length.
unfoldable pub generate_subdomain : (ℕ → Option ℕ) → ℕ → Text
unfolding generate_from
generate_subdomain draw n = generate_from draw 0 (if n == 0 then default_subdomain_length else n)
