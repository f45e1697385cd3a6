-- ===== src/Utils/Subdomain/Shape.antt =====
-- internal/shared/utils/subdomain.go: what `ValidateSubdomain` accepts, told without the regular
-- expression, and that generated subdomains are accepted.
use tunl.Base.{
  ℕ, zero, suc, ◌+◌, ◌%◌, ◌≤◌, ◌<◌, ◌≡◌, ◌↔◌, refl, true, Option, some, [], ◌∷◌, arith, ◌==◌,
  if◌then◌else◌, Text, length, get_or, All, Option-cases, inl, inr, holds_below, holds_below_lem,
}
use tunl.Utils.Subdomain.{
  is_alnum, is_label, rest_matches, validate_subdomain, generate_from, generate_subdomain,
  subdomain_chars, default_subdomain_length,
}

abbrev last_or : ℕ → Text → ℕ
last_or d [] = d
last_or d (c ∷ s) = last_or c s

abbrev first_or : ℕ → Text → ℕ
first_or d [] = d
first_or d (c ∷ s) = c

-- A DNS label of 3 to 63 lower-case letters, digits and hyphens, with no hyphen at either end.
pub record IsSubdomain (s : Text) : Type 0 where
  pub long : 3 ≤ length s
  pub short : length s ≤ 63
  pub letters : All (λ c. is_label c ≡ true) s
  pub starts : is_alnum (first_or b'-' s) ≡ true
  pub ends : is_alnum (last_or b'-' s) ≡ true

record IsRest (n : ℕ) (d : ℕ) (s : Text) : Type 0 where
  some_left : 1 ≤ length s
  enough : 2 ≤ n + length s
  few : n + length s ≤ 62
  letters : All (λ c. is_label c ≡ true) s
  ends : is_alnum (last_or d s) ≡ true

rest_matches-IsRest : (n d : ℕ) (s : Text) → rest_matches n s ≡ true → IsRest n d s
unfolding rest_matches
rest_matches-IsRest n d [] h = cc
rest_matches-IsRest n d (c ∷ []) h = ground arith
rest_matches-IsRest n d (c ∷ e ∷ s) h =
    let r : rest_matches (n + 1) (e ∷ s) ≡ true = ground arith in
    let i = rest_matches-IsRest (n + 1) c (e ∷ s) r in
    record {
      some_left = omega arith;
      enough = omega (arith, i.enough);
      few = omega (arith, i.few);
      letters = (ground arith, i.letters);
      ends = i.ends;
    }

IsRest-rest_matches : (n d : ℕ) (s : Text) → IsRest n d s → rest_matches n s ≡ true
unfolding rest_matches
IsRest-rest_matches n d [] h = absurd (omega arith)
IsRest-rest_matches n d (c ∷ []) h = ground arith
IsRest-rest_matches n d (c ∷ e ∷ s) h =
    let i : IsRest (n + 1) c (e ∷ s) = record {
      some_left = omega arith;
      enough = omega (arith, h.some_left);
      few = omega (arith, h.few);
      letters = h.letters.1;
      ends = h.ends;
    } in
    ground (arith, IsRest-rest_matches (n + 1) c (e ∷ s) i, h.letters.0)

-- `ValidateSubdomain` accepts exactly the texts of 3 to 63 bytes that consist of lower-case letters,
-- digits and hyphens and have no hyphen at either end.
pub validate_subdomain-IsSubdomain : (s : Text) → (validate_subdomain s ≡ true) ↔ IsSubdomain s
unfolding validate_subdomain
validate_subdomain-IsSubdomain s = (to s, from s)
  where
    to : (s : Text) → validate_subdomain s ≡ true → IsSubdomain s
    to [] h = cc
    to (c ∷ s) h =
        let i = rest_matches-IsRest 0 c s (ground arith) in
        record {
          long = ground arith;
          short = ground arith;
          letters = (ground arith, i.letters);
          starts = ground arith;
          ends = i.ends;
        }

    from : (s : Text) → IsSubdomain s → validate_subdomain s ≡ true
    from [] h = absurd (omega (arith, h.long))
    from (c ∷ s) h =
        let i : IsRest 0 c s = record {
          some_left = omega (arith, h.long);
          enough = omega (arith, h.long);
          few = omega (arith, h.short);
          letters = h.letters.1;
          ends = h.ends;
        } in
        ground (arith, IsRest-rest_matches 0 c s i, h.long, h.short, h.starts)

chars_alnum : (k : ℕ) → k < 36 → is_alnum (get_or subdomain_chars k 0) ≡ true
unfolding holds_below is_alnum
chars_alnum k h = holds_below_lem (λ k. is_alnum (get_or subdomain_chars k 0)) 36 refl h

alnum-label : (c : ℕ) → is_alnum c ≡ true → is_label c ≡ true
unfolding is_label
alnum-label c h = ground arith

-- What `rand.Int` promises: a number below its bound, which is the number of characters.
abbrev pub DrawsChars : (ℕ → Option ℕ) → Type 0
DrawsChars draw = (i k : ℕ) → draw i ≡ some k → k < 36

abbrev Alnum : Text → Type 0
Alnum = All (λ c. is_alnum c ≡ true)

generate_from-Alnum :
    (draw : ℕ → Option ℕ) (i n : ℕ) → DrawsChars draw → Alnum (generate_from draw i n)
unfolding generate_from
generate_from-Alnum draw i zero h = tt
generate_from-Alnum draw i (suc n) h = elim (Option-cases (draw i)) [
  | inl e ↦ (rw e (chars_alnum (i % 36) (omega arith)), generate_from-Alnum draw (i + 1) n h)
  | inr (k, e) ↦ (rw e (chars_alnum k (h i k e)), generate_from-Alnum draw (i + 1) n h)
]

length-generate_from : (draw : ℕ → Option ℕ) (i n : ℕ) → length (generate_from draw i n) ≡ n
unfolding generate_from
length-generate_from draw i zero = refl
length-generate_from draw i (suc n) = omega (arith, length-generate_from draw (i + 1) n)

Alnum-labels : (s : Text) → Alnum s → All (λ c. is_label c ≡ true) s
Alnum-labels [] h = tt
Alnum-labels (c ∷ s) h = (alnum-label c h.0, Alnum-labels s h.1)

Alnum-last : (d : ℕ) (s : Text) → Alnum s → 1 ≤ length s → is_alnum (last_or d s) ≡ true
Alnum-last d [] h l = absurd (omega arith)
Alnum-last d (c ∷ []) h l = h.0
Alnum-last d (c ∷ e ∷ s) h l = Alnum-last c (e ∷ s) h.1 (omega arith)

Alnum-first : (d : ℕ) (s : Text) → Alnum s → 1 ≤ length s → is_alnum (first_or d s) ≡ true
Alnum-first d [] h l = absurd (omega arith)
Alnum-first d (c ∷ s) h l = h.0

-- A generated subdomain of 3 to 63 characters is valid, also where `rand.Int` fails.
pub validate_subdomain-generate_subdomain :
    (draw : ℕ → Option ℕ) (n : ℕ)
    → DrawsChars draw
    → 3 ≤ n
    → n ≤ 63
    → validate_subdomain (generate_subdomain draw n) ≡ true
unfolding generate_subdomain
validate_subdomain-generate_subdomain draw n h lo hi =
    (validate_subdomain-IsSubdomain _).1 (rw zero_test shape)
  where
    zero_test : (if n == 0 then default_subdomain_length else n) ≡ n
    zero_test = ground arith

    l : length (generate_from draw 0 n) ≡ n
    l = length-generate_from draw 0 n

    shape : IsSubdomain (generate_from draw 0 n)
    shape =
        let a = generate_from-Alnum draw 0 n h in
        record {
          long = omega (arith, l);
          short = omega (arith, l);
          letters = Alnum-labels _ a;
          starts = Alnum-first b'-' _ a (omega (arith, l));
          ends = Alnum-last b'-' _ a (omega (arith, l));
        }
