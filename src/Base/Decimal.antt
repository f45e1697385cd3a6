-- ===== src/Base/Decimal.antt =====
-- Numbers in decimal: what `fmt` prints with `%d` and `strconv.Atoi` reads.
use tunl.Base.{
  ℕ, zero, suc, ◌+◌, ◌-◌, ◌*◌, ◌/◌, ◌%◌, ◌^◌, ◌≤◌, ◌<◌, ◌≡◌, ◌∙◌, ap, inl, inr, Bool, true, false,
  ◌&&◌, Option, none, some, [], ◌∷◌, ◌++◌, arith, ltb, leb, ◌==◌, if◌then◌else◌, Bool-cases, Text,
}
use tunl.Base.Int.{ℤ, pos, negsuc}

-- The digits of `n`, on fuel; `n + 1` is enough.
unfoldable pub digits : ℕ → ℕ → Text
digits zero n = []
digits (suc fuel) n = elim (ltb n 10) [
  | true ↦ (48 + n) ∷ []
  | false ↦ digits fuel (n / 10) ++ (48 + n % 10) ∷ []
]

unfoldable pub show : ℕ → Text
unfolding digits
show n = digits (suc n) n

-- The value of digits that follow what makes `acc`.
unfoldable pub value_from : ℕ → Text → Option ℕ
value_from acc [] = some acc
value_from acc (c ∷ s) =
    let rest = value_from (acc * 10 + (c - 48)) s in if leb 48 c && leb c 57 then rest else none

unfoldable pub value : Text → Option ℕ
unfolding value_from
value [] = none
value (c ∷ s) = value_from 0 (c ∷ s)

-- `Atoi`, for an int of 64 bits.
unfoldable pub atoi : Text → Option ℤ
unfolding value
atoi [] = none
atoi (c ∷ s) =
    if c == b'-'
    then elim (value s) [
      | none ↦ none
      | some zero ↦ some (pos 0)
      | some (suc n) ↦ if ltb n (2 ^ 63) then some (negsuc n) else none
    ]
    else elim (value (if c == b'+' then s else c ∷ s)) [
      | none ↦ none
      | some n ↦ if ltb n (2 ^ 63) then some (pos n) else none
    ]

value_from-append :
    (acc d : ℕ) (s : Text) (n : ℕ)
    → d < 10
    → value_from acc s ≡ some n
    → value_from acc (s ++ (48 + d) ∷ []) ≡ some (n * 10 + d)
unfolding value_from
value_from-append acc d [] n l e = ground arith
value_from-append acc d (c ∷ s) n l e =
    ground (arith, value_from-append (acc * 10 + (c - 48)) d s n l)

value_from-digits : (fuel n : ℕ) → n < fuel → value_from 0 (digits fuel n) ≡ some n
unfolding digits
value_from-digits zero n l = absurd (omega arith)
value_from-digits (suc fuel) n l = elim (Bool-cases (ltb n 10)) [
  | inl q ↦ unfold value_from in ground arith
  | inr q ↦
      let big : 10 ≤ n = ground arith in
      let ih : value_from 0 (digits fuel (n / 10)) ≡ some (n / 10) =
        value_from-digits fuel (n / 10) (omega arith) in
      let step : value_from 0 (digits fuel (n / 10) ++ (48 + n % 10) ∷ [])
          ≡ some (n / 10 * 10 + n % 10) =
        value_from-append 0 (n % 10) (digits fuel (n / 10)) (n / 10) (omega arith) ih in
      let same : n / 10 * 10 + n % 10 ≡ n = omega arith in ground (arith, step ∙ ap some same)
]

digits_head :
    (fuel n : ℕ) → n < fuel → (c : ℕ) × (s : Text) × (digits fuel n ≡ c ∷ s) × (48 ≤ c) × (c ≤ 57)
unfolding digits
digits_head zero n l = absurd (omega arith)
digits_head (suc fuel) n l = elim (Bool-cases (ltb n 10)) [
  | inl q ↦ (48 + n, [], ground arith, omega arith, ground arith)
  | inr q ↦
      let big : 10 ≤ n = ground arith in
      let (c, s, e, low, high) = digits_head fuel (n / 10) (omega arith) in
      (c, s ++ (48 + n % 10) ∷ [], ground arith, low, high)
]

-- What is printed is read back.
pub atoi-show : (n : ℕ) → n < 2 ^ 63 → atoi (show n) ≡ some (pos n)
unfolding show
atoi-show n l =
    let (c, s, e, low, high) = digits_head (suc n) n (omega arith) in
    let v : value_from 0 (c ∷ s) ≡ some n = cc (e, value_from-digits (suc n) n (omega arith)) in
    rw e (unfold atoi value in ground (arith, v))

pub show_head : (n : ℕ) → (c : ℕ) × (s : Text) × (show n ≡ c ∷ s)
unfolding show
show_head n = let (c, s, e, low, high) = digits_head (suc n) n (omega arith) in (c, s, e)

-- A text of digits alone.
unfoldable pub all_digits : Text → Bool
all_digits [] = true
all_digits (c ∷ s) = leb 48 c && leb c 57 && all_digits s
