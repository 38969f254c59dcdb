-- ===== src/Registration/Decimal.antt =====
-- Decimal numbers as texts: `String(n)`, `padStart` with zeros, and `Number` of digits.
use delivery_driver_manageme.Base.{
  ℕ, suc, zero, ◌+◌, ◌-◌, ◌*◌, ◌/◌, ◌%◌, ◌<◌, ◌≡◌, refl, ap, ◌∙◌, ltb, leb, Bool, true, ◌&&◌,
  if◌then◌else◌, Option, some, [], ◌∷◌, ◌++◌, length, all, arith, Bool-cases, inl, inr,
}
use delivery_driver_manageme.Schema.{Text}

abbrev pub digit : ℕ → ℕ
digit d = 48 + d

abbrev pub is_digit : ℕ → Bool
is_digit c = leb 48 c && leb c 57

-- The digits of a number, with fuel for each.
unfoldable pub digits : ℕ → ℕ → Text
digits zero n = []
digits (suc fuel) n =
    let rest = digits fuel (n / 10) in
    if ltb n 10 then digit n ∷ [] else rest ++ (digit (n % 10) ∷ [])

-- `String(n)`
unfoldable pub decimal : ℕ → Text
decimal n = digits (suc n) n

unfoldable pub zeros : ℕ → Text
zeros zero = []
zeros (suc k) = 48 ∷ zeros k

-- `text.padStart(width, '0')`
abbrev pub pad_start : ℕ → Text → Text
pad_start width text = zeros (width - length text) ++ text

unfoldable pub value : ℕ → Text → ℕ
value acc [] = acc
value acc (c ∷ cs) = value (acc * 10 + (c - 48)) cs

-- `Number(text)`. A text that is not all digits is left to `other`: a sign, a fraction, an exponent, hex.
unfoldable pub number : (Text → Option ℕ) → Text → Option ℕ
number other text = if all is_digit text then some (value 0 text) else other text

value-++ : (acc : ℕ) (xs ys : Text) → value acc (xs ++ ys) ≡ value (value acc xs) ys
unfolding value
value-++ acc [] ys = refl
value-++ acc (x ∷ xs) ys = value-++ (acc * 10 + (x - 48)) xs ys

all-++ :
    (xs ys : Text)
    → all is_digit xs ≡ true
    → all is_digit ys ≡ true
    → all is_digit (xs ++ ys) ≡ true
unfolding all
all-++ [] ys h h' = h'
all-++ (x ∷ xs) ys h h' = ground (arith, all-++ xs ys)

value-digits : (fuel n : ℕ) → n < fuel → value 0 (digits fuel n) ≡ n
unfolding digits value
value-digits zero n h = omega (arith, h)
value-digits (suc fuel) n h = elim (Bool-cases (ltb n 10)) [
  | inl small ↦ rw small (ground arith)
  | inr big ↦
      let ih = value-digits fuel (n / 10) (ground (arith, big, h)) in
      rw big (value-++ 0 (digits fuel (n / 10)) (digit (n % 10) ∷ []) ∙ omega (arith, ih))
]

all-digits : (fuel n : ℕ) → all is_digit (digits fuel n) ≡ true
unfolding digits all
all-digits zero n = refl
all-digits (suc fuel) n = elim (Bool-cases (ltb n 10)) [
  | inl small ↦ rw small (ground arith)
  | inr big ↦ rw big (
      all-++ (digits fuel (n / 10)) (digit (n % 10) ∷ []) (all-digits fuel (n / 10)) (ground arith))
]

value-zeros : (k : ℕ) (text : Text) → value 0 (zeros k ++ text) ≡ value 0 text
unfolding value zeros
value-zeros zero text = refl
value-zeros (suc k) text = value-zeros k text

all-zeros : (k : ℕ) → all is_digit (zeros k) ≡ true
unfolding all zeros
all-zeros zero = refl
all-zeros (suc k) = all-zeros k

-- Reading a number back, padded to any width.
pub number-pad_start :
    (other : Text → Option ℕ) (width n : ℕ) → number other (pad_start width (decimal n)) ≡ some n
unfolding number decimal
number-pad_start other width n =
    let text = digits (suc n) n in
    let k = width - length text in
    rw (all-++ (zeros k) text (all-zeros k) (all-digits (suc n) n))
      (ap some (value-zeros k text ∙ value-digits (suc n) n (omega arith)))
