-- ===== src/Automaton/Variables/Numerals.antt =====
-- Numerals of different numbers differ.
use gazer.Base.{
  unsigned_size, ℕ, zero, suc, ◌+◌, ◌-◌, ◌*◌, ◌/◌, ◌%◌, ◌<◌, ◌≡◌, sym, ap, ◌∙◌, inl, inr,
  Bool-cases, List, [], ◌∷◌, ◌++◌, ltb, arith,
}
use gazer.Automaton.Variables.{digit_zero, digits_before, to_string, underscore, numbered_name}

-- The number that a numeral stands for, after digits for `n`.
unfoldable value_from : ℕ → List ℕ → ℕ
value_from n [] = n
value_from n (c ∷ cs) = value_from (n * 10 + (c - digit_zero)) cs

-- the numbers with `fuel` digits after the first
unfoldable limit : ℕ → ℕ
limit zero = 10
limit (suc fuel) = 10 * limit fuel

digits_before-value :
    (fuel n : ℕ) (text : List ℕ)
    → n < limit fuel
    → value_from 0 (digits_before fuel n text) ≡ value_from n text
unfolding digits_before value_from limit
digits_before-value zero n text below =
    let same : 0 * 10 + (digit_zero + n - digit_zero) ≡ n = omega arith in
    ap (λ k. value_from k text) same
digits_before-value (suc fuel) n text below = elim (Bool-cases (ltb n 10)) [
  | inl one_digit ↦
      let same : 0 * 10 + (digit_zero + n - digit_zero) ≡ n = omega arith in
      rw one_digit (ap (λ k. value_from k text) same)
  | inr more ↦
      let smaller : n / 10 < limit fuel = omega arith in
      let same : n / 10 * 10 + (digit_zero + n % 10 - digit_zero) ≡ n = omega arith in
      rw more (
        digits_before-value fuel (n / 10) ((digit_zero + n % 10) ∷ text) smaller
        ∙ ap (λ k. value_from k text) same)
]

to_string-value : (n : ℕ) → n < unsigned_size → value_from 0 (to_string n) ≡ n
unfolding to_string value_from limit
to_string-value n below = digits_before-value 9 n [] (omega arith)

to_string-injective :
    (a b : ℕ) → a < unsigned_size → b < unsigned_size → to_string a ≡ to_string b → a ≡ b
to_string-injective a b below below' same =
    sym (to_string-value a below) ∙ ap (value_from 0) same ∙ to_string-value b below'

cancel_left : (base xs ys : List ℕ) → (base ++ xs) ≡ (base ++ ys) → xs ≡ ys
cancel_left [] xs ys same = same
cancel_left (b ∷ base) xs ys same = cancel_left base xs ys (cc)

pub numbered_name-injective :
    (base : List ℕ) (a b : ℕ)
    → a < unsigned_size
    → b < unsigned_size
    → numbered_name base a ≡ numbered_name base b
    → a ≡ b
unfolding numbered_name
numbered_name-injective base a b below below' same =
    let tails = cancel_left base (underscore ∷ to_string a) (underscore ∷ to_string b) same in
    to_string-injective a b below below' (cc)
