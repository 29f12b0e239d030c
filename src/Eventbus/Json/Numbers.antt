-- ===== src/Eventbus/Json/Numbers.antt =====
-- About integers as JSON numbers: which integer a numeral stands for.
use svckit.Base.{
  ℕ, zero, suc, ◌+◌, ◌*◌, ◌/◌, ◌%◌, ◌<◌, ◌≡◌, ap, sym, ◌∙◌, ltb, List, [], ◌∷◌, arith, inl, inr,
  Bool-cases,
}
use svckit.Base.Int.{ℤ, pos, negsuc}
use svckit.Eventbus.Json.{
  NumberByte, d1, d2, d3, d4, d5, d6, d7, d8, d9, minus, Json, number, digit, numeral, integer,
}

digit_value : NumberByte → ℕ
digit_value d1 = 1
digit_value d2 = 2
digit_value d3 = 3
digit_value d4 = 4
digit_value d5 = 5
digit_value d6 = 6
digit_value d7 = 7
digit_value d8 = 8
digit_value d9 = 9
digit_value minus = 10
digit_value _ = 0

-- The number whose digits follow those of `n`.
value : ℕ → List NumberByte → ℕ
value n [] = n
value n (b ∷ bs) = value (n * 10 + digit_value b) bs

abbrev value_of : NumberByte × List NumberByte → ℕ
value_of d = value (digit_value d.0) d.1

digit_value-digit : (n : ℕ) → n < 10 → digit_value (digit n) ≡ n
unfolding digit_value
digit_value-digit n h = ground arith

value-numeral :
    (f n : ℕ) (tail : List NumberByte) → n < suc f → value_of (numeral f n tail) ≡ value n tail
unfolding numeral
value-numeral zero n tail h =
    ap (λ d. value d tail) (digit_value-digit (n % 10) (omega arith) ∙ omega arith)
value-numeral (suc f) n tail h = elim (Bool-cases (ltb n 10)) [
  | inl e ↦ rw e (ap (λ d. value d tail) (digit_value-digit n (ground arith)))
  | inr e ↦ rw e (
      value-numeral f (n / 10) (digit (n % 10) ∷ tail) (ground arith)
      ∙ unfold value in
        ap (λ d. value d tail) (omega (arith, digit_value-digit (n % 10) (omega arith))))
]

digit-lt : (n : ℕ) → digit_value (digit n) < 10
unfolding digit_value
digit-lt n = ground arith

numeral-lt : (f n : ℕ) (tail : List NumberByte) → digit_value (numeral f n tail).0 < 10
unfolding numeral
numeral-lt zero n tail = digit-lt (n % 10)
numeral-lt (suc f) n tail = elim (Bool-cases (ltb n 10)) [
  | inl e ↦ rw e (digit-lt n)
  | inr e ↦ rw e (numeral-lt f (n / 10) (digit (n % 10) ∷ tail))
]

abbrev first_byte : Json → NumberByte
first_byte (number b bs) = b
first_byte _ = minus

abbrev further_bytes : Json → List NumberByte
further_bytes (number b bs) = bs
further_bytes _ = []

whole-injective : (n m : ℕ) → numeral (suc n) n [] ≡ numeral (suc m) m [] → n ≡ m
unfolding value
whole-injective n m e =
    sym (value-numeral (suc n) n [] (omega arith))
    ∙ (ap value_of e ∙ value-numeral (suc m) m [] (omega arith))

-- No integer's numeral is that of another.
pub integer-injective : (a b : ℤ) → integer a ≡ integer b → a ≡ b
unfolding integer
integer-injective (pos n) (pos m) e = ap pos (whole-injective n m (cc))
integer-injective (pos n) (negsuc m) e =
    absurd (
      unfold digit_value in
      omega (arith, numeral-lt (suc n) n [], ap digit_value (ap first_byte e)))
integer-injective (negsuc n) (pos m) e =
    absurd (
      unfold digit_value in
      omega (arith, numeral-lt (suc m) m [], ap digit_value (ap first_byte e)))
integer-injective (negsuc n) (negsuc m) e =
    let whole = whole-injective (suc n) (suc m) (cc) in ap negsuc (omega arith)
