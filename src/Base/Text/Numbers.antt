-- ===== src/Base/Text/Numbers.antt =====
-- About strconv.Itoa and strconv.Atoi.
use svckit.Base.{
  ℕ, zero, suc, ◌+◌, ◌-◌, ◌*◌, ◌/◌, ◌%◌, ◌^◌, ◌<◌, ◌≤◌, ◌≡◌, ◌≢◌, refl, ap, ◌∙◌, ltb, ◌==◌, false,
  [], ◌∷◌, ◌++◌, some, arith, inl, inr, Bool-cases, All, All-append,
}
use svckit.Base.Int.{pos}
use svckit.Base.Text.{Text, itoa, itoa_fuel, digits_value, atoi}
use svckit.Base.Text.Laws.{Without}

digits_value-append_digit :
    (s : Text) (acc n m : ℕ)
    → digits_value acc s ≡ some n
    → m < 10
    → digits_value acc (s ++ (48 + m) ∷ []) ≡ some (n * 10 + m)
unfolding digits_value
digits_value-append_digit [] acc n m h lt = ground arith
digits_value-append_digit (c ∷ s) acc n m h lt =
    ground (arith, digits_value-append_digit s (acc * 10 + (c - 48)) n m)

digits_value-itoa_fuel : (f n : ℕ) → n < f → digits_value 0 (itoa_fuel f n) ≡ some n
unfolding itoa_fuel digits_value
digits_value-itoa_fuel zero n h = absurd (omega arith)
digits_value-itoa_fuel (suc f) n h = elim (Bool-cases (ltb n 10)) [
  | inl e ↦ rw e (ground arith)
  | inr e ↦ rw e (
      digits_value-append_digit (itoa_fuel f (n / 10)) 0 (n / 10) (n % 10)
        (digits_value-itoa_fuel f (n / 10) (ground arith)) (omega arith)
      ∙ ap some (omega arith))
]

pub digits_value-itoa : (n : ℕ) → digits_value 0 (itoa n) ≡ some n
unfolding itoa
digits_value-itoa n = digits_value-itoa_fuel (suc n) n (omega arith)

abbrev Digits : Text → Type 0
Digits = All (λ c. (48 ≤ c) × (c ≤ 57))

itoa_fuel-Digits : (f n : ℕ) → n < f → Digits (itoa_fuel f n)
unfolding itoa_fuel
itoa_fuel-Digits zero n h = absurd (omega arith)
itoa_fuel-Digits (suc f) n h = elim (Bool-cases (ltb n 10)) [
  | inl e ↦ rw e ((omega arith, ground arith), tt)
  | inr e ↦ rw e (
      All-append (λ c. (48 ≤ c) × (c ≤ 57)) (itoa_fuel f (n / 10)) _
        (itoa_fuel-Digits f (n / 10) (ground arith)) ((omega arith, omega arith), tt))
]

pub itoa-Without : (c n : ℕ) → 57 < c → Without c (itoa n)
unfolding itoa
itoa-Without c n h = every (itoa_fuel (suc n) n) (itoa_fuel-Digits (suc n) n (omega arith))
  where
    every : (s : Text) → Digits s → Without c s
    every [] d = tt
    every (b ∷ s) d = (λ e. absurd (omega (arith, e)), every s d.1)

pub itoa-injective : (n m : ℕ) → itoa n ≡ itoa m → n ≡ m
itoa-injective n m e = cc (digits_value-itoa n, digits_value-itoa m, ap (digits_value 0) e)

snoc-nonempty : (s : Text) (c : ℕ) → s ++ c ∷ [] ≢ []
snoc-nonempty [] c e = absurd (cc)
snoc-nonempty (b ∷ s) c e = absurd (cc)

itoa_fuel-nonempty : (f n : ℕ) → itoa_fuel (suc f) n ≢ []
unfolding itoa_fuel
itoa_fuel-nonempty f n e = elim (Bool-cases (ltb n 10)) [
  | inl small ↦ absurd (cc (rw small at e))
  | inr large ↦ absurd (snoc-nonempty (itoa_fuel f (n / 10)) (48 + n % 10) (rw large at e))
]

atoi_decimal :
    (s : Text) (n : ℕ)
    → s ≢ []
    → Digits s
    → digits_value 0 s ≡ some n
    → n < 2 ^ 63
    → atoi s ≡ some (pos n)
unfolding atoi
atoi_decimal [] n ne d v h = absurd (ne refl)
atoi_decimal (c ∷ s) n ne d v h =
    let plain : (c == 45) ≡ false = ground arith in
    let unsigned : (c == 43) ≡ false = ground arith in ground arith

-- A numeral of an int is read back.
pub atoi-itoa : (n : ℕ) → n < 2 ^ 63 → atoi (itoa n) ≡ some (pos n)
unfolding itoa
atoi-itoa n h =
    atoi_decimal (itoa_fuel (suc n) n) n (itoa_fuel-nonempty n n)
      (itoa_fuel-Digits (suc n) n (omega arith)) (digits_value-itoa_fuel (suc n) n (omega arith)) h
