-- ===== src/Base/Text.antt =====
-- Go strings as lists of bytes, and the functions of package `strings` and `strconv` that the
-- toolkit calls. The model's texts are ASCII, where a byte is a character.
pub mod Laws
pub mod Joins
pub mod Numbers
use Prim.Native.Nat.{ℕ, zero, suc, ◌+◌, ◌-◌, ◌*◌, ◌/◌, ◌%◌, ◌^◌}
use Prim.Native.Char.{code}
use Prim.Native.String.{String}
use mathlib.Core.Bool.{Bool, true, false, not, ◌&&◌, ◌||◌}
use mathlib.Core.Option.{Option, none, some}
use mathlib.Core.List.{List, [], ◌∷◌, ◌++◌, map, reverse}
use svckit.Base.Tests.{ltb, leb, ◌==◌, if◌then◌else◌}
use svckit.Base.Lists.{length, drop}
use svckit.Base.Int.{ℤ, pos, negsuc, negated}

abbrev pub Text : Type 0
Text = List ℕ

-- The bytes of an ASCII literal.
abbrev pub codes : String → Text
codes String.[] = []
codes (String.◌∷◌ c s) = code c ∷ codes s

-- s == t
unfoldable pub text_eq : Text → Text → Bool
text_eq [] [] = true
text_eq (a ∷ s) (b ∷ t) = a == b && text_eq s t
text_eq _ _ = false

-- strings.HasPrefix(s, p)
unfoldable pub has_prefix : Text → Text → Bool
has_prefix s [] = true
has_prefix [] (b ∷ p) = false
has_prefix (a ∷ s) (b ∷ p) = a == b && has_prefix s p

-- strings.TrimPrefix(s, p)
unfoldable pub trim_prefix : Text → Text → Text
unfolding has_prefix
trim_prefix s p = if has_prefix s p then drop (length p) s else s

-- s[:i], s[i+len(sep):] at the first index i of a non-empty sep in s; `none` for index -1.
unfoldable pub cut : Text → Text → Option (Text × Text)
unfolding has_prefix
cut sep [] = none
cut sep (c ∷ s) =
    let rest : Option (Text × Text) = elim (cut sep s) [
      | none ↦ none
      | some (a, b) ↦ some (c ∷ a, b)
    ] in
    if has_prefix (c ∷ s) sep then some ([], drop (length sep) (c ∷ s)) else rest

abbrev pub is_some {ℓ} : {A : Type ℓ} → Option A → Bool
is_some none = false
is_some (some _) = true

-- strings.Contains(s, sep), for a non-empty sep
unfoldable pub contains : Text → Text → Bool
unfolding cut
contains s sep = is_some (cut sep s)

-- s[:i] at the first index of sep, or s where there is none
unfoldable pub before : Text → Text → Text
unfolding cut
before sep s = elim (cut sep s) [ none ↦ s | some (a, b) ↦ a ]

unfoldable pub split_fuel : ℕ → Text → Text → List Text
split_fuel zero sep s = s ∷ []
split_fuel (suc f) sep s = elim (cut sep s) [ none ↦ s ∷ [] | some (a, b) ↦ a ∷ split_fuel f sep b ]

-- strings.Split(s, sep), for a non-empty sep: each cut consumes a byte, so the length is enough fuel
unfoldable pub split : Text → Text → List Text
unfolding split_fuel cut
split s sep = split_fuel (length s) sep s

-- strings.Join(parts, sep)
unfoldable pub join : List Text → Text → Text
join [] sep = []
join (s ∷ []) sep = s
join (s ∷ t ∷ ts) sep = s ++ (sep ++ join (t ∷ ts) sep)

-- The ASCII white space that strings.TrimSpace removes.
abbrev pub is_space : ℕ → Bool
is_space c = (leb 9 c && leb c 13) || c == 32

unfoldable pub trim_left : Text → Text
trim_left [] = []
trim_left (c ∷ s) = let rest = trim_left s in if is_space c then rest else c ∷ s

-- strings.TrimSpace(s)
unfoldable pub trim_space : Text → Text
unfolding trim_left
trim_space s = reverse (trim_left (reverse (trim_left s)))

abbrev pub is_digit : ℕ → Bool
is_digit c = leb 48 c && leb c 57

-- strings.ToLower(s), strings.ToUpper(s)
abbrev pub lower : ℕ → ℕ
lower c = if leb 65 c && leb c 90 then c + 32 else c

abbrev pub upper : ℕ → ℕ
upper c = if leb 97 c && leb c 122 then c - 32 else c

unfoldable pub to_lower : Text → Text
to_lower = map lower

unfoldable pub to_upper : Text → Text
to_upper = map upper

itoa_fuel : ℕ → ℕ → Text
itoa_fuel zero n = []
itoa_fuel (suc f) n =
    let rest = itoa_fuel f (n / 10) in
    if ltb n 10 then (48 + n) ∷ [] else rest ++ (48 + n % 10) ∷ []

-- strconv.Itoa(n) for n ≥ 0: n + 1 rounds are enough for the digits of n
unfoldable pub itoa : ℕ → Text
unfolding itoa_fuel
itoa n = itoa_fuel (suc n) n

-- The number that decimal digits stand for, `none` where another byte occurs.
unfoldable pub digits_value : ℕ → Text → Option ℕ
digits_value acc [] = some acc
digits_value acc (c ∷ s) =
    let rest = digits_value (acc * 10 + (c - 48)) s in if is_digit c then rest else none

-- strconv.Atoi(s), whose sign is optional and whose range is that of an int64; `none` for an error
unfoldable pub atoi : Text → Option ℤ
unfolding digits_value
atoi [] = none
atoi (c ∷ s) =
    let unsigned = if c == 45 || c == 43 then s else c ∷ s in
    let value : Option ℕ = elim unsigned [ [] ↦ none | d ∷ ds ↦ digits_value 0 (d ∷ ds) ] in
    elim value [
      | none ↦ none
      | some n ↦
          if c == 45
          then (if leb n (2 ^ 63) then some (negated n) else none)
          else (if ltb n (2 ^ 63) then some (pos n) else none)
    ]

-- What strconv.Atoi gives beside its error: the nearest int64 of a number that is out of range, or 0.
abbrev pub clamped_sign : Bool → Option ℕ → ℤ
clamped_sign is_negative none = pos 0
clamped_sign true (some n) = negsuc (2 ^ 63 - 1)
clamped_sign false (some n) = pos (2 ^ 63 - 1)

-- The value that strconv.ParseUint has read where it stops: at the end, or at the digit that leaves the
-- range of a uint64; `none` for a character before that which is no digit.
unfoldable pub scanned : ℕ → Text → Option ℕ
scanned acc [] = some acc
scanned acc (c ∷ s) =
    let value = acc * 10 + (c - 48) in
    let rest = scanned value s in
    if not (is_digit c) then none else if leb (2 ^ 64) value then some value else rest

unfoldable pub clamped : Text → ℤ
unfolding scanned
clamped [] = pos 0
clamped (c ∷ []) = clamped_sign false (scanned 0 (c ∷ []))
clamped (c ∷ d ∷ s) =
    if c == 45 || c == 43
    then clamped_sign (c == 45) (scanned 0 (d ∷ s))
    else clamped_sign false (scanned 0 (c ∷ d ∷ s))
