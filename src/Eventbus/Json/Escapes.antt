-- ===== src/Eventbus/Json/Escapes.antt =====
-- About the text of strings and numbers in JSON: how the end of a text is found in what follows it.
use mathlib.Core.List.{append_assoc}
use svckit.Base.{
  ℕ, ◌+◌, ◌-◌, ◌*◌, ◌≡◌, refl, ap, ap₂, sym, ◌∙◌, ltb, leb, ◌==◌, Bool, true, false, ◌&&◌, ◌||◌,
  List, [], ◌∷◌, ◌++◌, Option, none, some, if◌then◌else◌, arith,
}
use svckit.Base.Text.{Text}
use svckit.Eventbus.Json.{
  NumberByte, d0, d1, d2, d3, d4, d5, d6, d7, d8, d9, minus, plus, point, exponent, byte, bytes,
  escape, escape_all, encode_string,
}

abbrev unhex : ℕ → ℕ
unhex c = if ltb c 58 then c - 48 else c - 87

abbrev short_escape : ℕ → ℕ
short_escape c =
    if c == 98
    then 8
    else if c == 102
    then 12
    else if c == 110
    then 10
    else if c == 114
    then 13
    else if c == 116
    then 9
    else c

-- The first character of a string's text, and what follows it.
unescape : Text → Option (ℕ × Text)
unescape [] = none
unescape (a ∷ []) = some (a, [])
unescape (a ∷ b ∷ s) =
    if a == 92
    then (if b == 117 then long_escape s else some (short_escape b, s))
    else some (a, b ∷ s)
  where
    long_escape : Text → Option (ℕ × Text)
    long_escape (y ∷ z ∷ h ∷ l ∷ s) = some (unhex h * 16 + unhex l, s)
    long_escape _ = none

unescape-escape : (c : ℕ) (s : Text) → unescape (escape c ++ s) ≡ some (c, s)
unfolding unescape escape
unescape-escape c [] = ground arith
unescape-escape c (b ∷ s) = ground arith

escape-cancel : (a b : ℕ) (s t : Text) → escape a ++ s ≡ escape b ++ t → (a ≡ b) × (s ≡ t)
escape-cancel a b s t e =
    let both = sym (unescape-escape a s) ∙ (ap unescape e ∙ unescape-escape b t) in (cc, cc)

abbrev starts_quote : Text → Bool
starts_quote [] = false
starts_quote (c ∷ s) = c == 34

starts_quote-escape : (c : ℕ) (s : Text) → starts_quote (escape c ++ s) ≡ false
unfolding escape
starts_quote-escape c s = ground arith

chars-cancel :
    (a b s t : Text) → escape_all a ++ 34 ∷ s ≡ escape_all b ++ 34 ∷ t → (a ≡ b) × (s ≡ t)
unfolding escape_all
chars-cancel [] [] s t e = (refl, cc)
chars-cancel [] (d ∷ b) s t e = absurd (
    cc (
      ap starts_quote (e ∙ append_assoc (escape d) (escape_all b) (34 ∷ t)),
      starts_quote-escape d (escape_all b ++ 34 ∷ t),
    ))
chars-cancel (c ∷ a) [] s t e = absurd (
    cc (
      ap starts_quote (sym (append_assoc (escape c) (escape_all a) (34 ∷ s)) ∙ e),
      starts_quote-escape c (escape_all a ++ 34 ∷ s),
    ))
chars-cancel (c ∷ a) (d ∷ b) s t e =
    let first = escape-cancel c d _ _ (
      sym (append_assoc (escape c) (escape_all a) (34 ∷ s))
      ∙ (e ∙ append_assoc (escape d) (escape_all b) (34 ∷ t))) in
    let rest = chars-cancel a b s t first.1 in (ap₂ (λ x xs. x ∷ xs) first.0 rest.0, rest.1)

-- A string's text ends at its closing quote, whatever follows.
pub encode_string-cancel :
    (a b s t : Text) → encode_string a ++ s ≡ encode_string b ++ t → (a ≡ b) × (s ≡ t)
unfolding encode_string
encode_string-cancel a b s t e = chars-cancel a b s t (
    sym (append_assoc (escape_all a) (34 ∷ []) s)
    ∙ (tail_eq e ∙ append_assoc (escape_all b) (34 ∷ []) t))
  where
    tail_eq : {x y : Text} → 34 ∷ x ≡ 34 ∷ y → x ≡ y
    tail_eq h = cc

unbyte : ℕ → NumberByte
unbyte c =
    if c == 48
    then d0
    else if c == 49
    then d1
    else if c == 50
    then d2
    else if c == 51
    then d3
    else if c == 52
    then d4
    else if c == 53
    then d5
    else if c == 54
    then d6
    else if c == 55
    then d7
    else if c == 56
    then d8
    else if c == 57
    then d9
    else if c == 45
    then minus
    else if c == 43
    then plus
    else if c == 46
    then point
    else exponent

unbyte-byte : (b : NumberByte) → unbyte (byte b) ≡ b
unfolding unbyte
unbyte-byte d0 = refl
unbyte-byte _ = refl

pub byte-injective : (a b : NumberByte) → byte a ≡ byte b → a ≡ b
byte-injective a b e = sym (unbyte-byte a) ∙ (ap unbyte e ∙ unbyte-byte b)

abbrev pub numeric : ℕ → Bool
numeric c = (leb 48 c && leb c 57) || c == 45 || c == 43 || c == 46 || c == 101

numeric-byte : (b : NumberByte) → numeric (byte b) ≡ true
numeric-byte d0 = refl
numeric-byte _ = refl

-- A number ends before the text.
abbrev pub Stops : Text → Type 0
Stops [] = Unit
Stops (c ∷ s) = numeric c ≡ false

pub bytes-cancel :
    (a b : List NumberByte) (s t : Text)
    → Stops s
    → Stops t
    → bytes a ++ s ≡ bytes b ++ t
    → (a ≡ b) × (s ≡ t)
unfolding bytes
bytes-cancel [] [] s t hs ht e = (refl, e)
bytes-cancel [] (d ∷ b) [] t hs ht e = absurd (cc)
bytes-cancel [] (d ∷ b) (c ∷ s) t hs ht e =
    let same : c ≡ byte d = cc in absurd (cc (ap numeric same, numeric-byte d, hs))
bytes-cancel (c ∷ a) [] s [] hs ht e = absurd (cc)
bytes-cancel (c ∷ a) [] s (d ∷ t) hs ht e =
    let same : byte c ≡ d = cc in absurd (cc (ap numeric same, numeric-byte c, ht))
bytes-cancel (c ∷ a) (d ∷ b) s t hs ht e =
    let rest = bytes-cancel a b s t hs ht (cc) in
    (ap₂ (λ x xs. x ∷ xs) (byte-injective c d (cc)) rest.0, rest.1)
