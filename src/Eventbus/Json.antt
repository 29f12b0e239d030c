-- ===== src/Eventbus/Json.antt =====
-- JSON values and their canonical text: `marshalCanonicalJSON` of eventbus/signing.go, with what it
-- uses of encoding/json. A map is the list of its entries in the order in which a range loop meets
-- them, and a number is the text that json.Marshal prints for it.
pub mod Print
pub mod Escapes
pub mod Injective
pub mod Numbers
pub mod Reordered
use svckit.Base.{
  ℕ, zero, suc, ◌+◌, ◌-◌, ◌/◌, ◌%◌, ltb, ◌==◌, Bool, true, false, ◌||◌, List, [], ◌∷◌, ◌++◌,
  if◌then◌else◌,
}
use svckit.Base.Int.{ℤ, pos, negsuc}
use svckit.Base.Text.{Text, codes, join}

-- The bytes of a number.
pub data NumberByte : Type 0 where
  d0 d1 d2 d3 d4 d5 d6 d7 d8 d9 minus plus point exponent : NumberByte

mutual
  pub data Json : Type 0 where
    null : Json
    bool : Bool → Json
    number : NumberByte → List NumberByte → Json
    string : Text → Json
    array : Items → Json
    object : Fields → Json

  pub data Items : Type 0 where
    no_items : Items
    item : Json → Items → Items

  pub data Fields : Type 0 where
    no_fields : Fields
    field : Text → Json → Fields → Fields

abbrev pub byte : NumberByte → ℕ
byte d0 = 48
byte d1 = 49
byte d2 = 50
byte d3 = 51
byte d4 = 52
byte d5 = 53
byte d6 = 54
byte d7 = 55
byte d8 = 56
byte d9 = 57
byte minus = 45
byte plus = 43
byte point = 46
byte exponent = 101

unfoldable pub bytes : List NumberByte → Text
bytes [] = []
bytes (b ∷ bs) = byte b ∷ bytes bs

abbrev pub hex_digit : ℕ → ℕ
hex_digit n = if ltb n 10 then 48 + n else 87 + n

-- The text of one character in a JSON string, as json.Marshal escapes it, HTML included.
unfoldable pub escape : ℕ → Text
escape c =
    if c == 34 || c == 92
    then 92 ∷ c ∷ []
    else if c == 8
    then 92 ∷ 98 ∷ []
    else if c == 12
    then 92 ∷ 102 ∷ []
    else if c == 10
    then 92 ∷ 110 ∷ []
    else if c == 13
    then 92 ∷ 114 ∷ []
    else if c == 9
    then 92 ∷ 116 ∷ []
    else if ltb c 32 || c == 60 || c == 62 || c == 38
    then 92 ∷ 117 ∷ 48 ∷ 48 ∷ hex_digit (c / 16) ∷ hex_digit (c % 16) ∷ []
    else c ∷ []

unfoldable pub escape_all : Text → Text
unfolding escape
escape_all [] = []
escape_all (c ∷ s) = escape c ++ escape_all s

-- json.Marshal of a string
unfoldable pub encode_string : Text → Text
unfolding escape_all
encode_string s = 34 ∷ (escape_all s ++ 34 ∷ [])

-- The order of sort.Strings.
unfoldable pub text_le : Text → Text → Bool
text_le [] t = true
text_le (a ∷ s) [] = false
text_le (a ∷ s) (b ∷ t) = ltb a b || (if a == b then text_le s t else false)

-- The entries of a map in the order of their sorted keys, each with its value.
module _ {V : Type 0} where
  unfoldable pub insert_by_key : Text → V → List (Text × V) → List (Text × V)
  unfolding text_le
  insert_by_key k v [] = (k, v) ∷ []
  insert_by_key k v ((j, w) ∷ m) =
      let rest = insert_by_key k v m in if text_le k j then (k, v) ∷ (j, w) ∷ m else (j, w) ∷ rest

  unfoldable pub sort_by_key : List (Text × V) → List (Text × V)
  unfolding insert_by_key
  sort_by_key [] = []
  sort_by_key ((k, v) ∷ m) = insert_by_key k v (sort_by_key m)

-- `keyJSON + ":" + valueJSON`
unfoldable pub parts : List (Text × Text) → List Text
unfolding encode_string
parts [] = []
parts ((k, value_json) ∷ m) = (encode_string k ++ (58 ∷ value_json)) ∷ parts m

-- `marshalCanonicalJSON`, which fails on no JSON value.
unfoldable mutual
  unfolding bytes encode_string parts sort_by_key join

  pub marshal : Json → Text
  marshal null = codes "null"
  marshal (bool true) = codes "true"
  marshal (bool false) = codes "false"
  marshal (number b bs) = byte b ∷ bytes bs
  marshal (string s) = encode_string s
  marshal (array xs) = 91 ∷ (join (marshal_items xs) (44 ∷ []) ++ 93 ∷ [])
  marshal (object fs) = 123 ∷ (join (parts (sort_by_key (marshal_fields fs))) (44 ∷ []) ++ 125 ∷ [])

  pub marshal_items : Items → List Text
  marshal_items no_items = []
  marshal_items (item x xs) = marshal x ∷ marshal_items xs

  pub marshal_fields : Fields → List (Text × Text)
  marshal_fields no_fields = []
  marshal_fields (field k v fs) = (k, marshal v) ∷ marshal_fields fs

-- The last digit of a number.
abbrev pub digit : ℕ → NumberByte
digit n =
    if n == 0
    then d0
    else if n == 1
    then d1
    else if n == 2
    then d2
    else if n == 3
    then d3
    else if n == 4
    then d4
    else if n == 5
    then d5
    else if n == 6
    then d6
    else if n == 7
    then d7
    else if n == 8
    then d8
    else d9

-- The decimal digits of n before those of `tail`: n + 1 rounds are enough.
unfoldable pub numeral : ℕ → ℕ → List NumberByte → NumberByte × List NumberByte
numeral zero n tail = (digit (n % 10), tail)
numeral (suc f) n tail =
    let rest = numeral f (n / 10) (digit (n % 10) ∷ tail) in
    if ltb n 10 then (digit n, tail) else rest

-- An int64 as a JSON number.
unfoldable pub integer : ℤ → Json
unfolding numeral
integer (pos n) = let d = numeral (suc n) n [] in number d.0 d.1
integer (negsuc n) = let d = numeral (suc (suc n)) (suc n) [] in number minus (d.0 ∷ d.1)
