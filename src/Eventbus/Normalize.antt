-- ===== src/Eventbus/Normalize.antt =====
-- `normalizeDataStructure` of eventbus/signing.go: a value through json.Marshal and json.Unmarshal,
-- which reads every number as a float64.
pub mod Laws
use svckit.Base.{List, Option, none, some}
use svckit.Base.Text.{Text}
use svckit.Eventbus.Json.{
  NumberByte, Json, null, bool, number, string, array, object, Items, no_items, item, Fields,
  no_fields, field,
}

-- The text of a number: its first byte and the others.
abbrev pub NumberText : Type 0
NumberText = NumberByte × List NumberByte

-- What the packages beneath eventbus compute: the text of HMAC-SHA256 under a key, and the text that
-- json.Marshal prints for the float64 that json.Unmarshal reads from a number, `none` where it is out
-- of range.
pub record Codec : Type 0 where
  pub hmac : Text → Text → Text
  pub as_float : NumberText → Option NumberText

abbrev pub of_number : Option NumberText → Option Json
of_number none = none
of_number (some (b, bs)) = some (number b bs)

abbrev pub of_items : Option Items → Option Json
of_items none = none
of_items (some xs) = some (array xs)

abbrev pub of_fields : Option Fields → Option Json
of_fields none = none
of_fields (some fs) = some (object fs)

abbrev pub put_item : Option Json → Option Items → Option Items
put_item none xs = none
put_item (some x) none = none
put_item (some x) (some xs) = some (item x xs)

abbrev pub put_field : Text → Option Json → Option Fields → Option Fields
put_field k none fs = none
put_field k (some v) none = none
put_field k (some v) (some fs) = some (field k v fs)

unfoldable mutual
  pub normalize : Codec → Json → Option Json
  normalize codec null = some null
  normalize codec (bool b) = some (bool b)
  normalize codec (number b bs) = of_number (codec.as_float (b, bs))
  normalize codec (string s) = some (string s)
  normalize codec (array xs) = of_items (normalize_items codec xs)
  normalize codec (object fs) = of_fields (normalize_fields codec fs)

  pub normalize_items : Codec → Items → Option Items
  normalize_items codec no_items = some no_items
  normalize_items codec (item x xs) = put_item (normalize codec x) (normalize_items codec xs)

  pub normalize_fields : Codec → Fields → Option Fields
  normalize_fields codec no_fields = some no_fields
  normalize_fields codec (field k v fs) =
      put_field k (normalize codec v) (normalize_fields codec fs)

-- `normalizeDataStructure(data)`, where the data is given by its JSON, `none` if json.Marshal refuses
-- it.
unfoldable pub normalize_data_structure : Codec → Option Json → Option Json
unfolding normalize
normalize_data_structure codec none = none
normalize_data_structure codec (some v) = normalize codec v
