-- ===== src/Eventbus/Json/Print.antt =====
-- About `marshalCanonicalJSON` (eventbus/signing.go) in two steps: the value with the entries of each
-- map in the order of their keys, and its text, read off from left to right.
use mathlib.Core.List.{append_assoc}
use svckit.Base.{
  ◌≡◌, refl, ap, ap₂, ◌∙◌, true, false, List, [], ◌∷◌, ◌++◌, if◌then◌else◌, inl, inr, Bool-cases,
}
use svckit.Base.Text.{Text, codes, join}
use svckit.Eventbus.Json.{
  Json, Items, Fields, null, bool, number, string, array, object, no_items, item, no_fields, field,
  byte, bytes, encode_string, text_le, insert_by_key, sort_by_key, parts, marshal, marshal_items,
  marshal_fields,
}

-- An entry before the first one whose key is not smaller.
unfoldable pub insert_field : Text → Json → Fields → Fields
insert_field k v no_fields = field k v no_fields
insert_field k v (field j w fs) =
    let rest = insert_field k v fs in
    if text_le k j then field k v (field j w fs) else field j w rest

unfoldable mutual
  unfolding insert_field

  pub normal : Json → Json
  normal null = null
  normal (bool b) = bool b
  normal (number b bs) = number b bs
  normal (string s) = string s
  normal (array xs) = array (normal_items xs)
  normal (object fs) = object (normal_fields fs)

  pub normal_items : Items → Items
  normal_items no_items = no_items
  normal_items (item x xs) = item (normal x) (normal_items xs)

  pub normal_fields : Fields → Fields
  normal_fields no_fields = no_fields
  normal_fields (field k v fs) = insert_field k (normal v) (normal_fields fs)

-- The text of a value with the entries of a map as they stand. What follows an item or an entry
-- begins with a comma, or closes.
unfoldable mutual
  unfolding bytes encode_string

  pub print : Json → Text
  print null = codes "null"
  print (bool true) = codes "true"
  print (bool false) = codes "false"
  print (number b bs) = byte b ∷ bytes bs
  print (string s) = encode_string s
  print (array xs) = 91 ∷ print_items xs
  print (object fs) = 123 ∷ print_fields fs

  pub print_items : Items → Text
  print_items no_items = 93 ∷ []
  print_items (item x xs) = print x ++ more_items xs

  pub more_items : Items → Text
  more_items no_items = 93 ∷ []
  more_items (item x xs) = 44 ∷ (print x ++ more_items xs)

  pub print_fields : Fields → Text
  print_fields no_fields = 125 ∷ []
  print_fields (field k v fs) = encode_string k ++ (58 ∷ (print v ++ more_fields fs))

  pub more_fields : Fields → Text
  more_fields no_fields = 125 ∷ []
  more_fields (field k v fs) = 44 ∷ (encode_string k ++ (58 ∷ (print v ++ more_fields fs)))

-- The entries with their texts.
printed : Fields → List (Text × Text)
printed no_fields = []
printed (field k v fs) = (k, print v) ∷ printed fs

texts : Items → List Text
texts no_items = []
texts (item x xs) = print x ∷ texts xs

join-items :
    (x : Json) (xs : Items)
    → join (texts (item x xs)) (44 ∷ []) ++ 93 ∷ [] ≡ print x ++ more_items xs
unfolding texts print join
join-items x no_items = refl
join-items x (item y ys) =
    append_assoc (print x) _ _ ∙ ap (λ t. print x ++ 44 ∷ t) (join-items y ys)

join-fields :
    (k : Text) (v : Json) (fs : Fields)
    → join (parts (printed (field k v fs))) (44 ∷ []) ++ 125 ∷ []
      ≡ encode_string k ++ (58 ∷ (print v ++ more_fields fs))
unfolding printed print join parts
join-fields k v no_fields = append_assoc (encode_string k) _ _
join-fields k v (field j w fs) =
    append_assoc (encode_string k ++ 58 ∷ print v) _ _
    ∙ append_assoc (encode_string k) _ _
    ∙ ap (λ t. encode_string k ++ 58 ∷ (print v ++ 44 ∷ t)) (join-fields j w fs)

printed-insert_field :
    (k : Text) (v : Json) (fs : Fields)
    → insert_by_key k (print v) (printed fs) ≡ printed (insert_field k v fs)
unfolding printed insert_by_key insert_field
printed-insert_field k v no_fields = refl
printed-insert_field k v (field j w fs) = elim (Bool-cases (text_le k j)) [
  | inl e ↦ rw e refl
  | inr e ↦ rw e (ap (λ m. (j, print w) ∷ m) (printed-insert_field k v fs))
]

closed_items : (xs : Items) → join (texts xs) (44 ∷ []) ++ 93 ∷ [] ≡ print_items xs
unfolding texts print join
closed_items no_items = refl
closed_items (item x xs) = join-items x xs

closed_fields : (fs : Fields) → join (parts (printed fs)) (44 ∷ []) ++ 125 ∷ [] ≡ print_fields fs
unfolding printed print join parts
closed_fields no_fields = refl
closed_fields (field k v fs) = join-fields k v fs

mutual
  unfolding marshal normal print printed texts sort_by_key

  pub marshal-print : (v : Json) → marshal v ≡ print (normal v)
  marshal-print null = refl
  marshal-print (bool true) = refl
  marshal-print (bool false) = refl
  marshal-print (number b bs) = refl
  marshal-print (string s) = refl
  marshal-print (array xs) =
      ap (λ l. 91 ∷ (join l (44 ∷ []) ++ 93 ∷ [])) (marshal_items-texts xs)
      ∙ ap (λ t. 91 ∷ t) (closed_items (normal_items xs))
  marshal-print (object fs) =
      ap (λ m. 123 ∷ (join (parts m) (44 ∷ []) ++ 125 ∷ [])) (marshal_fields-printed fs)
      ∙ ap (λ t. 123 ∷ t) (closed_fields (normal_fields fs))

  marshal_items-texts : (xs : Items) → marshal_items xs ≡ texts (normal_items xs)
  marshal_items-texts no_items = refl
  marshal_items-texts (item x xs) = ap₂ (λ t l. t ∷ l) (marshal-print x) (marshal_items-texts xs)

  marshal_fields-printed :
      (fs : Fields) → sort_by_key (marshal_fields fs) ≡ printed (normal_fields fs)
  marshal_fields-printed no_fields = refl
  marshal_fields-printed (field k v fs) =
      ap₂ (λ t m. insert_by_key k t m) (marshal-print v) (marshal_fields-printed fs)
      ∙ printed-insert_field k (normal v) (normal_fields fs)
