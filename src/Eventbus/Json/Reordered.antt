-- ===== src/Eventbus/Json/Reordered.antt =====
-- About the order in which a range loop meets the entries of a map (`marshalCanonicalJSON` of
-- eventbus/signing.go), which the canonical text forgets.
use svckit.Base.{
  ◌≡◌, ◌≢◌, ◌↔◌, refl, ap, ap₂, sym, subst, ◌∙◌, true, false, [], ◌∷◌, arith, inl, inr, Bool-cases,
}
use svckit.Base.Text.{Text}
use svckit.Eventbus.Json.{
  Json, Items, Fields, null, bool, number, string, array, object, no_items, item, no_fields, field,
  text_le, marshal,
}
use svckit.Eventbus.Json.Print.{
  normal, normal_fields, normal_items, insert_field, print, marshal-print,
}
use svckit.Eventbus.Json.Injective.{marshal-normal}

-- The same value, but for the order of the entries with different keys in its maps.
mutual
  pub data Reordered : Json → Json → Type 0 where
    same : (v : Json) → Reordered v v
    in_array : {xs ys : Items} → ReorderedItems xs ys → Reordered (array xs) (array ys)
    in_object : {fs gs : Fields} → ReorderedFields fs gs → Reordered (object fs) (object gs)

  pub data ReorderedItems : Items → Items → Type 0 where
    no_more : ReorderedItems no_items no_items
    item_wise :
        {x y : Json} {xs ys : Items}
        → Reordered x y
        → ReorderedItems xs ys
        → ReorderedItems (item x xs) (item y ys)

  pub data ReorderedFields : Fields → Fields → Type 0 where
    unchanged : (fs : Fields) → ReorderedFields fs fs
    field_wise :
        {k : Text} {v w : Json} {fs gs : Fields}
        → Reordered v w
        → ReorderedFields fs gs
        → ReorderedFields (field k v fs) (field k w gs)
    swapped :
        (k j : Text) (v w : Json) (fs : Fields)
        → k ≢ j
        → ReorderedFields (field k v (field j w fs)) (field j w (field k v fs))
    backwards : {fs gs : Fields} → ReorderedFields fs gs → ReorderedFields gs fs
    later :
        {fs gs hs : Fields} → ReorderedFields fs gs → ReorderedFields gs hs → ReorderedFields fs hs

text_le_refl : (s : Text) → text_le s s ≡ true
unfolding text_le
text_le_refl [] = refl
text_le_refl (a ∷ s) = ground (arith, text_le_refl s)

text_le_total : (s t : Text) → text_le s t ≡ false → text_le t s ≡ true
unfolding text_le
text_le_total [] t h = absurd (cc)
text_le_total (a ∷ s) [] h = refl
text_le_total (a ∷ s) (b ∷ t) h = ground (arith, text_le_total s t)

text_le_antisym : (s t : Text) → text_le s t ≡ true → text_le t s ≡ true → s ≡ t
unfolding text_le
text_le_antisym [] [] h g = refl
text_le_antisym [] (b ∷ t) h g = absurd (cc)
text_le_antisym (a ∷ s) [] h g = absurd (cc)
text_le_antisym (a ∷ s) (b ∷ t) h g = ground (arith, text_le_antisym s t)

text_le_trans : (r s t : Text) → text_le r s ≡ true → text_le s t ≡ true → text_le r t ≡ true
unfolding text_le
text_le_trans [] s t h g = refl
text_le_trans (a ∷ r) [] t h g = absurd (cc)
text_le_trans (a ∷ r) (b ∷ s) [] h g = absurd (cc)
text_le_trans (a ∷ r) (b ∷ s) (c ∷ t) h g = ground (arith, text_le_trans r s t)

-- Insertions of entries with different keys commute.
insert_field_comm :
    (k j : Text) (v w : Json) (fs : Fields)
    → k ≢ j
    → insert_field k v (insert_field j w fs) ≡ insert_field j w (insert_field k v fs)
unfolding insert_field
insert_field_comm k j v w no_fields ne =
    ground (arith, text_le_total k j, text_le_total j k, text_le_antisym k j)
insert_field_comm k j v w (field i u fs) ne = ground (
  arith,
  text_le_total k j,
  text_le_total j k,
  text_le_antisym k j,
  insert_field_comm k j v w fs ne,
  text_le_trans k j i,
  text_le_trans j k i,
  text_le_total k i,
  text_le_total j i,
)

mutual
  unfolding normal

  normal-Reordered : {v w : Json} → Reordered v w → normal v ≡ normal w
  normal-Reordered (same v) = refl
  normal-Reordered (in_array r) = ap array (normal_items-Reordered r)
  normal-Reordered (in_object r) = ap object (normal_fields-Reordered r)

  normal_items-Reordered :
      {xs ys : Items} → ReorderedItems xs ys → normal_items xs ≡ normal_items ys
  normal_items-Reordered no_more = refl
  normal_items-Reordered (item_wise r rs) =
      ap₂ item (normal-Reordered r) (normal_items-Reordered rs)

  normal_fields-Reordered :
      {fs gs : Fields} → ReorderedFields fs gs → normal_fields fs ≡ normal_fields gs
  normal_fields-Reordered (unchanged fs) = refl
  normal_fields-Reordered (field_wise {k = k} r rs) =
      ap₂ (insert_field k) (normal-Reordered r) (normal_fields-Reordered rs)
  normal_fields-Reordered (swapped k j v w fs ne) =
      insert_field_comm k j (normal v) (normal w) (normal_fields fs) ne
  normal_fields-Reordered (backwards r) = sym (normal_fields-Reordered r)
  normal_fields-Reordered (later r s) = normal_fields-Reordered r ∙ normal_fields-Reordered s

text_le-differ : (k j : Text) → text_le k j ≡ false → k ≢ j
text_le-differ k j e h = absurd (cc (text_le_refl j, subst (λ t. text_le t j ≡ false) h e))

insert_field-Reordered :
    (k : Text) (v : Json) (fs : Fields) → ReorderedFields (field k v fs) (insert_field k v fs)
unfolding insert_field
insert_field-Reordered k v no_fields = unchanged _
insert_field-Reordered k v (field j w fs) = elim (Bool-cases (text_le k j)) [
  | inl e ↦ rw e (unchanged _)
  | inr e ↦ rw e (
      later (swapped k j v w fs (text_le-differ k j e))
        (field_wise (same w) (insert_field-Reordered k v fs)))
]

-- A value is a reordering of its normal form.
mutual
  unfolding normal

  Reordered-normal : (v : Json) → Reordered v (normal v)
  Reordered-normal null = same _
  Reordered-normal (bool b) = same _
  Reordered-normal (number b bs) = same _
  Reordered-normal (string s) = same _
  Reordered-normal (array xs) = in_array (ReorderedItems-normal xs)
  Reordered-normal (object fs) = in_object (ReorderedFields-normal fs)

  ReorderedItems-normal : (xs : Items) → ReorderedItems xs (normal_items xs)
  ReorderedItems-normal no_items = no_more
  ReorderedItems-normal (item x xs) = item_wise (Reordered-normal x) (ReorderedItems-normal xs)

  ReorderedFields-normal : (fs : Fields) → ReorderedFields fs (normal_fields fs)
  ReorderedFields-normal no_fields = unchanged _
  ReorderedFields-normal (field k v fs) =
      later (field_wise (Reordered-normal v) (ReorderedFields-normal fs))
        (insert_field-Reordered k (normal v) (normal_fields fs))

-- Reorderings can be undone and joined at every kind of value.
mutual
  Reordered-sym : {v w : Json} → Reordered v w → Reordered w v
  Reordered-sym (same v) = same v
  Reordered-sym (in_array r) = in_array (ReorderedItems-sym r)
  Reordered-sym (in_object r) = in_object (backwards r)

  ReorderedItems-sym : {xs ys : Items} → ReorderedItems xs ys → ReorderedItems ys xs
  ReorderedItems-sym no_more = no_more
  ReorderedItems-sym (item_wise r rs) = item_wise (Reordered-sym r) (ReorderedItems-sym rs)

mutual
  Reordered-trans : {u v w : Json} → Reordered u v → Reordered v w → Reordered u w
  Reordered-trans (same v) s = s
  Reordered-trans (in_array r) (same v) = in_array r
  Reordered-trans (in_array r) (in_array s) = in_array (ReorderedItems-trans r s)
  Reordered-trans (in_object r) (same v) = in_object r
  Reordered-trans (in_object r) (in_object s) = in_object (later r s)

  ReorderedItems-trans :
      {xs ys zs : Items} → ReorderedItems xs ys → ReorderedItems ys zs → ReorderedItems xs zs
  ReorderedItems-trans no_more s = s
  ReorderedItems-trans (item_wise r rs) (item_wise s ss) =
      item_wise (Reordered-trans r s) (ReorderedItems-trans rs ss)

pub Reordered-of_normal : (v w : Json) → normal v ≡ normal w → Reordered v w
Reordered-of_normal v w e =
    Reordered-trans (subst (Reordered v) e (Reordered-normal v))
      (Reordered-sym (Reordered-normal w))

-- Two JSON values have the same canonical text exactly if one is the other but for the order of the
-- entries with different keys in the maps inside it.
pub marshal_iff : (v w : Json) → (marshal v ≡ marshal w) ↔ Reordered v w
marshal_iff v w = (
  λ e. Reordered-of_normal v w (marshal-normal v w e),
  λ r. marshal-print v ∙ (ap print (normal-Reordered r) ∙ sym (marshal-print w)),
)
