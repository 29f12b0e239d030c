-- ===== src/Eventbus/Normalize/Laws.antt =====
-- About a value that is normalized twice (eventbus/signing.go).
use svckit.Base.{◌≡◌, refl, subst, Option, none, some}
use svckit.Base.Text.{Text}
use svckit.Eventbus.Json.{
  Json, null, bool, number, string, array, object, Items, no_items, item, Fields, no_fields, field,
}
use svckit.Eventbus.Normalize.{
  NumberText, Codec, of_number, of_items, of_fields, put_item, put_field, normalize,
  normalize_items, normalize_fields, normalize_data_structure,
}

-- The text that is printed for a float64 is read back as the same float64.
abbrev pub IsStable : Codec → Type 0
IsStable codec = (n m : NumberText) → codec.as_float n ≡ some m → codec.as_float m ≡ some m

of_number-parts :
    (o : Option NumberText) (w : Json)
    → of_number o ≡ some w
    → (m : NumberText) × (o ≡ some m) × (w ≡ number m.0 m.1)
of_number-parts none w h = absurd (cc)
of_number-parts (some (b, bs)) w h = ((b, bs), refl, cc)

of_items-parts :
    (o : Option Items) (w : Json)
    → of_items o ≡ some w
    → (xs : Items) × (o ≡ some xs) × (w ≡ array xs)
of_items-parts none w h = absurd (cc)
of_items-parts (some xs) w h = (xs, refl, cc)

of_fields-parts :
    (o : Option Fields) (w : Json)
    → of_fields o ≡ some w
    → (fs : Fields) × (o ≡ some fs) × (w ≡ object fs)
of_fields-parts none w h = absurd (cc)
of_fields-parts (some fs) w h = (fs, refl, cc)

put_item-parts :
    (o : Option Json) (p : Option Items) (ys : Items)
    → put_item o p ≡ some ys
    → (x : Json) × (xs : Items) × (o ≡ some x) × (p ≡ some xs) × (ys ≡ item x xs)
put_item-parts none p ys h = absurd (cc)
put_item-parts (some x) none ys h = absurd (cc)
put_item-parts (some x) (some xs) ys h = (x, xs, refl, refl, cc)

put_field-parts :
    (k : Text) (o : Option Json) (p : Option Fields) (gs : Fields)
    → put_field k o p ≡ some gs
    → (v : Json) × (fs : Fields) × (o ≡ some v) × (p ≡ some fs) × (gs ≡ field k v fs)
put_field-parts k none p gs h = absurd (cc)
put_field-parts k (some v) none gs h = absurd (cc)
put_field-parts k (some v) (some fs) gs h = (v, fs, refl, refl, cc)

json_same : {v w : Json} → some v ≡ some w → v ≡ w
json_same h = cc

items_same : {xs ys : Items} → some xs ≡ some ys → xs ≡ ys
items_same h = cc

fields_same : {fs gs : Fields} → some fs ≡ some gs → fs ≡ gs
fields_same h = cc

mutual
  unfolding normalize

  -- A value that was normalized is its own normalization.
  pub normalize-twice :
      (codec : Codec)
      → IsStable codec
      → (v w : Json) → normalize codec v ≡ some w
      → normalize codec w ≡ some w
  normalize-twice codec st null w h = subst (λ x. normalize codec x ≡ some x) (json_same h) refl
  normalize-twice codec st (bool b) w h = subst (λ x. normalize codec x ≡ some x) (json_same h) refl
  normalize-twice codec st (number b bs) w h =
      let (m, e, s) = of_number-parts (codec.as_float (b, bs)) w h in rw (s, st (b, bs) m e) refl
  normalize-twice codec st (string s) w h =
      subst (λ x. normalize codec x ≡ some x) (json_same h) refl
  normalize-twice codec st (array xs) w h =
      let (ys, e, s) = of_items-parts (normalize_items codec xs) w h in
      rw (s, normalize_items-twice codec st xs ys e) refl
  normalize-twice codec st (object fs) w h =
      let (gs, e, s) = of_fields-parts (normalize_fields codec fs) w h in
      rw (s, normalize_fields-twice codec st fs gs e) refl

  normalize_items-twice :
      (codec : Codec)
      → IsStable codec
      → (xs ys : Items) → normalize_items codec xs ≡ some ys
      → normalize_items codec ys ≡ some ys
  normalize_items-twice codec st no_items ys h =
      subst (λ x. normalize_items codec x ≡ some x) (items_same h) refl
  normalize_items-twice codec st (item x xs) ys h =
      let (y, zs, e, f, s) = put_item-parts (normalize codec x) (normalize_items codec xs) ys h in
      rw (s, normalize-twice codec st x y e, normalize_items-twice codec st xs zs f) refl

  normalize_fields-twice :
      (codec : Codec)
      → IsStable codec
      → (fs gs : Fields) → normalize_fields codec fs ≡ some gs
      → normalize_fields codec gs ≡ some gs
  normalize_fields-twice codec st no_fields gs h =
      subst (λ x. normalize_fields codec x ≡ some x) (fields_same h) refl
  normalize_fields-twice codec st (field k v fs) gs h =
      let (w, hs, e, f, s) =
        put_field-parts k (normalize codec v) (normalize_fields codec fs) gs h in
      rw (s, normalize-twice codec st v w e, normalize_fields-twice codec st fs hs f) refl

-- What `normalizeDataStructure` returns is left as it is by a second call.
pub normalize_data_structure-twice :
    (codec : Codec) (o : Option Json) (w : Json)
    → IsStable codec
    → normalize_data_structure codec o ≡ some w
    → normalize_data_structure codec (some w) ≡ some w
unfolding normalize_data_structure
normalize_data_structure-twice codec none w st h = absurd (cc)
normalize_data_structure-twice codec (some v) w st h = normalize-twice codec st v w h
