-- ===== src/Eventbus/Json/Injective.antt =====
-- About canonical texts as texts: which value a text stands for, and where it ends.
use mathlib.Core.List.{append_assoc, append-nil}
use svckit.Base.{
  ℕ, ◌<◌, ◌≡◌, ◌≢◌, refl, ap, ap₂, sym, ◌∙◌, ◌==◌, true, false, List, [], ◌∷◌, ◌++◌, if◌then◌else◌,
  arith,
}
use svckit.Base.Text.{Text}
use svckit.Eventbus.Json.{
  NumberByte, d0, Json, Items, Fields, null, bool, number, string, array, object, no_items, item,
  no_fields, field, byte, bytes, encode_string, marshal,
}
use svckit.Eventbus.Json.Print.{
  normal, print, print_items, more_items, print_fields, more_fields, marshal-print,
}
use svckit.Eventbus.Json.Escapes.{encode_string-cancel, byte-injective, Stops, bytes-cancel}

-- The kind of a value, and what the first byte of its text says of it.
kind : Json → ℕ
kind null = 0
kind (bool true) = 1
kind (bool false) = 2
kind (number b bs) = 3
kind (string s) = 4
kind (array xs) = 5
kind (object fs) = 6

announced : Text → ℕ
announced [] = 9
announced (c ∷ s) =
    if c == 110
    then 0
    else if c == 116
    then 1
    else if c == 102
    then 2
    else if c == 34
    then 4
    else if c == 91
    then 5
    else if c == 123
    then 6
    else if c == 93
    then 7
    else 3

announced-byte : (b : NumberByte) (s : Text) → announced (byte b ∷ s) ≡ 3
unfolding announced
announced-byte d0 s = refl
announced-byte _ s = refl

announced-print : (v : Json) (s : Text) → announced (print v ++ s) ≡ kind v
unfolding announced kind print encode_string
announced-print null s = refl
announced-print (bool true) s = refl
announced-print (bool false) s = refl
announced-print (number b bs) s = announced-byte b (bytes bs ++ s)
announced-print (string t) s = refl
announced-print (array xs) s = refl
announced-print (object fs) s = refl

same_kind : (v w : Json) (s t : Text) → print v ++ s ≡ print w ++ t → kind v ≡ kind w
same_kind v w s t e = sym (announced-print v s) ∙ (ap announced e ∙ announced-print w t)

Stops-more_items : (xs : Items) (s : Text) → Stops (more_items xs ++ s)
unfolding print
Stops-more_items no_items s = refl
Stops-more_items (item x xs) s = refl

Stops-more_fields : (fs : Fields) (s : Text) → Stops (more_fields fs ++ s)
unfolding print
Stops-more_fields no_fields s = refl
Stops-more_fields (field k v fs) s = refl

kind_le : (v : Json) → kind v < 7
unfolding kind
kind_le null = omega arith
kind_le (bool true) = omega arith
kind_le (bool false) = omega arith
kind_le (number b bs) = omega arith
kind_le (string s) = omega arith
kind_le (array xs) = omega arith
kind_le (object fs) = omega arith

-- No value's text begins with a closing bracket.
not_closed : (v : Json) (s t : Text) → print v ++ s ≢ 93 ∷ t
unfolding announced
not_closed v s t e = absurd (omega (arith, kind_le v, announced-print v s, ap announced e))

-- Nor does that of a key begin with a closing brace.
not_ended : (k q s t : Text) → (encode_string k ++ q) ++ s ≢ 125 ∷ t
unfolding encode_string
not_ended k q s t e = absurd (cc)

heads_eq : {a b : ℕ} {s t : Text} → a ∷ s ≡ b ∷ t → a ≡ b
heads_eq e = cc

tail_eq : {a b : ℕ} {s t : Text} → a ∷ s ≡ b ∷ t → s ≡ t
tail_eq e = cc

-- `(p ++ q) ++ s` on both sides, regrouped.
regroup :
    (p q s p' q' s' : Text) → (p ++ q) ++ s ≡ (p' ++ q') ++ s' → p ++ (q ++ s) ≡ p' ++ (q' ++ s')
regroup p q s p' q' s' e = sym (append_assoc p q s) ∙ (e ∙ append_assoc p' q' s')

same_field :
    {k j : Text} {v w : Json} {fs gs : Fields}
    → k ≡ j
    → v ≡ w
    → fs ≡ gs
    → field k v fs ≡ field j w gs
same_field a b c = cc

-- What is read off the front of equal texts is equal, and so is the rest.
abbrev Cancels {ℓ} : {A : Type ℓ} → (A → Text) → A → A → Type ℓ
Cancels p a b = (s t : Text) → p a ++ s ≡ p b ++ t → (a ≡ b) × (s ≡ t)

abbrev CancelsStopped : Json → Json → Type 0
CancelsStopped v w =
    (s t : Text) → Stops s → Stops t → print v ++ s ≡ print w ++ t → (v ≡ w) × (s ≡ t)

item_step :
    (x y : Json) (xs ys : Items) (s t : Text)
    → CancelsStopped x y
    → Cancels more_items xs ys
    → print x ++ (more_items xs ++ s) ≡ print y ++ (more_items ys ++ t)
    → (item x xs ≡ item y ys) × (s ≡ t)
item_step x y xs ys s t cx cr e =
    step (
      cx (more_items xs ++ s) (more_items ys ++ t) (Stops-more_items xs s) (Stops-more_items ys t)
        e)
  where
    join_up : x ≡ y → (xs ≡ ys) × (s ≡ t) → (item x xs ≡ item y ys) × (s ≡ t)
    join_up h r = (ap₂ item h r.0, r.1)

    step : (x ≡ y) × (more_items xs ++ s ≡ more_items ys ++ t) → (item x xs ≡ item y ys) × (s ≡ t)
    step h = join_up h.0 (cr s t h.1)

field_step :
    (k j : Text) (v w : Json) (fs gs : Fields) (s t : Text)
    → CancelsStopped v w
    → Cancels more_fields fs gs
    → (encode_string k ++ (58 ∷ (print v ++ more_fields fs))) ++ s
      ≡ (encode_string j ++ (58 ∷ (print w ++ more_fields gs))) ++ t
    → (field k v fs ≡ field j w gs) × (s ≡ t)
field_step k j v w fs gs s t cv cr e =
    by_key (encode_string-cancel k j _ _ (regroup (encode_string k) _ s (encode_string j) _ t e))
  where
    join_up : k ≡ j → v ≡ w → (fs ≡ gs) × (s ≡ t) → (field k v fs ≡ field j w gs) × (s ≡ t)
    join_up h g r = (same_field h g r.0, r.1)

    by_value :
        k ≡ j
        → (v ≡ w) × (more_fields fs ++ s ≡ more_fields gs ++ t)
        → (field k v fs ≡ field j w gs) × (s ≡ t)
    by_value h g = join_up h g.0 (cr s t g.1)

    by_key :
        (k ≡ j)
          × (58 ∷ ((print v ++ more_fields fs) ++ s) ≡ 58 ∷ ((print w ++ more_fields gs) ++ t))
        → (field k v fs ≡ field j w gs) × (s ≡ t)
    by_key h = by_value h.0 (
        cv (more_fields fs ++ s) (more_fields gs ++ t) (Stops-more_fields fs s)
          (Stops-more_fields gs t)
          (regroup (print v) (more_fields fs) s (print w) (more_fields gs) t (tail_eq h.1)))

number_step :
    (b d : NumberByte) (bs ds : List NumberByte) (s t : Text)
    → Stops s
    → Stops t
    → byte b ∷ (bytes bs ++ s) ≡ byte d ∷ (bytes ds ++ t)
    → (number b bs ≡ number d ds) × (s ≡ t)
number_step b d bs ds s t hs ht e =
    join_up (byte-injective b d (cc)) (bytes-cancel bs ds s t hs ht (tail_eq e))
  where
    join_up : b ≡ d → (bs ≡ ds) × (s ≡ t) → (number b bs ≡ number d ds) × (s ≡ t)
    join_up h r = (ap₂ (λ x xs. number x xs) h r.0, r.1)

under {ℓ κ ι} :
    {A : Type ℓ} {B : Type κ} {C : Type ι} (f : A → B) {a b : A} {p q : C}
    → (a ≡ b) × (p ≡ q)
    → (f a ≡ f b) × (p ≡ q)
under f h = (ap f h.0, h.1)

-- Texts of two values that are followed by what ends a number agree only if the values do.
mutual
  unfolding kind print

  cancel : (v w : Json) → CancelsStopped v w
  cancel null null s t hs ht e = (refl, cc)
  cancel (bool true) (bool true) s t hs ht e = (refl, cc)
  cancel (bool false) (bool false) s t hs ht e = (refl, cc)
  cancel (bool true) (bool false) s t hs ht e =
      absurd (omega (arith, same_kind (bool true) (bool false) s t e))
  cancel (bool false) (bool true) s t hs ht e =
      absurd (omega (arith, same_kind (bool false) (bool true) s t e))
  cancel (number b bs) (number d ds) s t hs ht e = number_step b d bs ds s t hs ht e
  cancel (string a) (string b) s t hs ht e = under string (encode_string-cancel a b s t e)
  cancel (array xs) (array ys) s t hs ht e = under array (items-cancel xs ys s t (tail_eq e))
  cancel (object fs) (object gs) s t hs ht e = under object (fields-cancel fs gs s t (tail_eq e))
  cancel (bool true) w s t hs ht e = absurd (omega (arith, same_kind (bool true) w s t e))
  cancel (bool false) w s t hs ht e = absurd (omega (arith, same_kind (bool false) w s t e))
  cancel v (bool true) s t hs ht e = absurd (omega (arith, same_kind v (bool true) s t e))
  cancel v (bool false) s t hs ht e = absurd (omega (arith, same_kind v (bool false) s t e))
  cancel v w s t hs ht e = absurd (omega (arith, same_kind v w s t e))

  items-cancel : (xs ys : Items) → Cancels print_items xs ys
  items-cancel no_items no_items s t e = (refl, cc)
  items-cancel no_items (item y ys) s t e =
      absurd (not_closed y (more_items ys ++ t) s (sym (append_assoc (print y) _ t) ∙ sym e))
  items-cancel (item x xs) no_items s t e =
      absurd (not_closed x (more_items xs ++ s) t (sym (append_assoc (print x) _ s) ∙ e))
  items-cancel (item x xs) (item y ys) s t e =
      item_step x y xs ys s t (cancel x y) (more_items-cancel xs ys)
        (regroup (print x) _ s (print y) _ t e)

  more_items-cancel : (xs ys : Items) → Cancels more_items xs ys
  more_items-cancel no_items no_items s t e = (refl, cc)
  more_items-cancel no_items (item y ys) s t e = absurd (omega (arith, heads_eq e))
  more_items-cancel (item x xs) no_items s t e = absurd (omega (arith, heads_eq e))
  more_items-cancel (item x xs) (item y ys) s t e =
      item_step x y xs ys s t (cancel x y) (more_items-cancel xs ys)
        (regroup (print x) _ s (print y) _ t (tail_eq e))

  fields-cancel : (fs gs : Fields) → Cancels print_fields fs gs
  fields-cancel no_fields no_fields s t e = (refl, cc)
  fields-cancel no_fields (field j w gs) s t e = absurd (not_ended j _ t s (sym e))
  fields-cancel (field k v fs) no_fields s t e = absurd (not_ended k _ s t e)
  fields-cancel (field k v fs) (field j w gs) s t e =
      field_step k j v w fs gs s t (cancel v w) (more_fields-cancel fs gs) e

  more_fields-cancel : (fs gs : Fields) → Cancels more_fields fs gs
  more_fields-cancel no_fields no_fields s t e = (refl, cc)
  more_fields-cancel no_fields (field j w gs) s t e = absurd (omega (arith, heads_eq e))
  more_fields-cancel (field k v fs) no_fields s t e = absurd (omega (arith, heads_eq e))
  more_fields-cancel (field k v fs) (field j w gs) s t e =
      field_step k j v w fs gs s t (cancel v w) (more_fields-cancel fs gs) (tail_eq e)

pub print-injective : (v w : Json) → print v ≡ print w → v ≡ w
print-injective v w e =
    (cancel v w [] [] tt tt (append-nil (print v) ∙ (e ∙ sym (append-nil (print w))))).0

pub marshal-normal : (v w : Json) → marshal v ≡ marshal w → normal v ≡ normal w
marshal-normal v w e =
    print-injective (normal v) (normal w) (sym (marshal-print v) ∙ (e ∙ marshal-print w))
