-- ===== src/Middleware/RateLimit/Keys.antt =====
-- About the Redis keys of the rate limiter (middleware/rate_limiting.go): who shares a counter.
use mathlib.Core.List.{append_assoc}
use svckit.Base.{
  ℕ, zero, suc, ◌/◌, ◌≡◌, ◌≢◌, refl, ap, ap₂, sym, subst, ◌∙◌, ◌==◌, [], ◌∷◌, ◌++◌, none, some,
  if◌then◌else◌, arith,
}
use svckit.Base.Text.{Text, codes, itoa}
use svckit.Base.Text.Laws.{Without}
use svckit.Base.Text.Numbers.{itoa-Without, itoa-injective}
use svckit.Middleware.Context.{Request, user_id_of, service_name_of, client_ip}
use svckit.Middleware.RateLimit.{
  window_start, minute, client_identifier, or_unknown, EndpointType, auth, user_data, upload, admin,
  public, internal, healthy, endpoint_text, count_key, block_key,
}

strip : (p a b : Text) → p ++ a ≡ p ++ b → a ≡ b
strip [] a b e = e
strip (c ∷ p) a b e = strip p a b (cc)

not-Without : (c : ℕ) (a b : Text) → Without c (a ++ c ∷ b) → ⊥
not-Without c [] b h = h.0 refl
not-Without c (x ∷ a) b h = not-Without c a b h.1

-- The last part of a text, and what stands before it, at a separator that it does not hold.
last_part :
    (c : ℕ) (a a' b b' : Text)
    → Without c b
    → Without c b'
    → a ++ c ∷ b ≡ a' ++ c ∷ b'
    → (a ≡ a') × (b ≡ b')
last_part c [] [] b b' h h' e = (refl, cc)
last_part c [] (x ∷ a') b b' h h' e =
    let tail : b ≡ a' ++ c ∷ b' = cc in absurd (not-Without c a' b' (subst (Without c) tail h))
last_part c (x ∷ a) [] b b' h h' e =
    let tail : b' ≡ a ++ c ∷ b = cc in absurd (not-Without c a b (subst (Without c) tail h'))
last_part c (x ∷ a) (y ∷ a') b b' h h' e =
    let rest = last_part c a a' b b' h h' (cc) in (ap₂ (λ z zs. z ∷ zs) (cc) rest.0, rest.1)

endpoint_of : Text → EndpointType
endpoint_of [] = healthy
endpoint_of (c ∷ s) =
    if c == 97
    then (elim s [ [] ↦ auth | d ∷ r ↦ if d == 117 then auth else admin ])
    else if c == 100
    then user_data
    else if c == 117
    then upload
    else if c == 112
    then public
    else if c == 105
    then internal
    else healthy

endpoint_of-text : (t : EndpointType) → endpoint_of (endpoint_text t) ≡ t
unfolding endpoint_of
endpoint_of-text auth = refl
endpoint_of-text _ = refl

endpoint_text-injective : (t u : EndpointType) → endpoint_text t ≡ endpoint_text u → t ≡ u
endpoint_text-injective t u e = sym (endpoint_of-text t) ∙ (ap endpoint_of e ∙ endpoint_of-text u)

endpoint_text-Without : (t : EndpointType) → Without 58 (endpoint_text t)
endpoint_text-Without auth = omega arith
endpoint_text-Without _ = omega arith

count_key-parts :
    (service c c' : Text) (t t' : EndpointType) (w w' : ℕ)
    → count_key service c t w ≡ count_key service c' t' w'
    → (c ≡ c') × (t ≡ t') × (w ≡ w')
unfolding count_key
count_key-parts service c c' t t' w w' e = by_window (
    last_part 58 (c ++ 58 ∷ endpoint_text t) (c' ++ 58 ∷ endpoint_text t') (itoa w) (itoa w')
      (itoa-Without 58 w (omega arith)) (itoa-Without 58 w' (omega arith))
      (append_assoc c _ _ ∙ (rest ∙ sym (append_assoc c' _ _))))
  where
    rest :
        c ++ 58 ∷ (endpoint_text t ++ 58 ∷ itoa w) ≡ c' ++ 58 ∷ (endpoint_text t' ++ 58 ∷ itoa w')
    rest = strip (58 ∷ []) _ _ (strip service _ _ (strip (codes "rate_limit:") _ _ e))

    by_type :
        w ≡ w' → (c ≡ c') × (endpoint_text t ≡ endpoint_text t') → (c ≡ c') × (t ≡ t') × (w ≡ w')
    by_type h k = (k.0, endpoint_text-injective t t' k.1, h)

    by_window :
        (c ++ 58 ∷ endpoint_text t ≡ c' ++ 58 ∷ endpoint_text t') × (itoa w ≡ itoa w')
        → (c ≡ c') × (t ≡ t') × (w ≡ w')
    by_window h = by_type (itoa-injective w w' h.1) (
        last_part 58 c c' (endpoint_text t) (endpoint_text t') (endpoint_text-Without t)
          (endpoint_text-Without t') h.0)

-- A key of a counter is no key of a block.
pub count_key-ne-block_key :
    (service service' c c' : Text) (t t' : EndpointType) (w : ℕ)
    → count_key service c t w ≢ block_key service' c' t'
unfolding count_key block_key
count_key-ne-block_key service service' c c' t t' w e = absurd (omega (arith, ap (byte_at 10) e))
  where
    byte_at : ℕ → Text → ℕ
    byte_at n [] = 0
    byte_at zero (b ∷ s) = b
    byte_at (suc n) (b ∷ s) = byte_at n s

-- Who is counted: a user, else a service, else an address.
pub data Caller : Type 0 where
  end_user : Text → Caller
  calling_service : Text → Caller
  address : Text → Caller

pub caller_of : Request → Caller
caller_of r = elim (user_id_of r.context) [
  | some id ↦ end_user id
  | none ↦ elim (service_name_of r.context) [
    | some name ↦ calling_service name
    | none ↦ address (or_unknown (client_ip r))
  ]
]

identifier : Caller → Text
identifier (end_user id) = codes "user:" ++ id
identifier (calling_service name) = codes "service:" ++ name
identifier (address ip) = codes "ip:" ++ ip

identifier-caller_of : (r : Request) → client_identifier r ≡ identifier (caller_of r)
unfolding client_identifier caller_of identifier
identifier-caller_of r = ground arith

abbrev first_byte : Text → ℕ
first_byte [] = 0
first_byte (b ∷ s) = b

identifier-injective : (a b : Caller) → identifier a ≡ identifier b → a ≡ b
unfolding identifier
identifier-injective (end_user i) (end_user j) e = ap end_user (strip (codes "user:") i j e)
identifier-injective (calling_service i) (calling_service j) e =
    ap calling_service (strip (codes "service:") i j e)
identifier-injective (address i) (address j) e = ap address (strip (codes "ip:") i j e)
identifier-injective (end_user i) (calling_service j) e = absurd (omega (arith, ap first_byte e))
identifier-injective (end_user i) (address j) e = absurd (omega (arith, ap first_byte e))
identifier-injective (calling_service i) (end_user j) e = absurd (omega (arith, ap first_byte e))
identifier-injective (calling_service i) (address j) e = absurd (omega (arith, ap first_byte e))
identifier-injective (address i) (end_user j) e = absurd (omega (arith, ap first_byte e))
identifier-injective (address i) (calling_service j) e = absurd (omega (arith, ap first_byte e))

-- Two requests to a service share a counter only if they come from the same user, the same service
-- or the same address, go to endpoints of one type, and fall into the same minute.
pub count_key-injective :
    (name : Text) (r r' : Request) (t t' : EndpointType) (now now' : ℕ)
    → count_key name (client_identifier r) t (window_start now)
      ≡ count_key name (client_identifier r') t' (window_start now')
    → (caller_of r ≡ caller_of r') × (t ≡ t') × (now / minute ≡ now' / minute)
count_key-injective name r r' t t' now now' e =
    let parts = count_key-parts name _ _ t t' (window_start now) (window_start now') e in
    (
      identifier-injective (caller_of r) (caller_of r')
          (sym (identifier-caller_of r) ∙ (parts.0 ∙ identifier-caller_of r')),
      parts.1,
      omega (arith, parts.2),
    )
