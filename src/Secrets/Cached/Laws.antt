-- ===== src/Secrets/Cached/Laws.antt =====
-- About the cache in front of a lawful store, with every write going through it.
use mathlib.Core.Option.{some-injective}
use svckit.Base.{
  ℕ, ◌≡◌, refl, ap, ap₂, sym, subst, ◌∙◌, Bool, true, false, List, [], ◌∷◌, Option, none, some,
  Result, ok, err, inl, inr, Bool-cases, arith,
}
use svckit.Base.Int.{ℤ}
use svckit.Base.Text.{Text, text_eq}
use svckit.Base.Text.Laws.{text_eq-eq}
use svckit.Secrets.{StoreError, Store}
use svckit.Secrets.Cached.{
  CacheEntry, CachedStore, lookup, fresh, put, filled, get_by, cached_get, written, cached_set,
  exists_by, cached_exists, cached,
}

-- What a store promises that nobody else writes: reading changes nothing and is the same at any
-- time, a secret that can be read exists, a successful write is read back and leaves the other
-- secrets, and a failed one leaves them all.
pub record IsLawful {S : Type 0} (store : Store S) : Type 0 where
  pub get_pure : (t : ℕ) (p : Text) (s : S) → (store.get t p s).0 ≡ s
  pub exists_pure : (t : ℕ) (p : Text) (s : S) → (store.exists t p s).0 ≡ s
  pub get_anytime : (t u : ℕ) (p : Text) (s : S) → (store.get t p s).1 ≡ (store.get u p s).1
  pub exists_get :
      (t u : ℕ) (p v : Text) (s : S) → (store.get t p s).1 ≡ ok v → (store.exists u p s).1 ≡ ok true
  pub set_get :
      (t u : ℕ) (p v : Text) (s : S)
      → (store.set t p v s).1 ≡ none
      → (store.get u p (store.set t p v s).0).1 ≡ ok v
  pub set_other :
      (t u : ℕ) (p q v : Text) (s : S)
      → text_eq p q ≡ false
      → (store.get u q (store.set t p v s).0).1 ≡ (store.get u q s).1
  pub set_fails :
      (t u : ℕ) (p q v : Text) (s : S) (e : StoreError)
      → (store.set t p v s).1 ≡ some e
      → (store.get u q (store.set t p v s).0).1 ≡ (store.get u q s).1

-- A call of a store, and what it returns.
pub data Call : Type 0 where
  gets asks : ℕ → Text → Call
  sets : ℕ → Text → Text → Call

pub data Reply : Type 0 where
  got : Result StoreError Text → Reply
  wrote : Option StoreError → Reply
  asked : Result StoreError Bool → Reply

abbrev pub perform : {S : Type 0} → Store S → Call → S → S × Reply
perform store (gets t p) s = let a = store.get t p s in (a.0, got a.1)
perform store (asks t p) s = let a = store.exists t p s in (a.0, asked a.1)
perform store (sets t p v) s = let a = store.set t p v s in (a.0, wrote a.1)

abbrev pub replies : {S : Type 0} → Store S → List Call → S → List Reply
replies store [] s = []
replies store (call ∷ calls) s = let a = perform store call s in a.1 ∷ replies store calls a.0

lookup-other :
    (p q : Text) (e : CacheEntry) (entries : List (Text × CacheEntry))
    → text_eq p q ≡ false
    → lookup q ((p, e) ∷ entries) ≡ lookup q entries
unfolding lookup
lookup-other p q e entries h = rw (h, lookup) refl

lookup-same :
    (p q : Text) (e : CacheEntry) (entries : List (Text × CacheEntry))
    → text_eq p q ≡ true
    → lookup q ((p, e) ∷ entries) ≡ some e
unfolding lookup
lookup-same p q e entries h = rw (h, lookup) refl

fresh_value :
    (t : ℕ) (o : Option CacheEntry) (v : Text)
    → fresh t o ≡ some v
    → (e : CacheEntry) × (o ≡ some e) × (e.value ≡ v)
unfolding fresh
fresh_value t none v h = absurd (cc)
fresh_value t (some e) v h = (e, refl, ground arith)

module _ {S : Type 0} (store : Store S) (ttl : ℤ) (law : IsLawful store) where
  -- What the cache holds is what the store would give.
  abbrev Coherent : S → List (Text × CacheEntry) → Type 0
  Coherent s entries =
      (q : Text) (e : CacheEntry)
      → lookup q entries ≡ some e
      → (t : ℕ) → (store.get t q s).1 ≡ ok e.value

  Coherent-put :
      (s s' : S) (now : ℕ) (p v : Text) (entries : List (Text × CacheEntry))
      → Coherent s entries
      → ((t : ℕ) → (store.get t p s').1 ≡ ok v)
      → ((t : ℕ) (q : Text) → text_eq p q ≡ false → (store.get t q s').1 ≡ (store.get t q s).1)
      → Coherent s' (put store ttl now p v entries)
  Coherent-put s s' now p v entries c here there q e h t = elim (Bool-cases (text_eq p q)) [
    | inl same ↦
        subst (λ r. (store.get t r s').1 ≡ ok e.value) (text_eq-eq p q same)
          (here t
            ∙ ap (λ x. ok x.value) (some-injective _ e (sym (lookup-same p q _ entries same) ∙ h)))
    | inr other ↦ there t q other ∙ c q e (sym (lookup-other p q _ entries other) ∙ h) t
  ]

  -- What a call of the cached store gives, against what the store gives.
  abbrev Matches : {A : Type 0} → CachedStore S × A → S × A → Type 0
  Matches a b = (a.1 ≡ b.1) × (a.0.inner ≡ b.0) × Coherent a.0.inner a.0.entries

  filled-Matches :
      (now : ℕ) (p : Text) (c : CachedStore S) (a : S × Result StoreError Text)
      → Coherent c.inner c.entries
      → a.0 ≡ c.inner
      → ((t : ℕ) → (store.get t p c.inner).1 ≡ a.1)
      → Matches (filled store ttl now p c a) a
  unfolding filled
  filled-Matches now p c (s, ok v) h same reads = (
    refl,
    refl,
    Coherent-put c.inner s now p v c.entries h (λ t. ap (λ x. (store.get t p x).1) same ∙ reads t)
        (λ t q other. ap (λ x. (store.get t q x).1) same),
  )
  filled-Matches now p c (s, err e) h same reads =
      (refl, refl, subst (λ x. Coherent x c.entries) (sym same) h)

  get-Matches :
      (t : ℕ) (p : Text) (c : CachedStore S) (o : Option Text)
      → Coherent c.inner c.entries
      → fresh t (lookup p c.entries) ≡ o
      → Matches (get_by store ttl t p c o) (store.get t p c.inner)
  unfolding get_by
  get-Matches t p c (some v) h e =
      let (e', l, same) = fresh_value t (lookup p c.entries) v e in
      (sym (h p e' l t ∙ ap ok same), sym (law.get_pure t p c.inner), h)
  get-Matches t p c none h e =
      filled-Matches t p c (store.get t p c.inner) h (law.get_pure t p c.inner)
        (λ u. law.get_anytime u t p c.inner)

  exists-Matches :
      (t : ℕ) (p : Text) (c : CachedStore S) (o : Option Text)
      → Coherent c.inner c.entries
      → fresh t (lookup p c.entries) ≡ o
      → Matches (exists_by store ttl t p c o) (store.exists t p c.inner)
  unfolding exists_by
  exists-Matches t p c (some v) h e =
      let (e', l, same) = fresh_value t (lookup p c.entries) v e in
      (
        sym (law.exists_get t t p e'.value c.inner (h p e' l t)),
        sym (law.exists_pure t p c.inner),
        h,
      )
  exists-Matches t p c none h e =
      (refl, refl, subst (λ x. Coherent x c.entries) (sym (law.exists_pure t p c.inner)) h)

  written-Matches :
      (t : ℕ) (p v : Text) (c : CachedStore S) (a : S × Option StoreError)
      → Coherent c.inner c.entries
      → store.set t p v c.inner ≡ a
      → Matches (written store ttl t p v c a) a
  unfolding written
  written-Matches t p v c (s, none) h e =
      let state = ap (λ x. x.0) e in
      (
        refl,
        refl,
        Coherent-put c.inner s t p v c.entries h
            (λ u.
              ap (λ x. (store.get u p x).1) (sym state)
              ∙ law.set_get t u p v c.inner (ap (λ x. x.1) e))
            (λ u q other.
              ap (λ x. (store.get u q x).1) (sym state) ∙ law.set_other t u p q v c.inner other),
      )
  written-Matches t p v c (s, some x) h e =
      let state = ap (λ x. x.0) e in
      (
        refl,
        refl,
        λ q y l u.
            ap (λ z. (store.get u q z).1) (sym state)
            ∙ law.set_fails t u p q v c.inner x (ap (λ z. z.1) e)
            ∙ h q y l u,
      )

  call-Matches :
      (call : Call) (c : CachedStore S)
      → Coherent c.inner c.entries
      → Matches (perform (cached store ttl) call c) (perform store call c.inner)
  unfolding cached cached_get cached_set cached_exists
  call-Matches (gets t p) c h = let (a, b, k) = get-Matches t p c _ h refl in (ap got a, b, k)
  call-Matches (asks t p) c h = let (a, b, k) = exists-Matches t p c _ h refl in (ap asked a, b, k)
  call-Matches (sets t p v) c h =
      let (a, b, k) = written-Matches t p v c _ h refl in (ap wrote a, b, k)

  replies-cached :
      (calls : List Call) (c : CachedStore S)
      → Coherent c.inner c.entries
      → replies (cached store ttl) calls c ≡ replies store calls c.inner
  replies-cached [] c h = refl
  replies-cached (call ∷ calls) c h =
      let (a, b, k) = call-Matches call c h in
      ap₂ (λ r rs. r ∷ rs) a
        (replies-cached calls (perform (cached store ttl) call c).0 k ∙ ap (replies store calls) b)

nothing-cached : (q : Text) (e : CacheEntry) → lookup q [] ≡ some e → ⊥
unfolding lookup
nothing-cached q e h = cc

-- If nobody else writes to it, a lawful store answers every sequence of reads, writes and tests, at
-- any instants, through a cache that starts empty exactly as it does without one, whatever the TTL.
pub cached_transparent :
    {S : Type 0} (store : Store S) (ttl : ℤ) (calls : List Call) (s : S)
    → IsLawful store
    → replies (cached store ttl) calls (record { inner = s; entries = [] }) ≡ replies store calls s
cached_transparent store ttl calls s law =
    replies-cached store ttl law calls (record { inner = s; entries = [] })
      (λ q e h. absurd (nothing-cached q e h))
