-- ===== src/Secrets/Cached.antt =====
-- `Cached` of secrets/cached.go. The map of entries is an association list.
pub mod Laws
use svckit.Base.{ℕ, Bool, true, List, [], ◌∷◌, Option, none, some, Result, ok, err, if◌then◌else◌}
use svckit.Base.Int.{ℤ, pos, ◌+ℤ◌, ltb_ℤ}
use svckit.Base.Text.{Text, text_eq}
use svckit.Secrets.{StoreError, Store}

pub record CacheEntry : Type 0 where
  pub value : Text
  pub expires : ℤ

-- The state of a `cachedStore` with that of the inner store.
pub record CachedStore (S : Type 0) : Type 0 where
  pub inner : S
  pub entries : List (Text × CacheEntry)

unfoldable pub lookup : Text → List (Text × CacheEntry) → Option CacheEntry
unfolding text_eq
lookup path [] = none
lookup path ((p, e) ∷ entries) =
    let rest = lookup path entries in if text_eq p path then some e else rest

-- The entry's value, if there is an entry and the time is before it expires.
unfoldable pub fresh : ℕ → Option CacheEntry → Option Text
fresh now none = none
fresh now (some e) = if ltb_ℤ (pos now) e.expires then some e.value else none

module _ {S : Type 0} (store : Store S) (ttl : ℤ) where
  -- `c.store(path, value)`
  abbrev pub put : ℕ → Text → Text → List (Text × CacheEntry) → List (Text × CacheEntry)
  put now path value entries = (path, record { value = value; expires = pos now +ℤ ttl }) ∷ entries

  unfoldable pub filled :
      ℕ → Text → CachedStore S → S × Result StoreError Text → CachedStore S × Result StoreError Text
  filled now path c (s, ok value) =
      (record { inner = s; entries = put now path value c.entries }, ok value)
  filled now path c (s, err e) = (record c { inner = s }, err e)

  unfoldable pub get_by :
      ℕ → Text → CachedStore S → Option Text → CachedStore S × Result StoreError Text
  unfolding filled
  get_by now path c (some value) = (c, ok value)
  get_by now path c none = filled now path c (store.get now path c.inner)

  unfoldable pub cached_get : ℕ → Text → CachedStore S → CachedStore S × Result StoreError Text
  unfolding get_by fresh lookup
  cached_get now path c = get_by now path c (fresh now (lookup path c.entries))

  unfoldable pub written :
      ℕ → Text → Text → CachedStore S → S × Option StoreError → CachedStore S × Option StoreError
  written now path value c (s, some e) = (record c { inner = s }, some e)
  written now path value c (s, none) =
      (record { inner = s; entries = put now path value c.entries }, none)

  unfoldable pub cached_set : ℕ → Text → Text → CachedStore S → CachedStore S × Option StoreError
  unfolding written
  cached_set now path value c = written now path value c (store.set now path value c.inner)

  unfoldable pub exists_by :
      ℕ → Text → CachedStore S → Option Text → CachedStore S × Result StoreError Bool
  exists_by now path c (some value) = (c, ok true)
  exists_by now path c none =
      let a = store.exists now path c.inner in (record c { inner = a.0 }, a.1)

  unfoldable pub cached_exists : ℕ → Text → CachedStore S → CachedStore S × Result StoreError Bool
  unfolding exists_by fresh lookup
  cached_exists now path c = exists_by now path c (fresh now (lookup path c.entries))

  -- `Cached(inner, ttl)`
  unfoldable pub cached : Store (CachedStore S)
  unfolding cached_get cached_set cached_exists
  cached = record { get = cached_get; set = cached_set; exists = cached_exists }
