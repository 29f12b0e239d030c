-- ===== src/Secrets.antt =====
-- Package secrets: the `Store` interface of secrets/secrets.go, over the state of what backs it. A
-- call takes the instant at which it is made and gives the state after it.
pub mod Chain
pub mod Cached
pub mod Retrying
pub mod EnvStore
mod Examples
use svckit.Base.{ℕ, Bool, true, false, ◌++◌, Option, Result, err}
use svckit.Base.Text.{Text, codes}

-- What `errors.Is` finds in an error, or its text.
pub data StoreError : Type 0 where
  not_found read_only access_denied unavailable : StoreError
  other_error : Text → StoreError

pub record Store (S : Type 0) : Type 0 where
  pub get : ℕ → Text → S → S × Result StoreError Text
  pub set : ℕ → Text → Text → S → S × Option StoreError
  pub exists : ℕ → Text → S → S × Result StoreError Bool

-- `errors.Is(err, ErrNotFound)`
abbrev pub is_not_found : StoreError → Bool
is_not_found not_found = true
is_not_found _ = false

abbrev pub is_unavailable : StoreError → Bool
is_unavailable unavailable = true
is_unavailable _ = false

unfoldable pub service_key_path : Text → Text
service_key_path service_name = codes "service-keys/" ++ service_name
