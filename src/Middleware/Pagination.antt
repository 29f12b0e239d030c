-- ===== src/Middleware/Pagination.antt =====
-- The pagination of httpx/httpx.go, for the values of the query's two parameters.
use svckit.Base.{[], none, some, if◌then◌else◌, ◌≡◌, refl, arith, Bool-cases, inl, inr, ◌⊎◌}
use svckit.Base.Int.{ℤ, pos, ltb_ℤ, ◌≤ℤ◌, ◌<ℤ◌}
use svckit.Base.Text.{Text, text_eq, atoi}

pub record Page : Type 0 where
  pub limit : ℤ
  pub offset : ℤ

unfoldable pub query_int : Text → ℤ → ℤ
unfolding atoi
query_int value default =
    if text_eq value [] then default else elim (atoi value) [ none ↦ default | some n ↦ n ]

-- `PaginationWith`, for the values of "limit" and "offset".
unfoldable pub pagination_with : Text → Text → ℤ → ℤ → Page
pagination_with limit_value offset_value default max_limit =
    let asked = query_int limit_value default in
    let limit = if ltb_ℤ asked (pos 1) then default else asked in
    let offset = query_int offset_value (pos 0) in
    record {
      limit = if ltb_ℤ max_limit limit then max_limit else limit;
      offset = if ltb_ℤ offset (pos 0) then pos 0 else offset;
    }

-- `Pagination`
unfoldable pub pagination : Text → Text → Page
unfolding pagination_with
pagination limit_value offset_value = pagination_with limit_value offset_value (pos 20) (pos 100)

-- With a default between 1 and the maximum, a page has a limit between 1 and the maximum, which is
-- the limit that is asked for if that lies there too, and an offset that is not negative, whatever the
-- two parameters hold.
pub pagination_with-in_range :
    (limit_value offset_value : Text) (default max_limit : ℤ)
    → pos 1 ≤ℤ default
    → default ≤ℤ max_limit
    → let p = pagination_with limit_value offset_value default max_limit in
      let asked = query_int limit_value default in
      (pos 1 ≤ℤ p.limit)
      × (p.limit ≤ℤ max_limit)
      × (pos 0 ≤ℤ p.offset)
      × ((p.limit ≡ asked) ⊎ ((asked <ℤ pos 1) ⊎ (max_limit <ℤ asked)))
unfolding pagination_with
pagination_with-in_range limit_value offset_value default max_limit h k =
    in_range (query_int limit_value default) (query_int offset_value (pos 0))
  where
    as_asked :
        (asked : ℤ)
        → let positive = if ltb_ℤ asked (pos 1) then default else asked in
          let limit = if ltb_ℤ max_limit positive then max_limit else positive in
          (limit ≡ asked) ⊎ ((asked <ℤ pos 1) ⊎ (max_limit <ℤ asked))
    as_asked asked = elim (Bool-cases (ltb_ℤ asked (pos 1))) [
      | inl e ↦ inr (inl (ground arith))
      | inr e ↦ elim (Bool-cases (ltb_ℤ max_limit asked)) [
        | inl f ↦ inr (inr (ground arith))
        | inr f ↦ inl (rw (e, f) refl)
      ]
    ]

    in_range :
        (asked offset : ℤ)
        → let positive = if ltb_ℤ asked (pos 1) then default else asked in
          let limit = if ltb_ℤ max_limit positive then max_limit else positive in
          (pos 1 ≤ℤ limit)
          × (limit ≤ℤ max_limit)
          × (pos 0 ≤ℤ (if ltb_ℤ offset (pos 0) then pos 0 else offset))
          × ((limit ≡ asked) ⊎ ((asked <ℤ pos 1) ⊎ (max_limit <ℤ asked)))
    in_range asked offset = (ground arith, ground arith, ground arith, as_asked asked)
