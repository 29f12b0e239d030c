-- ===== src/Pgcluster/Config/Mask.antt =====
-- What `maskURL` of pgcluster/config.go leaves of a URL.
use svckit.Base.{ℕ, ◌≡◌, refl, ap, sym, ◌∙◌, true, List, [], ◌∷◌, ◌++◌, some, arith, All-append}
use svckit.Base.Text.{Text, codes, cut, split, join}
use svckit.Base.Text
use mathlib.Core.List.{append_assoc}
use svckit.Base.Text.Laws.{Clear, Without, Clear-byte, cut-append, split-append, split_alone}
use svckit.Base.Text.Joins.{join-split, split-nonempty}
use svckit.Pgcluster.Urls.{mask_url, masked}

masked_parts :
    (url scheme user p q s t : Text) (qs us ss : List Text)
    → split url (codes "@") ≡ p ∷ q ∷ qs
    → split p (codes "://") ≡ scheme ∷ s ∷ ss
    → split s (codes ":") ≡ user ∷ t ∷ us
    → masked url
      ≡ some (scheme ++ (codes "://" ++ (user ++ (codes ":***@" ++ join (q ∷ qs) (codes "@")))))
unfolding masked
masked_parts url scheme user p q s t qs us ss a b c = rw (a, b, c, masked) refl

contains-append :
    (a : ℕ) (sep x rest : Text)
    → Clear (a ∷ sep) x ((a ∷ sep) ++ rest)
    → Text.contains (x ++ ((a ∷ sep) ++ rest)) (a ∷ sep) ≡ true
unfolding Text.contains
contains-append a sep x rest h = rw (cut-append a sep x rest h, Text.contains) refl

-- Of a URL with a scheme, a user and a password, where the scheme and the user have neither `:` nor
-- `@`, the password has no `@` and no `://` stands in the credentials, exactly the password is
-- masked, whatever follows the first `@`.
pub mask_url-masked :
    (scheme user password rest : Text)
    → Without 58 scheme
    → Without 64 scheme
    → Without 58 user
    → Without 64 user
    → Without 64 password
    → Clear (codes "://") (user ++ (codes ":" ++ password)) []
    → mask_url
        ((scheme ++ (codes "://" ++ (user ++ (codes ":" ++ password)))) ++ (codes "@" ++ rest))
      ≡ scheme ++ (codes "://" ++ (user ++ (codes ":***@" ++ rest)))
unfolding mask_url
mask_url-masked scheme user password rest s58 s64 u58 u64 p64 clear =
    let credentials = user ++ (codes ":" ++ password) in
    let p = scheme ++ (codes "://" ++ credentials) in
    let url = p ++ (codes "@" ++ rest) in
    let p-plain : Without 64 p =
      All-append _ scheme _ s64
        (omega arith, (omega arith, (omega arith, All-append _ user _ u64 (omega arith, p64)))) in
    let (q, qs, e) = split-nonempty rest (codes "@") in
    let (t, us, f) = split-nonempty password (codes ":") in
    let at = split-append 64 [] p rest (Clear-byte 64 [] p _ p-plain) in
    let scheme_end =
      split-append 58 (codes "//") scheme credentials (Clear-byte 58 (codes "//") scheme _ s58) in
    let user_end = split-append 58 [] user password (Clear-byte 58 [] user _ u58) in
    let m =
      masked_parts url scheme user p q credentials t qs us [] (at ∙ ap (λ l. p ∷ l) e)
        (scheme_end ∙ ap (λ l. scheme ∷ l) (split_alone 58 (codes "//") credentials clear))
        (user_end ∙ ap (λ l. user ∷ l) f) in
    let has_scheme : Text.contains url (codes "://") ≡ true =
      ap (λ u. Text.contains u (codes "://")) (append_assoc scheme _ _)
      ∙ contains-append 58 (codes "//") scheme (credentials ++ (codes "@" ++ rest))
          (Clear-byte 58 (codes "//") scheme _ s58) in
    let has_at = contains-append 64 [] p rest (Clear-byte 64 [] p _ p-plain) in
    rw (has_scheme, has_at, m, mask_url)
      (ap (λ r. scheme ++ (codes "://" ++ (user ++ (codes ":***@" ++ r))))
        (ap (λ l. join l (codes "@")) (sym e) ∙ join-split rest (codes "@")))
