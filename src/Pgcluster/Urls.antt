-- ===== src/Pgcluster/Urls.antt =====
-- The URLs of a cluster from the environment, and their masking, in pgcluster/config.go. The
-- environment is a function that is empty where a variable is not set.
use svckit.Base.{ℕ, zero, suc, ◌&&◌, List, [], ◌∷◌, ◌++◌, map, Option, none, some, if◌then◌else◌}
use svckit.Base.Text.{Text, codes, text_eq, split, join, trim_space, to_lower, itoa, atoi}
use svckit.Base.Text

abbrev pub Env : Type 0
Env = Text → Text

abbrev pub or_else : Text → Text → Text
or_else [] t = t
or_else (c ∷ s) t = c ∷ s

-- A component of the URL: `KEY<suffix>`, then `KEY`, then a default.
abbrev pub component : Env → Text → Text → Text → Text
component env suffix key default = or_else (env (key ++ suffix)) (or_else (env key) default)

-- The format of the URL; without a host there is none.
unfoldable pub url_of : (host user password port dbname sslmode : Text) → Text
url_of [] user password port dbname sslmode = []
url_of (c ∷ host) user password port dbname sslmode =
    codes "postgres://"
    ++ (user
        ++ (codes ":"
            ++ (password
                ++ (codes "@"
                    ++ ((c ∷ host)
                        ++ (codes ":"
                            ++ (port
                                ++ (codes "/" ++ (dbname ++ (codes "?sslmode=" ++ sslmode))))))))))

abbrev pub default_host : Text → Text
default_host [] = codes "localhost"
default_host (c ∷ suffix) = []

-- `buildURLFromComponents(suffix)`
unfoldable pub build_url_from_components : Env → Text → Text
unfolding url_of
build_url_from_components env suffix =
    url_of (component env suffix (codes "DB_HOST") (default_host suffix))
      (component env suffix (codes "DB_USER") (codes "postgres"))
      (component env suffix (codes "DB_PASSWORD") (codes "dev_password"))
      (component env suffix (codes "DB_PORT") (codes "5432"))
      (component env suffix (codes "DB_NAME") (codes "postgres"))
      (component env suffix (codes "DB_SSL_MODE") (codes "disable"))

-- The texts of `f i` for `i` from `first` on, as many as `n`, without the empty ones.
unfoldable pub collect : (ℕ → Text) → ℕ → ℕ → List Text
collect f first zero = []
collect f first (suc n) =
    let rest = collect f (suc first) n in elim (f first) [ [] ↦ rest | c ∷ s ↦ (c ∷ s) ∷ rest ]

unfoldable pub reader_key : ℕ → Text
reader_key i = codes "DATABASE_READER_" ++ (itoa i ++ codes "_URL")

-- The reader URLs that variables name.
unfoldable pub named_readers : Env → List Text → List Text
unfolding split trim_space collect reader_key
named_readers env before =
    let listed : List Text = elim (env (codes "DATABASE_READER_URLS")) [
      | [] ↦ before
      | c ∷ s ↦ map trim_space (split (c ∷ s) (codes ","))
    ] in
    listed ++ collect (λ i. env (reader_key i)) 1 10

unfoldable pub reader_urls_of : Env → List Text → List Text
unfolding named_readers collect build_url_from_components
reader_urls_of env before = elim (named_readers env before) [
  | [] ↦ collect (λ i. build_url_from_components env (codes "_" ++ itoa i)) 1 5
  | url ∷ urls ↦ url ∷ urls
]

unfoldable pub writer_url_of : Env → Text
unfolding build_url_from_components
writer_url_of env =
    or_else (or_else (env (codes "DATABASE_WRITER_URL")) (env (codes "DATABASE_URL")))
      (build_url_from_components env [])

-- The parts of `maskURL` between its tests; `none` where it returns the URL as it is.
unfoldable pub masked : Text → Option Text
unfolding split join
masked url = elim (split url (codes "@")) [
  | p ∷ q ∷ rest ↦ elim (split p (codes "://")) [
    | scheme ∷ s ∷ _ ↦ elim (split s (codes ":")) [
      | user ∷ _ ∷ _ ↦
          some (scheme ++ (codes "://" ++ (user ++ (codes ":***@" ++ join (q ∷ rest) (codes "@")))))
      | _ ↦ none
    ]
    | _ ↦ none
  ]
  | _ ↦ none
]

-- `maskURL(url)`
unfoldable pub mask_url : Text → Text
unfolding masked Text.contains
mask_url url =
    if Text.contains url (codes "://") && Text.contains url (codes "@")
    then (elim (masked url) [ some m ↦ m | none ↦ url ])
    else url
