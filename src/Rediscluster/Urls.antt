-- ===== src/Rediscluster/Urls.antt =====
-- The URLs of the nodes from the environment and what is shown of them, in rediscluster/config.go.
use svckit.Base.{ℕ, ◌&&◌, List, [], ◌∷◌, ◌++◌, Option, none, some, if◌then◌else◌}
use svckit.Base.Text.{Text, codes, split, join, has_prefix, itoa}
use svckit.Base.Text
use svckit.Pgcluster.Urls.{Env, or_else, collect}

-- The format of a URL; without a host there is none.
unfoldable pub redis_url : (password host port db : Text) → Text
redis_url password [] port db = []
redis_url [] (h ∷ host) port db =
    codes "redis://" ++ ((h ∷ host) ++ (codes ":" ++ (port ++ (codes "/" ++ db))))
redis_url (p ∷ password) (h ∷ host) port db =
    codes "redis://:"
    ++ ((p ∷ password) ++ (codes "@" ++ ((h ∷ host) ++ (codes ":" ++ (port ++ (codes "/" ++ db))))))

-- The host for a suffix: that of another node has no default.
abbrev pub host_for : Env → Text → Text
host_for env [] = or_else (env (codes "REDIS_HOST")) (codes "localhost")
host_for env (c ∷ suffix) = env (codes "REDIS_HOST" ++ (c ∷ suffix))

abbrev pub part_for : Env → Text → Text → Text → Text
part_for env suffix key default = or_else (env (key ++ suffix)) (or_else (env key) default)

-- `buildURLFromComponents(suffix)`, of a configuration with the given password.
unfoldable pub build_url_from_components : Text → Env → Text → Text
unfolding redis_url
build_url_from_components password env suffix =
    redis_url password (host_for env suffix)
      (part_for env suffix (codes "REDIS_PORT") (codes "6379"))
      (part_for env suffix (codes "REDIS_DB") (codes "0"))

abbrev pub node_key : ℕ → Text
node_key i = codes "REDIS_NODE_" ++ (itoa i ++ codes "_URL")

abbrev pub non_empty_list : Text → List Text
non_empty_list [] = []
non_empty_list (c ∷ s) = (c ∷ s) ∷ []

-- The nodes that variables name one by one, or else the single one.
unfoldable pub named_or_single : Text → Env → List Text
unfolding build_url_from_components collect itoa
named_or_single password env = elim (collect (λ i. env (node_key i)) 1 10) [
  | [] ↦
      non_empty_list (or_else (env (codes "REDIS_URL")) (build_url_from_components password env []))
  | url ∷ urls ↦ url ∷ urls
]

-- With a single node, the further ones of the numbered components.
unfoldable pub with_additional : Text → Env → List Text → List Text
unfolding build_url_from_components collect itoa
with_additional password env [] = []
with_additional password env (url ∷ []) =
    url ∷ collect (λ i. build_url_from_components password env (codes "_" ++ itoa i)) 2 4
with_additional password env (url ∷ next ∷ urls) = url ∷ next ∷ urls

-- The parts of `maskURL` between its tests; `none` where it returns the URL as it is.
unfoldable pub masked : Text → Option Text
unfolding split join has_prefix
masked url = elim (split url (codes "@")) [
  | p ∷ q ∷ rest ↦ elim (split p (codes "://")) [
    | scheme ∷ s ∷ _ ↦
        if has_prefix s (codes ":")
        then some (scheme ++ (codes "://:***@" ++ join (q ∷ rest) (codes "@")))
        else elim (split s (codes ":")) [
          | user ∷ _ ∷ _ ↦
              some (
                scheme ++ (codes "://" ++ (user ++ (codes ":***@" ++ join (q ∷ rest) (codes "@")))))
          | _ ↦ none
        ]
    | _ ↦ none
  ]
  | _ ↦ none
]

-- `maskURL(url)`
unfoldable pub mask_url : Text → Text
unfolding masked Text.contains
mask_url url =
    if Text.contains url (codes "://") && Text.contains url (codes "@")
    then (elim (masked url) [ some m ↦ m | none ↦ url ])
    else url
