-- ===== src/Pgcluster/Config/Readers.antt =====
-- The readers that pgcluster/config.go builds where no reader is configured.
use svckit.Base.{ℕ, zero, suc, ◌≡◌, refl, ap, sym, ◌∙◌, false, List, [], ◌∷◌, ◌++◌, All}
use svckit.Base.Text.{Text, codes, itoa}
use svckit.Pgcluster.Config.{is_empty}
use svckit.Pgcluster.Urls.{
  Env, or_else, component, build_url_from_components, url_of, collect, reader_key, named_readers,
  reader_urls_of,
}
use svckit.Pgcluster.Config.Laws.{build_url_from_components_present}

abbrev pub replicate {ℓ} : {A : Type ℓ} → ℕ → A → List A
replicate zero a = []
replicate (suc n) a = a ∷ replicate n a

collect_none : (f : ℕ → Text) (i n : ℕ) → ((j : ℕ) → f j ≡ []) → collect f i n ≡ []
unfolding collect
collect_none f i zero h = refl
collect_none f i (suc n) h = rw (h i, collect) (collect_none f (suc i) n h)

collect_same :
    (f : ℕ → Text) (u : Text) (i n : ℕ)
    → is_empty u ≡ false
    → ((j : ℕ) → f j ≡ u)
    → collect f i n ≡ replicate n u
unfolding collect
collect_same f u i zero p h = refl
collect_same f [] i (suc n) p h = absurd (cc)
collect_same f (c ∷ s) i (suc n) p h =
    rw (h i, collect) (ap (λ l. (c ∷ s) ∷ l) (collect_same f (c ∷ s) (suc i) n p h))

or_else_twice : (s t : Text) → or_else s (or_else s t) ≡ or_else s t
or_else_twice [] t = refl
or_else_twice (c ∷ s) t = refl

-- A numbered component that is not set is the unnumbered one.
component_unset :
    (env : Env) (i : ℕ) (key default : Text)
    → env (key ++ (codes "_" ++ itoa i)) ≡ []
    → component env (codes "_" ++ itoa i) key default
      ≡ or_else (env key) (or_else (env key) default)
component_unset env i key default h = rw h (sym (or_else_twice (env key) default))

or_else_set :
    (s t t' : Text) (c : ℕ) (r : Text)
    → s ≡ c ∷ r
    → or_else s (or_else s t) ≡ or_else s (or_else s t')
or_else_set s t t' c r h = rw h refl

-- The variables of the components.
abbrev pub component_keys : List Text
component_keys =
    codes "DB_HOST"
    ∷ codes "DB_USER"
    ∷ codes "DB_PASSWORD"
    ∷ codes "DB_PORT"
    ∷ codes "DB_NAME"
    ∷ codes "DB_SSL_MODE"
    ∷ []

numbered_url :
    (env : Env) (i c : ℕ) (host : Text)
    → env (codes "DB_HOST") ≡ c ∷ host
    → All (λ key. env (key ++ (codes "_" ++ itoa i)) ≡ []) component_keys
    → build_url_from_components env (codes "_" ++ itoa i) ≡ build_url_from_components env []
unfolding build_url_from_components
numbered_url env i c host h p =
    let e1 =
      component_unset env i (codes "DB_HOST") [] p.0
      ∙ or_else_set _ [] (codes "localhost") c host h in
    let e2 = component_unset env i (codes "DB_USER") (codes "postgres") p.1.0 in
    let e3 = component_unset env i (codes "DB_PASSWORD") (codes "dev_password") p.1.1.0 in
    let e4 = component_unset env i (codes "DB_PORT") (codes "5432") p.1.1.1.0 in
    let e5 = component_unset env i (codes "DB_NAME") (codes "postgres") p.1.1.1.1.0 in
    let e6 = component_unset env i (codes "DB_SSL_MODE") (codes "disable") p.1.1.1.1.1.0 in
    λ j. url_of (e1 j) (e2 j) (e3 j) (e4 j) (e5 j) (e6 j)

-- Where `DB_HOST` is set and nothing names a reader, neither a list, nor a numbered URL, nor a
-- numbered component, the cluster still gets five readers, all of them at the one URL of the
-- unnumbered components.
pub reader_urls_of_components :
    (env : Env) (c : ℕ) (host : Text)
    → env (codes "DB_HOST") ≡ c ∷ host
    → env (codes "DATABASE_READER_URLS") ≡ []
    → ((i : ℕ) → env (reader_key i) ≡ [])
    → ((i : ℕ) → All (λ key. env (key ++ (codes "_" ++ itoa i)) ≡ []) component_keys)
    → reader_urls_of env [] ≡ replicate 5 (build_url_from_components env [])
unfolding reader_urls_of named_readers
reader_urls_of_components env c host h list named parts =
    rw (list, named_readers, reader_urls_of, collect_none (λ i. env (reader_key i)) 1 10 named)
      (collect_same (λ i. build_url_from_components env (codes "_" ++ itoa i))
        (build_url_from_components env []) 1 5 (build_url_from_components_present env)
        (λ i. numbered_url env i c host h (parts i)))
