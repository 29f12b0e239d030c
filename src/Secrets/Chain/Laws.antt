-- ===== src/Secrets/Chain/Laws.antt =====
-- About `Get` of a chain of stores and the answers of the stores one by one.
use svckit.Base.{
  ℕ, zero, suc, ◌≡◌, refl, ap, sym, subst, Bool-cases, true, false, List, [], ◌∷◌, some, Result, ok,
  err, length, get_elem?, ◌⊎◌, inl, inr, arith,
}
use svckit.Base.Text.{Text}
use svckit.Secrets.{StoreError, not_found, Store, is_not_found}
use svckit.Secrets.Chain.{chain, chain_get, fall_through}

abbrev pub IsMissing : Result StoreError Text → Type 0
IsMissing (ok v) = ⊥
IsMissing (err e) = is_not_found e ≡ true

abbrev pub IsAnswer : Result StoreError Text → Type 0
IsAnswer (ok v) = Unit
IsAnswer (err e) = is_not_found e ≡ false

is_not_found_only : (e : StoreError) → is_not_found e ≡ true → e ≡ not_found
is_not_found_only e h = ground arith

Result-cases : (r : Result StoreError Text) → IsMissing r ⊎ IsAnswer r
Result-cases (ok v) = inr tt
Result-cases (err e) = Bool-cases (is_not_found e)

fall_through-IsMissing :
    {S : Type 0} (a : S × Result StoreError Text) (next : StoreError → S × Result StoreError Text)
    → IsMissing a.1
    → (e : StoreError) × (e ≡ not_found) × (fall_through a next ≡ next e)
unfolding fall_through
fall_through-IsMissing (s, ok v) next h = absurd h
fall_through-IsMissing (s, err e) next h = (e, is_not_found_only e h, rw h refl)

fall_through-IsAnswer :
    {S : Type 0} (a : S × Result StoreError Text) (next : StoreError → S × Result StoreError Text)
    → IsAnswer a.1
    → fall_through a next ≡ a
unfolding fall_through
fall_through-IsAnswer (s, ok v) next h = refl
fall_through-IsAnswer (s, err e) next h = rw h refl

module _ {S : Type 0} (now : ℕ) (path : Text) where
  -- The first `k` stores report the secret missing, one after the other from `s` on, and leave `s'`.
  abbrev pub Missing : ℕ → List (Store S) → S → S → Type 0
  Missing zero stores s s' = s ≡ s'
  Missing (suc k) [] s s' = ⊥
  Missing (suc k) (store ∷ stores) s s' =
      IsMissing (store.get now path s).1 × Missing k stores (store.get now path s).0 s'

  -- The two ways in which `answer` comes about.
  abbrev pub Chosen : List (Store S) → S → S × Result StoreError Text → Type 0
  Chosen stores s answer =
      ((k : ℕ) × (store : Store S) × (s' : S) × (get_elem? stores k ≡ some store)
        × Missing k stores s s'
        × IsAnswer (store.get now path s').1
        × (answer ≡ store.get now path s'))
      ⊎ ((s' : S) × Missing (length stores) stores s s' × (answer ≡ (s', err not_found)))

  Chosen-cons :
      (store : Store S) (stores : List (Store S)) (s : S) (answer : S × Result StoreError Text)
      → IsMissing (store.get now path s).1
      → Chosen stores (store.get now path s).0 answer
      → Chosen (store ∷ stores) s answer
  Chosen-cons store stores s answer m (inl (k, st, s', g, ms, a, e)) =
      inl (suc k, st, s', g, (m, ms), a, e)
  Chosen-cons store stores s answer m (inr (s', ms, e)) = inr (s', (m, ms), e)

  chain_get-Chosen :
      (stores : List (Store S)) (s : S) (e : StoreError)
      → e ≡ not_found
      → Chosen stores s (chain_get e stores now path s)
  unfolding chain_get
  chain_get-Chosen [] s e h = inr (s, refl, ap (λ x. (s, err x)) h)
  chain_get-Chosen (store ∷ stores) s e h = elim (Result-cases (store.get now path s).1) [
    | inl m ↦
        let (e', same, step) =
          fall_through-IsMissing (store.get now path s)
            (λ x. chain_get x stores now path (store.get now path s).0) m in
        subst (Chosen (store ∷ stores) s) (sym step) (
          Chosen-cons store stores s _ m (chain_get-Chosen stores (store.get now path s).0 e' same))
    | inr a ↦ inl (0, store, s, refl, refl, a, fall_through-IsAnswer (store.get now path s) _ a)
  ]

-- `Get` of a chain gives the answer of the first store that does not report the secret missing, be
-- it a value or another error, and asks no later store; if all report it missing, so does the chain.
pub chain-Chosen :
    {S : Type 0} (stores : List (Store S)) (now : ℕ) (path : Text) (s : S)
    → Chosen now path stores s ((chain stores).get now path s)
unfolding chain
chain-Chosen stores now path s = chain_get-Chosen now path stores s not_found refl
