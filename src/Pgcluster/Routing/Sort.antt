-- ===== src/Pgcluster/Routing/Sort.antt =====
-- About the exchange sort in `getHealthyReaders` (pgcluster/manager.go).
use mathlib.Core.List.{Perm}
use mathlib.Core.List.Perm
use svckit.Base.{
  ℕ, zero, suc, ◌≤◌, ◌≡◌, refl, true, false, List, [], ◌∷◌, if◌then◌else◌, length, All, arith,
  Bool-cases, ap, sym, subst, inl, inr,
}
use svckit.Base.Int.{ℤ, ◌≤ℤ◌, ltb_ℤ}
use svckit.Pgcluster.Routing.{sweep, sort_fuel, exchange_sort}

module _ {ℓ} {A : Type ℓ} (key : A → ℤ) where
  abbrev pub IsSorted : List A → Type 0
  IsSorted [] = Unit
  IsSorted (x ∷ xs) = All (λ y. key x ≤ℤ key y) xs × IsSorted xs

  sweep-perm : (x : A) (ys : List A) → Perm ((sweep key x ys).0 ∷ (sweep key x ys).1) (x ∷ ys)
  unfolding sweep
  sweep-perm x [] = Perm.refl _
  sweep-perm x (y ∷ ys) = elim (Bool-cases (ltb_ℤ (key y) (key x))) [
    | inl e ↦ rw e (Perm.trans (Perm.swap x (sweep key y ys).0 _) (Perm.cons x (sweep-perm y ys)))
    | inr e ↦ rw e (
        Perm.trans (Perm.swap y (sweep key x ys).0 _)
          (Perm.trans (Perm.cons y (sweep-perm x ys)) (Perm.swap x y ys)))
  ]

  length-sweep : (x : A) (ys : List A) → length (sweep key x ys).1 ≡ length ys
  unfolding sweep
  length-sweep x [] = refl
  length-sweep x (y ∷ ys) = ap suc (length-sweep (if ltb_ℤ (key y) (key x) then y else x) ys)

  sweep-All {κ} :
      (P : A → Type κ) (x : A) (ys : List A)
      → P x
      → All P ys
      → P (sweep key x ys).0 × All P (sweep key x ys).1
  unfolding sweep
  sweep-All P x [] px h = (px, tt)
  sweep-All P x (y ∷ ys) px h = elim (Bool-cases (ltb_ℤ (key y) (key x))) [
    | inl e ↦ let (a, b) = sweep-All P y ys h.0 h.1 in rw e (a, (px, b))
    | inr e ↦ let (a, b) = sweep-All P x ys px h.1 in rw e (a, (h.0, b))
  ]

  abbrev Least : A → A × List A → Type 0
  Least x (m, rest) = (key m ≤ℤ key x) × All (λ y. key m ≤ℤ key y) rest

  sweep_swap :
      (x y : A) (ys : List A)
      → ltb_ℤ (key y) (key x) ≡ true
      → sweep key x (y ∷ ys) ≡ ((sweep key y ys).0, x ∷ (sweep key y ys).1)
  unfolding sweep
  sweep_swap x y ys e = rw e

  sweep_keep :
      (x y : A) (ys : List A)
      → ltb_ℤ (key y) (key x) ≡ false
      → sweep key x (y ∷ ys) ≡ ((sweep key x ys).0, y ∷ (sweep key x ys).1)
  unfolding sweep
  sweep_keep x y ys e = rw e

  sweep-Least : (x : A) (ys : List A) → Least x (sweep key x ys)
  sweep-Least x [] = unfold sweep in (omega arith, tt)
  sweep-Least x (y ∷ ys) = elim (Bool-cases (ltb_ℤ (key y) (key x))) [
    | inl e ↦
        let (a, b) = sweep-Least y ys in
        subst (Least x) (sym (sweep_swap x y ys e)) (ground arith, (ground arith, b))
    | inr e ↦
        let (a, b) = sweep-Least x ys in
        subst (Least x) (sym (sweep_keep x y ys e)) (a, (ground arith, b))
  ]

  sort_fuel-perm : (f : ℕ) (xs : List A) → Perm (sort_fuel f key xs) xs
  unfolding sort_fuel
  sort_fuel-perm zero xs = Perm.refl _
  sort_fuel-perm (suc f) [] = Perm.refl _
  sort_fuel-perm (suc f) (x ∷ xs) =
      Perm.trans (Perm.cons (sweep key x xs).0 (sort_fuel-perm f (sweep key x xs).1))
        (sweep-perm x xs)

  sort_fuel-All {κ} : (P : A → Type κ) (f : ℕ) (xs : List A) → All P xs → All P (sort_fuel f key xs)
  unfolding sort_fuel
  sort_fuel-All P zero xs h = h
  sort_fuel-All P (suc f) [] h = tt
  sort_fuel-All P (suc f) (x ∷ xs) h =
      let (a, b) = sweep-All P x xs h.0 h.1 in (a, sort_fuel-All P f (sweep key x xs).1 b)

  sort_fuel-IsSorted : (f : ℕ) (xs : List A) → length xs ≤ f → IsSorted (sort_fuel f key xs)
  unfolding sort_fuel
  sort_fuel-IsSorted zero [] h = tt
  sort_fuel-IsSorted zero (x ∷ xs) h = absurd (omega arith)
  sort_fuel-IsSorted (suc f) [] h = tt
  sort_fuel-IsSorted (suc f) (x ∷ xs) h = (
    sort_fuel-All _ f (sweep key x xs).1 (sweep-Least x xs).1,
    sort_fuel-IsSorted f (sweep key x xs).1 (omega (arith, length-sweep x xs)),
  )

  pub exchange_sort-perm : (xs : List A) → Perm (exchange_sort key xs) xs
  unfolding exchange_sort
  exchange_sort-perm xs = sort_fuel-perm (length xs) xs

  pub exchange_sort-IsSorted : (xs : List A) → IsSorted (exchange_sort key xs)
  unfolding exchange_sort
  exchange_sort-IsSorted xs = sort_fuel-IsSorted (length xs) xs (omega arith)

  pub exchange_sort-All {κ} :
      (P : A → Type κ) (xs : List A) → All P xs → All P (exchange_sort key xs)
  unfolding exchange_sort
  exchange_sort-All P xs h = sort_fuel-All P (length xs) xs h
