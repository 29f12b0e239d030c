-- ===== src/Base/Text/Joins.antt =====
-- About splitting and joining on the same separator.
use mathlib.Core.Path.{◌≡◌, refl, ap, subst, ◌∙◌}
use svckit.Base.{
  ℕ, zero, suc, true, List, [], ◌∷◌, ◌++◌, Option, none, some, arith, Bool-cases, Option-cases, inl,
  inr, drop, length,
}
use svckit.Base.Text.{Text, has_prefix, cut, split, split_fuel, join}

-- What stands around a cut.
abbrev Around : Text → Text → Option (Text × Text) → Type 0
Around sep s none = Unit
Around sep s (some (x, rest)) = x ++ (sep ++ rest) ≡ s

has_prefix-drop : (p s : Text) → has_prefix s p ≡ true → p ++ drop (length p) s ≡ s
unfolding has_prefix
has_prefix-drop [] s h = refl
has_prefix-drop (a ∷ p) [] h = absurd (cc)
has_prefix-drop (a ∷ p) (b ∷ s) h = ground (arith, has_prefix-drop p s)

cut-Around : (sep s : Text) → Around sep s (cut sep s)
unfolding cut
cut-Around sep [] = tt
cut-Around sep (c ∷ s) = elim (Bool-cases (has_prefix (c ∷ s) sep)) [
  | inl e ↦ rw e (has_prefix-drop sep (c ∷ s) e)
  | inr e ↦ rw e (later (cut sep s) (cut-Around sep s))
]
  where
    later :
        (o : Option (Text × Text))
        → Around sep s o
        → Around sep (c ∷ s) (elim o [ none ↦ none | some (a, b) ↦ some (c ∷ a, b) ])
    later none h = tt
    later (some (x, rest)) h = ap (λ t. c ∷ t) h

join_cons :
    (x t : Text) (l ts : List Text) (sep : Text)
    → l ≡ t ∷ ts
    → join (x ∷ l) sep ≡ x ++ (sep ++ join l sep)
join_cons x t l ts sep e = rw e (unfold join in refl)

pub split_fuel-nonempty :
    (f : ℕ) (sep s : Text) → (t : Text) × (ts : List Text) × (split_fuel f sep s ≡ t ∷ ts)
unfolding split_fuel
split_fuel-nonempty zero sep s = (s, [], refl)
split_fuel-nonempty (suc f) sep s = elim (Option-cases (cut sep s)) [
  | inl e ↦ (s, [], rw (e, split_fuel))
  | inr (p, e) ↦ (p.0, split_fuel f sep p.1, rw (e, split_fuel))
]

join-split_fuel : (f : ℕ) (sep s : Text) → join (split_fuel f sep s) sep ≡ s
unfolding split_fuel join
join-split_fuel zero sep s = refl
join-split_fuel (suc f) sep s = elim (Option-cases (cut sep s)) [
  | inl e ↦ rw (e, split_fuel) refl
  | inr (p, e) ↦
      let (t, ts, q) = split_fuel-nonempty f sep p.1 in
      rw (e, split_fuel)
        (join_cons p.0 t (split_fuel f sep p.1) ts sep q
          ∙ ap (λ r. p.0 ++ (sep ++ r)) (join-split_fuel f sep p.1)
          ∙ subst (Around sep s) e (cut-Around sep s))
]

pub join-split : (s sep : Text) → join (split s sep) sep ≡ s
unfolding split
join-split s sep = join-split_fuel (length s) sep s

pub split-nonempty : (s sep : Text) → (t : Text) × (ts : List Text) × (split s sep ≡ t ∷ ts)
unfolding split
split-nonempty s sep = split_fuel-nonempty (length s) sep s
