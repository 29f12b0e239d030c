-- ===== src/Base/Text/Laws.antt =====
-- Laws of the text functions: where a cut falls, and what a split gives back.
use mathlib.Core.List.{reverse-append, reverse-reverse}
use svckit.Base.Tests.{Bool-cases, ◌==◌}
use svckit.Base.Lists.{length, drop, length-append, drop-append, All}
use Prim.Native.Nat.{ℕ, zero, suc, ◌+◌, ◌-◌, ◌≤◌, ◌<◌}
use mathlib.Core.Path.{◌≡◌, refl, ap, sym, ◌∙◌}
use mathlib.Core.Logic.{◌↔◌, ◌≢◌, inl, inr}
use mathlib.Core.Bool.{true, false, Bool, not, ◌&&◌}
use mathlib.Core.Option.{Option, none, some}
use mathlib.Core.List.{List, [], ◌∷◌, ◌++◌, append-nil}
use native.Mathlib.Omega.{arith}
use svckit.Base.Text.{
  Text, text_eq, has_prefix, trim_prefix, cut, split, split_fuel, trim_space, is_space,
}

pub text_eq_refl : (s : Text) → text_eq s s ≡ true
unfolding text_eq
text_eq_refl [] = refl
text_eq_refl (a ∷ s) = ground (arith, text_eq_refl s)

pub text_eq-eq : (s t : Text) → text_eq s t ≡ true → s ≡ t
unfolding text_eq
text_eq-eq [] [] h = refl
text_eq-eq [] (b ∷ t) h = cc
text_eq-eq (a ∷ s) [] h = cc
text_eq-eq (a ∷ s) (b ∷ t) h = ground (arith, text_eq-eq s t)

pub has_prefix-append : (p s : Text) → has_prefix (p ++ s) p ≡ true
unfolding has_prefix
has_prefix-append [] s = refl
has_prefix-append (a ∷ p) s = ground (arith, has_prefix-append p s)

pub trim_prefix-append : (p s : Text) → trim_prefix (p ++ s) p ≡ s
unfolding trim_prefix
trim_prefix-append p s = rw (has_prefix-append p s) (drop-append p s)

-- No occurrence of `sep` begins inside `x` in the text `x ++ rest`.
abbrev pub Clear : Text → Text → Text → Type 0
Clear sep [] rest = Unit
Clear sep (c ∷ x) rest = (has_prefix (c ∷ x ++ rest) sep ≡ false) × Clear sep x rest

-- A text is cut at the first occurrence.
pub cut-append :
    (a : ℕ) (sep x rest : Text)
    → Clear (a ∷ sep) x ((a ∷ sep) ++ rest)
    → cut (a ∷ sep) (x ++ ((a ∷ sep) ++ rest)) ≡ some (x, rest)
unfolding cut
cut-append a sep [] rest h =
    rw (has_prefix-append (a ∷ sep) rest) (ground (arith, drop-append sep rest))
cut-append a sep (c ∷ x) rest h = ground (arith, cut-append a sep x rest h.1)

-- A text without an occurrence is not cut.
pub cut-none : (sep x : Text) → Clear sep x [] → cut sep x ≡ none
unfolding cut
cut-none sep [] h = refl
cut-none sep (c ∷ x) h = ground (arith, append-nil x, cut-none sep x h.1)

pub text_eq_iff : (s t : Text) → (text_eq s t ≡ true) ↔ (s ≡ t)
text_eq_iff s t = (text_eq-eq s t, λ e. rw e (text_eq_refl t))

length-drop-le : (n : ℕ) (s : Text) → length (drop n s) ≤ length s
length-drop-le zero s = omega arith
length-drop-le (suc n) [] = omega arith
length-drop-le (suc n) (c ∷ s) = omega (arith, length-drop-le n s)

abbrev LeavesBelow : Option (Text × Text) → ℕ → Type 0
LeavesBelow none n = Unit
LeavesBelow (some (x, rest)) n = length rest < n

LeavesBelow-later :
    (c n : ℕ) (o : Option (Text × Text))
    → LeavesBelow o n
    → LeavesBelow (elim o [ none ↦ none | some (a, b) ↦ some (c ∷ a, b) ]) (suc n)
LeavesBelow-later c n none h = tt
LeavesBelow-later c n (some (x, rest)) h = omega arith

-- What a cut leaves is shorter by the separator at least.
cut-LeavesBelow : (a : ℕ) (sep s : Text) → LeavesBelow (cut (a ∷ sep) s) (length s)
unfolding cut
cut-LeavesBelow a sep [] = tt
cut-LeavesBelow a sep (c ∷ s) = elim (Bool-cases (has_prefix (c ∷ s) (a ∷ sep))) [
  | inl e ↦ rw e (omega (arith, length-drop-le (length sep) s))
  | inr e ↦ rw e (LeavesBelow-later c (length s) (cut (a ∷ sep) s) (cut-LeavesBelow a sep s))
]

-- Fuel of at least the number of bytes gives the result that any more gives.
split_fuel_enough :
    (f a : ℕ) (sep s : Text)
    → length s ≤ f
    → split_fuel (suc f) (a ∷ sep) s ≡ split_fuel f (a ∷ sep) s
unfolding split_fuel
split_fuel_enough zero a sep [] h = unfold cut in refl
split_fuel_enough zero a sep (c ∷ s) h = absurd (omega arith)
split_fuel_enough (suc f) a sep s h =
    by_cut (cut (a ∷ sep) s) (cut-LeavesBelow a sep s) (λ t. split_fuel_enough f a sep t)
  where
    by_cut :
        (o : Option (Text × Text))
        → LeavesBelow o (length s)
        → ((t : Text) → length t ≤ f → split_fuel (suc f) (a ∷ sep) t ≡ split_fuel f (a ∷ sep) t)
        → ◌≡◌ {A = List Text}
            (elim o [ none ↦ s ∷ [] | some (x, t) ↦ x ∷ split_fuel (suc f) (a ∷ sep) t ])
            (elim o [ none ↦ s ∷ [] | some (x, t) ↦ x ∷ split_fuel f (a ∷ sep) t ])
    by_cut none b rec = refl
    by_cut (some (x, t)) b rec = rw (rec t (omega arith))

split_fuel-add :
    (k f a : ℕ) (sep s : Text)
    → length s ≤ f
    → split_fuel (k + f) (a ∷ sep) s ≡ split_fuel f (a ∷ sep) s
split_fuel-add zero f a sep s h = ap (λ n. split_fuel n (a ∷ sep) s) (omega arith)
split_fuel-add (suc k) f a sep s h =
    ap (λ n. split_fuel n (a ∷ sep) s) (omega arith)
    ∙ (split_fuel_enough (k + f) a sep s (omega arith) ∙ split_fuel-add k f a sep s h)

split_fuel-split :
    (f a : ℕ) (sep s : Text) → length s ≤ f → split_fuel f (a ∷ sep) s ≡ split s (a ∷ sep)
unfolding split
split_fuel-split f a sep s h =
    ap (λ n. split_fuel n (a ∷ sep) s) (omega arith)
    ∙ split_fuel-add (f - length s) (length s) a sep s (omega arith)

split_fuel-some :
    (f : ℕ) (sep s x rest : Text)
    → cut sep s ≡ some (x, rest)
    → split_fuel (suc f) sep s ≡ x ∷ split_fuel f sep rest
unfolding split_fuel
split_fuel-some f sep s x rest e = rw (e, split_fuel)

split_fuel-none : (f : ℕ) (sep s : Text) → cut sep s ≡ none → split_fuel (suc f) sep s ≡ s ∷ []
unfolding split_fuel
split_fuel-none f sep s e = rw (e, split_fuel)

-- A text with an occurrence splits into what stands before the first one and the rest split.
pub split-append :
    (a : ℕ) (sep x rest : Text)
    → Clear (a ∷ sep) x ((a ∷ sep) ++ rest)
    → split (x ++ ((a ∷ sep) ++ rest)) (a ∷ sep) ≡ x ∷ split rest (a ∷ sep)
split-append a sep x rest h =
    sym (split_fuel-split (suc most) a sep _ (omega (arith, whole, tail)))
    ∙ (split_fuel-some most (a ∷ sep) _ x rest (cut-append a sep x rest h)
        ∙ ap (λ r. x ∷ r) (split_fuel-split most a sep rest (omega arith)))
  where
    most : ℕ
    most = length x + length sep + length rest

    whole : length (x ++ ((a ∷ sep) ++ rest)) ≡ length x + length ((a ∷ sep) ++ rest)
    whole = length-append x ((a ∷ sep) ++ rest)

    tail : length ((a ∷ sep) ++ rest) ≡ suc (length sep + length rest)
    tail = omega (arith, length-append sep rest)

-- A text with no occurrence is its own split.
pub split_alone : (a : ℕ) (sep x : Text) → Clear (a ∷ sep) x [] → split x (a ∷ sep) ≡ x ∷ []
split_alone a sep x h =
    sym (split_fuel-split (suc (length x)) a sep x (omega arith))
    ∙ split_fuel-none (length x) (a ∷ sep) x (cut-none (a ∷ sep) x h)

-- The byte does not occur.
abbrev pub Without : ℕ → Text → Type 0
Without c = All (λ b. b ≢ c)

abbrev pub lacks : ℕ → Text → Bool
lacks c [] = true
lacks c (b ∷ s) = not (b == c) && lacks c s

pub lacks-Without : (c : ℕ) (s : Text) → lacks c s ≡ true → Without c s
lacks-Without c [] h = tt
lacks-Without c (b ∷ s) h = (ground arith, lacks-Without c s (ground arith))

-- A text that lacks the byte `a` holds no occurrence of a separator that begins with it.
pub Clear-byte : (a : ℕ) (sep x rest : Text) → All (λ b. b ≢ a) x → Clear (a ∷ sep) x rest
Clear-byte a sep [] rest h = tt
Clear-byte a sep (c ∷ x) rest h = (unfold has_prefix in ground arith, Clear-byte a sep x rest h.1)

-- A text that begins and ends with other bytes than white space is trimmed as it is.
pub trim_space-ends :
    (a b : ℕ) (s : Text)
    → is_space a ≡ false
    → is_space b ≡ false
    → trim_space (a ∷ (s ++ b ∷ [])) ≡ a ∷ (s ++ b ∷ [])
unfolding trim_space
trim_space-ends a b s ha hb = rw ha (
    rw (reverse-append (a ∷ s) (b ∷ []))
      (rw hb (rw (← reverse-append (a ∷ s) (b ∷ [])) (reverse-reverse _))))
