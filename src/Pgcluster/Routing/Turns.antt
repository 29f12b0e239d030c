-- ===== src/Pgcluster/Routing/Turns.antt =====
-- About the round robin of `Reader` (pgcluster/manager.go) and the turns of the readers.
use mathlib.Core.Option.{some-injective}
use svckit.Base.{
  ℕ, zero, suc, ◌+◌, ◌-◌, ◌*◌, ◌/◌, ◌%◌, ◌^◌, ◌<◌, ◌≡◌, ap, sym, ◌∙◌, some, arith, dec_lt,
}
use svckit.Pgcluster.Routing.{next_index, round_robin_index}
use svckit.Pgcluster.Routing.Readers.{round_robin_index_small}

-- The counter after `j` reads.
abbrev pub turn : ℕ → ℕ → ℕ
turn zero i = i
turn (suc j) i = next_index (turn j i)

turn_lem : (j i : ℕ) → i + j < 2 ^ 63 → turn j i ≡ i + j
unfolding next_index
turn_lem zero i h = omega arith
turn_lem (suc j) i h = omega (arith, turn_lem j i (omega arith))

mod-mul-add : (q t n : ℕ) → t < n → (n * q + t) % n ≡ t
mod-mul-add q t n h = grind arith

mod_turn : (i n t : ℕ) → t < n → (j : ℕ) × (j < n) × ((i + j) % n ≡ t)
mod_turn i n t h = elim (dec_lt t (i % n)) [
  | yes b ↦
      (t + n - i % n, omega arith, ap (λ x. x % n) (omega arith) ∙ mod-mul-add (i / n + 1) t n h)
  | no b ↦ (t - i % n, omega arith, ap (λ x. x % n) (omega arith) ∙ mod-mul-add (i / n) t n h)
]

mod_turn_once : (i n j k : ℕ) → j < n → k < n → (i + j) % n ≡ (i + k) % n → j ≡ k
mod_turn_once i n j k hj hk e = grind arith

-- Over as many reads as there are readers, before the counter wraps, each position of the list of
-- readers is selected exactly once.
pub round_robin_fair :
    (i n t : ℕ)
    → t < n
    → i + n < 2 ^ 63
    → (j : ℕ) × (j < n)
      × (round_robin_index (turn (suc j) i) n ≡ some t)
      × ((k : ℕ) → k < n → round_robin_index (turn (suc k) i) n ≡ some t → k ≡ j)
round_robin_fair i n t h w =
    let (j, lt, e) = mod_turn (i + 1) n t h in
    (
      j,
      lt,
      at j lt ∙ ap some e,
      λ k kt same.
          mod_turn_once (i + 1) n k j kt lt (some-injective _ _ (sym (at k kt) ∙ same) ∙ sym e),
    )
  where
    at : (j : ℕ) → j < n → round_robin_index (turn (suc j) i) n ≡ some ((i + 1 + j) % n)
    at j lt =
        ap (λ c. round_robin_index c n) (turn_lem (suc j) i (omega arith) ∙ omega arith)
        ∙ round_robin_index_small (i + 1 + j) n (omega arith)
