-- ===== src/Pgcluster/Connect/Backoff.antt =====
-- Bounds on `calculateBackoff` (pgcluster/manager.go).
use native.Mathlib.Nat.{pow-le-pow_right}
use svckit.Base.{ℕ, ◌+◌, ◌*◌, ◌/◌, ◌%◌, ◌^◌, ◌≤◌, ◌<◌, ◌≡◌, ltb, if◌then◌else◌, arith, ◌⊎◌}
use svckit.Base.Int.{ℤ, pos, negsuc, wrap64}
use svckit.Base.Run.{Run, done, panicked}
use svckit.Pgcluster.Connect.{shifted, capped_backoff, add_jitter, calculate_backoff}

pow-lt : (a : ℕ) → a < 63 → 2 ^ a < 2 ^ 63
pow-lt a h = omega (arith, pow-le-pow_right {n = 2} (omega arith) {i = a} {j = 62} (omega arith))

shifted_small : (a : ℕ) → a < 63 → shifted a ≡ pos (2 ^ a)
unfolding shifted wrap64
shifted_small a h = ground (arith, pow-lt a h)

abbrev pub doubled : ℕ → ℕ → ℕ → ℕ
doubled base limit a = if ltb limit (2 ^ a * base) then limit else 2 ^ a * base

-- Without an overflow the backoff is the doubled base, up to the limit.
capped_backoff_small :
    (base limit a : ℕ)
    → a < 63
    → 2 ^ a * base < 2 ^ 63
    → capped_backoff (pos base) (pos limit) a ≡ pos (doubled base limit a)
unfolding capped_backoff wrap64
capped_backoff_small base limit a h q = rw (shifted_small a h) (ground arith)

add_jitter_large : (b draw : ℕ) → 4 ≤ b → add_jitter (pos b) draw ≡ done (pos (b + draw % (b / 4)))
unfolding add_jitter
add_jitter_large b draw h = ground arith

-- A backoff that is not positive.
abbrev Vanishes : ℤ → Type 0
Vanishes b = (b ≡ pos 0) ⊎ ((m : ℕ) × (b ≡ negsuc m))

-- What a call of `calculateBackoff` comes to, by the base, the limit and the attempt: the doubled base
-- up to the limit with less than a quarter of it added, or a panic where that is below four
-- nanoseconds or the shift has left the range of an int64.
abbrev pub Waits : (base limit a draw : ℕ) → Run ℤ → Type 0
Waits base limit a draw r =
    (((63 ≤ a) ⊎ (doubled base limit a < 4)) × (r ≡ panicked))
    ⊎ ((a < 63)
        × (4 ≤ doubled base limit a)
        × (r ≡ done (pos (doubled base limit a + draw % (doubled base limit a / 4)))))

doubled_bounds :
    (base limit a : ℕ)
    → 4 ≤ base
    → 4 ≤ limit
    → (4 ≤ doubled base limit a) × (doubled base limit a ≤ limit)
doubled_bounds base limit a hb hl =
    ground (arith, le_product, pow-le-pow_right {n = 2} (omega arith) {i = 0} {j = a} (omega arith))
  where
    le_product : 1 * base ≤ 2 ^ a * base
    le_product = grind (arith, pow-le-pow_right {n = 2} (omega arith) {i = 0} {j = a} (omega arith))

-- Without an overflow, and with a base and a limit of four nanoseconds or more, the backoff is the
-- doubled base up to the limit, plus less than a quarter of that.
pub calculate_backoff_bounds :
    (base limit a draw : ℕ)
    → 4 ≤ base
    → 4 ≤ limit
    → a < 63
    → 2 ^ a * base < 2 ^ 63
    → (w : ℕ) × (calculate_backoff (pos base) (pos limit) a draw ≡ done (pos w))
      × (doubled base limit a ≤ w)
      × (w < doubled base limit a + doubled base limit a / 4)
      × (w ≤ limit + limit / 4)
unfolding calculate_backoff
calculate_backoff_bounds base limit a draw hb hl h q =
    let (low, high) = doubled_bounds base limit a hb hl in
    jittered (doubled base limit a) (capped_backoff_small base limit a h q) low high
  where
    jittered :
        (b : ℕ)
        → capped_backoff (pos base) (pos limit) a ≡ pos b
        → 4 ≤ b
        → b ≤ limit
        → (w : ℕ) × (add_jitter (capped_backoff (pos base) (pos limit) a) draw ≡ done (pos w))
          × (b ≤ w)
          × (w < b + b / 4)
          × (w ≤ limit + limit / 4)
    jittered b e low high = (
      b + draw % (b / 4),
      rw e (add_jitter_large b draw low),
      omega arith,
      omega arith,
      omega arith,
    )
