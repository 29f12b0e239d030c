-- ===== src/Secrets/Retrying/Laws.antt =====
-- How `Get` of a retrying store ends, and how long it waits.
use native.Mathlib.Nat.{mod-eq_of_lt}
use svckit.Base.{
  ℕ, zero, suc, ◌*◌, ◌^◌, ◌≤◌, ◌<◌, ◌≡◌, refl, ap, ◌∙◌, true, false, List, [], ◌∷◌, some, ok, err,
  arith, if◌then◌else◌, ltb,
}
use svckit.Base.Int.{ℤ, pos, wrap64}
use svckit.Secrets.{StoreError}
use svckit.Secrets.Retrying.{
  Weather, Outcome, value, terminal, stopped, next_backoff, is_retryable, retry_turn, retry_loop,
  retrying_get,
}

-- Attempt `i` is retried.
abbrev pub Retries : Weather → ℕ → Type 0
Retries w i =
    (e : StoreError) × (w.answers i ≡ err e) × (is_retryable e ≡ true) × (w.context_done i ≡ false)

-- Attempt `i` ends the call.
abbrev pub EndsWith : Weather → ℕ → Outcome → Type 0
EndsWith w i (value v) = w.answers i ≡ ok v
EndsWith w i (terminal e) = (w.answers i ≡ err e) × (is_retryable e ≡ false)
EndsWith w i (stopped e) =
    (w.answers i ≡ err e) × (is_retryable e ≡ true) × (w.context_done i ≡ true)

-- `k` attempts from `i` on are retried, and the next one ends the call.
abbrev pub Course : Weather → ℕ → ℕ → Outcome → Type 0
Course w zero i o = EndsWith w i o
Course w (suc k) i o = Retries w i × Course w k (suc i) o

-- The waits: from `initial` on, doubled each time and capped at `max`.
abbrev pub waits : ℕ → ℕ → ℕ → ℕ → List ℤ
waits initial max zero i = []
waits initial max (suc k) i =
    pos (if ltb max (2 ^ i * initial) then max else 2 ^ i * initial) ∷ waits initial max k (suc i)

abbrev capped : ℕ → ℕ → ℕ
capped max x = if ltb max x then max else x

below64 : (n : ℕ) → n < 2 ^ 63 → n < 2 ^ 64
below64 n h = omega arith

wrap64-small : (n : ℕ) → n < 2 ^ 63 → wrap64 (pos n) ≡ pos n
unfolding wrap64
wrap64-small n h = rw (mod-eq_of_lt (below64 n h), wrap64) (ground arith)

next_backoff-capped :
    (max b : ℕ) → b ≤ max → max < 2 ^ 62 → next_backoff (pos max) (pos b) ≡ pos (capped max (2 * b))
unfolding next_backoff
next_backoff-capped max b l h = rw (wrap64-small (2 * b) (omega arith), next_backoff) (ground arith)

capped_twice : (max x y : ℕ) → y ≡ 2 * x → capped max (2 * capped max x) ≡ capped max y
capped_twice max x y e = ground arith

capped-le : (max x : ℕ) → capped max x ≤ max
capped-le max x = ground arith

next_backoff_lem :
    (initial max i : ℕ)
    → max < 2 ^ 62
    → next_backoff (pos max) (pos (if ltb max (2 ^ i * initial) then max else 2 ^ i * initial))
      ≡ pos (if ltb max (2 ^ suc i * initial) then max else 2 ^ suc i * initial)
next_backoff_lem initial max i h =
    next_backoff-capped max (capped max (2 ^ i * initial)) (capped-le max (2 ^ i * initial)) h
    ∙ ap pos (capped_twice max (2 ^ i * initial) (2 ^ suc i * initial) (grind arith))

retry_ends :
    (max : ℤ) (w : Weather) (fuel i : ℕ) (backoff : ℤ) (o : Outcome)
    → EndsWith w i o
    → retry_loop max w (suc fuel) i backoff ≡ some (o, [])
unfolding retry_loop retry_turn
retry_ends max w fuel i backoff (value v) h = rw h refl
retry_ends max w fuel i backoff (terminal e) h = rw (h.0, h.1) refl
retry_ends max w fuel i backoff (stopped e) h = rw (h.0, h.1, h.2) refl

retry_loop-Course :
    (initial max : ℕ) (w : Weather) (fuel k i : ℕ) (o : Outcome)
    → max < 2 ^ 62
    → k < fuel
    → Course w k i o
    → retry_loop
        (pos max)
        w
        fuel
        i
        (pos (if ltb max (2 ^ i * initial) then max else 2 ^ i * initial))
      ≡ some (o, waits initial max k i)
unfolding retry_loop retry_turn
retry_loop-Course initial max w zero k i o m lt h = absurd (omega arith)
retry_loop-Course initial max w (suc fuel) zero i o m lt h = retry_ends (pos max) w fuel i _ o h
retry_loop-Course initial max w (suc fuel) (suc k) i o m lt h =
    rw
      (
        h.0.1,
        h.0.2,
        h.0.3,
        next_backoff_lem initial max i m,
        retry_loop-Course initial max w fuel k (suc i) o m (omega arith) h.1,
      )
      refl

-- If some attempt of `Get` brings a value or a terminal error, or is followed by a wait during which
-- the context is done, and all before it are retried, then the loop ends there, with that outcome,
-- and has waited between the attempts for the initial backoff, doubled each time and capped at the
-- maximum, where the initial backoff is at most the maximum and that is less than 2 ^ 62 ns.
pub retrying_get-Course :
    (fuel initial max k : ℕ) (w : Weather) (o : Outcome)
    → initial ≤ max
    → max < 2 ^ 62
    → k < fuel
    → Course w k 0 o
    → retrying_get fuel (pos initial) (pos max) w ≡ some (o, waits initial max k 0)
unfolding retrying_get
retrying_get-Course fuel initial max k w o le m lt h =
    ap (λ b. retry_loop (pos max) w fuel 0 (pos b)) (ground arith)
    ∙ retry_loop-Course initial max w fuel k 0 o m lt h
