-- ===== src/Middleware/RateLimit/Reliable.antt =====
-- About one call of `IsAllowed` (middleware/rate_limiting.go) on a Redis server that keeps the
-- documented behaviour of its commands.
use svckit.Base.{
  ℕ, suc, ◌+◌, ◌/◌, ◌≡◌, ◌≢◌, ◌≤◌, refl, ltb, leb, true, false, [], ◌∷◌, Option, none, some,
  if◌then◌else◌, ok, arith,
}
use svckit.Base.Int.{pos}
use svckit.Base.Text.{Text, codes, text_eq, itoa}
use svckit.Middleware.RateLimit.{
  EndpointType, auth, rate_limit_config, minute, second, Redis, count_key, block_key, window_start,
  count_of, admit, block, count, is_allowed, check_recorded, exceeded_recorded, client_type,
}

-- A server that answers, whose keys hold `value now key s`: EXISTS counts the key, SET with an expiry
-- and INCR with EXPIRE keep the value until it expires, and no command changes another key.
pub record IsReliable {S : Type 0} (redis : Redis S) (value : ℕ → Text → S → Option Text)
    : Type 0 where
  pub exists_law :
      (now : ℕ) (k : Text) (s : S)
      → redis.exists now k s ≡ ok (elim (value now k s) [ none ↦ 0 | some v ↦ 1 ])
  pub get_law : (now : ℕ) (k : Text) (s : S) → redis.get now k s ≡ ok (value now k s)
  pub set_answers : (now : ℕ) (k v : Text) (d : ℕ) (s : S) → (redis.set_for now k v d s).1 ≡ none
  pub set_value :
      (now later : ℕ) (j k v : Text) (d : ℕ) (s : S)
      → now ≤ later
      → value later j (redis.set_for now k v d s).0
        ≡ (if text_eq j k then (if ltb later (now + d) then some v else none) else value later j s)
  pub incr_answers : (now : ℕ) (k : Text) (d : ℕ) (s : S) → (redis.incr_expire now k d s).1 ≡ none
  pub incr_value :
      (now later : ℕ) (j k : Text) (d n : ℕ) (s : S)
      → now ≤ later
      → count_of (value now k s) ≡ pos n
      → value later j (redis.incr_expire now k d s).0 ≡ (
          if text_eq j k
          then (if ltb later (now + d) then some (itoa (suc n)) else none)
          else value later j s)

abbrev pub limit : EndpointType → ℕ
limit t = (rate_limit_config t).requests_per_minute + (rate_limit_config t).burst_allowance

pub limit-small : (t : EndpointType) → limit t ≤ 250
unfolding rate_limit_config
limit-small auth = omega arith
limit-small _ = omega arith

module _ {S : Type 0} (redis : Redis S) (value : ℕ → Text → S → Option Text)
    (reliable : IsReliable redis value) (service client : Text) (t : EndpointType) where
  open reliable use {exists_law, get_law, set_answers, set_value, incr_answers, incr_value}

  abbrev pub counter : ℕ → Text
  counter now = count_key service client t (window_start now)

  abbrev pub blocker : Text
  blocker = block_key service client t

  pub is_allowed-blocked :
      (now : ℕ) (s : S) (v : Text)
      → (rate_limit_config t).requests_per_minute ≢ 0
      → value now blocker s ≡ some v
      → is_allowed redis service now client t s
        ≡ (s, ok (false, redis.ttl now blocker s / second), [])
  unfolding is_allowed
  is_allowed-blocked now s v limited b = rw (exists_law now blocker s, b) (ground arith)

  abbrev pub blocking : ℕ → S → S × Option Text
  blocking now s = redis.set_for now blocker (codes "1") (rate_limit_config t).block_duration s

  abbrev pub counting : ℕ → S → S × Option Text
  counting now s = redis.incr_expire now (counter now) minute s

  pub block-answers :
      (now : ℕ) (s : S)
      → block redis service now client t s ≡ (
        (blocking now s).0,
        ok (false, (rate_limit_config t).block_duration / second),
        exceeded_recorded t (client_type client) ∷ [],
      )
  unfolding block
  block-answers now s =
      rw (set_answers now blocker (codes "1") (rate_limit_config t).block_duration s, block) refl

  pub admit-answers :
      (now : ℕ) (s : S)
      → admit redis service now client t s
        ≡ ((counting now s).0, ok (true, 0), check_recorded t true ∷ [])
  unfolding admit
  admit-answers now s = rw (incr_answers now (counter now) minute s, admit) refl

  count-answers :
      (now : ℕ) (s : S) (n : ℕ)
      → count_of (value now (counter now) s) ≡ pos n
      → count redis service now client t s ≡ (
          if leb (limit t) n
          then block redis service now client t s
          else admit redis service now client t s)
  unfolding count
  count-answers now s n c = rw (get_law now (counter now) s, count) (rw c refl)

  pub is_allowed-open :
      (now : ℕ) (s : S) (n : ℕ)
      → (rate_limit_config t).requests_per_minute ≢ 0
      → value now blocker s ≡ none
      → count_of (value now (counter now) s) ≡ pos n
      → is_allowed redis service now client t s ≡ (
          if leb (limit t) n
          then block redis service now client t s
          else admit redis service now client t s)
  unfolding is_allowed
  is_allowed-open now s n limited b c =
      rw (exists_law now blocker s, b) (rw (count-answers now s n c) (ground arith))
