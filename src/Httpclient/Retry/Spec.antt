-- ===== src/Httpclient/Retry/Spec.antt =====
-- How a call of `Client.Do` (httpclient/client.go) ends: on a final reply, on exhausted retries, or
-- on a context that is done.
use svckit.Base.{
  ℕ, zero, suc, ◌<◌, ◌≡◌, refl, ◌⊎◌, inl, inr, Bool, true, false, List, [], ◌∷◌, Option, none, some,
  arith, if◌then◌else◌, Result, ok, err, Bool-cases, leb, ltb, ◌&&◌, ◌||◌,
}
use svckit.Base.Text.{Text}
use svckit.Base.Int.{ℤ}
use svckit.Httpclient.Breaker.{CircuitBreaker, can_execute, record_success, record_failure}
use svckit.Httpclient.Retry.{
  RetryConfig, Response, Failure, Fault, context_done, exhausted, Effect, sent, Attempt, Done,
  rounds, Verdict, transport, server_error, is_success, retryable, final, judge, do_loop,
  do_request, enter, settle, give_up, noting_reply, wait_after,
}

-- What a reply means: a failure to get one and a server error are retried; any other status is
-- final, and good if it is a success or a client error.
abbrev pub verdict : Result Text Response → Verdict
verdict (err e) = retryable (transport e)
verdict (ok r) =
    let s = r.status_code in
    if leb 500 s
    then retryable (server_error s)
    else final ((leb 200 s && ltb s 300) || (leb 400 s && ltb s 500)) r

judge_lem : (reply : Result Text Response) → judge reply ≡ verdict reply
unfolding judge is_success
judge_lem (err e) = refl
judge_lem (ok r) = ground arith

-- The number of requests sent.
abbrev pub requests : List Effect → ℕ
requests [] = 0
requests (sent ∷ log) = suc (requests log)
requests (_ ∷ log) = requests log

abbrev pub Entered : (ℕ → Attempt) → ℕ → Type 0
Entered script zero = Unit
Entered script (suc i) = (script (suc i)).timer_fires ≡ true

abbrev pub FailsAt : (ℕ → Attempt) → ℕ → Type 0
FailsAt script i = (e : Failure) × (verdict (script i).reply ≡ retryable e)

-- From attempt `i` on, `k` attempts are made and fail in a way that is retried.
abbrev pub Retried : (ℕ → Attempt) → ℕ → ℕ → Type 0
Retried script zero i = Unit
Retried script (suc k) i = Entered script i × FailsAt script i × Retried script k (suc i)

-- After `k` such attempts the next one is made and brings the final reply `r`.
abbrev pub Ends : (ℕ → Attempt) → ℕ → ℕ → Bool → Response → Type 0
Ends script zero i good r = Entered script i × (verdict (script i).reply ≡ final good r)
Ends script (suc k) i good r = Entered script i × FailsAt script i × Ends script k (suc i) good r

-- After `k` such attempts the context is done during the wait for the next one.
abbrev pub Stops : (ℕ → Attempt) → ℕ → ℕ → Type 0
Stops script zero zero = ⊥
Stops script zero (suc i) = (script (suc i)).timer_fires ≡ false
Stops script (suc k) i = Entered script i × FailsAt script i × Stops script k (suc i)

-- The failure of the last of `k` attempts from `i` on, or `last`.
abbrev pub last_failure : (ℕ → Attempt) → ℕ → ℕ → Option Failure → Option Failure
last_failure script zero i last = last
last_failure script (suc k) i last =
    last_failure script k (suc i)
      (elim (verdict (script i).reply) [ retryable e ↦ some e | final g r ↦ last ])

abbrev pub settled : Bool → CircuitBreaker → CircuitBreaker
settled good cb = if good then record_success cb else cb

-- Entering an attempt and sending its request leave the end of the call as it is.
abbrev Same : Done → Done → Type 0
Same d d' =
    (d.outcome ≡ d'.outcome) × (d.breaker ≡ d'.breaker) × (requests d.log ≡ suc (requests d'.log))

enter-Same :
    (script : ℕ → Attempt) (i : ℕ) (wait : ℤ) (last : Option Failure) (cb : CircuitBreaker)
    (d : Done)
    → Entered script i
    → Same (enter i (script i).timer_fires wait last cb (noting_reply (script i).reply d)) d
unfolding enter
enter-Same script zero wait last cb d h = ground arith
enter-Same script (suc i) wait last cb d h = ground arith

module _ (c : RetryConfig) (script : ℕ → Attempt) (now : ℕ) (cb : CircuitBreaker) where
  do_loop-fails :
      (n i : ℕ) (wait : ℤ) (last : Option Failure) (e : Failure)
      → Entered script i
      → verdict (script i).reply ≡ retryable e
      → Same
          (do_loop c script now cb (suc n) i wait last)
          (do_loop c script now cb n (suc i) (wait_after c i wait) (some e))
  unfolding do_loop
  do_loop-fails n i wait last e h v =
      rw (judge_lem (script i).reply, v) (enter-Same script i wait last cb _ h)

  do_loop-ends :
      (n i : ℕ) (wait : ℤ) (last : Option Failure) (good : Bool) (r : Response)
      → Entered script i
      → verdict (script i).reply ≡ final good r
      → Same (do_loop c script now cb (suc n) i wait last) (settle good cb r)
  unfolding do_loop
  do_loop-ends n i wait last good r h v =
      rw (judge_lem (script i).reply, v) (enter-Same script i wait last cb _ h)

  settle_lem :
      (good : Bool) (r : Response)
      → ((settle good cb r).outcome ≡ ok r)
        × ((settle good cb r).breaker ≡ settled good cb)
        × (requests (settle good cb r).log ≡ 0)
  unfolding settle
  settle_lem true r = (refl, refl, refl)
  settle_lem false r = (refl, refl, refl)

  do_loop-Ends :
      (n k i : ℕ) (wait : ℤ) (last : Option Failure) (good : Bool) (r : Response)
      → k < n
      → Ends script k i good r
      → let d = do_loop c script now cb n i wait last in
        (d.outcome ≡ ok r) × (d.breaker ≡ settled good cb) × (requests d.log ≡ suc k)
  do_loop-Ends zero k i wait last good r lt h = absurd (omega arith)
  do_loop-Ends (suc n) zero i wait last good r lt h =
      ground (arith, do_loop-ends n i wait last good r h.0 h.1, settle_lem good r)
  do_loop-Ends (suc n) (suc k) i wait last good r lt h = ground (
    arith,
    do_loop-fails n i wait last h.1.0 h.0 h.1.1,
    do_loop-Ends n k (suc i) (wait_after c i wait) (some h.1.0) good r (omega arith) h.2,
  )

  do_loop-Stops :
      (n k i : ℕ) (wait : ℤ) (last : Option Failure)
      → k < n
      → Stops script k i
      → let d = do_loop c script now cb n i wait last in
        (d.outcome ≡ err context_done) × (d.breaker ≡ cb) × (requests d.log ≡ k)
  unfolding do_loop enter
  do_loop-Stops zero k i wait last lt h = absurd (omega arith)
  do_loop-Stops (suc n) zero zero wait last lt h = absurd h
  do_loop-Stops (suc n) zero (suc i) wait last lt h = rw h (refl, refl, refl)
  do_loop-Stops (suc n) (suc k) i wait last lt h = ground (
    arith,
    do_loop-fails n i wait last h.1.0 h.0 h.1.1,
    do_loop-Stops n k (suc i) (wait_after c i wait) (some h.1.0) (omega arith) h.2,
  )

  pub do_loop-Retried :
      (n i : ℕ) (wait : ℤ) (last : Option Failure)
      → Retried script n i
      → let d = do_loop c script now cb n i wait last in
        (d.outcome ≡ err (exhausted (last_failure script n i last)))
        × (d.breaker ≡ record_failure now cb)
        × (requests d.log ≡ n)
  unfolding do_loop give_up
  do_loop-Retried zero i wait last h = (refl, refl, refl)
  do_loop-Retried (suc n) i wait last h = ground (
    arith,
    do_loop-fails n i wait last h.1.0 h.0 h.1.1,
    do_loop-Retried n (suc i) (wait_after c i wait) (some h.1.0) h.2,
  )

-- The three ways in which `n` attempts from `i` on can go, and how the call ends in each.
abbrev pub EndsAs : Done → Result Fault Response → CircuitBreaker → ℕ → Type 0
EndsAs d outcome cb sends = (d.outcome ≡ outcome) × (d.breaker ≡ cb) × (requests d.log ≡ sends)

abbrev pub Ending : (ℕ → Attempt) → ℕ → CircuitBreaker → ℕ → Done → Type 0
Ending script now cb n d =
    ((k : ℕ) × (good : Bool) × (r : Response) × (k < n)
      × Ends script k 0 good r
      × EndsAs d (ok r) (settled good cb) (suc k))
    ⊎ ((k : ℕ) × (k < n) × Stops script k 0 × EndsAs d (err context_done) cb k)
    ⊎ (Retried script n 0
        × EndsAs d (err (exhausted (last_failure script n 0 none))) (record_failure now cb) n)

data Course (script : ℕ → Attempt) (n i : ℕ) : Type 0 where
  ends : (k : ℕ) (good : Bool) (r : Response) → k < n → Ends script k i good r → Course script n i
  stops : (k : ℕ) → k < n → Stops script k i → Course script n i
  retries : Retried script n i → Course script n i

Course-cons :
    (script : ℕ → Attempt) (n i : ℕ)
    → Entered script i
    → FailsAt script i
    → Course script n (suc i)
    → Course script (suc n) i
Course-cons script n i h f (ends k good r lt e) = ends (suc k) good r (omega arith) (h, f, e)
Course-cons script n i h f (stops k lt e) = stops (suc k) (omega arith) (h, f, e)
Course-cons script n i h f (retries e) = retries (h, f, e)

Entered-cases : (script : ℕ → Attempt) (i : ℕ) → Entered script i ⊎ Stops script zero i
Entered-cases script zero = inl tt
Entered-cases script (suc i) = Bool-cases (script (suc i)).timer_fires

verdict-cases :
    (script : ℕ → Attempt) (i : ℕ)
    → FailsAt script i
      ⊎ ((good : Bool) × (r : Response) × (verdict (script i).reply ≡ final good r))
verdict-cases script i = split (verdict (script i).reply) refl
  where
    split :
        (v : Verdict)
        → verdict (script i).reply ≡ v
        → FailsAt script i
          ⊎ ((good : Bool) × (r : Response) × (verdict (script i).reply ≡ final good r))
    split (retryable e) p = inl (e, p)
    split (final good r) p = inr (good, r, p)

course : (script : ℕ → Attempt) (n i : ℕ) → Course script n i
course script zero i = retries tt
course script (suc n) i = elim (Entered-cases script i) [
  | inr s ↦ stops zero (omega arith) s
  | inl h ↦ elim (verdict-cases script i) [
    | inl f ↦ Course-cons script n i h f (course script n (suc i))
    | inr (good, r, p) ↦ ends zero good r (omega arith) (h, p)
  ]
]

-- A call that the breaker admits ends in one of three ways. Some attempt within the rounds brings a
-- final reply, all before it failed in a way that is retried, and the call returns that reply: a
-- success or a client error closes the breaker, any other final status leaves it. Or the context is
-- done during a wait: an error, the breaker as it was. Or every round fails: an error with the last
-- failure, and one failure recorded with the breaker. In each case the number of requests sent is
-- exact.
pub do_request-Ending :
    (c : RetryConfig) (script : ℕ → Attempt) (start now : ℕ) (cb : CircuitBreaker)
    → (can_execute start cb).1 ≡ true
    → Ending script now (can_execute start cb).0 (rounds c) (do_request c script start now cb)
unfolding do_request
do_request-Ending c script start now cb p = rw p (by_course (course script (rounds c) 0))
  where
    cb' : CircuitBreaker
    cb' = (can_execute start cb).0

    by_course :
        Course script (rounds c) 0
        → Ending script now cb'
            (rounds c)
            (do_loop c script now cb' (rounds c) 0 c.initial_wait none)
    by_course (ends k good r lt e) =
        inl (k, good, r, lt, e, do_loop-Ends c script now cb' _ k 0 _ none good r lt e)
    by_course (stops k lt e) =
        inr (inl (k, lt, e, do_loop-Stops c script now cb' _ k 0 _ none lt e))
    by_course (retries e) = inr (inr (e, do_loop-Retried c script now cb' _ 0 _ none e))
