-- ===== src/Middleware/RateLimit/Window.antt =====
-- About the rate limiter over time (middleware/rate_limiting.go): how many requests of a client pass
-- in one minute.
use svckit.Base.{
  ℕ, zero, suc, ◌+◌, ◌-◌, ◌*◌, ◌/◌, ◌≡◌, ◌≢◌, ◌<◌, ◌≤◌, refl, ap, ap₂, sym, subst, ◌∙◌, ltb, leb,
  Bool, true, false, List, [], ◌∷◌, Option, none, some, if◌then◌else◌, ok, err, arith, inl, inr,
  Bool-cases, Option-cases,
}
use svckit.Base.Int.{ℤ, pos}
use svckit.Base.Text.{Text, codes, text_eq, itoa, clamped}
use svckit.Base.Text.Laws.{text_eq_refl, text_eq-eq}
use svckit.Base.Text.Numbers.{atoi-itoa}
use svckit.Middleware.RateLimit.{
  EndpointType, rate_limit_config, minute, Redis, count_key, block_key, Answer, count_of, admit,
  block, is_allowed, LimitMetric,
}
use svckit.Middleware.RateLimit.Keys.{count_key-ne-block_key}
use svckit.Middleware.RateLimit.Reliable.{
  IsReliable, limit, limit-small, blocker, blocking, counting, is_allowed-blocked, block-answers,
  admit-answers, is_allowed-open,
}

text_eq-false : (a b : Text) → a ≢ b → text_eq a b ≡ false
text_eq-false a b ne = elim (Bool-cases (text_eq a b)) [
  | inl e ↦ absurd (ne (text_eq-eq a b e))
  | inr e ↦ e
]

abbrev pub passes : Answer → Bool
passes (err e) = false
passes (ok (b, retry_after)) = b

-- What a client's requests at the given instants are answered, one after the other.
pub answers :
    {S : Type 0} (redis : Redis S) (service client : Text) (t : EndpointType)
    → List ℕ
    → S
    → List Bool
answers redis service client t [] s = []
answers redis service client t (now ∷ times) s =
    let r = is_allowed redis service now client t s in
    passes r.1 ∷ answers redis service client t times r.0

-- The instants do not go backwards and fall into the minute `w`.
abbrev pub InMinute : ℕ → ℕ → List ℕ → Type 0
InMinute w now [] = Unit
InMinute w now (t ∷ ts) = (now ≤ t) × (t / minute ≡ w) × InMinute w t ts

-- The first `n` pass.
abbrev pub first_pass : {A : Type 0} → ℕ → List A → List Bool
first_pass n [] = []
first_pass zero (x ∷ xs) = false ∷ first_pass 0 xs
first_pass (suc n) (x ∷ xs) = true ∷ first_pass n xs

first_pass-step :
    (n c u : ℕ) (times : List ℕ)
    → ltb c n ∷ first_pass (n - (if ltb c n then suc c else c)) times
      ≡ first_pass (n - c) (u ∷ times)
first_pass-step n c u times = elim (Bool-cases (ltb c n)) [
  | inl e ↦ let left : n - c ≡ suc (n - suc c) = ground arith in rw e (rw left refl)
  | inr e ↦ let left : n - c ≡ 0 = ground arith in rw e (rw left refl)
]

module _ {S : Type 0} (redis : Redis S) (value : ℕ → Text → S → Option Text)
    (reliable : IsReliable redis value) (service client : Text) (t : EndpointType) where
  open reliable use {exists_law, get_law, set_answers, set_value, incr_answers, incr_value}

  -- The counter of minute `w` stands at `c`, from the instant `now` on, and a block means that it is
  -- at the limit.
  record Meter (w now c : ℕ) (s : S) : Type 0 where
    counted :
        (u : ℕ)
        → now ≤ u
        → u / minute ≡ w
        → count_of (value u (count_key service client t (w * 60)) s) ≡ pos c
    blocks :
        (u : ℕ) (v : Text)
        → now ≤ u
        → value u (blocker redis value reliable service client t) s ≡ some v
        → c ≡ limit t
    within : c ≤ limit t

  abbrev stepped : ℕ → ℕ
  stepped c = if ltb c (limit t) then suc c else c

  Meter-later : (w now u c : ℕ) (s : S) → now ≤ u → Meter w now c s → Meter w u c s
  Meter-later w now u c s le m = record {
    counted = λ x le' h. m.counted x (omega arith) h;
    blocks = λ x v le' h. m.blocks x v (omega arith) h;
    within = m.within;
  }

  Meter-block :
      (w u c : ℕ) (s : S)
      → limit t ≤ c
      → Meter w u c s
      → Meter w u c (blocking redis value reliable service client t u s).0
  Meter-block w u c s full m = record {
    counted = λ x le h.
        ap count_of (
          set_value u x (count_key service client t (w * 60))
            (blocker redis value reliable service client t) (codes "1")
            (rate_limit_config t).block_duration s le
          ∙ ap
              (λ b.
                if b
                then (if ltb x (u + (rate_limit_config t).block_duration)
                    then some (codes "1")
                    else none)
                else value x (count_key service client t (w * 60)) s)
              (text_eq-false _ _
                (count_key-ne-block_key service service client client t t (w * 60))))
        ∙ m.counted x le h;
    blocks = λ x v le h. omega (arith, m.within);
    within = m.within;
  }

  Meter-admit :
      (w u c : ℕ) (s : S)
      → c < limit t
      → u / minute ≡ w
      → Meter w u c s
      → Meter w u (suc c) (redis.incr_expire u (count_key service client t (w * 60)) minute s).0
  Meter-admit w u c s free here m = record {
    counted = λ x le h.
        ap count_of (
          incr_value u x (count_key service client t (w * 60)) (count_key service client t (w * 60))
            minute c s le (m.counted u (omega arith) here)
          ∙ (ap
                (λ b.
                  if b
                  then (if ltb x (u + minute) then some (itoa (suc c)) else none)
                  else value x (count_key service client t (w * 60)) s)
                (text_eq_refl (count_key service client t (w * 60)))
              ∙ ap (λ b. if b then some (itoa (suc c)) else none) (soon x le h)))
        ∙ ap (λ o. elim o as (λ x. ℤ) [ none ↦ clamped (itoa (suc c)) | some n ↦ n ])
            (atoi-itoa (suc c) (omega (arith, limit-small t)));
    blocks = λ x v le h. absurd (omega (arith, m.blocks x v le (sym (unchanged x le) ∙ h)));
    within = free;
  }
    where
      soon : (x : ℕ) → u ≤ x → x / minute ≡ w → ltb x (u + minute) ≡ true
      soon x le h = ground arith

      unchanged :
          (x : ℕ)
          → u ≤ x
          → value x
              (blocker redis value reliable service client t)
              (redis.incr_expire u (count_key service client t (w * 60)) minute s).0
            ≡ value x (blocker redis value reliable service client t) s
      unchanged x le =
          incr_value u x (blocker redis value reliable service client t)
            (count_key service client t (w * 60)) minute c s le (m.counted u (omega arith) here)
          ∙ ap
              (λ b.
                if b
                then (if ltb x (u + minute) then some (itoa (suc c)) else none)
                else value x (blocker redis value reliable service client t) s)
              (text_eq-false _ _
                (λ e. count_key-ne-block_key service service client client t t (w * 60) (sym e)))

  -- One request: it passes if the counter is below the limit, and is counted then.
  abbrev Stepped : ℕ → ℕ → S × Answer × List LimitMetric → Type 0
  Stepped u c r = (passes r.1 ≡ ltb c (limit t)) × Meter (u / minute) u (stepped c) r.0

  counted_step :
      (u c : ℕ) (s : S)
      → Meter (u / minute) u c s
      → Stepped u c (
          if leb (limit t) c
          then block redis service u client t s
          else admit redis service u client t s)
  counted_step u c s m = elim (Bool-cases (leb (limit t) c)) [
    | inl full ↦ rw full (
        rw (block-answers redis value reliable service client t u s) (
          ground arith,
          subst (λ n. Meter (u / minute) u n (blocking redis value reliable service client t u s).0)
              (ground arith) (Meter-block (u / minute) u c s (ground arith) m),
        ))
    | inr free ↦ rw free (
        rw (admit-answers redis value reliable service client t u s) (
          ground arith,
          subst (λ n. Meter (u / minute) u n (counting redis value reliable service client t u s).0)
              (ground arith) (Meter-admit (u / minute) u c s (ground arith) refl m),
        ))
  ]

  is_allowed-Stepped :
      (u c : ℕ) (s : S)
      → (rate_limit_config t).requests_per_minute ≢ 0
      → Meter (u / minute) u c s
      → Stepped u c (is_allowed redis service u client t s)
  is_allowed-Stepped u c s limited m =
      elim (Option-cases (value u (blocker redis value reliable service client t) s)) [
        | inl b ↦
            rw
              (is_allowed-open redis value reliable service client t u s c limited b
                (m.counted u (omega arith) refl))
              (counted_step u c s m)
        | inr (v, b) ↦
            let full : c ≡ limit t = m.blocks u v (omega arith) b in
            rw (is_allowed-blocked redis value reliable service client t u s v limited b)
              (ground arith, subst (λ n. Meter (u / minute) u n s) (ground arith) m)
      ]

  answers-first_pass :
      (w now c : ℕ) (s : S) (times : List ℕ)
      → (rate_limit_config t).requests_per_minute ≢ 0
      → Meter w now c s
      → InMinute w now times
      → answers redis service client t times s ≡ first_pass (limit t - c) times
  unfolding answers
  answers-first_pass w now c s [] limited m h = refl
  answers-first_pass w now c s (u ∷ times) limited m h =
      let st =
        is_allowed-Stepped u c s limited
          (subst (λ x. Meter x u c s) (sym h.1) (Meter-later w now u c s h.0 m)) in
      ap₂ (λ x xs. x ∷ xs) st.0
        (answers-first_pass w u (stepped c) (is_allowed redis service u client t s).0 times limited
          (subst (λ x. Meter x u (stepped c) (is_allowed redis service u client t s).0) h.1 st.1)
          h.2)
      ∙ first_pass-step (limit t) c u times

-- Of the requests that a client sends in one minute to endpoints of a limited type, one after the
-- other over a Redis server that keeps its promises, with no count and no block of before, exactly the
-- first pass, as many as the requests per minute and the burst allow; the others are refused.
pub answers_of_minute :
    {S : Type 0} (redis : Redis S) (value : ℕ → Text → S → Option Text) (service client : Text)
    (t : EndpointType) (w : ℕ) (times : List ℕ) (s : S)
    → IsReliable redis value
    → (rate_limit_config t).requests_per_minute ≢ 0
    → ((u : ℕ) → value u (count_key service client t (w * 60)) s ≡ none)
    → ((u : ℕ) → value u (block_key service client t) s ≡ none)
    → InMinute w 0 times
    → answers redis service client t times s ≡ first_pass (limit t) times
answers_of_minute redis value service client t w times s reliable limited unseen unblocked h =
    answers-first_pass redis value reliable service client t w 0 0 s times limited
      (record {
        counted = λ u le here. ap count_of (unseen u);
        blocks = λ u v le b. absurd (cc (unblocked u));
        within = omega arith;
      })
      h
    ∙ ap (λ n. first_pass n times) (omega arith)
