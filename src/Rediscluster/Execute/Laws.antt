-- ===== src/Rediscluster/Execute/Laws.antt =====
-- On which nodes `ExecuteWithRetry` of rediscluster/adapter.go executes an operation.
use svckit.Base.{
  ℕ, zero, suc, ◌≤◌, ◌≡◌, refl, ap, sym, subst, ◌∙◌, Bool, true, false, List, [], ◌∷◌, Option, none,
  some, length, ◌==◌, Bool-cases, inl, inr, ◌⊎◌, arith,
}
use svckit.Base.Run.{Run, done, >>=-eq-done, done-injective}
use svckit.Base.Int.{ℤ}
use svckit.Base.Text.{Text}
use svckit.Rediscluster.Node.{ClusterAdapter}
use svckit.Pgcluster.Connect.{calculate_backoff}
use svckit.Rediscluster.Execute.{
  Answer, succeeded, redis_nil, failed, Scene, Executed, executed_on, on_node,
  check_node_degradation, after_backoff, conclude, member, attempt_on, execute_loop, select_node,
  rounds, execute_with_retry,
}

-- No node of the list stands in `attempted` or twice in the list.
abbrev pub Fresh : List ℕ → List ℕ → Type 0
Fresh attempted [] = Unit
Fresh attempted (k ∷ ks) = (member k attempted ≡ false) × Fresh (k ∷ attempted) ks

-- What the execution on node `k` adds to the log of what follows.
abbrev Follows : ℕ → (ClusterAdapter → Run Executed) → List ℕ → Type 0
Follows k next log =
    (log ≡ k ∷ []) ⊎ ((ca : ClusterAdapter) × (r : Executed) × (next ca ≡ done r) × (log ≡ k ∷ r.2))

executed_on-log : (k : ℕ) (r r' : Executed) → executed_on k r ≡ r' → r'.2 ≡ k ∷ r.2
executed_on-log k r r' h = sym (ap (λ x. x.2) h)

after_backoff_done :
    (is_done : Bool) (backoff : Run ℤ) (ca : ClusterAdapter) (next : Run Executed) (r : Executed)
    → after_backoff is_done backoff ca next ≡ done r
    → (r.2 ≡ []) ⊎ (next ≡ done r)
unfolding after_backoff
after_backoff_done true backoff ca next r h =
    let (w, _, e) = >>=-eq-done backoff _ h in inl (sym (ap (λ x. x.2) (done-injective e)))
after_backoff_done false backoff ca next r h = let (w, _, e) = >>=-eq-done backoff _ h in inr e

conclude-Follows :
    (s : Scene) (i : ℕ) (is_last : Bool) (k : ℕ) (ca : ClusterAdapter) (a : Answer)
    (next : ClusterAdapter → Run Executed) (r : Executed)
    → conclude s i is_last k ca a next ≡ done r
    → Follows k next r.2
unfolding conclude
conclude-Follows s i is_last k ca succeeded next r h = inl (sym (ap (λ x. x.2) (done-injective h)))
conclude-Follows s i is_last k ca redis_nil next r h = inl (sym (ap (λ x. x.2) (done-injective h)))
conclude-Follows s i true k ca (failed e) next r h =
    let (r', e1, rest) = >>=-eq-done (next _) _ h in
    inr (_, r', e1, executed_on-log k r' r (done-injective rest))
conclude-Follows s i false k ca (failed e) next r h =
    let c = ca.config in
    let ca' = on_node k (check_node_degradation c.circuit_breaker_threshold) ca in
    let backoff = calculate_backoff c.retry_backoff_base c.retry_backoff_max i (s.jitters i) in
    let (r', e1, rest) =
      >>=-eq-done (after_backoff (s.context_done i) backoff ca' (next ca'))
        (λ x. done (executed_on k x)) h in
    let log = executed_on-log k r' r (done-injective rest) in
    elim (after_backoff_done (s.context_done i) backoff ca' (next ca') r' e1) [
      | inl d ↦ inl (log ∙ ap (λ l. k ∷ l) d)
      | inr d ↦ inr (ca', r', d, log)
    ]

-- What a turn of the loop adds to the log.
abbrev Turns : List ℕ → (List ℕ → ClusterAdapter → Run Executed) → List ℕ → Type 0
Turns attempted next log =
    (log ≡ [])
    ⊎ ((ca : ClusterAdapter) × (r : Executed) × (next attempted ca ≡ done r) × (log ≡ r.2))
    ⊎ ((k : ℕ) × (member k attempted ≡ false) × Follows k (next (k ∷ attempted)) log)

attempt_on-Turns :
    (s : Scene) (i : ℕ) (is_last : Bool) (attempted : List ℕ) (sel : ClusterAdapter × Option ℕ)
    (next : List ℕ → ClusterAdapter → Run Executed) (r : Executed)
    → attempt_on s i is_last attempted sel next ≡ done r
    → Turns attempted next r.2
unfolding attempt_on
attempt_on-Turns s i is_last attempted (ca, none) next r h =
    inl (sym (ap (λ x. x.2) (done-injective h)))
attempt_on-Turns s i is_last attempted (ca, some k) next r h =
    elim (Bool-cases (member k attempted)) [
      | inl m ↦ inr (inl (ca, r, rw (attempt_on, m) at h, refl))
      | inr m ↦ inr (
          inr (
            k,
            m,
            conclude-Follows s i is_last k ca (s.answers i) (next (k ∷ attempted)) r
                (rw (attempt_on, m) at h),
          ))
    ]

abbrev Good : List ℕ → ℕ → List ℕ → Type 0
Good attempted n log = Fresh attempted log × (length log ≤ n)

-- Each execution is on a node that was not attempted, and there is at most one a round.
execute_loop-Good :
    (key : Text) (s : Scene) (n i : ℕ) (attempted : List ℕ) (ca : ClusterAdapter) (r : Executed)
    → execute_loop key s n i attempted ca ≡ done r
    → Good attempted n r.2
unfolding execute_loop
execute_loop-Good key s zero i attempted ca r h =
    subst (Good attempted 0) (ap (λ x. x.2) (done-injective h)) (tt, omega arith)
execute_loop-Good key s (suc n) i attempted ca r h =
    let (sel, e, rest) = >>=-eq-done (select_node key (s.draws i) ca) _ h in
    elim (attempt_on-Turns s i (n == 0) attempted sel (execute_loop key s n (suc i)) r rest) [
      | inl l ↦ subst (Good attempted (suc n)) (sym l) (tt, omega arith)
      | inr (inl (ca', r', e', l)) ↦
          let (fresh, len) = execute_loop-Good key s n (suc i) attempted ca' r' e' in
          subst (Good attempted (suc n)) (sym l) (fresh, omega (arith, len))
      | inr (inr (k, m, inl l)) ↦ subst (Good attempted (suc n)) (sym l) ((m, tt), omega arith)
      | inr (inr (k, m, inr (ca', r', e', l))) ↦
          let (fresh, len) = execute_loop-Good key s n (suc i) (k ∷ attempted) ca' r' e' in
          subst (Good attempted (suc n)) (sym l) ((m, fresh), omega (arith, len))
    ]

-- A call that returns has executed the operation on no node twice, and on at most as many nodes as
-- there are attempts, `MaxRetries + 1`, whatever the strategy and the answers.
pub execute_with_retry-Fresh :
    (key : Text) (s : Scene) (ca : ClusterAdapter) (r : Executed)
    → execute_with_retry key s ca ≡ done r
    → Fresh [] r.2 × (length r.2 ≤ rounds ca.config.max_retries)
unfolding execute_with_retry
execute_with_retry-Fresh key s ca r h =
    execute_loop-Good key s (rounds ca.config.max_retries) 0 [] ca r h
