-- ===== src/Pgcluster/Health/Cluster.antt =====
-- `HealthCheck` of pgcluster/health.go and what it says of the calls that follow.
use mathlib.Core.Option.{some-injective}
use svckit.Base.{
  ℕ, zero, suc, ◌+◌, ◌≡◌, refl, ap, sym, subst, ◌∙◌, true, false, not, ◌&&◌, List, [], ◌∷◌, Option,
  none, some, if◌then◌else◌, arith, Bool-cases, inl, inr, ◌⊎◌, ◌↔◌, All, get_elem?, ok, err,
  &&-parts,
}
use svckit.Base.Run.{Run, done, blocked, ◌>>=◌, >>=-eq-done, done-injective}
use svckit.Base.Text.{is_some}
use svckit.Pgcluster.Node.{DatabaseNode, ClusterConfig, ClusterManager, is_healthy, is_writer}
use svckit.Pgcluster.Connect.{has_healthy_nodes}
use svckit.Pgcluster.Connect.Laws.{IsSound}
use svckit.Pgcluster.Health.{
  Checkup, checked_recently, HealthCheckError, no_healthy_nodes, no_healthy_writer,
  check_node_health, perform_health_checks, health_check, writer_healthy,
}
use svckit.Pgcluster.Health.Laws.{
  check_node_health_skips, check_node_health_blocks, check_node_health_pings, false-true,
  check_node_health-IsSound,
}
use svckit.Pgcluster.Routing.{writer, is_circuit_open}
use svckit.Pgcluster.Routing.Laws.{FirstWriter, NoWriter, writer_first, writer-none}

-- A round of checks that ends leaves every node sound.
perform_health_checks-IsSound :
    (c : ClusterConfig) (xs : ℕ → Checkup) (i : ℕ) (nodes ns : List DatabaseNode)
    → All IsSound nodes
    → perform_health_checks c xs i nodes ≡ done ns
    → All IsSound ns
unfolding perform_health_checks
perform_health_checks-IsSound c xs i [] ns s e = subst (All IsSound) (done-injective e) tt
perform_health_checks-IsSound c xs i (n ∷ nodes) ns s e =
    let (n', e1, rest) = >>=-eq-done (check_node_health c (xs i) n) _ e in
    let (ns', e2, last) = >>=-eq-done (perform_health_checks c xs (suc i) nodes) _ rest in
    subst (All IsSound) (done-injective last) (
      check_node_health-IsSound c (xs i) n n' s.0 e1,
      perform_health_checks-IsSound c xs (suc i) nodes ns' s.1 e2,
    )

-- A sound list with a healthy writer has a first node that can take writes, and this has a pool;
-- one without has no node that can.
first_writer :
    (ns : List DatabaseNode)
    → All IsSound ns
    → writer_healthy ns ≡ true
    → (k : ℕ) × (n : DatabaseNode) × FirstWriter k n ns × (is_some n.sql_db ≡ true)
unfolding writer_healthy
first_writer [] s h = absurd (cc)
first_writer (n ∷ ns) s h = elim (Bool-cases (is_healthy n.health && is_writer n.role)) [
  | inl t ↦ let pool = s.0.0 (&&-parts _ _ t).0 in (0, n, (refl, ground arith), pool)
  | inr f ↦
      let (k, m, first, pool) = first_writer ns s.1 (ground arith) in
      (suc k, m, (ground arith, first), pool)
]

no_writer : (ns : List DatabaseNode) → writer_healthy ns ≡ false → NoWriter ns
unfolding writer_healthy
no_writer [] h = tt
no_writer (n ∷ ns) h = (ground arith, no_writer ns (ground arith))

writer_healthy-has_healthy_nodes :
    (ns : List DatabaseNode) → writer_healthy ns ≡ true → has_healthy_nodes ns ≡ true
unfolding writer_healthy has_healthy_nodes
writer_healthy-has_healthy_nodes [] h = h
writer_healthy-has_healthy_nodes (n ∷ ns) h = ground (arith, writer_healthy-has_healthy_nodes ns)

verdict : List DatabaseNode → Option HealthCheckError
verdict ns =
    if not (has_healthy_nodes ns)
    then some no_healthy_nodes
    else (if not (writer_healthy ns) then some no_healthy_writer else none)

verdict_lem : (ns : List DatabaseNode) → is_some (verdict ns) ≡ not (writer_healthy ns)
unfolding verdict
verdict_lem ns = ground (arith, writer_healthy-has_healthy_nodes ns)

-- A health check that ends leaves sound nodes, and reports no error exactly if a node is a healthy
-- writer.
health_check_lem :
    (c : ClusterConfig) (xs : ℕ → Checkup) (nodes ns : List DatabaseNode)
    (e : Option HealthCheckError)
    → All IsSound nodes
    → health_check c xs nodes ≡ done (ns, e)
    → All IsSound ns × (is_some e ≡ not (writer_healthy ns))
unfolding health_check verdict
health_check_lem c xs nodes ns e s h =
    let (ns', e1, last) = >>=-eq-done (perform_health_checks c xs 0 nodes) _ h in
    let same = done-injective last in
    (
      subst (All IsSound) (ap (λ p. p.0) same)
          (perform_health_checks-IsSound c xs 0 nodes ns' s e1),
      subst (λ p. is_some p.1 ≡ not (writer_healthy p.0)) same (verdict_lem ns'),
    )

some_of {ℓ} : {A : Type ℓ} (o : Option A) → is_some o ≡ true → (a : A) × (o ≡ some a)
some_of none h = absurd (cc)
some_of (some a) h = (a, refl)

none_of {ℓ} : {A : Type ℓ} (o : Option A) → is_some o ≡ false → o ≡ none
none_of none h = refl
none_of (some a) h = absurd (cc)

err-ok {ℓ κ} : {E : Type ℓ} {A : Type κ} {e : E} {a : A} → err e ≡ ok a → ⊥
err-ok h = cc

closed :
    (cm : ClusterManager) (ns : List DatabaseNode) (now : ℕ)
    → (is_circuit_open now cm).1 ≡ false
    → (is_circuit_open now (record cm { nodes = ns })).1 ≡ false
unfolding is_circuit_open
closed cm ns now h = ground arith

-- After a health check that ends, with the breaker letting calls through, the check reported no
-- error exactly if the next `Writer` returns a pool.
pub health_check-writer :
    (now : ℕ) (xs : ℕ → Checkup) (cm : ClusterManager) (ns : List DatabaseNode)
    (e : Option HealthCheckError)
    → All IsSound cm.nodes
    → (is_circuit_open now cm).1 ≡ false
    → health_check cm.config xs cm.nodes ≡ done (ns, e)
    → (e ≡ none) ↔ ((db : ℕ) × ((writer now (record cm { nodes = ns })).1 ≡ ok (some db)))
health_check-writer now xs cm ns e s c h =
    let (sound, agrees) = health_check_lem cm.config xs cm.nodes ns e s h in
    let cm' = record cm { nodes = ns } in
    elim (Bool-cases (writer_healthy ns)) [
      | inl w ↦
          let (k, n, first, pool) = first_writer ns sound w in
          let (db, q) = some_of n.sql_db pool in
          (
            λ _.
                (db, ap (λ r. r.1) (writer_first now cm' k n (closed cm ns now c) first) ∙ ap ok q),
            λ _. none_of e (agrees ∙ ap not w),
          )
      | inr w ↦ (
        λ q. absurd (false-true (sym (ap is_some q) ∙ agrees ∙ ap not w)),
        λ (db, q). absurd (
            err-ok (
              sym (ap (λ r. r.1) (writer-none now cm' (closed cm ns now c) (no_writer ns w))) ∙ q)),
      )
    ]

check_ends_or_blocks :
    (c : ClusterConfig) (x : Checkup) (n : DatabaseNode)
    → ((m : DatabaseNode) × (check_node_health c x n ≡ done m))
      ⊎ (check_node_health c x n ≡ blocked)
check_ends_or_blocks c x n = elim (Bool-cases (checked_recently x n)) [
  | inl r ↦ inl (n, check_node_health_skips c x n r)
  | inr r ↦ elim (Bool-cases (is_some n.sql_db)) [
    | inl q ↦ inl (_, check_node_health_pings c x n r q)
    | inr q ↦ inr (check_node_health_blocks c x n r q)
  ]
]

blocked-bind {ℓ κ} :
    {A : Type ℓ} {B : Type κ} {m : Run A} (f : A → Run B) → m ≡ blocked → (m >>= f) ≡ blocked
blocked-bind f h = ap (λ r. r >>= f) h

done-bind {ℓ κ} :
    {A : Type ℓ} {B : Type κ} {m : Run A} {a : A} {b : Run B} (f : A → Run B)
    → m ≡ done a
    → f a ≡ b
    → (m >>= f) ≡ b
done-bind f h e = ap (λ r. r >>= f) h ∙ e

perform_health_checks_hangs :
    (c : ClusterConfig) (xs : ℕ → Checkup) (i j k : ℕ) (nodes : List DatabaseNode)
    (n : DatabaseNode)
    → get_elem? nodes k ≡ some n
    → n.sql_db ≡ none
    → j ≡ i + k
    → checked_recently (xs j) n ≡ false
    → perform_health_checks c xs i nodes ≡ blocked
unfolding perform_health_checks
perform_health_checks_hangs c xs i j k [] n g p q r = absurd (cc)
perform_health_checks_hangs c xs i j zero (x ∷ nodes) n g p q r =
    let same = some-injective x n g in
    let here = subst (λ a. checked_recently (xs a) n ≡ false) (q ∙ omega arith) r in
    blocked-bind _ (
      check_node_health_blocks c (xs i) x
        (subst (λ m. checked_recently (xs i) m ≡ false) (sym same) here)
        (ap (λ m. is_some m.sql_db) same ∙ ap is_some p))
perform_health_checks_hangs c xs i j (suc k) (x ∷ nodes) n g p q r =
    elim (check_ends_or_blocks c (xs i) x) [
      | inr b ↦ blocked-bind _ b
      | inl (m, e) ↦ done-bind _ e (
          blocked-bind _ (perform_health_checks_hangs c xs (suc i) j k nodes n g p (omega arith) r))
    ]

-- One node without a pool, last checked at least 10 s ago, is enough for a health check to hang,
-- whatever the other nodes are.
pub health_check_hangs :
    (c : ClusterConfig) (xs : ℕ → Checkup) (k : ℕ) (nodes : List DatabaseNode) (n : DatabaseNode)
    → get_elem? nodes k ≡ some n
    → n.sql_db ≡ none
    → checked_recently (xs k) n ≡ false
    → health_check c xs nodes ≡ blocked
unfolding health_check
health_check_hangs c xs k nodes n g p r =
    blocked-bind _ (perform_health_checks_hangs c xs 0 k k nodes n g p (omega arith) r)
