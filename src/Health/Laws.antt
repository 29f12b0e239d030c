-- ===== src/Health/Laws.antt =====
-- About when a service is healthy by health/health.go.
use svckit.Base.{
  ℕ, ◌≤◌, ◌<◌, ltb, ◌==◌, ◌≡◌, ◌↔◌, refl, ◌∙◌, Bool, true, false, List, [], ◌∷◌, Option, none, some,
  All, length, arith, Bool-cases, inl, inr, if◌then◌else◌,
}
use svckit.Base.Text.{Text}
use svckit.Rediscluster.Node.{
  NodeState, node_healthy, node_degraded, node_failed, RedisNode, ClusterAdapter, is_healthy,
}
use svckit.Rediscluster.Reports.{count_healthy, get_cluster_health}
use svckit.Health.{
  Status, healthy, degraded, unhealthy, ServiceHealth, HealthChecker, Findings, answers,
  check_postgres, check_redis, cluster_status, check_redis_cluster, check_publisher,
  check_subscriber, add_runtime_metrics, fresh_health, check_health, status_code,
  detailed_health_handler,
}

-- Every node of a cluster that has one is healthy.
abbrev pub AllHealthy : ClusterAdapter → Type 0
AllHealthy ca = (0 < length ca.nodes) × All (λ n. n.state ≡ node_healthy) ca.nodes

-- What is required of a dependency where it is set.
abbrev pub IfSet {ℓ} : {A : Type ℓ} → Option A → (A → Type 0) → Type 0
IfSet none P = Unit
IfSet (some a) P = P a

-- Every dependency that is set answers, and so does every node of the Redis cluster.
abbrev pub IsFine : HealthChecker → Findings → Type 0
IsFine h f =
    IfSet h.db (λ _. f.database_ping ≡ none)
    × IfSet h.redis (λ _. f.redis_ping ≡ none)
    × IfSet h.redis_cluster AllHealthy
    × IfSet h.rabbit_publisher (λ _. f.test_connection ≡ none)
    × IfSet h.rabbit_subscriber (λ _. 0 < f.subscriber_stats.healthy_nodes)

depends_iff :
    (is_up : Bool) (old : Status)
    → ((if is_up then old else degraded) ≡ healthy) ↔ ((old ≡ healthy) × (is_up ≡ true))
depends_iff true old = ((λ h. (h, refl)), (λ h. h.0))
depends_iff false old = ((λ h. absurd (cc)), (λ h. absurd (cc)))

answers_iff : (e : Option Text) → (answers e ≡ true) ↔ (e ≡ none)
answers_iff none = ((λ h. refl), (λ h. refl))
answers_iff (some e) = ((λ h. absurd (cc)), (λ h. absurd (cc)))

unhealthy-apart : unhealthy ≡ healthy → ⊥
unhealthy-apart h = cc

degraded-apart : degraded ≡ healthy → ⊥
degraded-apart h = cc

-- A step of the check keeps the status where its dependency is as `P` requires.
abbrev Keeps : Status → Status → Type 0 → Type 0
Keeps old new P = (new ≡ healthy) ↔ ((old ≡ healthy) × P)

ping-Keeps :
    (e : Option Text) (old : Status) → Keeps old (if answers e then old else degraded) (e ≡ none)
ping-Keeps e old =
    let (to, from) = depends_iff (answers e) old in
    ((λ h. ((to h).0, (answers_iff e).0 (to h).1)), (λ h. from (h.0, (answers_iff e).1 h.1)))

healthy_state : (s : NodeState) → (is_healthy s ≡ true) ↔ (s ≡ node_healthy)
healthy_state node_healthy = ((λ h. refl), (λ h. refl))
healthy_state node_degraded = ((λ h. absurd (cc)), (λ h. absurd (cc)))
healthy_state node_failed = ((λ h. absurd (cc)), (λ h. absurd (cc)))

count_healthy-≤ : (ns : List RedisNode) → count_healthy ns ≤ length ns
unfolding count_healthy
count_healthy-≤ [] = omega arith
count_healthy-≤ (n ∷ ns) = let rest = count_healthy-≤ ns in ground arith

count_healthy-All :
    (ns : List RedisNode) → length ns ≤ count_healthy ns → All (λ n. n.state ≡ node_healthy) ns
unfolding count_healthy
count_healthy-All [] h = tt
count_healthy-All (n ∷ ns) h = elim (Bool-cases (is_healthy n.state)) [
  | inl e ↦
      let h' = rw (count_healthy, e) at h in
      ((healthy_state n.state).0 e, count_healthy-All ns (omega (arith, h')))
  | inr e ↦
      let h' = rw (count_healthy, e) at h in
      let short = count_healthy-≤ ns in absurd (omega (arith, h', short))
]

All-count_healthy :
    (ns : List RedisNode) → All (λ n. n.state ≡ node_healthy) ns → length ns ≤ count_healthy ns
unfolding count_healthy
All-count_healthy [] h = omega arith
All-count_healthy (n ∷ ns) h =
    let rest = All-count_healthy ns h.1 in
    rw (count_healthy, (healthy_state n.state).1 h.0) (omega (arith, rest))

abbrev counted_status : ℕ → ℕ → Status → Status
counted_status up total old =
    if up == 0 then unhealthy else (if ltb up total then degraded else old)

counted_status_parts :
    (up total : ℕ) (old : Status)
    → counted_status up total old ≡ healthy
    → (old ≡ healthy) × (0 < up) × (total ≤ up)
counted_status_parts up total old h = elim (Bool-cases (up == 0)) [
  | inl z ↦ absurd (unhealthy-apart (rw z at h))
  | inr z ↦ elim (Bool-cases (ltb up total)) [
    | inl l ↦ absurd (degraded-apart (rw (z, l) at h))
    | inr l ↦ (rw (z, l) at h, ground arith, ground arith)
  ]
]

counted_status_kept :
    (up total : ℕ) (old : Status) → 0 < up → total ≤ up → counted_status up total old ≡ old
counted_status_kept up total old p l = ground arith

cluster-Keeps :
    (ca : ClusterAdapter) (now : ℕ) (old : Status)
    → Keeps old (cluster_status (get_cluster_health now ca) old) (AllHealthy ca)
unfolding get_cluster_health
cluster-Keeps ca now old =
    let up = count_healthy ca.nodes in
    let total = length ca.nodes in
    let short = count_healthy-≤ ca.nodes in
    (
      (λ h.
          let (kept, some_up, all_up) = counted_status_parts up total old h in
          (kept, (omega (arith, some_up, short), count_healthy-All ca.nodes all_up))),
      (λ h.
          let all_up = All-count_healthy ca.nodes h.1.1 in
          counted_status_kept up total old (omega (arith, all_up, h.1.0)) all_up ∙ h.0),
    )

database-Keeps :
    (o : Option ℕ) (f : Findings) (s : ServiceHealth)
    → Keeps s.status (check_postgres o f s).status (IfSet o (λ _. f.database_ping ≡ none))
unfolding check_postgres
database-Keeps none f s = ((λ h. (h, tt)), (λ h. h.0))
database-Keeps (some a) f s = ping-Keeps f.database_ping s.status

redis-Keeps :
    (o : Option ℕ) (f : Findings) (s : ServiceHealth)
    → Keeps s.status (check_redis o f s).status (IfSet o (λ _. f.redis_ping ≡ none))
unfolding check_redis
redis-Keeps none f s = ((λ h. (h, tt)), (λ h. h.0))
redis-Keeps (some a) f s = ping-Keeps f.redis_ping s.status

redis_cluster-Keeps :
    (o : Option ClusterAdapter) (f : Findings) (s : ServiceHealth)
    → Keeps s.status (check_redis_cluster o f s).status (IfSet o AllHealthy)
unfolding check_redis_cluster
redis_cluster-Keeps none f s = ((λ h. (h, tt)), (λ h. h.0))
redis_cluster-Keeps (some ca) f s = cluster-Keeps ca f.now s.status

publisher-Keeps :
    (o : Option ℕ) (f : Findings) (s : ServiceHealth)
    → Keeps s.status (check_publisher o f s).status (IfSet o (λ _. f.test_connection ≡ none))
unfolding check_publisher
publisher-Keeps none f s = ((λ h. (h, tt)), (λ h. h.0))
publisher-Keeps (some a) f s = ping-Keeps f.test_connection s.status

subscriber-Keeps :
    (o : Option ℕ) (f : Findings) (s : ServiceHealth)
    → Keeps s.status
        (check_subscriber o f s).status
        (IfSet o (λ _. 0 < f.subscriber_stats.healthy_nodes))
unfolding check_subscriber
subscriber-Keeps none f s = ((λ h. (h, tt)), (λ h. h.0))
subscriber-Keeps (some a) f s =
    let n = f.subscriber_stats.healthy_nodes in
    let (to, from) = depends_iff (ltb 0 n) s.status in
    ((λ h. ((to h).0, positive n (to h).1)), (λ h. from (h.0, positive_test n h.1)))
  where
    positive : (n : ℕ) → ltb 0 n ≡ true → 0 < n
    positive n h = ground arith

    positive_test : (n : ℕ) → 0 < n → ltb 0 n ≡ true
    positive_test n h = ground arith

check_health_iff :
    (h : HealthChecker) (f : Findings) → ((check_health h f).status ≡ healthy) ↔ IsFine h f
unfolding check_health add_runtime_metrics fresh_health
check_health_iff h f =
    let s0 = fresh_health h f.now in
    let s1 = check_postgres h.db f s0 in
    let s2 = check_redis h.redis f s1 in
    let s3 = check_redis_cluster h.redis_cluster f s2 in
    let s4 = check_publisher h.rabbit_publisher f s3 in
    let a = database-Keeps h.db f s0 in
    let b = redis-Keeps h.redis f s1 in
    let c = redis_cluster-Keeps h.redis_cluster f s2 in
    let d = publisher-Keeps h.rabbit_publisher f s3 in
    let e = subscriber-Keeps h.rabbit_subscriber f s4 in
    (
      (λ up.
          let (p, fine_e) = e.0 up in
          let (q, fine_d) = d.0 p in
          let (r, fine_c) = c.0 q in
          let (t, fine_b) = b.0 r in ((a.0 t).1, fine_b, fine_c, fine_d, fine_e)),
      (λ (fine_a, fine_b, fine_c, fine_d, fine_e).
          e.1 (d.1 (c.1 (b.1 (a.1 (refl, fine_a), fine_b), fine_c), fine_d), fine_e)),
    )

status_code_iff : (s : Status) → (status_code s ≡ 200) ↔ (s ≡ healthy)
status_code_iff healthy = ((λ h. refl), (λ h. refl))
status_code_iff degraded = ((λ h. absurd (omega (arith, h))), (λ h. absurd (cc)))
status_code_iff unhealthy = ((λ h. absurd (omega (arith, h))), (λ h. absurd (cc)))

-- The detailed health handler answers 200 exactly if every dependency that is set answers: the pings
-- of the database and of Redis and the test of the publisher have no error, the subscriber has a
-- healthy node, and the Redis cluster has a node and only healthy ones.
pub detailed_health_handler_iff :
    (h : HealthChecker) (f : Findings) → ((detailed_health_handler h f).0 ≡ 200) ↔ IsFine h f
unfolding detailed_health_handler
detailed_health_handler_iff h f =
    let (to, from) = check_health_iff h f in
    let (code, status) = status_code_iff (check_health h f).status in
    ((λ e. to (code e)), (λ fine. status (from fine)))
