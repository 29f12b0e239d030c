-- ===== src/Pgcluster/Health/Laws.antt =====
-- What a health check of pgcluster/health.go makes of one node.
use svckit.Base.{
  ℕ, suc, ◌*◌, ◌≤◌, ◌≡◌, refl, ap, sym, subst, ◌+◌, ◌∙◌, true, false, none, some, if◌then◌else◌,
  arith, Bool-cases, Option-cases, inl, inr, ◌⊎◌,
}
use svckit.Base.Run.{done, blocked}
use svckit.Base.Text.{Text, is_some}
use svckit.Pgcluster.Node.{
  health_healthy, health_degraded, health_failed, DatabaseNode, ClusterConfig, is_healthy,
}
use svckit.Pgcluster.Connect.{connect_to_node}
use svckit.Pgcluster.Connect.Laws.{IsSound}
use svckit.Pgcluster.Health.{
  Checkup, check_node_health, checked_recently, is_retryable_error, ping_sql_db, ping_failed,
  ping_answered, second,
}

ping_failed-IsSound :
    (e : Text) (node : DatabaseNode) → (is_some node.sql_db ≡ true) → IsSound (ping_failed e node)
unfolding ping_failed
ping_failed-IsSound e node h = ground arith

ping_answered-IsSound :
    (node : DatabaseNode)
    → (is_some node.sql_db ≡ true)
    → IsSound node
    → IsSound (ping_answered node)
unfolding ping_answered
ping_answered-IsSound node h s = ground arith

ping_sql_db-IsSound :
    (x : Checkup) (node : DatabaseNode)
    → is_some node.sql_db ≡ true
    → IsSound node
    → IsSound (ping_sql_db x node)
unfolding ping_sql_db
ping_sql_db-IsSound x node h s =
    let node' = record node { response_time = x.took } in
    elim (Option-cases x.ping) [
      | inl p ↦
          subst
            (λ o. IsSound (elim o [ some e ↦ ping_failed e node' | none ↦ ping_answered node' ]))
            (sym p) (ping_answered-IsSound node' h s)
      | inr (e, p) ↦
          subst
            (λ o. IsSound (elim o [ some e ↦ ping_failed e node' | none ↦ ping_answered node' ]))
            (sym p) (ping_failed-IsSound e node' h)
    ]

abbrev pub checked_at : Checkup → DatabaseNode → DatabaseNode
checked_at x node = record node { last_check = x.now }

-- A check that ends has either changed nothing or pinged the pool.
pub false-true : false ≡ true → ⊥
false-true h = cc

check_node_health_done :
    (c : ClusterConfig) (x : Checkup) (node n : DatabaseNode)
    → check_node_health c x node ≡ done n
    → (node ≡ n) ⊎ ((is_some node.sql_db ≡ true) × (ping_sql_db x (checked_at x node) ≡ n))
unfolding check_node_health connect_to_node
check_node_health_done c x node n e = elim (Bool-cases (checked_recently x node)) [
  | inl r ↦ ground arith
  | inr r ↦ ground arith
]

pub check_node_health_pings :
    (c : ClusterConfig) (x : Checkup) (node : DatabaseNode)
    → checked_recently x node ≡ false
    → is_some node.sql_db ≡ true
    → check_node_health c x node ≡ done (ping_sql_db x (checked_at x node))
unfolding check_node_health connect_to_node
check_node_health_pings c x node r p = ground arith

pub check_node_health_blocks :
    (c : ClusterConfig) (x : Checkup) (node : DatabaseNode)
    → checked_recently x node ≡ false
    → is_some node.sql_db ≡ false
    → check_node_health c x node ≡ blocked
unfolding check_node_health connect_to_node
check_node_health_blocks c x node r p = ground arith

pub check_node_health_skips :
    (c : ClusterConfig) (x : Checkup) (node : DatabaseNode)
    → checked_recently x node ≡ true
    → check_node_health c x node ≡ done node
unfolding check_node_health
check_node_health_skips c x node r = rw r refl

-- A check that ends leaves a sound node sound: if healthy, with a pool and without a last error.
pub check_node_health-IsSound :
    (c : ClusterConfig) (x : Checkup) (node n : DatabaseNode)
    → IsSound node
    → check_node_health c x node ≡ done n
    → IsSound n
check_node_health-IsSound c x node n s e = elim (check_node_health_done c x node n e) [
  | inl h ↦ subst IsSound h s
  | inr (p, h) ↦ subst IsSound h (ping_sql_db-IsSound x (checked_at x node) p s)
]

-- A ping that fails on an error that is not retryable costs the node its pool, and then every
-- check that comes at least 10 s later blocks: it waits for the mutex that it holds, whatever the
-- database would answer by then.
pub check_node_health_deadlock :
    (c : ClusterConfig) (x later : Checkup) (node : DatabaseNode) (db : ℕ) (e : Text)
    → checked_recently x node ≡ false
    → node.sql_db ≡ some db
    → x.ping ≡ some e
    → is_retryable_error e ≡ false
    → x.now + 10 * second ≤ later.now
    → (n : DatabaseNode) × (check_node_health c x node ≡ done n)
      × (n.health ≡ health_failed)
      × (n.error_count ≡ suc node.error_count)
      × (check_node_health c later n ≡ blocked)
unfolding check_node_health connect_to_node ping_sql_db ping_failed
check_node_health_deadlock c x later node db e r p q f t = (
  (record node {
    last_check = x.now;
    response_time = x.took;
    error_count = suc node.error_count;
    last_error = some e;
    health = health_failed;
    sql_db = none;
  }),
  rw (r, p, q, f) refl,
  refl,
  refl,
  ground arith,
)

-- A node with a pool, whatever its health, is healthy without a last error after one check that
-- comes at least 10 s after the last one and whose ping is answered within 5 s.
pub check_node_health_recovers :
    (c : ClusterConfig) (x : Checkup) (node : DatabaseNode)
    → checked_recently x node ≡ false
    → is_some node.sql_db ≡ true
    → IsSound node
    → x.ping ≡ none
    → x.took ≤ 5 * second
    → check_node_health c x node
      ≡ done (record node {
        last_check = x.now;
        response_time = x.took;
        health = health_healthy;
        last_error = none;
      })
unfolding ping_sql_db ping_answered
check_node_health_recovers c x node r p s q t =
    check_node_health_pings c x node r p ∙ ap done (rw q (ground arith))

-- An error that is retryable never fails a node: a healthy node is degraded, another one keeps its
-- health, and the pool is kept, until an answered ping makes it healthy.
pub check_node_health_degrades :
    (c : ClusterConfig) (x : Checkup) (node : DatabaseNode) (e : Text)
    → checked_recently x node ≡ false
    → is_some node.sql_db ≡ true
    → x.ping ≡ some e
    → is_retryable_error e ≡ true
    → (n : DatabaseNode) × (check_node_health c x node ≡ done n)
      × (n.sql_db ≡ node.sql_db)
      × (n.health ≡ (if is_healthy node.health then health_degraded else node.health))
      × (n.last_error ≡ some e)
unfolding ping_sql_db ping_failed
check_node_health_degrades c x node e r p q f = (
  ping_sql_db x (checked_at x node),
  check_node_health_pings c x node r p,
  rw (q, f) (ground arith),
  rw (q, f) (ground arith),
  rw (q, f) (ground arith),
)
