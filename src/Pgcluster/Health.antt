-- ===== src/Pgcluster/Health.antt =====
-- Health checks of nodes, in pgcluster/health.go.
pub mod Laws
pub mod Cluster
use svckit.Base.{
  ℕ, suc, ◌*◌, ltb, Bool, true, false, not, ◌&&◌, ◌||◌, List, [], ◌∷◌, Option, none, some,
  if◌then◌else◌,
}
use svckit.Base.Int.{pos, ltb_ℤ, sub_ℕ}
use svckit.Base.Run.{Run, done, ◌>>=◌}
use svckit.Base.Text.{Text, codes, to_lower}
use svckit.Base.Text
use svckit.Pgcluster.Node.{
  health_healthy, health_degraded, health_failed, DatabaseNode, ClusterConfig, is_healthy,
  is_writer,
}
use svckit.Pgcluster.Connect.{Dial, connect_to_node, has_healthy_nodes}

abbrev pub retryable_keywords : List Text
retryable_keywords =
    codes "connection refused"
    ∷ codes "timeout"
    ∷ codes "network"
    ∷ codes "dial"
    ∷ codes "temporary"
    ∷ codes "connection reset"
    ∷ codes "broken pipe"
    ∷ codes "no route to host"
    ∷ codes "connection timed out"
    ∷ codes "i/o timeout"
    ∷ codes "context deadline exceeded"
    ∷ []

abbrev pub non_retryable_keywords : List Text
non_retryable_keywords =
    codes "authentication"
    ∷ codes "password"
    ∷ codes "permission denied"
    ∷ codes "access denied"
    ∷ codes "database does not exist"
    ∷ codes "role does not exist"
    ∷ codes "syntax error"
    ∷ codes "invalid"
    ∷ codes "malformed"
    ∷ codes "ssl required"
    ∷ []

-- `contains(s, substr)` of the package, which ignores case.
unfoldable pub contains : Text → Text → Bool
contains s substr = Text.contains (to_lower s) (to_lower substr)

unfoldable pub mentions : Text → List Text → Bool
mentions s [] = false
mentions s (k ∷ ks) = contains s k || mentions s ks

-- `isRetryableError(err)`, on the text of a non-nil error.
unfoldable pub is_retryable_error : Text → Bool
unfolding mentions
is_retryable_error e =
    if mentions e retryable_keywords
    then true
    else (if mentions e non_retryable_keywords then false else true)

-- What one check meets: the clock, the answer to the ping and how long it took, and what a
-- reconnection would meet.
pub record Checkup : Type 0 where
  pub now : ℕ
  pub ping : Option Text
  pub took : ℕ
  pub dial : Dial

abbrev pub second : ℕ
second = 1000000000

-- `time.Since(node.lastCheck) < 10*time.Second`
abbrev pub checked_recently : Checkup → DatabaseNode → Bool
checked_recently x node = ltb_ℤ (sub_ℕ x.now node.last_check) (pos (10 * second))

-- The branch of a failed ping.
unfoldable pub ping_failed : Text → DatabaseNode → DatabaseNode
unfolding is_retryable_error
ping_failed e node =
    let counted = record node { error_count = suc node.error_count; last_error = some e } in
    if is_retryable_error e
    then (if is_healthy node.health then record counted { health = health_degraded } else counted)
    else record counted { health = health_failed; sql_db = none }

-- The branch of an answered ping.
unfoldable pub ping_answered : DatabaseNode → DatabaseNode
ping_answered node =
    let recovered =
      if is_healthy node.health
      then node
      else record node { health = health_healthy; last_error = none } in
    if ltb (5 * second) recovered.response_time
    then (if is_healthy recovered.health
        then record recovered { health = health_degraded }
        else recovered)
    else recovered

pub ping_sql_db : Checkup → DatabaseNode → DatabaseNode
unfolding ping_failed ping_answered
ping_sql_db x node = elim x.ping [
  | some e ↦ ping_failed e (record node { response_time = x.took })
  | none ↦ ping_answered (record node { response_time = x.took })
]

-- `checkNodeHealth(node)`. It holds the node's mutex, which `connectToNode` locks too.
unfoldable pub check_node_health : ClusterConfig → Checkup → DatabaseNode → Run DatabaseNode
unfolding ping_sql_db
check_node_health c x node =
    let checked = record node { last_check = x.now } in
    let reconnected : Run DatabaseNode = (do r ← connect_to_node true c x.dial checked; done r.0) in
    if checked_recently x node
    then done node
    else (elim node.sql_db [ none ↦ reconnected | some db ↦ done (ping_sql_db x checked) ])

-- `performHealthChecks`: each node is checked by a goroutine of its own, which touches nothing else.
unfoldable pub perform_health_checks :
    ClusterConfig → (ℕ → Checkup) → ℕ → List DatabaseNode → Run (List DatabaseNode)
perform_health_checks c checkups i [] = done []
perform_health_checks c checkups i (n ∷ ns) = do
  n' ← check_node_health c (checkups i) n
  ns' ← perform_health_checks c checkups (suc i) ns
  done (n' ∷ ns')

pub data HealthCheckError : Type 0 where
  no_healthy_nodes no_healthy_writer : HealthCheckError

unfoldable pub writer_healthy : List DatabaseNode → Bool
writer_healthy [] = false
writer_healthy (n ∷ ns) = (is_healthy n.health && is_writer n.role) || writer_healthy ns

-- `HealthCheck()`, where the checks end, or hang, within its 100 ms: a hanging one holds the mutex
-- of its node, on which `hasHealthyNodes` then waits.
unfoldable pub health_check :
    ClusterConfig
    → (ℕ → Checkup)
    → List DatabaseNode
    → Run (List DatabaseNode × Option HealthCheckError)
unfolding perform_health_checks writer_healthy has_healthy_nodes
health_check c checkups nodes = do
  ns ← perform_health_checks c checkups 0 nodes
  done (
    ns,
    (if not (has_healthy_nodes ns)
        then some no_healthy_nodes
        else (if not (writer_healthy ns) then some no_healthy_writer else none)),
  )
