-- ===== src/Pgcluster/Examples/Nodes.antt =====
-- Tests of connecting to nodes and checking them.
use svckit.Base.{
  ℕ, zero, suc, ◌*◌, ◌+◌, ◌/◌, ◌≤◌, ◌<◌, ◌≡◌, refl, Bool, true, false, List, [], ◌∷◌, ◌++◌, Option,
  none, some, ◌==◌, Result, ok, err, All, arith, get_elem?, length, ◌↔◌, if◌then◌else◌,
}
use svckit.Base.Run.{done, blocked}
use svckit.Base.Text.{Text, codes, itoa, text_eq}
use svckit.Pgcluster.Node.{DatabaseNode, health_healthy, health_failed, health_degraded}
use svckit.Pgcluster.Routing.{is_circuit_open, writer}
use svckit.Pgcluster.Connect.{Dial, has_healthy_nodes}
use svckit.Pgcluster.Connect.Laws.{IsSound}
use svckit.Pgcluster.Health.{
  Checkup, HealthCheckError, check_node_health, health_check, perform_health_checks,
  is_retryable_error, mentions, ping_sql_db, ping_failed, ping_answered, writer_healthy, second,
}
use svckit.Pgcluster.Health.Laws.{
  check_node_health-IsSound, check_node_health_deadlock, check_node_health_recovers,
}
use svckit.Pgcluster.Health.Cluster.{health_check-writer}
use svckit.Pgcluster.Examples.{node_w, node_r, settings, pair}

-- A database that is refused once and then answers.
abbrev refused_once : Dial
refused_once = record {
  opens = λ i. if i == 0 then err (codes "connection refused") else ok 9;
  draws = λ i. 17;
  ping = none;
  now = 100;
}

abbrev lost : DatabaseNode
lost = record node_w { sql_db = none; health = health_failed; last_error = some (codes "gone") }

-- A check at a time, whose ping fails on a wrong password, and a later one that would succeed.
abbrev denied : Checkup
denied = record {
  now = 20 * second;
  ping = some (codes "password authentication failed");
  took = 3;
  dial = refused_once;
}

abbrev fine : Checkup
fine = record { now = 40 * second; ping = none; took = 3; dial = refused_once }

check_node_health_deadlock_example :
    (n : DatabaseNode) × (check_node_health settings denied node_w ≡ done n)
    × (n.health ≡ health_failed)
    × (n.error_count ≡ 1)
    × (check_node_health settings fine n ≡ blocked)
unfolding is_retryable_error svckit.Pgcluster.Health.contains svckit.Base.Text.contains
    svckit.Base.Text.to_lower
check_node_health_deadlock_example =
    check_node_health_deadlock settings denied fine node_w 7
      (codes "password authentication failed") refl refl refl refl (omega arith)

abbrev degraded : DatabaseNode
degraded = record node_w { health = health_degraded; last_error = some (codes "timeout") }

degraded-IsSound : IsSound degraded
degraded-IsSound = (λ h. refl, λ h. absurd (cc))

degraded_recovers :
    check_node_health settings fine degraded
    ≡ done (record degraded {
      last_check = 40 * second;
      response_time = 3;
      health = health_healthy;
      last_error = none;
    })
degraded_recovers =
    check_node_health_recovers settings fine degraded refl refl degraded-IsSound refl (omega arith)

check_node_health-IsSound_example : IsSound (record degraded {
  last_check = 40 * second;
  response_time = 3;
  health = health_healthy;
  last_error = none;
})
check_node_health-IsSound_example =
    check_node_health-IsSound settings fine degraded _ degraded-IsSound degraded_recovers

checked_nodes : List DatabaseNode
checked_nodes =
    record node_w { last_check = 40 * second; response_time = 3 }
    ∷ record node_r { last_check = 40 * second; response_time = 3 }
    ∷ []

health_check-writer_example :
    (◌≡◌ {A = Option HealthCheckError} none none)
    ↔ ((db : ℕ) × ((writer 5 (record pair { nodes = checked_nodes })).1 ≡ ok (some db)))
unfolding health_check perform_health_checks check_node_health ping_answered has_healthy_nodes
    writer_healthy is_circuit_open checked_nodes
health_check-writer_example =
    health_check-writer 5 (λ i. fine) pair checked_nodes none
      ((λ _. refl, λ _. refl), ((λ _. refl, λ _. refl), tt)) refl refl
