-- ===== src/Rediscluster/Examples.antt =====
-- Tests of the model of package rediscluster, and its theorems at concrete inputs.
mod Setup
use svckit.Base.{ℕ, zero, suc, ◌*◌, ◌≤◌, ◌≡◌, refl, false, [], ◌∷◌, none, some, arith}
use svckit.Base.Int.{pos, wrap64}
use svckit.Base.Run.{done}
use svckit.Base.Text.{codes, text_eq}
use svckit.Pgcluster.Connect.{calculate_backoff, capped_backoff, shifted}
use svckit.Pgcluster.Routing.{next_index, round_robin_index}
use svckit.Rediscluster.Node.{
  RedisNode, ClusterConfig, ClusterAdapter, node_healthy, node_degraded, node_failed,
}
use svckit.Rediscluster.Execute.{
  Answer, succeeded, failed, Scene, Executed, finished, retries_exhausted, execute_with_retry,
  execute_loop, attempt_on, conclude, after_backoff, member, select_node, select_among,
  get_healthy_nodes, uses_hash, fnv32a, check_node_degradation,
}
use svckit.Rediscluster.Execute.Laws.{Fresh, execute_with_retry-Fresh}
use svckit.Rediscluster.Health.{
  Link, Checkup, check_often, check_node_health, check_client, ping_client, after_ping,
  update_primary_client, kept_primary, choose_primary, scan, second,
}
use svckit.Rediscluster.Health.Laws.{DegradedAt, check_often-DegradedAt}
use svckit.Rediscluster.Health.Primary.{IsPrimary, update_primary_client-IsPrimary}

abbrev node : ℕ → RedisNode
node c = record {
  url = [];
  name = [];
  client = some c;
  state = node_healthy;
  last_error = none;
  last_check = 0;
  last_latency = 0;
  ops_count = 0;
  error_count = 0;
}

abbrev config : ClusterConfig
config = record {
  node_urls = codes "redis://a:6379/0" ∷ codes "redis://b:6379/0" ∷ [];
  service_name = codes "billing";
  password = [];
  max_pool_size = pos 100;
  min_idle_conns = pos 10;
  max_idle_time = pos (30 * second);
  conn_max_lifetime = pos (300 * second);
  health_check_interval = pos (30 * second);
  health_check_timeout = pos (5 * second);
  max_retries = pos 3;
  retry_backoff_base = pos 1000;
  retry_backoff_max = pos 30000;
  circuit_breaker_threshold = pos 5;
  circuit_breaker_timeout = pos (60 * second);
  load_balance_strategy = codes "round_robin";
}

abbrev adapter : ClusterAdapter
adapter = record {
  config = config;
  nodes = node 7 ∷ node 8 ∷ [];
  node_index = 0;
  primary_client = some 7;
}

abbrev answers_of : ℕ → Answer
answers_of zero = failed (codes "timeout")
answers_of (suc i) = succeeded

abbrev scene : Scene
scene = record { answers = answers_of; draws = λ i. 0; jitters = λ i. 0; context_done = λ i. false }

abbrev failed_over : Executed
failed_over = (
  record adapter {
    nodes = record (node 7) { ops_count = 1 } ∷ record (node 8) { error_count = 1 } ∷ [];
    node_index = 2;
  },
  finished,
  1 ∷ 0 ∷ [],
)

failed_over_test : execute_with_retry [] scene adapter ≡ done failed_over
unfolding execute_with_retry execute_loop attempt_on conclude after_backoff member select_node
    select_among get_healthy_nodes uses_hash check_node_degradation calculate_backoff capped_backoff
    shifted wrap64 next_index round_robin_index text_eq
failed_over_test = refl

execute_with_retry-Fresh_example : Fresh [] (1 ∷ 0 ∷ []) × (2 ≤ 4)
execute_with_retry-Fresh_example =
    execute_with_retry-Fresh [] scene adapter failed_over failed_over_test

-- With the strategy `hash` every retry selects the node that has failed, and is skipped.
abbrev hashing : ClusterAdapter
hashing = record adapter { config = record config { load_balance_strategy = codes "hash" } }

hash_test :
    execute_with_retry (codes "k") scene hashing
    ≡ done (
      record hashing { nodes = record (node 7) { error_count = 1 } ∷ node 8 ∷ [] },
      retries_exhausted,
      0 ∷ [],
    )
unfolding execute_with_retry execute_loop attempt_on conclude after_backoff member select_node
    select_among get_healthy_nodes uses_hash fnv32a check_node_degradation calculate_backoff
    capped_backoff shifted wrap64 text_eq
hash_test = refl

abbrev link : Link
link = record { parse_error = none; new_client = 9; ping_error = none; now = 0; latency = 1 }

abbrev checkup : Checkup
checkup = record { now = 20 * second; later = 21 * second; ping = none; latency = 1; link = link }

abbrev worn : ClusterAdapter
worn = record adapter { nodes = record (node 7) { state = node_degraded } ∷ [] }

check_often-DegradedAt_example : DegradedAt 0 (record worn {
  nodes =
      record (node 7) { state = node_degraded; last_check = 20 * second; last_latency = 1 } ∷ [];
})
unfolding check_often check_node_health check_client ping_client after_ping
check_often-DegradedAt_example =
    check_often-DegradedAt 0 (checkup ∷ []) worn _
      (record (node 7) { state = node_degraded }, refl, refl) (omega arith, tt) refl

update_primary_client-IsPrimary_example :
    IsPrimary (record (node 7) { state = node_failed } ∷ node 8 ∷ []) (some 8)
    × ((record (node 7) { state = node_failed } ∷ node 8 ∷ [])
        ≡ (record (node 7) { state = node_failed } ∷ node 8 ∷ []))
unfolding update_primary_client kept_primary choose_primary scan
update_primary_client-IsPrimary_example =
    update_primary_client-IsPrimary 5
      (record adapter { nodes = record (node 7) { state = node_failed } ∷ node 8 ∷ [] })
      (record adapter {
        nodes = record (node 7) { state = node_failed } ∷ node 8 ∷ [];
        primary_client = some 8;
      })
      refl
