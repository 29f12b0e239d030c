-- ===== src/Pgcluster/Examples.antt =====
-- Tests of the model of package pgcluster, and its theorems at concrete inputs.
mod Nodes
mod Roles
mod Settings
use svckit.Base.{ℕ, suc, ◌/◌, ◌<◌, ◌≡◌, refl, false, [], ◌∷◌, some, err, arith, length}
use svckit.Base.Int.{pos}
use svckit.Base.Text.{codes}
use svckit.Pgcluster.Node.{
  DatabaseNode, ClusterConfig, ClusterManager, role_writer, role_reader, health_failed,
  strategy_query,
}
use svckit.Pgcluster.Routing.{
  is_circuit_open, writer, reader, db, get_healthy_readers, readers_from, exchange_sort, sort_fuel,
  sweep, circuit_breaker_open, round_robin_index, next_index, balance_of,
}
use svckit.Pgcluster.Routing.Laws.{writer_miss_blocks}
use svckit.Pgcluster.Routing.Reads.{Serves, reader-Serves}
use svckit.Pgcluster.Routing.Turns.{turn, round_robin_fair}
use svckit.Pgcluster.Connect.{fresh_node}
use svckit.Pgcluster.Config.{empty_config}
use svckit.Pgcluster.Manager.{fresh_manager}

-- A writer, a reader, and a configuration.
abbrev pub node_w : DatabaseNode
node_w = record (fresh_node (codes "postgres://a@10.0.0.1:5432/x") (codes "w") role_writer 0) {
  sql_db = some 7;
}

abbrev pub node_r : DatabaseNode
node_r = record (fresh_node (codes "postgres://a@10.0.0.2:5432/x") (codes "r") role_reader 1) {
  sql_db = some 8;
}

abbrev pub settings : ClusterConfig
settings = record (empty_config (codes "svc")) {
  writer_url = node_w.url;
  reader_urls = node_r.url ∷ [];
  writer_detection_strategy = strategy_query;
  retry_attempts = pos 3;
  retry_backoff_base = pos 1000;
  retry_backoff_max = pos 30000;
  circuit_breaker_timeout = pos 60;
  read_balance_strategy = codes "round_robin";
}

abbrev pub pair : ClusterManager
pair = fresh_manager settings (node_w ∷ node_r ∷ [])

pair_readers : length (get_healthy_readers pair.nodes) ≡ 2
unfolding get_healthy_readers readers_from exchange_sort sort_fuel sweep
pair_readers = refl

reader-Serves_example : Serves pair (reader 5 6 0 pair)
unfolding is_circuit_open balance_of next_index get_healthy_readers readers_from exchange_sort
    sort_fuel sweep
reader-Serves_example = reader-Serves 5 6 0 1 pair node_r refl refl refl (omega arith) (omega arith)

-- Both nodes are down.
abbrev node_down : DatabaseNode
node_down = record node_w { health = health_failed }

abbrev dead : ClusterManager
dead = record pair { nodes = node_down ∷ [] }

abbrev writerless : ClusterManager
writerless = record pair { nodes = node_down ∷ node_r ∷ [] }

writer_miss_blocks_example :
    let cm' = (writer 5 writerless).0 in
    db (some false) 40 41 0 cm' ≡ (cm', err circuit_breaker_open)
unfolding is_circuit_open
writer_miss_blocks_example =
    writer_miss_blocks 5 40 41 0 writerless (some false) refl (refl, (refl, tt)) (omega arith)

round_robin_fair_example :
    (j : ℕ) × (j < 3)
    × (round_robin_index (turn (suc j) 10) 3 ≡ some 1)
    × ((k : ℕ) → k < 3 → round_robin_index (turn (suc k) 10) 3 ≡ some 1 → k ≡ j)
round_robin_fair_example = round_robin_fair 10 3 1 (omega arith) (omega arith)
