-- ===== src/Pgcluster/Examples/Roles.antt =====
-- Tests of detecting and naming the writer, and of starting a manager.
use svckit.Base.{
  ℕ, zero, suc, ◌<◌, ◌≡◌, refl, true, false, List, [], ◌∷◌, none, some, ◌==◌, ok, err, All, arith,
  get_elem?, if◌then◌else◌,
}
use svckit.Base.Int.{pos}
use svckit.Base.Text.{codes, text_eq}
use svckit.Pgcluster.Node.{
  DatabaseNode, ClusterConfig, ClusterManager, role_writer, role_reader, strategy_probe, is_healthy,
}
use svckit.Pgcluster.Routing.{
  is_circuit_open, writer, reader, get_healthy_readers, readers_from, exchange_sort, sort_fuel,
  no_healthy_writer,
}
use svckit.Pgcluster.Routing.Reads.{Serves}
use svckit.Pgcluster.Connect.{
  Dial, connect_to_node, open_loop, fresh_node, initialize_nodes, connect_all, cluster_nodes,
  has_healthy_nodes,
}
use svckit.Pgcluster.Connect.Laws.{IsSound}
use svckit.Pgcluster.Detect.{
  Survey, detect_writer, set_writer_node, find_node, set_role, map_indexed,
}
use svckit.Pgcluster.Detect.Laws.{detect_writer-writer}
use svckit.Pgcluster.Detect.Named.{set_writer_node-writer}
use svckit.Pgcluster.Config.{set_defaults, validate}
use svckit.Pgcluster.Manager.{fresh_manager, new_cluster_manager}
use svckit.Pgcluster.Manager.Laws.{new_cluster_manager-Serves}
use svckit.Pgcluster.Examples.{node_w, node_r, settings, pair}

-- The second node has become the primary.
abbrev failed_over : Survey
failed_over = record { ips = none; queries = λ i. some (i == 1); probes = λ i. i == 1 }

below : (j : ℕ) → j < 1 → some (j == 1) ≡ some false
below zero h = refl
below (suc j) h = absurd (omega arith)

detect_writer-writer_example :
    (writer 5 (record pair { nodes = detect_writer settings failed_over pair.nodes })).1
    ≡ ok (some 8)
unfolding is_circuit_open
detect_writer-writer_example =
    detect_writer-writer 5 1 pair failed_over node_r refl refl refl refl refl
      (λ j m l g a. below j l)

abbrev probing : ClusterManager
probing = record pair { config = record settings { writer_detection_strategy = strategy_probe } }

renamed : List DatabaseNode
renamed =
    record node_w { role = role_reader; priority = pos 1 }
    ∷ record node_r { role = role_writer; priority = pos 0 }
    ∷ []

set_writer_node-writer_example :
    (k : ℕ) × (n : DatabaseNode) × (get_elem? pair.nodes k ≡ some n)
    × (text_eq n.name (codes "r") ≡ true)
    × ((writer 5 (record pair { nodes = renamed })).1
        ≡ (if is_healthy n.health then ok n.sql_db else err no_healthy_writer))
unfolding is_circuit_open renamed set_writer_node find_node set_role map_indexed
set_writer_node-writer_example =
    set_writer_node-writer 5 pair (codes "r") renamed
      ((λ _. refl, λ _. refl), ((λ _. refl, λ _. refl), tt)) refl refl

abbrev answers : Dial
answers = record { opens = λ i. ok 9; draws = λ i. 0; ping = none; now = 100 }

abbrev alone : ClusterConfig
alone = record settings { reader_urls = [] }

abbrev alone_started : ClusterManager
alone_started = fresh_manager (set_defaults alone) (
    record (fresh_node alone.writer_url (codes "writer-primary") role_writer 0) {
      sql_db = some 9;
      last_check = 100;
    }
    ∷ [])

new_cluster_manager-Serves_example :
    (alone_started.config ≡ set_defaults alone)
    × (validate alone_started.config ≡ none)
    × All IsSound alone_started.nodes
    × Serves alone_started (reader 5 6 0 alone_started)
unfolding new_cluster_manager initialize_nodes connect_all connect_to_node open_loop
    has_healthy_nodes cluster_nodes get_healthy_readers exchange_sort sort_fuel readers_from
new_cluster_manager-Serves_example =
    new_cluster_manager-Serves alone (λ i. answers) alone_started 5 6 0 refl (omega arith)
