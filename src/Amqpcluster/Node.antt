-- ===== src/Amqpcluster/Node.antt =====
-- The data of amqpcluster/adapter.go and the selection of a node. Connections and channels are
-- handles, `none` where they are nil; the mutexes are left out where nothing is locked twice.
use svckit.Base.{
  ℕ, suc, ◌%◌, Bool, true, false, List, [], ◌∷◌, Option, none, some, if◌then◌else◌, length,
  get_elem?,
}
use svckit.Base.Int.{ℤ}
use svckit.Base.Run.{Run, done, panicked}
use svckit.Base.Text.{Text, codes, text_eq}
use svckit.Pgcluster.Routing.{next_index, round_robin_index}
use svckit.Rediscluster.Execute.{fnv32a, offset32}

pub data NodeState : Type 0 where
  node_healthy node_degraded node_failed : NodeState

-- `conn` with whether it is closed.
pub record Node : Type 0 where
  pub url : Text
  pub name : Text
  pub conn : Option (ℕ × Bool)
  pub publish_ch : Option ℕ
  pub subscribe_ch : Option ℕ
  pub state : NodeState
  pub last_error : Option Text
  pub last_check : ℕ
  pub publish_count : ℕ
  pub subscribe_count : ℕ
  pub error_count : ℕ

pub record ClusterConfig : Type 0 where
  pub nodes : List Text
  pub service_name : Text
  pub health_check_interval : ℤ
  pub retry_attempts : ℤ
  pub circuit_breaker_threshold : ℤ
  pub load_balance_strategy : Text

pub record ClusterAdapter : Type 0 where
  pub config : ClusterConfig
  pub nodes : List Node
  pub node_index : ℕ

abbrev pub is_healthy : NodeState → Bool
is_healthy node_healthy = true
is_healthy _ = false

-- `getHealthyNodes`, as the indices of the nodes.
unfoldable pub get_healthy_nodes : ℕ → List Node → List ℕ
get_healthy_nodes i [] = []
get_healthy_nodes i (n ∷ ns) =
    let rest = get_healthy_nodes (suc i) ns in if is_healthy n.state then i ∷ rest else rest

unfoldable pub uses_hash : ClusterConfig → Text → Bool
unfolding text_eq
uses_hash c [] = false
uses_hash c (b ∷ key) = text_eq c.load_balance_strategy (codes "hash")

-- `healthy[i]`, which panics out of range.
abbrev pub chosen : ClusterAdapter → Option ℕ → Run (ClusterAdapter × Option ℕ)
chosen ca none = panicked
chosen ca (some k) = done (ca, some k)

abbrev pub at_index : List ℕ → Option ℕ → Option ℕ
at_index healthy none = none
at_index healthy (some i) = get_elem? healthy i

-- The `switch` of `selectNodeForPublish`, for the healthy nodes; `draw` is what rand.Intn draws from.
unfoldable pub select_among : Text → ℕ → ClusterAdapter → List ℕ → Run (ClusterAdapter × Option ℕ)
unfolding text_eq uses_hash fnv32a next_index round_robin_index
select_among key draw ca [] = done (ca, none)
select_among key draw ca (k ∷ healthy) =
    let n = length (k ∷ healthy) in
    let turned = record ca { node_index = next_index ca.node_index } in
    if text_eq ca.config.load_balance_strategy (codes "random")
    then chosen ca (get_elem? (k ∷ healthy) (draw % n))
    else if uses_hash ca.config key
    then chosen ca (get_elem? (k ∷ healthy) (fnv32a offset32 key % n))
    else chosen turned (at_index (k ∷ healthy) (round_robin_index turned.node_index n))

-- `selectNodeForPublish(routingKey)`
unfoldable pub select_node_for_publish : Text → ℕ → ClusterAdapter → Run (ClusterAdapter × Option ℕ)
unfolding select_among get_healthy_nodes
select_node_for_publish key draw ca = select_among key draw ca (get_healthy_nodes 0 ca.nodes)
