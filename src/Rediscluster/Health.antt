-- ===== src/Rediscluster/Health.antt =====
-- The health checks of rediscluster/health.go and the connection that they retry. A function that
-- locks a node's mutex takes what its caller holds already.
pub mod Laws
pub mod Primary
use svckit.Base.{
  ℕ, suc, ◌*◌, ◌==◌, Bool, true, false, ◌&&◌, List, [], ◌∷◌, Option, none, some, if◌then◌else◌,
  modify, get_elem?,
}
use svckit.Base.Int.{pos, ltb_ℤ, sub_ℕ}
use svckit.Base.Run.{Run, done, blocked, ◌>>=◌}
use svckit.Base.Text.{Text}
use svckit.Rediscluster.Node.{
  NodeState, node_healthy, node_degraded, node_failed, RedisNode, ClusterAdapter, is_healthy,
  is_usable,
}

-- What `connectToNode` meets: an error of the URL, or else the new client and its ping.
pub record Link : Type 0 where
  pub parse_error : Option Text
  pub new_client : ℕ
  pub ping_error : Option Text
  pub now : ℕ
  pub latency : ℕ

unfoldable pub link_up : Link → RedisNode → RedisNode × Option Text
link_up l node = elim l.parse_error [
  | some e ↦ (record node { state = node_failed; last_error = some e; last_check = l.now }, some e)
  | none ↦ elim l.ping_error [
    | some e ↦ (
      record node {
        state = node_failed;
        last_error = some e;
        last_check = l.now;
        error_count = suc node.error_count;
      },
      some e,
    )
    | none ↦ (
      record node {
        client = some l.new_client;
        state = node_healthy;
        last_error = none;
        last_check = l.now;
        last_latency = l.latency;
      },
      none,
    )
  ]
]

-- `connectToNode(node)`
unfoldable pub connect_to_node : Bool → Link → RedisNode → Run (RedisNode × Option Text)
unfolding link_up
connect_to_node held l node = if held then blocked else done (link_up l node)

-- A loop over the nodes that locks each one and stops at the first that passes; `held` is the node
-- whose mutex the caller holds.
unfoldable pub scan : (RedisNode → Bool) → ℕ → ℕ → List RedisNode → Run (Option RedisNode)
scan test held i [] = done none
scan test held i (n ∷ ns) =
    let rest = scan test held (suc i) ns in
    if i == held then blocked else (if test n then done (some n) else rest)

abbrev pub has_client : ℕ → Option ℕ → Bool
has_client p none = false
has_client p (some c) = c == p

-- The first loop of `updatePrimaryClient`.
unfoldable pub kept_primary : ℕ → List RedisNode → Option ℕ → Run (Option RedisNode)
unfolding scan
kept_primary held nodes none = done none
kept_primary held nodes (some p) =
    scan (λ n. has_client p n.client && is_healthy n.state) held 0 nodes

abbrev pub client_of : Option RedisNode → Option ℕ
client_of none = none
client_of (some n) = n.client

unfoldable pub choose_primary : ℕ → ClusterAdapter → Option RedisNode → Run ClusterAdapter
unfolding scan
choose_primary held ca (some n) = done ca
choose_primary held ca none = do
  found ← scan is_usable held 0 ca.nodes
  done (record ca { primary_client = client_of found })

-- `updatePrimaryClient()`
unfoldable pub update_primary_client : ℕ → ClusterAdapter → Run ClusterAdapter
unfolding kept_primary choose_primary
update_primary_client held ca = do
  kept ← kept_primary held ca.nodes ca.primary_client
  choose_primary held ca kept

-- What one check meets: the clock at its start and after the ping, the ping and its latency.
pub record Checkup : Type 0 where
  pub now : ℕ
  pub later : ℕ
  pub ping : Option Text
  pub latency : ℕ
  pub link : Link

abbrev pub second : ℕ
second = 1000000000

abbrev pub put_node : ℕ → RedisNode → ClusterAdapter → ClusterAdapter
put_node k node ca = record ca { nodes = modify k (λ _. node) ca.nodes }

abbrev pub recovered : RedisNode → RedisNode
recovered node = record node { state = node_healthy; error_count = 0 }

-- The end of `checkNodeHealth`, by the state of the node that answered.
unfoldable pub after_ping :
    ℕ → Checkup → RedisNode → NodeState → ClusterAdapter → Run ClusterAdapter
unfolding update_primary_client
after_ping k x node node_healthy ca = done (put_node k node ca)
after_ping k x node node_degraded ca =
    if ltb_ℤ ca.config.circuit_breaker_timeout (sub_ℕ x.later node.last_check)
    then done (put_node k (recovered node) ca)
    else done (put_node k node ca)
after_ping k x node node_failed ca = update_primary_client k (put_node k (recovered node) ca)

reconnected : ℕ → Checkup → RedisNode → ClusterAdapter → Run ClusterAdapter
unfolding connect_to_node
reconnected k x node ca = do r ← connect_to_node true x.link node; done (put_node k r.0 ca)

unfoldable pub ping_client :
    ℕ → Checkup → RedisNode → Option Text → ClusterAdapter → Run ClusterAdapter
unfolding after_ping reconnected
ping_client k x node none ca =
    after_ping k x (record node { last_latency = x.latency }) node.state ca
ping_client k x node (some e) ca =
    reconnected k x
      (record node {
        error_count = suc node.error_count;
        last_error = some e;
        state = if is_healthy node.state then node_failed else node.state;
        client = none;
      })
      ca

unfoldable pub check_client :
    ℕ → Checkup → RedisNode → Option ℕ → ClusterAdapter → Run ClusterAdapter
unfolding ping_client reconnected
check_client k x node none ca = reconnected k x node ca
check_client k x node (some c) ca = ping_client k x node x.ping ca

-- `checkNodeHealth(node)` for node `k`, whose mutex it holds throughout.
unfoldable pub check_node_health : ℕ → Checkup → RedisNode → ClusterAdapter → Run ClusterAdapter
unfolding check_client
check_node_health k x node ca =
    if ltb_ℤ (sub_ℕ x.now node.last_check) (pos (10 * second))
    then done ca
    else check_client k x (record node { last_check = x.now }) node.client ca

-- Checks of node `k`, one after the other.
unfoldable pub check_often : ℕ → List Checkup → ClusterAdapter → Run ClusterAdapter
unfolding check_node_health
check_often k [] ca = done ca
check_often k (x ∷ xs) ca = elim (get_elem? ca.nodes k) [
  | none ↦ done ca
  | some node ↦ do ca' ← check_node_health k x node ca; check_often k xs ca'
]
