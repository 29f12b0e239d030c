-- ===== src/Rediscluster/Execute.antt =====
-- Selecting a node and executing an operation with retries, in rediscluster/adapter.go. The backoff
-- and the round-robin counter are computed as in pgcluster/manager.go, whose code is the same.
pub mod Laws
use Prim.Native.Nat.{bit_xor}
use svckit.Base.{
  ℕ, zero, suc, ◌*◌, ◌%◌, ◌^◌, ◌==◌, Bool, false, ◌&&◌, ◌||◌, List, [], ◌∷◌, Option, none, some,
  if◌then◌else◌, length, get_elem?, modify,
}
use svckit.Base.Int.{ℤ, pos, negsuc, leb_ℤ}
use svckit.Base.Run.{Run, done, panicked, ◌>>=◌}
use svckit.Base.Text.{Text, codes, text_eq}
use svckit.Pgcluster.Connect.{calculate_backoff}
use svckit.Pgcluster.Routing.{next_index, round_robin_index}
use svckit.Rediscluster.Node.{
  node_degraded, RedisNode, ClusterConfig, ClusterAdapter, is_healthy, is_usable,
}

-- `getHealthyNodes`, as the indices of the nodes.
unfoldable pub get_healthy_nodes : ℕ → List RedisNode → List ℕ
get_healthy_nodes i [] = []
get_healthy_nodes i (n ∷ ns) =
    let rest = get_healthy_nodes (suc i) ns in if is_usable n then i ∷ rest else rest

-- FNV-1a on 32 bits: `h.Write`, then `h.Sum32`.
unfoldable pub fnv32a : ℕ → Text → ℕ
fnv32a h [] = h
fnv32a h (b ∷ s) = fnv32a (bit_xor h b * 16777619 % 2 ^ 32) s

abbrev pub offset32 : ℕ
offset32 = 2166136261

-- `healthy[i]`, which panics out of range.
abbrev pub chosen : ClusterAdapter → Option ℕ → Run (ClusterAdapter × Option ℕ)
chosen ca none = panicked
chosen ca (some k) = done (ca, some k)

abbrev pub at_index : List ℕ → Option ℕ → Option ℕ
at_index healthy none = none
at_index healthy (some i) = get_elem? healthy i

unfoldable pub uses_hash : ClusterConfig → Text → Bool
unfolding text_eq
uses_hash c [] = false
uses_hash c (b ∷ key) = text_eq c.load_balance_strategy (codes "hash")

-- The `switch` of `selectNode`, for the healthy nodes; `draw` is what `rand.Intn` draws from.
unfoldable pub select_among : Text → ℕ → ClusterAdapter → List ℕ → Run (ClusterAdapter × Option ℕ)
unfolding text_eq uses_hash fnv32a next_index round_robin_index
select_among key draw ca [] = done (ca, none)
select_among key draw ca (k ∷ healthy) =
    let n = length (k ∷ healthy) in
    let turned = record ca { node_index = next_index ca.node_index } in
    if text_eq ca.config.load_balance_strategy (codes "random")
    then chosen ca (get_elem? (k ∷ healthy) (draw % n))
    else if uses_hash ca.config key
    then chosen ca (get_elem? (k ∷ healthy) (fnv32a offset32 key % n))
    else chosen turned (at_index (k ∷ healthy) (round_robin_index turned.node_index n))

-- `selectNode(key)`
unfoldable pub select_node : Text → ℕ → ClusterAdapter → Run (ClusterAdapter × Option ℕ)
unfolding select_among get_healthy_nodes
select_node key draw ca = select_among key draw ca (get_healthy_nodes 0 ca.nodes)

-- What the operation comes to on the node that attempt `i` selects.
pub data Answer : Type 0 where
  succeeded redis_nil : Answer
  failed : Text → Answer

-- What a call meets at attempt `i`.
pub record Scene : Type 0 where
  pub answers : ℕ → Answer
  pub draws : ℕ → ℕ
  pub jitters : ℕ → ℕ
  pub context_done : ℕ → Bool

-- How a call ends: without an error, on `redis.Nil`, or on an error of its own.
pub data Ended : Type 0 where
  finished missed no_healthy_nodes retries_exhausted context_error : Ended

-- The adapter after the call, how it ended, and the nodes that the operation was executed on.
abbrev pub Executed : Type 0
Executed = ClusterAdapter × Ended × List ℕ

abbrev pub executed_on : ℕ → Executed → Executed
executed_on k (ca, e, log) = (ca, e, k ∷ log)

abbrev pub on_node : ℕ → (RedisNode → RedisNode) → ClusterAdapter → ClusterAdapter
on_node k f ca = record ca { nodes = modify k f ca.nodes }

abbrev pub count_op : RedisNode → RedisNode
count_op n = record n { ops_count = suc n.ops_count }

-- The error is counted, then `checkNodeDegradation`.
unfoldable pub check_node_degradation : ℤ → RedisNode → RedisNode
check_node_degradation threshold n =
    let counted = record n { error_count = suc n.error_count } in
    if leb_ℤ threshold (pos counted.error_count) && is_healthy n.state
    then record counted { state = node_degraded }
    else counted

-- The `select` on the backoff and the context, of which `is_done` says that it ends first.
unfoldable pub after_backoff : Bool → Run ℤ → ClusterAdapter → Run Executed → Run Executed
after_backoff is_done backoff ca next = do
  wait ← backoff
  if is_done then done (ca, context_error, []) else next

-- What follows the execution on node `k`; `next` is the loop from the next attempt on.
unfoldable pub conclude :
    Scene → ℕ → Bool → ℕ → ClusterAdapter → Answer → (ClusterAdapter → Run Executed) → Run Executed
unfolding check_node_degradation after_backoff
conclude s i is_last k ca succeeded next = done (on_node k count_op ca, finished, k ∷ [])
conclude s i is_last k ca redis_nil next = done (ca, missed, k ∷ [])
conclude s i is_last k ca (failed e) next =
    let c = ca.config in
    let ca' = on_node k (check_node_degradation c.circuit_breaker_threshold) ca in
    do
      r ←
          (if is_last
            then next ca'
            else after_backoff (s.context_done i)
                (calculate_backoff c.retry_backoff_base c.retry_backoff_max i (s.jitters i)) ca'
                (next ca'))
      done (executed_on k r)

unfoldable pub member : ℕ → List ℕ → Bool
member k [] = false
member k (x ∷ xs) = k == x || member k xs

-- One turn of the loop of `ExecuteWithRetry`, with the nodes that were attempted.
unfoldable pub attempt_on :
    Scene
    → ℕ
    → Bool
    → List ℕ
    → ClusterAdapter × Option ℕ
    → (List ℕ → ClusterAdapter → Run Executed)
    → Run Executed
unfolding conclude member
attempt_on s i is_last attempted (ca, none) next = done (ca, no_healthy_nodes, [])
attempt_on s i is_last attempted (ca, some k) next =
    if member k attempted
    then next attempted ca
    else conclude s i is_last k ca (s.answers i) (next (k ∷ attempted))

-- The loop from attempt `i`, with the rounds that are left.
unfoldable pub execute_loop : Text → Scene → ℕ → ℕ → List ℕ → ClusterAdapter → Run Executed
unfolding attempt_on select_node
execute_loop key s zero i attempted ca = done (ca, retries_exhausted, [])
execute_loop key s (suc n) i attempted ca = do
  selected ← select_node key (s.draws i) ca
  attempt_on s i (n == 0) attempted selected (execute_loop key s n (suc i))

-- `attempt <= MaxRetries` counts this many rounds.
abbrev pub rounds : ℤ → ℕ
rounds (pos n) = suc n
rounds (negsuc n) = 0

-- `ExecuteWithRetry(ctx, fn, key)`, with an empty key where none is given.
unfoldable pub execute_with_retry : Text → Scene → ClusterAdapter → Run Executed
unfolding execute_loop
execute_with_retry key s ca = execute_loop key s (rounds ca.config.max_retries) 0 [] ca
