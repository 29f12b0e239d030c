-- ===== src/Rediscluster/Adapter.antt =====
-- Building and closing a cluster, in rediscluster/adapter.go. The clock and the links
-- are given for each node by its index; `closes` is what closing a client comes to. The logger and
-- the goroutine of the health checks are left out.
pub mod Laws
pub mod Ready
use svckit.Base.{
  ℕ, suc, ◌+◌, ◌==◌, false, List, [], ◌∷◌, ◌++◌, Option, none, some, if◌then◌else◌, get_elem?,
  Result, ok, err,
}
use svckit.Base.Int.{ℤ, pos, negsuc}
use svckit.Base.Run.{Run, done, ◌>>=◌}
use svckit.Base.Text.{Text, codes, text_eq, itoa}
use svckit.Rediscluster.Node.{node_failed, RedisNode, ClusterConfig, ClusterAdapter, is_usable}
use svckit.Rediscluster.Health.{Link, connect_to_node, client_of}

-- Node `i` before it is connected.
unfoldable pub new_node : ℕ → ℕ → Text → RedisNode
unfolding itoa
new_node i now url = record {
  url = url;
  name = codes "node-" ++ itoa i;
  client = none;
  state = node_failed;
  last_error = none;
  last_check = now;
  last_latency = 0;
  ops_count = 0;
  error_count = 0;
}

unfoldable pub new_nodes : (ℕ → ℕ) → ℕ → List Text → List RedisNode
unfolding new_node
new_nodes clock i [] = []
new_nodes clock i (url ∷ urls) = new_node i (clock i) url ∷ new_nodes clock (suc i) urls

-- The nodes after `connectToAllNodes`, how many of them connected, and the last error.
abbrev pub Connected : Type 0
Connected = List RedisNode × ℕ × Option Text

abbrev pub with_node : RedisNode → Connected → Connected
with_node n (ns, healthy, last) = (n ∷ ns, healthy, last)

abbrev pub counted : Option Text → ℕ → ℕ
counted none healthy = suc healthy
counted (some e) healthy = healthy

abbrev pub last_of : Option Text → Option Text → Option Text
last_of none last = last
last_of (some e) last = some e

-- The loop of `connectToAllNodes` from node `i`.
unfoldable pub connect_from : (ℕ → Link) → ℕ → ℕ → Option Text → List RedisNode → Run Connected
unfolding connect_to_node
connect_from links i healthy last [] = done ([], healthy, last)
connect_from links i healthy last (n ∷ ns) = do
  r ← connect_to_node false (links i) n
  rest ← connect_from links (suc i) (counted r.1 healthy) (last_of r.1 last) ns
  done (with_node r.0 rest)

pub data AdapterError : Type 0 where
  node_url_required : AdapterError
  not_connected : Option Text → AdapterError

-- `connectToAllNodes()`
unfoldable pub connect_to_all_nodes :
    (ℕ → Link) → List RedisNode → Run (List RedisNode × Option AdapterError)
unfolding connect_from
connect_to_all_nodes links ns = do
  c ← connect_from links 0 0 none ns
  done (c.0, (if c.1 == 0 then some (not_connected c.2) else none))

-- `getFirstHealthyNode()`
unfoldable pub get_first_healthy_node : List RedisNode → Option RedisNode
get_first_healthy_node [] = none
get_first_healthy_node (n ∷ ns) =
    let rest = get_first_healthy_node ns in if is_usable n then some n else rest

abbrev pub adapter_of : ClusterConfig → List RedisNode → ClusterAdapter
adapter_of c ns = record {
  config = c;
  nodes = ns;
  node_index = 0;
  primary_client = client_of (get_first_healthy_node ns);
}

abbrev pub built :
    ClusterConfig → List RedisNode × Option AdapterError → Result AdapterError ClusterAdapter
built c (ns, some e) = err e
built c (ns, none) = ok (adapter_of c ns)

-- `NewClusterAdapter(config)`, for the URLs of the configuration.
unfoldable pub adapter_from :
    ClusterConfig → (ℕ → ℕ) → (ℕ → Link) → List Text → Run (Result AdapterError ClusterAdapter)
unfolding connect_to_all_nodes new_nodes get_first_healthy_node
adapter_from c clock links [] = done (err node_url_required)
adapter_from c clock links (url ∷ urls) = do
  r ← connect_to_all_nodes links (new_nodes clock 0 (url ∷ urls))
  done (built c r)

unfoldable pub new_cluster_adapter :
    ClusterConfig → (ℕ → ℕ) → (ℕ → Link) → Run (Result AdapterError ClusterAdapter)
unfolding adapter_from
new_cluster_adapter c clock links = adapter_from c clock links c.node_urls

-- `MarkNodeFailed(nodeURL)`: the first node of that URL.
unfoldable pub mark_failed : Text → List RedisNode → List RedisNode
unfolding text_eq
mark_failed url [] = []
mark_failed url (n ∷ ns) =
    let rest = mark_failed url ns in
    if text_eq n.url url then record n { state = node_failed } ∷ ns else n ∷ rest

unfoldable pub mark_node_failed : Text → ClusterAdapter → ClusterAdapter
unfolding mark_failed
mark_node_failed url ca = record ca { nodes = mark_failed url ca.nodes }

-- `GetNodeByIndex(index)`
unfoldable pub get_node_by_index : ℤ → ClusterAdapter → Option RedisNode
get_node_by_index (pos i) ca = get_elem? ca.nodes i
get_node_by_index (negsuc i) ca = none

abbrev pub close_error : Text → Option Text → List (Text × Text)
close_error name none = []
close_error name (some e) = (name, e) ∷ []

abbrev pub close_node : (ℕ → Option Text) → RedisNode → Option ℕ → List (Text × Text)
close_node closes n none = []
close_node closes n (some c) = close_error n.name (closes c)

-- `Close()`: the errors that it joins, each with the name of its node.
unfoldable pub close : (ℕ → Option Text) → List RedisNode → List (Text × Text)
close closes [] = []
close closes (n ∷ ns) = close_node closes n n.client ++ close closes ns
