-- ===== src/Amqpcluster/Connect.antt =====
-- Connecting the nodes, their health check, and closing, in amqpcluster/adapter.go. What a node's
-- broker does is given by its index. A function that locks a node's mutex takes what its caller holds.
use svckit.Base.{
  ℕ, suc, ◌*◌, ◌-◌, ltb, ◌==◌, Bool, true, false, not, List, [], ◌∷◌, ◌++◌, map, Option, none, some,
  if◌then◌else◌, Result, ok, err,
}
use svckit.Base.Int.{pos, ltb_ℤ, sub_ℕ}
use svckit.Base.Run.{Run, done, blocked, ◌>>=◌}
use svckit.Base.Text.{Text, codes, itoa}
use svckit.Pgcluster.Urls.{or_else}
use svckit.Pgcluster.Config.{nonzero_or, second}
use svckit.Amqpcluster.Node.{
  NodeState, node_healthy, node_degraded, node_failed, Node, ClusterConfig, ClusterAdapter,
}

-- What `connectToNode` meets: the connection or an error, and the same for its two channels.
pub record Dialled : Type 0 where
  pub conn : Result Text ℕ
  pub publish_ch : Result Text ℕ
  pub subscribe_ch : Result Text ℕ
  pub now : ℕ

abbrev pub no_channel : Text → Node → Node × Option Text
no_channel e node = (record node { state = node_failed; last_error = some e }, some e)

abbrev pub with_channels : ℕ → ℕ → Result Text ℕ → Result Text ℕ → Node → Node × Option Text
with_channels now c (err e) subscribe node = no_channel e node
with_channels now c (ok p) (err e) node = no_channel e node
with_channels now c (ok p) (ok s) node = (
  record node {
    conn = some (c, false);
    publish_ch = some p;
    subscribe_ch = some s;
    state = node_healthy;
    last_error = none;
    last_check = now;
  },
  none,
)

abbrev pub dialled : Dialled → Result Text ℕ → Node → Node × Option Text
dialled d (err e) node = (
  record node {
    state = node_failed;
    last_error = some e;
    last_check = d.now;
    error_count = suc node.error_count;
  },
  some e,
)
dialled d (ok c) node = with_channels d.now c d.publish_ch d.subscribe_ch node

abbrev pub still_open : Option (ℕ × Bool) → Bool
still_open none = false
still_open (some (c, is_closed)) = not is_closed

-- The old connection is closed first.
abbrev pub shut : Option (ℕ × Bool) → Option (ℕ × Bool)
shut none = none
shut (some (c, is_closed)) = some (c, true)

unfoldable pub connect_to_node : Bool → Dialled → Node → Run (Node × Option Text)
connect_to_node held d node =
    if held then blocked else done (dialled d d.conn (record node { conn = shut node.conn }))

abbrev pub new_node : ℕ → ℕ → Text → Node
new_node i now url = record {
  url = url;
  name = codes "node-" ++ itoa i;
  conn = none;
  publish_ch = none;
  subscribe_ch = none;
  state = node_failed;
  last_error = none;
  last_check = now;
  publish_count = 0;
  subscribe_count = 0;
  error_count = 0;
}

-- The loops that build the nodes and connect them: the nodes, how many connected, the last error.
unfoldable pub connect_from :
    (ℕ → Dialled) → (ℕ → ℕ) → ℕ → List Text → ℕ × Option Text → Run (List Node × ℕ × Option Text)
unfolding connect_to_node itoa
connect_from dials clock i [] (healthy, last) = done ([], healthy, last)
connect_from dials clock i (url ∷ urls) (healthy, last) = do
  r ← connect_to_node false (dials i) (new_node i (clock i) url)
  rest ←
      connect_from dials clock (suc i) urls
        (elim r.1 [ none ↦ (suc healthy, last) | some e ↦ (healthy, some e) ])
  done (r.0 ∷ rest.0, rest.1, rest.2)

unfoldable pub with_defaults : ClusterConfig → ClusterConfig
with_defaults c = record c {
  health_check_interval = nonzero_or c.health_check_interval (30 * second);
  retry_attempts = nonzero_or c.retry_attempts 3;
  circuit_breaker_threshold = nonzero_or c.circuit_breaker_threshold 5;
  load_balance_strategy = or_else c.load_balance_strategy (codes "round_robin");
}

pub data AdapterError : Type 0 where
  node_url_required : AdapterError
  not_connected : Option Text → AdapterError

unfoldable pub adapter_from :
    ClusterConfig → (ℕ → Dialled) → (ℕ → ℕ) → List Text → Run (Result AdapterError ClusterAdapter)
unfolding connect_from with_defaults
adapter_from c dials clock [] = done (err node_url_required)
adapter_from c dials clock (url ∷ urls) = do
  r ← connect_from dials clock 0 (url ∷ urls) (0, none)
  done (
      if r.1 == 0
      then err (not_connected r.2)
      else ok (record { config = with_defaults c; nodes = r.0; node_index = 0 }))

-- `NewClusterAdapter(config)`
unfoldable pub new_cluster_adapter :
    ClusterConfig → (ℕ → Dialled) → (ℕ → ℕ) → Run (Result AdapterError ClusterAdapter)
unfolding adapter_from
new_cluster_adapter c dials clock = adapter_from c dials clock c.nodes

-- What a health check meets: the clock at its start and at its end, a new channel, and the dialling.
pub record Checkup : Type 0 where
  pub now : ℕ
  pub later : ℕ
  pub channel : Result Text ℕ
  pub dial : Dialled

abbrev pub healed : NodeState → NodeState
healed node_failed = node_healthy
healed s = s

abbrev pub recreated : Result Text ℕ → Node → Node
recreated (err e) node = record node { state = node_failed }
recreated (ok ch) node = record node { publish_ch = some ch; state = healed node.state }

abbrev pub with_channel : Result Text ℕ → Option ℕ → Node → Node
with_channel r none node = recreated r node
with_channel r (some ch) node = node

-- Less than one error per minute since the last check, which is the start of this one.
abbrev pub is_quiet : Checkup → Node → Bool
is_quiet x node = ltb (node.error_count * (60 * second)) (x.later - node.last_check)

abbrev pub upgraded : Checkup → NodeState → Node → Node
upgraded x node_degraded node =
    if is_quiet x node then record node { state = node_healthy } else node
upgraded x _ node = node

abbrev pub judged : Checkup → Node → Node
judged x node = upgraded x node.state node

-- `checkNodeHealth(node)`, which holds the mutex of the node throughout.
unfoldable pub check_node_health : Checkup → Node → Run Node
unfolding connect_to_node
check_node_health x node =
    let checked = record node { last_check = x.now } in
    if ltb_ℤ (sub_ℕ x.now node.last_check) (pos (10 * second))
    then done node
    else if still_open node.conn
    then done (judged x (with_channel x.channel node.publish_ch checked))
    else (do r ← connect_to_node true x.dial checked; done r.0)

pub record NodeStats : Type 0 where
  pub url : Text
  pub state : NodeState
  pub publish_count : ℕ
  pub subscribe_count : ℕ
  pub error_count : ℕ
  pub last_error : Option Text
  pub last_check : ℕ

-- `GetNodeStats()`: a map by the names, which differ.
unfoldable pub get_node_stats : ClusterAdapter → List (Text × NodeStats)
get_node_stats ca =
    map
      (λ n. (
        n.name,
        record {
          url = n.url;
          state = n.state;
          publish_count = n.publish_count;
          subscribe_count = n.subscribe_count;
          error_count = n.error_count;
          last_error = n.last_error;
          last_check = n.last_check;
        },
      ))
      ca.nodes

pub data Part : Type 0 where
  publish_part subscribe_part connection_part : Part

abbrev pub close_part : Option Text → Text → Part → List (Text × Part × Text)
close_part none name p = []
close_part (some e) name p = (name, p, e) ∷ []

abbrev pub close_channel : (ℕ → Option Text) → Option ℕ → Text → Part → List (Text × Part × Text)
close_channel closes none name p = []
close_channel closes (some ch) name p = close_part (closes ch) name p

abbrev pub close_conn : (ℕ → Option Text) → Option (ℕ × Bool) → Text → List (Text × Part × Text)
close_conn closes none name = []
close_conn closes (some (c, true)) name = []
close_conn closes (some (c, false)) name = close_part (closes c) name connection_part

-- `Close()`: the errors that it joins; `channels` and `conns` are what closing a handle comes to.
unfoldable pub close : (channels conns : ℕ → Option Text) → List Node → List (Text × Part × Text)
close channels conns [] = []
close channels conns (n ∷ ns) =
    close_channel channels n.publish_ch n.name publish_part
    ++ (close_channel channels n.subscribe_ch n.name subscribe_part
        ++ (close_conn conns n.conn n.name ++ close channels conns ns))
