-- ===== src/Amqpcluster/Publish.antt =====
-- Publishing with failover, and the declarations on every healthy node, in amqpcluster/adapter.go.
-- What a channel answers is given for each node by its index; a call is an entry of a log.
pub mod Laws
pub mod Reach
pub mod Selected
use svckit.Base.{
  ℕ, zero, suc, Bool, true, false, List, [], ◌∷◌, ◌++◌, Option, none, some, if◌then◌else◌,
  get_elem?, modify,
}
use svckit.Base.Run.{Run, done, ◌>>=◌}
use svckit.Base.Text.{Text}
use svckit.Amqpcluster.Node.{
  Node, node_degraded, ClusterAdapter, is_healthy, get_healthy_nodes, select_node_for_publish,
}

abbrev pub on_node : ℕ → (Node → Node) → ClusterAdapter → ClusterAdapter
on_node k f ca = record ca { nodes = modify k f ca.nodes }

-- A failed publishing: the error is counted and a healthy node degraded.
unfoldable pub count_error : Node → Node
count_error n = record n {
  error_count = suc n.error_count;
  state = if is_healthy n.state then node_degraded else n.state;
}

abbrev pub count_publish : Node → Node
count_publish n = record n { publish_count = suc n.publish_count }

-- The adapter, whether the message was published, and the nodes whose channel was called.
abbrev pub Published : Type 0
Published = ClusterAdapter × Bool × List ℕ

-- The call of the channel, by its answer.
abbrev pub answered : ℕ → ClusterAdapter → Option Text → Published
answered k ca none = (ca, true, k ∷ [])
answered k ca (some e) = (on_node k count_error ca, false, k ∷ [])

abbrev pub on_channel : (ℕ → Option Text) → ℕ → ClusterAdapter → Option ℕ → Published
on_channel answers k ca none = (ca, false, [])
on_channel answers k ca (some ch) = answered k ca (answers k)

abbrev pub channel_of : Option Node → Option ℕ
channel_of none = none
channel_of (some n) = n.publish_ch

-- `publishToNode` for node `k`
unfoldable pub publish_to_node : (ℕ → Option Text) → ℕ → ClusterAdapter → Published
publish_to_node answers k ca = on_channel answers k ca (channel_of (get_elem? ca.nodes k))

abbrev pub counted_or : ℕ → Published → (ClusterAdapter → Published) → Published
counted_or k (ca, true, log) next = (on_node k count_publish ca, true, log)
counted_or k (ca, false, log) next = let (ca', r, more) = next ca in (ca', r, log ++ more)

-- The loop over the nodes that were healthy when it began.
unfoldable pub publish_to_any : (ℕ → Option Text) → List ℕ → ClusterAdapter → Published
unfolding publish_to_node
publish_to_any answers [] ca = (ca, false, [])
publish_to_any answers (k ∷ ks) ca =
    counted_or k (publish_to_node answers k ca) (publish_to_any answers ks)

unfoldable pub fail_over : (ℕ → Option Text) → ClusterAdapter → Published
unfolding publish_to_any get_healthy_nodes
fail_over answers ca = publish_to_any answers (get_healthy_nodes 0 ca.nodes) ca

-- `Publish`: the selected node first, then every healthy one.
unfoldable pub publish_first : (ℕ → Option Text) → ClusterAdapter × Option ℕ → Published
unfolding publish_to_node fail_over
publish_first answers (ca, none) = fail_over answers ca
publish_first answers (ca, some k) = counted_or k (publish_to_node answers k ca) (fail_over answers)

unfoldable pub publish : (ℕ → Option Text) → Text → ℕ → ClusterAdapter → Run Published
unfolding select_node_for_publish publish_first
publish answers key draw ca = do
  selected ← select_node_for_publish key draw ca
  done (publish_first answers selected)

-- What a declaration or a binding on every healthy node comes to: how many nodes it succeeded on and
-- the last error.
pub data Declared : Type 0 where
  declared_on : ℕ → Declared
  no_healthy_nodes : Declared
  on_no_node : Option Text → Declared

abbrev pub tally : Option Text → ℕ × Option Text → ℕ × Option Text
tally none (count, last) = (suc count, last)
tally (some e) (count, last) = (count, some e)

abbrev pub declare_with : (ℕ → Option Text) → ℕ → Option ℕ → ℕ × Option Text → ℕ × Option Text
declare_with answers k none acc = acc
declare_with answers k (some ch) acc = tally (answers k) acc

-- The loop, with the channel that it takes of a node.
unfoldable pub declare_from :
    (Node → Option ℕ) → (ℕ → Option Text) → List Node → List ℕ → ℕ × Option Text → ℕ × Option Text
declare_from channel answers nodes [] acc = acc
declare_from channel answers nodes (k ∷ ks) acc =
    declare_from channel answers nodes ks
      (declare_with answers k (elim (get_elem? nodes k) [ none ↦ none | some n ↦ channel n ]) acc)

abbrev pub outcome : ℕ × Option Text → Declared
outcome (zero, last) = on_no_node last
outcome (suc count, last) = declared_on (suc count)

unfoldable pub declare_on : (Node → Option ℕ) → (ℕ → Option Text) → List Node → List ℕ → Declared
unfolding declare_from
declare_on channel answers nodes [] = no_healthy_nodes
declare_on channel answers nodes (k ∷ ks) =
    outcome (declare_from channel answers nodes (k ∷ ks) (0, none))

-- `DeclareExchange`, and `DeclareQueue` and `BindQueue`, which use the other channel.
unfoldable pub declare_exchange : (ℕ → Option Text) → ClusterAdapter → Declared
unfolding declare_on get_healthy_nodes
declare_exchange answers ca =
    declare_on (λ n. n.publish_ch) answers ca.nodes (get_healthy_nodes 0 ca.nodes)

unfoldable pub declare_queue : (ℕ → Option Text) → ClusterAdapter → Declared
unfolding declare_on get_healthy_nodes
declare_queue answers ca =
    declare_on (λ n. n.subscribe_ch) answers ca.nodes (get_healthy_nodes 0 ca.nodes)
