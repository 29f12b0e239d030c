-- ===== src/Pgcluster/Detect.antt =====
-- Which node is the writer, in pgcluster/writer_detection.go.
pub mod Laws
pub mod Named
pub mod Url
use svckit.Base.{ℕ, suc, Bool, not, ◌&&◌, List, [], ◌∷◌, Option, none, some, if◌then◌else◌, ◌==◌}
use svckit.Base.Int.{pos, eqb_ℤ}
use svckit.Base.Text.{Text, codes, text_eq, has_prefix, trim_prefix, cut, before, is_some}
use svckit.Pgcluster.Node.{
  role_writer, role_reader, DatabaseNode, strategy_dns, strategy_query, strategy_config,
  strategy_probe, ClusterConfig, is_healthy, is_writer, is_reader,
}

-- What a node that is found to be the writer, or not to be it, becomes.
unfoldable pub promote : DatabaseNode → DatabaseNode
promote n = if not (is_writer n.role) then record n { role = role_writer; priority = pos 0 } else n

unfoldable pub demote : DatabaseNode → DatabaseNode
demote n =
    if not (is_reader n.role)
    then record n {
      role = role_reader;
      priority = if eqb_ℤ n.priority (pos 0) then pos 1 else n.priority;
    }
    else n

unfoldable pub host_port : Text → Option Text
unfolding cut
host_port url = elim (cut (codes "@") url) [ none ↦ none | some (a, b) ↦ some b ]

-- `extractIPFromURL(url)`; `[]` where the source returns an empty string.
unfoldable pub extract_ip_from_url : Text → Text
unfolding has_prefix trim_prefix host_port before
extract_ip_from_url url =
    if not (has_prefix url (codes "postgres://"))
    then []
    else (elim (host_port (trim_prefix url (codes "postgres://"))) [
      | none ↦ []
      | some rest ↦ before (codes ":") (before (codes "/") rest)
    ])

-- `updateWriterByIP`, on one node.
unfoldable pub update_by_ip : Text → DatabaseNode → DatabaseNode
unfolding extract_ip_from_url promote demote
update_by_ip writer_ip n = elim (extract_ip_from_url n.url) [
  | [] ↦ n
  | c ∷ ip ↦ if text_eq (c ∷ ip) writer_ip then promote n else demote n
]

-- The nodes that a query or a probe is sent to.
abbrev pub is_asked : DatabaseNode → Bool
is_asked n = is_healthy n.health && is_some n.sql_db

-- `detectWriterByQuery`, on one node: `none` is an error of the query.
unfoldable pub update_by_query : Option Bool → DatabaseNode → DatabaseNode
unfolding promote demote
update_by_query none n = n
update_by_query (some is_primary) n =
    if is_asked n then (if is_primary then promote n else demote n) else n

-- `detectWriterByProbe`, on one node: whether a read-write transaction could be started.
unfoldable pub update_by_probe : Bool → DatabaseNode → DatabaseNode
unfolding promote
update_by_probe begun n = if is_asked n && begun then promote n else n

-- What one detection meets: the addresses of the writer's DNS name, `none` for an error, and the
-- answer of each node to the query and to the probe.
pub record Survey : Type 0 where
  pub ips : Option (List Text)
  pub queries : ℕ → Option Bool
  pub probes : ℕ → Bool

-- A loop that updates each element by its index.
unfoldable pub map_indexed {ℓ} : {A : Type ℓ} → (ℕ → A → A) → List A → List A
map_indexed f [] = []
map_indexed f (x ∷ xs) = f 0 x ∷ map_indexed (λ i. f (suc i)) xs

unfoldable pub detect_by_dns : ClusterConfig → Survey → List DatabaseNode → List DatabaseNode
unfolding update_by_ip map_indexed
detect_by_dns c s nodes = elim c.writer_dns_name [
  | [] ↦ nodes
  | _ ∷ _ ↦ elim s.ips [
    | none ↦ nodes
    | some [] ↦ nodes
    | some (ip ∷ _) ↦ map_indexed (λ _. update_by_ip ip) nodes
  ]
]

-- `detectWriter`, when the goroutines that it starts have all ended.
unfoldable pub detect_writer : ClusterConfig → Survey → List DatabaseNode → List DatabaseNode
unfolding detect_by_dns update_by_query update_by_probe map_indexed
detect_writer c s nodes = elim c.writer_detection_strategy [
  | strategy_dns ↦ detect_by_dns c s nodes
  | strategy_query ↦ map_indexed (λ i. update_by_query (s.queries i)) nodes
  | strategy_config ↦ nodes
  | strategy_probe ↦ map_indexed (λ i. update_by_probe (s.probes i)) nodes
]

unfoldable pub after_first : Option ℕ → Option ℕ
after_first none = none
after_first (some k) = some (suc k)

-- The index of the first node of the name.
unfoldable pub find_node : Text → List DatabaseNode → Option ℕ
unfolding text_eq after_first
find_node name [] = none
find_node name (n ∷ ns) =
    let rest = after_first (find_node name ns) in if text_eq n.name name then some 0 else rest

abbrev pub make_writer : DatabaseNode → DatabaseNode
make_writer n = record n { role = role_writer; priority = pos 0 }

abbrev pub depose : DatabaseNode → DatabaseNode
depose n =
    if is_writer n.role
    then record n {
      role = role_reader;
      priority = if eqb_ℤ n.priority (pos 0) then pos 1 else n.priority;
    }
    else n

-- The loop of `SetWriterNode`, whose target is node `k`.
unfoldable pub set_role : ℕ → ℕ → DatabaseNode → DatabaseNode
set_role k i n = if i == k then make_writer n else depose n

-- `SetWriterNode(nodeName)`: `none` for the error that there is no such node.
unfoldable pub set_writer_node : Text → List DatabaseNode → Option (List DatabaseNode)
unfolding find_node set_role map_indexed
set_writer_node name nodes = elim (find_node name nodes) [
  | none ↦ none
  | some k ↦ some (map_indexed (set_role k) nodes)
]
