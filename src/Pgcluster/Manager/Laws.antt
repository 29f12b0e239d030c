-- ===== src/Pgcluster/Manager/Laws.antt =====
-- What `NewClusterManager` of pgcluster/manager.go promises of the manager that it returns.
use svckit.Base.{
  ℕ, suc, ◌<◌, ◌^◌, ◌≡◌, refl, ap, sym, subst, ◌∙◌, Bool, true, false, List, [], ◌∷◌, Option, none,
  some, Result, ok, All, get_elem?, length, map, Bool-cases, inl, inr, arith,
}
use svckit.Base.Run.{done, >>=-eq-done, done-injective}
use svckit.Base.Text.{Text}
use svckit.Pgcluster.Node.{
  DatabaseNode, ClusterConfig, ClusterManager, is_healthy, NodeRole, role_writer, role_reader,
  role_unknown,
}
use svckit.Pgcluster.Config.{ConfigError, set_defaults, validate}
use svckit.Pgcluster.Connect.{
  Dial, initialize_nodes, has_healthy_nodes, cluster_nodes, reader_nodes, with_writer,
}
use svckit.Pgcluster.Connect.Laws.{IsSound, initialize_nodes_lem}
use svckit.Pgcluster.Routing.{
  Balance, random, priority, least_connections, round_robin, can_read, reader, get_healthy_readers,
  balance_of, index_after, is_circuit_open, next_index,
}
use svckit.Pgcluster.Routing.Reads.{Serves, reader-Serves}
use svckit.Pgcluster.Connect.Laws.{identity}
use svckit.Pgcluster.Manager.{new_cluster_manager, start, started, fresh_manager}

ok-injective {ℓ κ} :
    {E : Type ℓ} {A : Type κ} {a b : A} → ◌≡◌ {A = Result E A} (ok a) (ok b) → a ≡ b
ok-injective h = cc

started-ok :
    (c : ClusterConfig) (o : Option (List DatabaseNode)) (cm : ClusterManager)
    → started c o ≡ ok cm
    → (ns : List DatabaseNode) × (o ≡ some ns) × (fresh_manager c ns ≡ cm)
unfolding started
started-ok c none cm h = absurd (cc)
started-ok c (some ns) cm h = (ns, refl, ok-injective h)

start-done :
    (c : ClusterConfig) (dials : ℕ → Dial) (v : Option ConfigError) (cm : ClusterManager)
    → start c dials v ≡ done (ok cm)
    → (v ≡ none)
      × ((ns : List DatabaseNode) × (initialize_nodes c dials ≡ done (some ns))
          × (fresh_manager c ns ≡ cm))
unfolding start
start-done c dials (some e) cm h = absurd (cc)
start-done c dials none cm h =
    let (o, e, rest) = >>=-eq-done (initialize_nodes c dials) _ h in
    let (ns, q, same) = started-ok c o cm (done-injective rest) in (refl, (ns, e ∙ ap done q, same))

is_known : NodeRole → Bool
is_known role_unknown = false
is_known role_writer = true
is_known role_reader = true

readers_known : (i : ℕ) (urls : List Text) → All (λ n. is_known n.role ≡ true) (reader_nodes i urls)
unfolding reader_nodes is_known
readers_known i [] = tt
readers_known i (url ∷ urls) = (refl, readers_known (suc i) urls)

with_writer_known :
    (url : Text) (readers : List DatabaseNode)
    → All (λ n. is_known n.role ≡ true) readers
    → All (λ n. is_known n.role ≡ true) (with_writer url readers)
unfolding with_writer is_known
with_writer_known [] readers h = h
with_writer_known (b ∷ url) readers h = (refl, h)

cluster_known : (c : ClusterConfig) → All (λ n. is_known n.role ≡ true) (cluster_nodes c)
unfolding cluster_nodes
cluster_known c = with_writer_known c.writer_url _ (readers_known 0 c.reader_urls)

role_of : List (Text × Text × NodeRole) → NodeRole
role_of [] = role_unknown
role_of (x ∷ xs) = x.2

rest_of : List (Text × Text × NodeRole) → List (Text × Text × NodeRole)
rest_of [] = []
rest_of (x ∷ xs) = xs

same_roles :
    (ns ms : List DatabaseNode)
    → map identity ns ≡ map identity ms
    → All (λ n. is_known n.role ≡ true) ms
    → All (λ n. is_known n.role ≡ true) ns
unfolding role_of rest_of
same_roles [] ms e h = tt
same_roles (n ∷ ns) [] e h = absurd (cc)
same_roles (n ∷ ns) (m ∷ ms) e h =
    (ap (λ l. is_known (role_of l)) e ∙ h.0, same_roles ns ms (ap rest_of e) h.1)

-- A list with a healthy node, all of them sound and of a known role, has a node that can read.
has_reader :
    (ns : List DatabaseNode)
    → All IsSound ns
    → All (λ n. is_known n.role ≡ true) ns
    → has_healthy_nodes ns ≡ true
    → (k : ℕ) × (n : DatabaseNode) × (get_elem? ns k ≡ some n) × (can_read n ≡ true)
unfolding has_healthy_nodes is_known
has_reader [] s r h = absurd (cc)
has_reader (n ∷ ns) s r h = elim (Bool-cases (is_healthy n.health)) [
  | inl e ↦ let pool = s.0.0 e in (0, n, refl, ground arith)
  | inr e ↦ let (k, m, g, c) = has_reader ns s.1 r.1 (ground arith) in (suc k, m, g, c)
]

fresh_open :
    (now : ℕ) (c : ClusterConfig) (ns : List DatabaseNode)
    → (is_circuit_open now (fresh_manager c ns)).1 ≡ false
unfolding is_circuit_open
fresh_open now c ns = refl

first_turn : (b : Balance) → index_after b 0 < 2 ^ 63
unfolding next_index
first_turn random = omega arith
first_turn priority = omega arith
first_turn least_connections = omega arith
first_turn round_robin = omega arith

-- A manager that is returned has the configuration with its defaults, which is valid, sound nodes of
-- which one is healthy, and a closed breaker, so that its first `Reader` serves from one of them.
pub new_cluster_manager-Serves :
    (config : ClusterConfig) (dials : ℕ → Dial) (cm : ClusterManager) (now later draw : ℕ)
    → new_cluster_manager config dials ≡ done (ok cm)
    → draw < length (get_healthy_readers cm.nodes)
    → (cm.config ≡ set_defaults config)
      × (validate cm.config ≡ none)
      × All IsSound cm.nodes
      × Serves cm (reader now later draw cm)
unfolding new_cluster_manager
new_cluster_manager-Serves config dials cm now later draw h d =
    let c = set_defaults config in
    let (valid, (ns, e, same)) = start-done c dials (validate c) cm h in
    let (sound, healthy, ids) = initialize_nodes_lem c dials ns e in
    let (k, n, g, able) =
      has_reader ns sound (same_roles ns (cluster_nodes c) ids (cluster_known c)) healthy in
    let config_same = ap (λ m. m.config) (sym same) in
    let nodes_same = ap (λ m. m.nodes) same in
    (
      config_same,
      ap validate config_same ∙ valid,
      subst (All IsSound) nodes_same sound,
      reader-Serves now later draw k cm n
          (subst (λ m. (is_circuit_open now m).1 ≡ false) same (fresh_open now c ns))
          (ap (λ l. get_elem? l k) (sym nodes_same) ∙ g) able
          (subst
            (λ m. index_after (balance_of m.config.read_balance_strategy) m.read_index < 2 ^ 63)
            same (first_turn (balance_of c.read_balance_strategy)))
          d,
    )
