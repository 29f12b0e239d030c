-- ===== src/Pgcluster/Manager.antt =====
-- `NewClusterManager` and `Close` of pgcluster/manager.go.
pub mod Laws
use svckit.Base.{ℕ, false, List, [], ◌∷◌, Option, none, some, Result, ok, err}
use svckit.Base.Run.{Run, done, ◌>>=◌}
use svckit.Base.Text.{Text}
use svckit.Pgcluster.Node.{DatabaseNode, ClusterConfig, ClusterManager}
use svckit.Pgcluster.Config.{ConfigError, set_defaults, validate}
use svckit.Pgcluster.Connect.{Dial, initialize_nodes}

pub data ManagerError : Type 0 where
  invalid_configuration : ConfigError → ManagerError
  no_nodes : ManagerError

abbrev pub fresh_manager : ClusterConfig → List DatabaseNode → ClusterManager
fresh_manager c ns = record {
  config = c;
  nodes = ns;
  read_index = 0;
  circuit_open = false;
  circuit_open_time = 0;
}

unfoldable pub started :
    ClusterConfig → Option (List DatabaseNode) → Result ManagerError ClusterManager
started c none = err no_nodes
started c (some ns) = ok (fresh_manager c ns)

unfoldable pub start :
    ClusterConfig → (ℕ → Dial) → Option ConfigError → Run (Result ManagerError ClusterManager)
unfolding started initialize_nodes
start c dials (some e) = done (err (invalid_configuration e))
start c dials none = do r ← initialize_nodes c dials; done (started c r)

-- `NewClusterManager(config)`, up to the start of its background tasks; node `i` meets `dials i`.
unfoldable pub new_cluster_manager :
    ClusterConfig → (ℕ → Dial) → Run (Result ManagerError ClusterManager)
unfolding start set_defaults validate
new_cluster_manager config dials = let c = set_defaults config in start c dials (validate c)

-- The closing of the nodes in `Close`, where `close` is the error of closing a pool: the names and
-- errors of those that failed.
unfoldable pub close_nodes : (ℕ → Option Text) → List DatabaseNode → List (Text × Text)
close_nodes close [] = []
close_nodes close (n ∷ ns) =
    let rest = close_nodes close ns in
    elim n.sql_db [
      | none ↦ rest
      | some db ↦ elim (close db) [ none ↦ rest | some e ↦ (n.name, e) ∷ rest ]
    ]
