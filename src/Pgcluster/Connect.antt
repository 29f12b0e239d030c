-- ===== src/Pgcluster/Connect.antt =====
-- Connecting to nodes, in pgcluster/manager.go: the retry of `connectToNode` with its backoff, and
-- `initializeNodes`. `sql.Open`, the ping and the random draw are a script of what they give.
pub mod Backoff
pub mod Laws
use svckit.Base.{
  ℕ, zero, suc, ◌+◌, ◌-◌, ◌/◌, ◌%◌, ◌^◌, ltb, ◌==◌, Bool, true, false, ◌||◌, List, [], ◌∷◌, ◌++◌,
  Option, none, some, if◌then◌else◌, Result, ok, err,
}
use svckit.Base.Int.{ℤ, pos, negsuc, ltb_ℤ, wrap64, scale}
use svckit.Base.Run.{Run, done, blocked, panicked, ◌>>=◌}
use svckit.Base.Text.{Text, codes, itoa}
use svckit.Pgcluster.Node.{
  NodeRole, role_writer, role_reader, health_healthy, health_failed, DatabaseNode, ClusterConfig,
  is_healthy,
}

-- `1 << uint(attempt)`: an int, whose top bit is the sign, and which a longer shift empties.
unfoldable pub shifted : ℕ → ℤ
unfolding wrap64
shifted attempt = if ltb attempt 64 then wrap64 (pos (2 ^ attempt)) else pos 0

-- The backoff before its jitter.
unfoldable pub capped_backoff : ℤ → ℤ → ℕ → ℤ
unfolding wrap64 shifted
capped_backoff base limit attempt =
    let backoff = wrap64 (scale (shifted attempt) base) in
    if ltb_ℤ limit backoff then limit else backoff

-- `rand.Int63n(n)` panics unless `0 < n`, and gives a number below `n`; `draw` is any number.
add_jitter : ℤ → ℕ → Run ℤ
add_jitter (negsuc n) draw = panicked
add_jitter (pos n) draw = if n / 4 == 0 then panicked else done (pos (n + draw % (n / 4)))

-- `calculateBackoff(attempt)`
unfoldable pub calculate_backoff : ℤ → ℤ → ℕ → ℕ → Run ℤ
unfolding add_jitter capped_backoff
calculate_backoff base limit attempt draw = add_jitter (capped_backoff base limit attempt) draw

abbrev pub is_ok {ℓ κ} : {E : Type ℓ} {A : Type κ} → Result E A → Bool
is_ok (ok a) = true
is_ok (err e) = false

-- What one call of `connectToNode` meets: the result of `sql.Open` at each attempt, a draw for each
-- backoff, the ping, and the clock.
pub record Dial : Type 0 where
  pub opens : ℕ → Result Text ℕ
  pub draws : ℕ → ℕ
  pub ping : Option Text
  pub now : ℕ

-- What `sql.Open` and the waits give when the loop ends.
abbrev pub Opened : Type 0
Opened = Option (Result Text ℕ) × List ℤ

-- One turn of the loop of `connectToNode`: it ends on a success and on the last attempt, and waits
-- otherwise.
unfoldable pub open_turn : Result Text ℕ → Bool → Run ℤ → Run Opened → Run Opened
open_turn opened is_last backoff next =
    let retried : Run Opened = (do wait ← backoff; r ← next; done (r.0, wait ∷ r.1)) in
    if is_ok opened || is_last then done (some opened, []) else retried

-- The loop of `connectToNode` from `attempt`, with the attempts that are left; `last` is the result
-- of the attempt before, if there was one. The waits are kept.
unfoldable pub open_loop : ClusterConfig → Dial → ℕ → ℕ → Option (Result Text ℕ) → Run Opened
unfolding open_turn calculate_backoff
open_loop c d zero attempt last = done (last, [])
open_loop c d (suc n) attempt last =
    open_turn (d.opens attempt) (n == 0)
      (calculate_backoff c.retry_backoff_base c.retry_backoff_max attempt (d.draws attempt))
      (open_loop c d n (suc attempt) (some (d.opens attempt)))

-- `attempt < RetryAttempts` counts this many attempts.
abbrev pub attempts : ℤ → ℕ
attempts (pos n) = n
attempts (negsuc n) = 0

-- The error of `connectToNode`, on the text of what failed.
pub data ConnectError : Type 0 where
  open_failed ping_failed : Text → ConnectError

unfoldable pub ping_node : Dial → ℕ → DatabaseNode → DatabaseNode × Option ConnectError
ping_node d db node = elim d.ping [
  | some e ↦ (record node { health = health_failed; last_error = some e }, some (ping_failed e))
  | none ↦ (
    record node {
      sql_db = some db;
      health = health_healthy;
      last_error = none;
      last_check = d.now;
    },
    none,
  )
]

-- After the loop; with no attempt made, `sqlDB` is nil and its first use panics.
unfoldable pub connected :
    Dial → DatabaseNode → Option (Result Text ℕ) → Run (DatabaseNode × Option ConnectError)
unfolding ping_node
connected d node none = panicked
connected d node (some (ok db)) = done (ping_node d db node)
connected d node (some (err e)) = done (
  record node {
    health = health_failed;
    last_error = some e;
    last_check = d.now;
    error_count = suc node.error_count;
  },
  some (open_failed e),
)

-- `connectToNode`, which locks the node's mutex: `held` says whether the caller holds it already.
unfoldable pub connect_to_node :
    Bool → ClusterConfig → Dial → DatabaseNode → Run (DatabaseNode × Option ConnectError)
unfolding connected
connect_to_node held c d node =
    if held
    then blocked
    else do r ← open_loop c d (attempts c.retry_attempts) 0 none; connected d node r.0

abbrev pub fresh_node : Text → Text → NodeRole → ℕ → DatabaseNode
fresh_node url name role priority = record {
  url = url;
  name = name;
  role = role;
  health = health_healthy;
  priority = pos priority;
  sql_db = none;
  last_check = 0;
  last_error = none;
  read_count = 0;
  write_count = 0;
  error_count = 0;
  response_time = 0;
}

-- Connects the nodes in order, each with its own script.
unfoldable pub connect_all : ClusterConfig → List (Dial × DatabaseNode) → Run (List DatabaseNode)
connect_all c [] = done []
connect_all c ((d, node) ∷ rest) = do
  r ← connect_to_node false c d node
  ns ← connect_all c rest
  done (r.0 ∷ ns)

-- The nodes of `initializeNodes` before they connect; reader `i` of the list is number `i + 1`.
unfoldable pub reader_nodes : ℕ → List Text → List DatabaseNode
reader_nodes i [] = []
reader_nodes i (url ∷ urls) =
    fresh_node url (codes "reader-" ++ itoa (suc i)) role_reader (suc i) ∷ reader_nodes (suc i) urls

unfoldable pub with_writer : Text → List DatabaseNode → List DatabaseNode
with_writer [] readers = readers
with_writer (b ∷ url) readers =
    fresh_node (b ∷ url) (codes "writer-primary") role_writer 0 ∷ readers

unfoldable pub cluster_nodes : ClusterConfig → List DatabaseNode
unfolding with_writer reader_nodes
cluster_nodes c = with_writer c.writer_url (reader_nodes 0 c.reader_urls)

unfoldable pub has_healthy_nodes : List DatabaseNode → Bool
has_healthy_nodes [] = false
has_healthy_nodes (n ∷ ns) = is_healthy n.health || has_healthy_nodes ns

unfoldable pub count_healthy_nodes : List DatabaseNode → ℕ
count_healthy_nodes [] = 0
count_healthy_nodes (n ∷ ns) = (if is_healthy n.health then 1 else 0) + count_healthy_nodes ns

abbrev zip_dials : (ℕ → Dial) → ℕ → List DatabaseNode → List (Dial × DatabaseNode)
zip_dials dials i [] = []
zip_dials dials i (n ∷ ns) = (dials i, n) ∷ zip_dials dials (suc i) ns

-- `initializeNodes`, where node `i` meets `dials i`: its nodes, or `none` for the error that none is
-- healthy.
unfoldable pub initialize_nodes : ClusterConfig → (ℕ → Dial) → Run (Option (List DatabaseNode))
unfolding connect_all cluster_nodes has_healthy_nodes
initialize_nodes c dials = do
  ns ← connect_all c (zip_dials dials 0 (cluster_nodes c))
  done (if has_healthy_nodes ns then some ns else none)
