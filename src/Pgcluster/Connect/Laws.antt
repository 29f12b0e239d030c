-- ===== src/Pgcluster/Connect/Laws.antt =====
-- What connecting leaves behind, in pgcluster/manager.go.
use mathlib.Core.Option.{some-injective}
use svckit.Base.{
  ℕ, zero, suc, ◌<◌, ◌≡◌, refl, ap, ap₂, ◌∙◌, ◌==◌, Bool, true, false, if◌then◌else◌, arith, All,
  List, [], ◌∷◌, Option, none, some, Result, ok, err, map, subst, length,
}
use svckit.Base.Int.{ℤ}
use svckit.Base.Text.{Text, is_some}
use svckit.Base.Run.{done, ◌>>=◌, >>=-eq-done, done-injective}
use svckit.Pgcluster.Node.{NodeRole, DatabaseNode, ClusterConfig, is_healthy, health_healthy}
use svckit.Pgcluster.Connect.{
  Dial, ping_node, calculate_backoff, open_loop, open_turn, attempts, connected, ConnectError,
  connect_to_node, connect_all, initialize_nodes, has_healthy_nodes, zip_dials, cluster_nodes,
}

-- A node that is healthy has a pool.
abbrev pub HasPool : DatabaseNode → Type 0
HasPool n = is_healthy n.health ≡ true → is_some n.sql_db ≡ true

-- A node's health agrees with its pool and its last error.
abbrev pub IsSound : DatabaseNode → Type 0
IsSound n = HasPool n × (is_healthy n.health ≡ true → n.last_error ≡ none)

-- What a finished connection attempt says of the node `n` that it leaves, next to its error.
pub record Outcome (before n : DatabaseNode) (e : Option ConnectError) : Type 0 where
  pub sound : IsSound n
  pub agrees : is_some e ≡ (if is_healthy n.health then false else true)
  pub url : n.url ≡ before.url
  pub name : n.name ≡ before.name
  pub role : n.role ≡ before.role
  pub priority : n.priority ≡ before.priority
  pub reads : n.read_count ≡ before.read_count
  pub writes : n.write_count ≡ before.write_count

connected-Outcome :
    (d : Dial) (node : DatabaseNode) (o : Option (Result Text ℕ)) (n : DatabaseNode)
    (e : Option ConnectError)
    → connected d node o ≡ done (n, e)
    → Outcome node n e
unfolding connected
connected-Outcome d node none n e h = absurd (cc)
connected-Outcome d node (some (ok db)) n e h = ground arith
connected-Outcome d node (some (err x)) n e h = ground arith

-- A finished connection attempt reports no error exactly if it leaves the node healthy; a node left
-- healthy has a pool and no last error; and the node's identity, role, priority and counts of use are as before.
pub connect_to_node-Outcome :
    (c : ClusterConfig) (d : Dial) (node n : DatabaseNode) (e : Option ConnectError)
    → connect_to_node false c d node ≡ done (n, e)
    → Outcome node n e
unfolding connect_to_node
connect_to_node-Outcome c d node n e h =
    let (r, _, last) = >>=-eq-done (open_loop c d (attempts c.retry_attempts) 0 none) _ h in
    connected-Outcome d node r.0 n e last

-- From attempt `i` on, `k` attempts fail and are waited for, and the next one opens `db`.
abbrev pub Opens : ClusterConfig → Dial → ℕ → ℕ → ℕ → Type 0
Opens c d zero i db = d.opens i ≡ ok db
Opens c d (suc k) i db =
    ((e : Text) × (d.opens i ≡ err e))
    × ((w : ℤ) × (calculate_backoff c.retry_backoff_base c.retry_backoff_max i (d.draws i)
          ≡ done w))
    × Opens c d k (suc i) db

suc-zero : (n : ℕ) → (suc n == 0) ≡ false
suc-zero n = ground arith

open_loop-fails :
    (c : ClusterConfig) (d : Dial) (n i : ℕ) (last : Option (Result Text ℕ)) (e : Text) (w : ℤ)
    → d.opens i ≡ err e
    → calculate_backoff c.retry_backoff_base c.retry_backoff_max i (d.draws i) ≡ done w
    → open_loop c d (suc (suc n)) i last
      ≡ (do r ← open_loop c d (suc n) (suc i) (some (err e)); done (r.0, w ∷ r.1))
unfolding open_loop open_turn
open_loop-fails c d n i last e w h v =
    ap
      (λ b.
        open_turn (d.opens i) b
          (calculate_backoff c.retry_backoff_base c.retry_backoff_max i (d.draws i))
          (open_loop c d (suc n) (suc i) (some (d.opens i))))
      (suc-zero n)
    ∙ ap₂ (λ o b. open_turn o false b (open_loop c d (suc n) (suc i) (some o))) h v

open_loop-Opens :
    (c : ClusterConfig) (d : Dial) (n k i db : ℕ) (last : Option (Result Text ℕ))
    → k < n
    → Opens c d k i db
    → (waits : List ℤ) × (open_loop c d n i last ≡ done (some (ok db), waits)) × (length waits ≡ k)
unfolding open_loop open_turn
open_loop-Opens c d zero k i db last lt h = absurd (omega arith)
open_loop-Opens c d (suc n) zero i db last lt h = ([], rw h, refl)
open_loop-Opens c d (suc zero) (suc k) i db last lt h = absurd (omega arith)
open_loop-Opens c d (suc (suc n)) (suc k) i db last lt h =
    let (waits, e, len) =
      open_loop-Opens c d (suc n) k (suc i) db (some (err h.0.0)) (omega arith) h.2 in
    (
      h.1.0 ∷ waits,
      open_loop-fails c d n i last h.0.0 h.1.0 h.0.1 h.1.1
          ∙ ap (λ m. m >>= (λ r. done (r.0, h.1.0 ∷ r.1))) e,
      ap suc len,
    )

-- If fewer attempts than configured fail, each with a backoff that does not panic, and the next one
-- opens a database that answers the ping, then the node ends healthy on that database, without a
-- last error and with its last check at the clock's time.
pub connect_to_node-Opens :
    (c : ClusterConfig) (d : Dial) (node : DatabaseNode) (k db : ℕ)
    → k < attempts c.retry_attempts
    → Opens c d k 0 db
    → d.ping ≡ none
    → connect_to_node false c d node
      ≡ done (
        record node {
          sql_db = some db;
          health = health_healthy;
          last_error = none;
          last_check = d.now;
        },
        none,
      )
unfolding connect_to_node connected ping_node
connect_to_node-Opens c d node k db lt h up =
    let (waits, e, _) = open_loop-Opens c d (attempts c.retry_attempts) k 0 db none lt h in
    ap (λ m. m >>= (λ r. connected d node r.0)) e ∙ (rw up)

-- The connections keep the nodes in order, with what identifies them.
abbrev pub Identity : Type 0
Identity = Text × Text × NodeRole

abbrev pub identity : DatabaseNode → Identity
identity n = (n.url, n.name, n.role)

connect_all_lem :
    (c : ClusterConfig) (dials : ℕ → Dial) (i : ℕ) (nodes ns : List DatabaseNode)
    → connect_all c (zip_dials dials i nodes) ≡ done ns
    → All IsSound ns × (map identity ns ≡ map identity nodes)
unfolding connect_all
connect_all_lem c dials i [] ns h =
    subst (λ l. All IsSound l × (map identity l ≡ [])) (done-injective h) (tt, refl)
connect_all_lem c dials i (n ∷ nodes) ns h =
    let (r, e1, rest) = >>=-eq-done (connect_to_node false c (dials i) n) _ h in
    let (ns', e2, last) = >>=-eq-done (connect_all c (zip_dials dials (suc i) nodes)) _ rest in
    let out = connect_to_node-Outcome c (dials i) n r.0 r.1 e1 in
    let (sound, same) = connect_all_lem c dials (suc i) nodes ns' e2 in
    subst (λ l. All IsSound l × (map identity l ≡ map identity (n ∷ nodes))) (done-injective last)
      ((out.sound, sound), ap₂ (λ x xs. x ∷ xs) (λ t. (out.url t, out.name t, out.role t)) same)

some_if {ℓ} :
    {A : Type ℓ} {x y : A} (b : Bool) → (if b then some x else none) ≡ some y → (b ≡ true) × (x ≡ y)
some_if true h = (refl, some-injective _ _ h)
some_if false h = absurd (cc)

-- A start that succeeds gives the configured nodes in order, the writer first and then the readers,
-- with their names and roles; each is sound, so that a healthy one has a pool, and one is healthy.
pub initialize_nodes_lem :
    (c : ClusterConfig) (dials : ℕ → Dial) (ns : List DatabaseNode)
    → initialize_nodes c dials ≡ done (some ns)
    → All IsSound ns
      × (has_healthy_nodes ns ≡ true)
      × (map identity ns ≡ map identity (cluster_nodes c))
unfolding initialize_nodes
initialize_nodes_lem c dials ns h =
    let (ns', e, last) = >>=-eq-done (connect_all c (zip_dials dials 0 (cluster_nodes c))) _ h in
    let (sound, same) = connect_all_lem c dials 0 (cluster_nodes c) ns' e in
    let (healthy, eq) = some_if (has_healthy_nodes ns') (done-injective last) in
    subst
      (λ l.
        All IsSound l
        × (has_healthy_nodes l ≡ true)
        × (map identity l ≡ map identity (cluster_nodes c)))
      eq (sound, healthy, same)
