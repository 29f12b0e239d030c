-- ===== src/Pgcluster/Routing/Reads.antt =====
-- About `Reader` of pgcluster/manager.go and the strategies by which it asks for a node.
use mathlib.Core.List.{Mem, mem-cons, not-mem-nil}
use mathlib.Core.Logic.Or
use mathlib.Core.Option.{some-injective}
use native.Mathlib.Bridge.{le_prop}
use svckit.Base.{
  ℕ, ◌+◌, ◌^◌, ◌≤◌, ◌<◌, ◌≡◌, refl, sym, subst, Bool, true, false, List, [], ◌∷◌, Option, some,
  Result, ok, err, length, get_elem?, modify, All, arith,
}
use svckit.Base.Int.{◌≤ℤ◌, pos_part, neg_part}
use svckit.Pgcluster.Node.{DatabaseNode, ClusterManager}
use svckit.Pgcluster.Routing.{
  RouteError, no_healthy_writer, is_circuit_open, can_write, can_read, reader, NodeRef,
  get_healthy_readers, select_reader, balance_of, index_after, count_read, balance_reads, Balance,
  random, priority, least_connections, round_robin, priority_of,
}
use svckit.Pgcluster.Routing.Sort.{IsSorted}
use svckit.Pgcluster.Routing.Readers.{
  All-map, get_elem?-All, PointsAt, get_healthy_readers_lem, select_reader_total, Fewest,
  least_connected-Fewest,
}
use svckit.Pgcluster.Routing.Laws.{writer-none}

-- What the strategy promises of the reference that it selects from `l`.
abbrev BestOf : Balance → List NodeRef → NodeRef → Type 0
BestOf random l c = Unit
BestOf priority l c = All (λ x. c.node.priority ≤ℤ x.node.priority) l
BestOf least_connections l c = Fewest l c
BestOf round_robin l c = Unit

select_reader-BestOf :
    (b : Balance) (draw i : ℕ) (r : NodeRef) (rs : List NodeRef) (c : NodeRef)
    → IsSorted priority_of (r ∷ rs)
    → select_reader b draw i r rs ≡ some c
    → BestOf b (r ∷ rs) c
unfolding select_reader
select_reader-BestOf random draw i r rs c s e = tt
select_reader-BestOf priority draw i r rs c s e =
    subst (BestOf priority (r ∷ rs)) (some-injective r c e) (omega arith, s.0)
select_reader-BestOf least_connections draw i r rs c s e =
    subst (BestOf least_connections (r ∷ rs)) (some-injective _ c e) (least_connected-Fewest r rs)
select_reader-BestOf round_robin draw i r rs c s e = tt

le_of_mem :
    (f : NodeRef → ℕ) (g : NodeRef → ℕ) (a : NodeRef) (xs : List NodeRef)
    → All (λ x. f x ≤ g x) xs
    → Mem a xs
    → f a ≤ g a
le_of_mem f g a [] h m = absurd (not-mem-nil m)
le_of_mem f g a (x ∷ xs) h m =
    Or.elim le_prop (mem-cons.0 m) (λ e. rw e h.0) (le_of_mem f g a xs h.1)

-- No node that can serve reads is better by the strategy.
abbrev pub Best : Balance → List DatabaseNode → DatabaseNode → Type 0
Best random nodes c = Unit
Best priority nodes c =
    (k : ℕ) (n : DatabaseNode)
    → get_elem? nodes k ≡ some n
    → can_read n ≡ true
    → c.priority ≤ℤ n.priority
Best least_connections nodes c =
    (k : ℕ) (n : DatabaseNode)
    → get_elem? nodes k ≡ some n
    → can_read n ≡ true
    → c.read_count ≤ n.read_count
Best round_robin nodes c = Unit

BestOf-Best :
    (b : Balance) (nodes : List DatabaseNode) (c : NodeRef)
    → BestOf b (get_healthy_readers nodes) c
    → Best b nodes c.node
BestOf-Best random nodes c h = tt
BestOf-Best priority nodes c h = λ k n g r.
    le_of_mem (λ x. pos_part c.node.priority + neg_part x.node.priority)
      (λ x. pos_part x.node.priority + neg_part c.node.priority) _ _ h
      ((get_healthy_readers_lem nodes).2 k n g r)
BestOf-Best least_connections nodes c h = λ k n g r.
    le_of_mem (λ _. c.node.read_count) (λ x. x.node.read_count) _ _ h
      ((get_healthy_readers_lem nodes).2 k n g r)
BestOf-Best round_robin nodes c h = tt

-- What a served read does: it counts the round-robin turn, if the strategy is that, and the read of
-- one node that can serve reads, and returns the pool of that node.
abbrev pub Serves : ClusterManager → ClusterManager × Result RouteError (Option ℕ) → Type 0
Serves cm result =
    (r : NodeRef) × PointsAt cm.nodes r
    × Best (balance_of cm.config.read_balance_strategy) cm.nodes r.node
    × (result ≡ (
      record cm {
        circuit_open = false;
        read_index = index_after (balance_of cm.config.read_balance_strategy) cm.read_index;
        nodes = modify r.index count_read cm.nodes;
      },
      ok r.node.sql_db,
    ))

balance_reads-Serves :
    (later draw : ℕ) (cm : ClusterManager) (r : NodeRef) (rs : List NodeRef)
    → get_healthy_readers cm.nodes ≡ r ∷ rs
    → cm.circuit_open ≡ false
    → index_after (balance_of cm.config.read_balance_strategy) cm.read_index < 2 ^ 63
    → draw < length (r ∷ rs)
    → Serves cm (balance_reads later draw cm (r ∷ rs))
unfolding balance_reads
balance_reads-Serves later draw cm r rs e closed w d =
    let b = balance_of cm.config.read_balance_strategy in
    let i = index_after b cm.read_index in
    let lem = get_healthy_readers_lem cm.nodes in
    let (c, selected, points) =
      select_reader_total (PointsAt cm.nodes) b draw i r rs d w
        (subst (All (PointsAt cm.nodes)) e lem.1) in
    let best =
      select_reader-BestOf b draw i r rs c (subst (IsSorted priority_of) e lem.0) selected in
    (
      c,
      points,
      BestOf-Best b cm.nodes c (subst (λ l. BestOf b l c) (sym e) best),
      rw selected (ground arith),
    )

is_circuit_open_closed :
    (now : ℕ) (cm : ClusterManager)
    → (is_circuit_open now cm).1 ≡ false
    → is_circuit_open now cm ≡ (record cm { circuit_open = false }, false)
unfolding is_circuit_open
is_circuit_open_closed now cm h = ground arith

-- While the breaker lets calls through, any one node that can serve reads is enough: `Reader`
-- returns the pool of such a node, by priority or by the fewest reads no other such node is better,
-- and it counts that node's read and nothing else. The counter of the round robin must be short of
-- 2 ^ 63.
pub reader-Serves :
    (now later draw k : ℕ) (cm : ClusterManager) (n : DatabaseNode)
    → (is_circuit_open now cm).1 ≡ false
    → get_elem? cm.nodes k ≡ some n
    → can_read n ≡ true
    → index_after (balance_of cm.config.read_balance_strategy) cm.read_index < 2 ^ 63
    → draw < length (get_healthy_readers cm.nodes)
    → Serves cm (reader now later draw cm)
unfolding reader
reader-Serves now later draw k cm n c g r w d = rw (is_circuit_open_closed now cm c) (
    by_readers (get_healthy_readers cm.nodes) refl d ((get_healthy_readers_lem cm.nodes).2 k n g r))
  where
    closed : ClusterManager
    closed = record cm { circuit_open = false }

    by_readers :
        (l : List NodeRef)
        → get_healthy_readers cm.nodes ≡ l
        → draw < length l
        → Mem (record { index = k; node = n }) l
        → Serves cm (balance_reads later draw closed l)
    by_readers [] e lt m = absurd (not-mem-nil m)
    by_readers (x ∷ xs) e lt m = balance_reads-Serves later draw closed x xs e refl w lt

clash : {b : Bool} → b ≡ false → b ≡ true → ⊥
clash p q = cc

not_write : (n : DatabaseNode) → can_read n ≡ false → can_write n ≡ false
not_write n h = ground arith

-- If no node can serve reads, the fallback of `Reader` to `Writer` finds none either: it fails, and
-- opens the circuit breaker.
pub reader-none :
    (now later draw : ℕ) (cm : ClusterManager)
    → (is_circuit_open now cm).1 ≡ false
    → All (λ n. can_read n ≡ false) cm.nodes
    → reader now later draw cm
      ≡ (record cm { circuit_open = true; circuit_open_time = later }, err no_healthy_writer)
unfolding reader
reader-none now later draw cm c h =
    rw (is_circuit_open_closed now cm c)
      (by_readers (get_healthy_readers cm.nodes) (get_healthy_readers_lem cm.nodes).1)
  where
    closed : ClusterManager
    closed = record cm { circuit_open = false }

    by_readers :
        (l : List NodeRef)
        → All (PointsAt cm.nodes) l
        → balance_reads later draw closed l
          ≡ (record cm { circuit_open = true; circuit_open_time = later }, err no_healthy_writer)
    by_readers [] a =
        unfold balance_reads in
        writer-none later closed (unfold is_circuit_open in refl) (All-map cm.nodes not_write h)
    by_readers (x ∷ xs) a = absurd (clash (get_elem?-All _ cm.nodes x.index x.node a.0.0 h) a.0.1)
