-- ===== src/Pgcluster/Routing.antt =====
-- Routing of pgcluster/manager.go: the cluster's circuit breaker, Writer, Reader and DB. A method is
-- one step on the manager, as its locks make it; a pointer to a node is its index in `nodes`.
pub mod Sort
pub mod Readers
pub mod Laws
pub mod Reads
pub mod Turns
use svckit.Base.{
  ℕ, zero, suc, ◌+◌, ◌-◌, ◌%◌, ◌^◌, ltb, ◌==◌, Bool, true, false, not, ◌&&◌, ◌||◌, List, [], ◌∷◌,
  Option, none, some, if◌then◌else◌, Result, ok, err, length, get_elem?, modify,
}
use svckit.Base.Int.{ℤ, sub_ℕ, ltb_ℤ}
use svckit.Base.Text.{Text, codes, text_eq, is_some}
use svckit.Pgcluster.Node.{DatabaseNode, ClusterManager, is_writer, is_reader, is_healthy}

-- `index_out_of_range` is a panic.
pub data RouteError : Type 0 where
  circuit_breaker_open no_healthy_writer index_out_of_range : RouteError

unfoldable pub is_circuit_open : ℕ → ClusterManager → ClusterManager × Bool
is_circuit_open now cm =
    if not cm.circuit_open
    then (cm, false)
    else if ltb_ℤ cm.config.circuit_breaker_timeout (sub_ℕ now cm.circuit_open_time)
    then (record cm { circuit_open = false }, false)
    else (cm, true)

unfoldable pub open_circuit_breaker : ℕ → ClusterManager → ClusterManager
open_circuit_breaker now cm =
    if not cm.circuit_open then record cm { circuit_open = true; circuit_open_time = now } else cm

-- The test of the loop in `Writer`.
abbrev pub can_write : DatabaseNode → Bool
can_write n = is_writer n.role && is_healthy n.health && is_some n.sql_db

-- The loop of `Writer`: the pool of the first node that fits, and the nodes with its use counted.
unfoldable pub take_writer : List DatabaseNode → Option (Option ℕ × List DatabaseNode)
take_writer [] = none
take_writer (n ∷ ns) =
    let rest : Option (Option ℕ × List DatabaseNode) = elim (take_writer ns) [
      | none ↦ none
      | some (db, ns') ↦ some (db, n ∷ ns')
    ] in
    if can_write n then some (n.sql_db, record n { write_count = suc n.write_count } ∷ ns) else rest

-- `Writer` at the instant `now`.
unfoldable pub writer : ℕ → ClusterManager → ClusterManager × Result RouteError (Option ℕ)
writer now cm =
    let (cm', refused) = is_circuit_open now cm in
    if refused then (cm', err circuit_breaker_open) else elim (take_writer cm'.nodes) [
      | none ↦ (open_circuit_breaker now cm', err no_healthy_writer)
      | some (db, nodes) ↦ (record cm' { nodes = nodes }, ok db)
    ]

-- A pointer to a node, with what it points at.
pub record NodeRef : Type 0 where
  pub index : ℕ
  pub node : DatabaseNode

abbrev pub can_read : DatabaseNode → Bool
can_read n = (is_reader n.role || is_writer n.role) && is_healthy n.health && is_some n.sql_db

unfoldable pub readers_from : ℕ → List DatabaseNode → List NodeRef
readers_from i [] = []
readers_from i (n ∷ ns) =
    let rest = readers_from (suc i) ns in
    if can_read n then record { index = i; node = n } ∷ rest else rest

-- The inner loop of the sort in `getHealthyReaders`: `readers[i]` against each later element, swapped
-- where its priority is greater. The result is the new `readers[i]` and what stands behind it.
unfoldable pub sweep {ℓ} : {A : Type ℓ} → (A → ℤ) → A → List A → A × List A
sweep key x [] = (x, [])
sweep key x (y ∷ ys) =
    let swap = ltb_ℤ (key y) (key x) in
    let (least, rest) = sweep key (if swap then y else x) ys in
    (least, (if swap then x else y) ∷ rest)

-- The outer loop, with the positions that are left.
unfoldable pub sort_fuel {ℓ} : {A : Type ℓ} → ℕ → (A → ℤ) → List A → List A
sort_fuel zero key xs = xs
sort_fuel (suc f) key [] = []
sort_fuel (suc f) key (x ∷ xs) = let (least, rest) = sweep key x xs in least ∷ sort_fuel f key rest

unfoldable pub exchange_sort {ℓ} : {A : Type ℓ} → (A → ℤ) → List A → List A
exchange_sort key xs = sort_fuel (length xs) key xs

abbrev pub priority_of : NodeRef → ℤ
priority_of r = r.node.priority

unfoldable pub get_healthy_readers : List DatabaseNode → List NodeRef
get_healthy_readers nodes = exchange_sort priority_of (readers_from 0 nodes)

-- The loop of `selectLeastConnectedReader` over `readers[1:]`.
unfoldable pub least_connected : NodeRef → List NodeRef → NodeRef
least_connected selected [] = selected
least_connected selected (r ∷ rs) =
    least_connected (if ltb r.node.read_count selected.node.read_count then r else selected) rs

pub data Balance : Type 0 where
  random priority least_connections round_robin : Balance

-- The `switch` on the strategy; `round_robin` is also the default.
unfoldable pub balance_of : Text → Balance
unfolding text_eq
balance_of s =
    if text_eq s (codes "random")
    then random
    else if text_eq s (codes "priority")
    then priority
    else if text_eq s (codes "least_connections")
    then least_connections
    else round_robin

-- `atomic.AddInt64(&cm.readIndex, 1)` wraps; Go's `%` has the sign of its left operand, and a
-- negative index panics.
unfoldable pub next_index : ℕ → ℕ
next_index i = (i + 1) % 2 ^ 64

unfoldable pub round_robin_index : ℕ → ℕ → Option ℕ
round_robin_index i n =
    if ltb i (2 ^ 63) then some (i % n) else if (2 ^ 64 - i) % n == 0 then some 0 else none

-- The `switch` of `Reader` over a non-empty list; `draw` is what `rand.Intn` gives.
unfoldable pub select_reader : Balance → ℕ → ℕ → NodeRef → List NodeRef → Option NodeRef
select_reader random draw i r rs = get_elem? (r ∷ rs) draw
select_reader priority draw i r rs = some r
select_reader least_connections draw i r rs = some (least_connected r rs)
select_reader round_robin draw i r rs = elim (round_robin_index i (length (r ∷ rs))) [
  | none ↦ none
  | some k ↦ get_elem? (r ∷ rs) k
]

-- Only the round-robin branch counts on.
abbrev pub index_after : Balance → ℕ → ℕ
index_after round_robin i = next_index i
index_after _ i = i

abbrev pub count_read : DatabaseNode → DatabaseNode
count_read n = record n { read_count = suc n.read_count }

read_from : ClusterManager → Option NodeRef → ClusterManager × Result RouteError (Option ℕ)
read_from cm none = (cm, err index_out_of_range)
read_from cm (some r) = (record cm { nodes = modify r.index count_read cm.nodes }, ok r.node.sql_db)

balance_reads :
    ℕ → ℕ → ClusterManager → List NodeRef → ClusterManager × Result RouteError (Option ℕ)
unfolding read_from
balance_reads later draw cm [] = writer later cm
balance_reads later draw cm (r ∷ rs) =
    let b = balance_of cm.config.read_balance_strategy in
    let i = index_after b cm.read_index in
    read_from (record cm { read_index = i }) (select_reader b draw i r rs)

-- `Reader` at the instant `now`; its fallback to `Writer` reads the clock again, at `later`.
unfoldable pub reader : ℕ → ℕ → ℕ → ClusterManager → ClusterManager × Result RouteError (Option ℕ)
unfolding balance_reads
reader now later draw cm =
    let (cm', refused) = is_circuit_open now cm in
    if refused
    then (cm', err circuit_breaker_open)
    else balance_reads later draw cm' (get_healthy_readers cm'.nodes)

-- `DB`, on the write hint that the context carries, if any.
unfoldable pub db :
    Option Bool → ℕ → ℕ → ℕ → ClusterManager → ClusterManager × Result RouteError (Option ℕ)
db (some true) now later draw cm = writer now cm
db (some false) now later draw cm = reader now later draw cm
db none now later draw cm = reader now later draw cm
