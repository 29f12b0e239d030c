-- ===== src/Pgcluster/Detect/Laws.antt =====
-- What detecting the writer (pgcluster/writer_detection.go) means for `Writer`.
use mathlib.Core.Option.{some-injective}
use svckit.Base.{
  ℕ, zero, suc, ◌<◌, ◌≡◌, refl, ap, sym, subst, ◌∙◌, Bool, true, false, List, [], ◌∷◌, Option, none,
  some, arith, Bool-cases, inl, inr, get_elem?, ok,
}
use svckit.Pgcluster.Node.{
  DatabaseNode, ClusterManager, is_healthy, role_writer, strategy_query, strategy_probe,
}
use svckit.Pgcluster.Detect.{
  map_indexed, promote, demote, is_asked, update_by_query, update_by_probe, Survey, detect_writer,
}
use svckit.Pgcluster.Routing.{writer, is_circuit_open, can_write}
use svckit.Pgcluster.Routing.Laws.{FirstWriter, NoWriter, writer_first}

-- A loop that lets node `k` take writes and no earlier node makes it the first writer.
map_indexed-FirstWriter :
    (f : ℕ → DatabaseNode → DatabaseNode) (k : ℕ) (nodes : List DatabaseNode) (n : DatabaseNode)
    → get_elem? nodes k ≡ some n
    → can_write (f k n) ≡ true
    → ((j : ℕ) (m : DatabaseNode) → j < k → get_elem? nodes j ≡ some m → can_write (f j m) ≡ false)
    → FirstWriter k (f k n) (map_indexed f nodes)
unfolding map_indexed
map_indexed-FirstWriter f k [] n g w h = absurd (cc)
map_indexed-FirstWriter f zero (x ∷ nodes) n g w h =
    let same = some-injective x n g in (ap (f 0) same, ap (λ m. can_write (f 0 m)) same ∙ w)
map_indexed-FirstWriter f (suc k) (x ∷ nodes) n g w h = (
  h 0 x (omega arith) refl,
  map_indexed-FirstWriter (λ i. f (suc i)) k nodes n g w (λ j m l. h (suc j) m (omega arith)),
)

pub map_indexed-NoWriter :
    (f : ℕ → DatabaseNode → DatabaseNode) (nodes : List DatabaseNode)
    → ((j : ℕ) (m : DatabaseNode) → get_elem? nodes j ≡ some m → can_write (f j m) ≡ false)
    → NoWriter (map_indexed f nodes)
unfolding map_indexed
map_indexed-NoWriter f [] h = tt
map_indexed-NoWriter f (x ∷ nodes) h =
    (h 0 x refl, map_indexed-NoWriter (λ i. f (suc i)) nodes (λ j m. h (suc j) m))

query_promotes :
    (a : Option Bool) (n : DatabaseNode)
    → is_asked n ≡ true
    → a ≡ some true
    → (can_write (update_by_query a n) ≡ true) × ((update_by_query a n).sql_db ≡ n.sql_db)
unfolding update_by_query promote demote
query_promotes a n h e = rw e (ground arith, ground arith)

pub not_some {ℓ} : {A : Type ℓ} {a : A} → none ≡ some a → ⊥
not_some h = cc

true-false : true ≡ false → ⊥
true-false h = cc

query_demotes :
    (a : Option Bool) (n : DatabaseNode)
    → (is_asked n ≡ true → a ≡ some false)
    → can_write (update_by_query a n) ≡ false
unfolding update_by_query promote demote
query_demotes none n h = elim (Bool-cases (is_asked n)) [
  | inl t ↦ absurd (not_some (h t))
  | inr f ↦ ground arith
]
query_demotes (some true) n h = elim (Bool-cases (is_asked n)) [
  | inl t ↦ absurd (true-false (some-injective _ _ (h t)))
  | inr f ↦ rw f (ground arith)
]
query_demotes (some false) n h = ground arith

pub open_for :
    (cm : ClusterManager) (ns : List DatabaseNode) (now : ℕ)
    → (is_circuit_open now cm).1 ≡ false
    → (is_circuit_open now (record cm { nodes = ns })).1 ≡ false
unfolding is_circuit_open
open_for cm ns now h = ground arith

-- `Writer` after a loop that lets node `k` take writes and no earlier node.
pub writer_of_loop :
    (now k : ℕ) (cm : ClusterManager) (f : ℕ → DatabaseNode → DatabaseNode) (ns : List DatabaseNode)
    (n : DatabaseNode)
    → ns ≡ map_indexed f cm.nodes
    → (is_circuit_open now cm).1 ≡ false
    → get_elem? cm.nodes k ≡ some n
    → can_write (f k n) ≡ true
    → ((j : ℕ) (m : DatabaseNode)
        → j < k
        → get_elem? cm.nodes j ≡ some m
        → can_write (f j m) ≡ false)
    → (writer now (record cm { nodes = ns })).1 ≡ ok (f k n).sql_db
writer_of_loop now k cm f ns n e c g w h =
    ap (λ r. r.1)
      (writer_first now (record cm { nodes = ns }) k (f k n) (open_for cm ns now c)
        (subst (FirstWriter k (f k n)) (sym e) (map_indexed-FirstWriter f k cm.nodes n g w h)))

-- Detection by query makes `Writer` follow a failover: if a healthy node with a pool answers that it
-- is the primary, and each such node before it answers that it is not, then `Writer` returns the
-- pool of that node, whatever the roles were before and whichever unhealthy nodes count as writers.
pub detect_writer-writer :
    (now k : ℕ) (cm : ClusterManager) (s : Survey) (n : DatabaseNode)
    → cm.config.writer_detection_strategy ≡ strategy_query
    → (is_circuit_open now cm).1 ≡ false
    → get_elem? cm.nodes k ≡ some n
    → is_asked n ≡ true
    → s.queries k ≡ some true
    → ((j : ℕ) (m : DatabaseNode)
        → j < k
        → get_elem? cm.nodes j ≡ some m
        → is_asked m ≡ true
        → s.queries j ≡ some false)
    → (writer now (record cm { nodes = detect_writer cm.config s cm.nodes })).1 ≡ ok n.sql_db
unfolding detect_writer
detect_writer-writer now k cm s n strategy c g asked primary others =
    let (able, pool) = query_promotes (s.queries k) n asked primary in
    writer_of_loop now k cm (λ i. update_by_query (s.queries i)) _ n (rw strategy refl) c g able
      (λ j m l at. query_demotes (s.queries j) m (others j m l at))
    ∙ ap ok pool

probe_keeps : (b : Bool) (n : DatabaseNode) → n.role ≡ role_writer → update_by_probe b n ≡ n
unfolding update_by_probe promote
probe_keeps b n h = rw h (ground arith)

can_write-role : (n : DatabaseNode) → can_write n ≡ true → n.role ≡ role_writer
can_write-role n h = ground arith

probe_unhealthy :
    (b : Bool) (n : DatabaseNode)
    → is_healthy n.health ≡ false
    → can_write (update_by_probe b n) ≡ false
unfolding update_by_probe promote
probe_unhealthy b n h = ground arith

map_indexed-get_elem? :
    (f : ℕ → DatabaseNode → DatabaseNode) (k : ℕ) (nodes : List DatabaseNode) (n : DatabaseNode)
    → get_elem? nodes k ≡ some n
    → get_elem? (map_indexed f nodes) k ≡ some (f k n)
unfolding map_indexed
map_indexed-get_elem? f k [] n g = absurd (cc)
map_indexed-get_elem? f zero (x ∷ nodes) n g = ap (λ m. some (f 0 m)) (some-injective x n g)
map_indexed-get_elem? f (suc k) (x ∷ nodes) n g = map_indexed-get_elem? (λ i. f (suc i)) k nodes n g

-- Detection by probe never takes the role of the writer from a node, whatever the probes answer, so
-- that after a failover `Writer` goes on returning the pool of the old writer while that is healthy
-- and comes first.
pub detect_writer_probe_keeps :
    (now k : ℕ) (cm : ClusterManager) (s : Survey) (n : DatabaseNode)
    → cm.config.writer_detection_strategy ≡ strategy_probe
    → (is_circuit_open now cm).1 ≡ false
    → get_elem? cm.nodes k ≡ some n
    → can_write n ≡ true
    → ((j : ℕ) (m : DatabaseNode)
        → j < k
        → get_elem? cm.nodes j ≡ some m
        → is_healthy m.health ≡ false)
    → let nodes' = detect_writer cm.config s cm.nodes in
      (get_elem? nodes' k ≡ some n) × ((writer now (record cm { nodes = nodes' })).1 ≡ ok n.sql_db)
unfolding detect_writer
detect_writer_probe_keeps now k cm s n strategy c g able others =
    let f : ℕ → DatabaseNode → DatabaseNode = λ i. update_by_probe (s.probes i) in
    let kept = probe_keeps (s.probes k) n (can_write-role n able) in
    let e : detect_writer cm.config s cm.nodes ≡ map_indexed f cm.nodes = rw strategy refl in
    (
      ap (λ l. get_elem? l k) e ∙ map_indexed-get_elem? f k cm.nodes n g ∙ ap some kept,
      writer_of_loop now k cm f _ n e c g (ap can_write kept ∙ able)
            (λ j m l at. probe_unhealthy (s.probes j) m (others j m l at))
          ∙ ap (λ m. ok m.sql_db) kept,
    )
