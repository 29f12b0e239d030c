-- ===== src/Pgcluster/Routing/Readers.antt =====
-- What `getHealthyReaders` and the selection of pgcluster/manager.go give.
use mathlib.Core.List.{Mem, mem-cons_self, mem-cons_of_mem}
use mathlib.Core.List.Perm
use mathlib.Core.Option.{some-injective}
use svckit.Base.{
  ℕ, zero, suc, ◌+◌, ◌%◌, ◌^◌, ltb, ◌≤◌, ◌<◌, ◌≡◌, refl, sym, subst, ◌∙◌, Bool, true, false, List,
  [], ◌∷◌, some, if◌then◌else◌, length, get_elem?, All, arith, Bool-cases, inl, inr,
}
use svckit.Pgcluster.Node.{DatabaseNode}
use svckit.Pgcluster.Routing.{
  NodeRef, can_read, readers_from, get_healthy_readers, priority_of, least_connected,
  round_robin_index, select_reader, Balance, random, priority, least_connections, round_robin,
}
use svckit.Pgcluster.Routing.Sort.{
  IsSorted, exchange_sort-IsSorted, exchange_sort-perm, exchange_sort-All,
}

-- A reference to a node of the list that can serve reads.
abbrev pub PointsAt : List DatabaseNode → NodeRef → Type 0
PointsAt nodes r = (get_elem? nodes r.index ≡ some r.node) × (can_read r.node ≡ true)

abbrev PointsFrom : ℕ → List DatabaseNode → NodeRef → Type 0
PointsFrom i nodes r =
    (k : ℕ) × (r.index ≡ i + k) × (get_elem? nodes k ≡ some r.node) × (can_read r.node ≡ true)

pub All-map {ℓ κ λ'} :
    {A : Type ℓ} {P : A → Type κ} {Q : A → Type λ'} (xs : List A)
    → ((a : A) → P a → Q a)
    → All P xs
    → All Q xs
All-map [] f h = tt
All-map (x ∷ xs) f h = (f x h.0, All-map xs f h.1)

later :
    (i : ℕ) (n : DatabaseNode) (ns : List DatabaseNode) (r : NodeRef)
    → PointsFrom (suc i) ns r
    → PointsFrom i (n ∷ ns) r
later i n ns r (k, e, g, c) = (suc k, omega arith, g, c)

readers_from-All : (i : ℕ) (ns : List DatabaseNode) → All (PointsFrom i ns) (readers_from i ns)
unfolding readers_from
readers_from-All i [] = tt
readers_from-All i (n ∷ ns) = elim (Bool-cases (can_read n)) [
  | inl e ↦
      rw e ((zero, omega arith, refl, e), All-map _ (later i n ns) (readers_from-All (suc i) ns))
  | inr e ↦ rw e (All-map _ (later i n ns) (readers_from-All (suc i) ns))
]

abbrev ref : ℕ → DatabaseNode → NodeRef
ref i n = record { index = i; node = n }

mem-readers_from :
    (i k : ℕ) (ns : List DatabaseNode) (n : DatabaseNode)
    → get_elem? ns k ≡ some n
    → can_read n ≡ true
    → Mem (record { index = i + k; node = n }) (readers_from i ns)
unfolding readers_from
mem-readers_from i k [] n g c = absurd (cc)
mem-readers_from i zero (x ∷ ns) n g c =
    subst (λ y. Mem (ref (i + 0) n) (if can_read y then ref i y ∷ rest else rest))
      (sym (some-injective x n g))
      (rw c (subst (λ j. Mem (ref j n) (ref i n ∷ rest)) (omega arith) mem-cons_self))
  where
    rest : List NodeRef
    rest = readers_from (suc i) ns
mem-readers_from i (suc k) (x ∷ ns) n g c =
    let rest : Mem (ref (i + suc k) n) (readers_from (suc i) ns) =
      subst (λ j. Mem (ref j n) (readers_from (suc i) ns)) (omega arith)
        (mem-readers_from (suc i) k ns n g c) in
    elim (Bool-cases (can_read x)) [ inl e ↦ rw e (mem-cons_of_mem _ rest) | inr e ↦ rw e rest ]

-- The readers are sorted by priority, each points at a node of the cluster that can serve reads, and
-- every such node is among them.
pub get_healthy_readers_lem :
    (nodes : List DatabaseNode)
    → IsSorted priority_of (get_healthy_readers nodes)
      × All (PointsAt nodes) (get_healthy_readers nodes)
      × ((k : ℕ) (n : DatabaseNode)
          → get_elem? nodes k ≡ some n
          → can_read n ≡ true
          → Mem (record { index = k; node = n }) (get_healthy_readers nodes))
unfolding get_healthy_readers
get_healthy_readers_lem nodes = (
  exchange_sort-IsSorted priority_of _,
  exchange_sort-All priority_of _ _ (
      All-map (readers_from 0 nodes)
        (λ r (k, e, g, c).
          (subst (λ j. get_elem? nodes j ≡ some r.node) (sym (e ∙ omega arith)) g, c))
        (readers_from-All 0 nodes)),
  λ k n g c. (Perm.mem_iff (exchange_sort-perm priority_of (readers_from 0 nodes))).1 (
      subst (λ j. Mem (ref j n) (readers_from 0 nodes)) (omega arith)
        (mem-readers_from 0 k nodes n g c)),
)

-- No more reads than any reader of the list.
abbrev pub Fewest : List NodeRef → NodeRef → Type 0
Fewest rs c = All (λ x. c.node.read_count ≤ x.node.read_count) rs

least_connected-step :
    (r x : NodeRef) (rs : List NodeRef) (b : Bool)
    → ltb x.node.read_count r.node.read_count ≡ b
    → least_connected r (x ∷ rs) ≡ least_connected (if b then x else r) rs
unfolding least_connected
least_connected-step r x rs b e = rw e

pub least_connected-Fewest :
    (r : NodeRef) (rs : List NodeRef) → Fewest (r ∷ rs) (least_connected r rs)
least_connected-Fewest r [] = unfold least_connected in (omega arith, tt)
least_connected-Fewest r (x ∷ rs) = elim (Bool-cases (ltb x.node.read_count r.node.read_count)) [
  | inl e ↦
      let (a, b) = least_connected-Fewest x rs in
      subst (Fewest (r ∷ x ∷ rs)) (sym (least_connected-step r x rs true e)) (ground arith, (a, b))
  | inr e ↦
      let (a, b) = least_connected-Fewest r rs in
      subst (Fewest (r ∷ x ∷ rs)) (sym (least_connected-step r x rs false e)) (a, (ground arith, b))
]

-- The list has a place for every index that the selection asks for: `r ∷ rs` has `k < length`.
pub get_elem?-lt {ℓ} :
    {A : Type ℓ} (xs : List A) (k : ℕ) → k < length xs → (a : A) × (get_elem? xs k ≡ some a)
get_elem?-lt [] k h = absurd (omega arith)
get_elem?-lt (x ∷ xs) zero h = (x, refl)
get_elem?-lt (x ∷ xs) (suc k) h = get_elem?-lt xs k (omega arith)

pub get_elem?-All {ℓ κ} :
    {A : Type ℓ} (P : A → Type κ) (xs : List A) (k : ℕ) (a : A)
    → get_elem? xs k ≡ some a
    → All P xs
    → P a
get_elem?-All P [] k a e h = cc
get_elem?-All P (x ∷ xs) zero a e h = subst P (some-injective x a e) h.0
get_elem?-All P (x ∷ xs) (suc k) a e h = get_elem?-All P xs k a e h.1

least_connected-All {κ} :
    (P : NodeRef → Type κ) (r : NodeRef) (rs : List NodeRef)
    → All P (r ∷ rs)
    → P (least_connected r rs)
least_connected-All P r [] h = unfold least_connected in h.0
least_connected-All P r (x ∷ rs) h = elim (Bool-cases (ltb x.node.read_count r.node.read_count)) [
  | inl e ↦ subst P (sym (least_connected-step r x rs true e)) (least_connected-All P x rs h.1)
  | inr e ↦
      subst P (sym (least_connected-step r x rs false e)) (least_connected-All P r rs (h.0, h.1.1))
]

pub round_robin_index_small : (i n : ℕ) → i < 2 ^ 63 → round_robin_index i n ≡ some (i % n)
unfolding round_robin_index
round_robin_index_small i n h = ground arith

select_round_robin :
    (draw i : ℕ) (r : NodeRef) (rs : List NodeRef)
    → i < 2 ^ 63
    → select_reader round_robin draw i r rs ≡ get_elem? (r ∷ rs) (i % length (r ∷ rs))
unfolding select_reader
select_round_robin draw i r rs w = rw (round_robin_index_small i (length (r ∷ rs)) w, select_reader)

-- While the counter has not wrapped, every strategy selects one of the readers.
pub select_reader_total {κ} :
    (P : NodeRef → Type κ) (b : Balance) (draw i : ℕ) (r : NodeRef) (rs : List NodeRef)
    → draw < length (r ∷ rs)
    → i < 2 ^ 63
    → All P (r ∷ rs)
    → (c : NodeRef) × (select_reader b draw i r rs ≡ some c) × P c
unfolding select_reader
select_reader_total P random draw i r rs d w h =
    let (c, e) = get_elem?-lt (r ∷ rs) draw d in (c, e, get_elem?-All P (r ∷ rs) draw c e h)
select_reader_total P priority draw i r rs d w h = (r, refl, h.0)
select_reader_total P least_connections draw i r rs d w h =
    (least_connected r rs, refl, least_connected-All P r rs h)
select_reader_total P round_robin draw i r rs d w h =
    let (c, e) = get_elem?-lt (r ∷ rs) (i % length (r ∷ rs)) (omega arith) in
    (c, select_round_robin draw i r rs w ∙ e, get_elem?-All P (r ∷ rs) _ c e h)
