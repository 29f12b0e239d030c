-- ===== src/Rediscluster/Adapter/Ready.antt =====
-- The first selection of a node by an adapter that `NewClusterAdapter` of rediscluster/adapter.go returns.
use svckit.Base.{
  ℕ, suc, ◌+◌, ◌<◌, ◌%◌, ◌≡◌, refl, ap, sym, subst, true, List, [], ◌∷◌, Option, none, some, Result,
  ok, err, All, get_elem?, length, Bool-cases, inl, inr, arith, ◌==◌, if◌then◌else◌,
}
use svckit.Base.Run.{Run, done, ◌>>=◌}
use svckit.Base.Text.{Text, codes, text_eq}
use svckit.Rediscluster.Node.{RedisNode, ClusterConfig, ClusterAdapter, is_usable}
use svckit.Rediscluster.Health.{Link, client_of}
use svckit.Rediscluster.Execute.{
  get_healthy_nodes, select_among, select_node, uses_hash, fnv32a, chosen, offset32,
}
use svckit.Pgcluster.Routing.{next_index}
use svckit.Pgcluster.Routing.Readers.{get_elem?-lt, get_elem?-All}
use svckit.Rediscluster.Adapter.{
  Connected, AdapterError, node_url_required, not_connected, connect_to_all_nodes,
  get_first_healthy_node, adapter_of, built, adapter_from, new_cluster_adapter,
}
use svckit.Rediscluster.Adapter.Laws.{first_up, Loops, connect_from-Loops}

-- Index `k` is that of a node with a client that is healthy.
abbrev pub UsableAt : List RedisNode → ℕ → Type 0
UsableAt ns k = (n : RedisNode) × (get_elem? ns k ≡ some n) × (is_usable n ≡ true)

healthy-All :
    (P : ℕ → Type 0) (i : ℕ) (ns : List RedisNode)
    → ((k : ℕ) → UsableAt ns k → P (i + k))
    → All P (get_healthy_nodes i ns)
unfolding get_healthy_nodes
healthy-All P i [] f = tt
healthy-All P i (n ∷ ns) f =
    let rest =
      healthy-All P (suc i) ns (λ k (m, e, u). subst P (omega arith) (f (suc k) (m, e, u))) in
    elim (Bool-cases (is_usable n)) [
      | inl u ↦ rw (get_healthy_nodes, u) (subst P (omega arith) (f 0 (n, refl, u)), rest)
      | inr u ↦ rw (get_healthy_nodes, u) rest
    ]

healthy-cons :
    (p i : ℕ) (ns : List RedisNode)
    → client_of (get_first_healthy_node ns) ≡ some p
    → (k : ℕ) × (ks : List ℕ) × (get_healthy_nodes i ns ≡ k ∷ ks)
unfolding get_healthy_nodes get_first_healthy_node
healthy-cons p i [] h = absurd (cc)
healthy-cons p i (n ∷ ns) h = elim (Bool-cases (is_usable n)) [
  | inl u ↦ (i, get_healthy_nodes (suc i) ns, rw (get_healthy_nodes, u))
  | inr u ↦
      let (k, ks, e) = healthy-cons p (suc i) ns (rw (get_first_healthy_node, u) at h) in
      (k, ks, rw (get_healthy_nodes, u) e)
]

-- What a selection comes to that ends on a node of which `P` holds.
abbrev Chooses : (ℕ → Type 0) → Run (ClusterAdapter × Option ℕ) → Type 0
Chooses P run = (ca : ClusterAdapter) × (k : ℕ) × (run ≡ done (ca, some k)) × P k

chosen-Chooses :
    (P : ℕ → Type 0) (ca : ClusterAdapter) (ks : List ℕ) (i : ℕ)
    → i < length ks
    → All P ks
    → Chooses P (chosen ca (get_elem? ks i))
chosen-Chooses P ca ks i h all =
    let (k, e) = get_elem?-lt ks i h in (ca, k, ap (chosen ca) e, get_elem?-All P ks i k e all)

select_among-Chooses :
    (P : ℕ → Type 0) (key : Text) (draw : ℕ) (ca : ClusterAdapter) (k : ℕ) (ks : List ℕ)
    → ca.node_index ≡ 0
    → All P (k ∷ ks)
    → Chooses P (select_among key draw ca (k ∷ ks))
unfolding select_among next_index
select_among-Chooses P key draw ca k ks z all =
    let n = length (k ∷ ks) in
    let within : (a : ℕ) → a % n < n = λ a. omega arith in
    elim (Bool-cases (text_eq ca.config.load_balance_strategy (codes "random"))) [
      | inl r ↦ rw (select_among, r) (chosen-Chooses P ca (k ∷ ks) (draw % n) (within draw) all)
      | inr r ↦ elim (Bool-cases (uses_hash ca.config key)) [
        | inl u ↦
            rw (select_among, r, u)
              (chosen-Chooses P ca (k ∷ ks) (fnv32a offset32 key % n) (within _) all)
        | inr u ↦ rw (select_among, r, u, z) (chosen-Chooses P _ (k ∷ ks) (1 % n) (within 1) all)
      ]
    ]

-- What a call of the constructor promises by its result, with the first selection of the adapter.
abbrev pub Constructed :
    ClusterConfig → (ℕ → Link) → Text → ℕ → Result AdapterError ClusterAdapter → Type 0
Constructed c links key draw (err node_url_required) = c.node_urls ≡ []
Constructed c links key draw (err (not_connected e)) = first_up links 0 c.node_urls ≡ none
Constructed c links key draw (ok ca) =
    (ca.config ≡ c)
    × (length ca.nodes ≡ length c.node_urls)
    × ((p : ℕ) × (first_up links 0 c.node_urls ≡ some p) × (ca.primary_client ≡ some p))
    × Chooses (UsableAt ca.nodes) (select_node key draw ca)

select_node-Chooses :
    (c : ClusterConfig) (ns : List RedisNode) (p : ℕ) (key : Text) (draw : ℕ)
    → client_of (get_first_healthy_node ns) ≡ some p
    → Chooses (UsableAt ns) (select_node key draw (adapter_of c ns))
unfolding select_node
select_node-Chooses c ns p key draw h =
    let (k, ks, e) = healthy-cons p 0 ns h in
    let all = healthy-All (UsableAt ns) 0 ns (λ j u. subst (UsableAt ns) (omega arith) u) in
    subst (λ l. Chooses (UsableAt ns) (select_among key draw (adapter_of c ns) l)) (sym e)
      (select_among-Chooses (UsableAt ns) key draw (adapter_of c ns) k ks refl
        (subst (All (UsableAt ns)) e all))

abbrev failure_of : ℕ → Option Text → Option AdapterError
failure_of total last = if total == 0 then some (not_connected last) else none

failure_of_some : (total : ℕ) (last : Option Text) → 0 < total → failure_of total last ≡ none
failure_of_some total last h = ground arith

built-Constructed :
    (c : ClusterConfig) (links : ℕ → Link) (key : Text) (draw : ℕ) (up : Option ℕ) (x : Connected)
    → first_up links 0 c.node_urls ≡ up
    → Loops up 0 c.node_urls x
    → Constructed c links key draw (built c (x.0, failure_of x.1 x.2))
built-Constructed c links key draw none (ns, total, last) u (first, len, rises) = rw rises u
built-Constructed c links key draw (some p) (ns, total, last) u (first, len, rises) =
    subst (λ o. Constructed c links key draw (built c (ns, o)))
      (sym (failure_of_some total last rises))
      (refl, len, (p, u, first), select_node-Chooses c ns p key draw first)

adapter_from-Constructed :
    (c : ClusterConfig) (clock : ℕ → ℕ) (links : ℕ → Link) (key : Text) (draw : ℕ)
    (urls : List Text)
    → c.node_urls ≡ urls
    → (r : Result AdapterError ClusterAdapter) × (adapter_from c clock links urls ≡ done r)
      × Constructed c links key draw r
unfolding adapter_from connect_to_all_nodes
adapter_from-Constructed c clock links key draw [] h = (err node_url_required, refl, h)
adapter_from-Constructed c clock links key draw (url ∷ urls) h =
    let (x, e, loops) = connect_from-Loops clock links 0 0 none (url ∷ urls) in
    (
      built c (x.0, failure_of x.1 x.2),
      ap (λ m. (m >>= λ d. done (d.0, failure_of d.1 d.2)) >>= λ r. done (built c r)) e,
      built-Constructed c links key draw _ x (ap (first_up links 0) h)
          (subst (λ us. Loops (first_up links 0 (url ∷ urls)) 0 us x) (sym h) loops),
    )

-- A constructor always returns. It fails without a URL, and it fails to connect only where no link to
-- a node is up. An adapter that it returns has a node for each URL, the client of the first link that
-- is up as the primary one, and, whatever the strategy, the key and the draw are, its first selection
-- gives a healthy node with a client.
pub new_cluster_adapter-Ready :
    (c : ClusterConfig) (clock : ℕ → ℕ) (links : ℕ → Link) (key : Text) (draw : ℕ)
    → (r : Result AdapterError ClusterAdapter) × (new_cluster_adapter c clock links ≡ done r)
      × Constructed c links key draw r
unfolding new_cluster_adapter
new_cluster_adapter-Ready c clock links key draw =
    adapter_from-Constructed c clock links key draw c.node_urls refl
