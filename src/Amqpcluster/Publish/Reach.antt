-- ===== src/Amqpcluster/Publish/Reach.antt =====
-- About the failover of `Publish` in amqpcluster/adapter.go, over the nodes that are healthy.
use svckit.Base.{
  ℕ, zero, suc, ◌+◌, ◌≡◌, ◌↔◌, ◌⊎◌, inl, inr, refl, ap, sym, subst, ◌∙◌, true, List, [], ◌∷◌,
  Option, none, some, Bool-cases, get_elem?, arith,
}
use svckit.Base.Text.{Text}
use svckit.Amqpcluster.Node.{Node, ClusterAdapter, is_healthy, get_healthy_nodes}
use svckit.Amqpcluster.Publish.{publish_to_node, fail_over, publish_first}
use svckit.Amqpcluster.Publish.Laws.{
  Accepts, HealthyAt, none-some, some-injective, In, counted_or-true, counted_or-false,
  publish_to_any_iff, publish_to_node-Tried,
}

pub healthy-In :
    (i k : ℕ) (ns : List Node)
    → In k (get_healthy_nodes i ns)
    → (j : ℕ) × (k ≡ i + j) × HealthyAt ns j
unfolding get_healthy_nodes
healthy-In i k [] h = absurd h
healthy-In i k (n ∷ ns) h = elim (Bool-cases (is_healthy n.state)) [
  | inl e ↦ by_head e (λ t. later (healthy-In (suc i) k ns t)) (rw (get_healthy_nodes, e) at h)
  | inr e ↦ later (healthy-In (suc i) k ns (rw (get_healthy_nodes, e) at h))
]
  where
    later :
        ((j : ℕ) × (k ≡ suc i + j) × HealthyAt ns j) → (j : ℕ) × (k ≡ i + j) × HealthyAt (n ∷ ns) j
    later (j, e, a) = (suc j, omega (arith, e), a)

    by_head :
        is_healthy n.state ≡ true
        → (In k (get_healthy_nodes (suc i) ns) → (j : ℕ) × (k ≡ i + j) × HealthyAt (n ∷ ns) j)
        → (i ≡ k) ⊎ In k (get_healthy_nodes (suc i) ns)
        → (j : ℕ) × (k ≡ i + j) × HealthyAt (n ∷ ns) j
    by_head e next (inl s) = (0, omega (arith, s), (n, refl, e))
    by_head e next (inr t) = next t

In-healthy : (i j : ℕ) (ns : List Node) → HealthyAt ns j → In (i + j) (get_healthy_nodes i ns)
unfolding get_healthy_nodes
In-healthy i j [] (n, g, h) = absurd (none-some g)
In-healthy i zero (m ∷ ns) (n, g, h) =
    rw (get_healthy_nodes, ap (λ x. is_healthy x.state) (some-injective g) ∙ h) (inl (omega arith))
In-healthy i (suc j) (m ∷ ns) h =
    let rest =
      subst (λ x. In x (get_healthy_nodes (suc i) ns)) (omega arith) (In-healthy (suc i) j ns h) in
    elim (Bool-cases (is_healthy m.state)) [
      | inl e ↦ rw (get_healthy_nodes, e) (inr rest)
      | inr e ↦ rw (get_healthy_nodes, e) rest
    ]

-- A healthy node has a channel that takes the message.
abbrev pub Reachable : (ℕ → Option Text) → ClusterAdapter → Type 0
Reachable answers ca = (k : ℕ) × HealthyAt ca.nodes k × Accepts answers ca k

pub fail_over_iff :
    (answers : ℕ → Option Text) (ca : ClusterAdapter)
    → ((fail_over answers ca).1 ≡ true) ↔ Reachable answers ca
unfolding fail_over
fail_over_iff answers ca =
    let (to, from) = publish_to_any_iff answers (get_healthy_nodes 0 ca.nodes) ca in
    (
      (λ h.
          let (k, i, a) = to h in
          let (j, e, up) = healthy-In 0 k ca.nodes i in
          (k, subst (HealthyAt ca.nodes) (omega (arith, e)) up, a)),
      (λ (k, up, a).
          let i = In-healthy 0 k ca.nodes up in
          from (k, subst (λ x. In x (get_healthy_nodes 0 ca.nodes)) (omega arith) i, a)),
    )

pub Reachable-kept :
    (answers : ℕ → Option Text) (ca ca' : ClusterAdapter)
    → ((i : ℕ) → answers i ≡ none → get_elem? ca'.nodes i ≡ get_elem? ca.nodes i)
    → Reachable answers ca ↔ Reachable answers ca'
Reachable-kept answers ca ca' same = (
  (λ (k, (n, g, h), (m, g', c, z)). (k, (n, same k z ∙ g, h), (m, same k z ∙ g', c, z))),
  (λ (k, (n, g, h), (m, g', c, z)).
      (k, (n, sym (same k z) ∙ g, h), (m, sym (same k z) ∙ g', c, z))),
)

pub publish_first_iff :
    (answers : ℕ → Option Text) (ca : ClusterAdapter) (k : ℕ)
    → HealthyAt ca.nodes k
    → ((publish_first answers (ca, some k)).1 ≡ true) ↔ Reachable answers ca
unfolding publish_first
publish_first_iff answers ca k up =
    let p = publish_to_node answers k ca in
    let (to, from) = fail_over_iff answers p.0 in
    elim (publish_to_node-Tried answers k ca) [
      | inl (e, a) ↦ ((λ h. (k, up, a)), (λ h. counted_or-true k p (fail_over answers) e))
      | inr (e, refuses, same) ↦
          let step = counted_or-false k p (fail_over answers) e in
          let (there, back) = Reachable-kept answers ca p.0 same in
          ((λ h. back (to (sym step ∙ h))), (λ r. step ∙ from (there r)))
    ]
