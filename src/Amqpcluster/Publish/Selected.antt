-- ===== src/Amqpcluster/Publish/Selected.antt =====
-- About when `Publish` of amqpcluster/adapter.go succeeds.
use svckit.Base.{
  ℕ, zero, suc, ◌+◌, ◌≡◌, ◌↔◌, inl, inr, refl, ap, sym, subst, ◌∙◌, true, List, [], ◌∷◌, Option,
  none, some, Bool-cases, get_elem?, arith, ◌<◌, ◌%◌, ◌^◌, length,
}
use svckit.Base.Run.{done, ◌>>=◌, done-injective}
use svckit.Base.Text.{Text, codes, text_eq}
use svckit.Pgcluster.Routing.{next_index, round_robin_index}
use svckit.Pgcluster.Routing.Readers.{get_elem?-lt, round_robin_index_small}
use svckit.Rediscluster.Execute.{fnv32a, offset32}
use svckit.Amqpcluster.Node.{
  ClusterAdapter, get_healthy_nodes, uses_hash, chosen, at_index, select_among,
  select_node_for_publish,
}
use svckit.Amqpcluster.Publish.{Published, publish_first, publish}
use svckit.Amqpcluster.Publish.Laws.{HealthyAt, In}
use svckit.Amqpcluster.Publish.Reach.{
  healthy-In, fail_over_iff, Reachable, Reachable-kept, publish_first_iff,
}

chosen-In :
    (ca ca' : ClusterAdapter) (o : Option ℕ) (k : ℕ)
    → chosen ca o ≡ done (ca', some k)
    → (o ≡ some k) × (ca'.nodes ≡ ca.nodes)
chosen-In ca ca' none k h = absurd (cc)
chosen-In ca ca' (some j) k h =
    let e = done-injective h in (ap (λ x. x.1) e, sym (ap (λ x. x.0.nodes) e))

get_elem?-In : (ks : List ℕ) (i k : ℕ) → get_elem? ks i ≡ some k → In k ks
get_elem?-In [] i k h = absurd (cc)
get_elem?-In (x ∷ xs) zero k h = inl (index_same h)
  where
    index_same : {a b : ℕ} → some a ≡ some b → a ≡ b
    index_same q = cc
get_elem?-In (x ∷ xs) (suc i) k h = inr (get_elem?-In xs i k h)

at_index-In : (ks : List ℕ) (o : Option ℕ) (k : ℕ) → at_index ks o ≡ some k → In k ks
at_index-In ks none k h = absurd (cc)
at_index-In ks (some i) k h = get_elem?-In ks i k h

select_among-In :
    (key : Text) (draw : ℕ) (ca ca' : ClusterAdapter) (ks : List ℕ) (k : ℕ)
    → select_among key draw ca ks ≡ done (ca', some k)
    → In k ks × (ca'.nodes ≡ ca.nodes)
unfolding select_among
select_among-In key draw ca ca' [] k h = absurd (cc)
select_among-In key draw ca ca' (x ∷ xs) k h =
    elim (Bool-cases (text_eq ca.config.load_balance_strategy (codes "random"))) [
      | inl r ↦
          let (e, same) = chosen-In _ ca' _ k (rw (select_among, r) at h) in
          (get_elem?-In (x ∷ xs) _ k e, same)
      | inr r ↦ elim (Bool-cases (uses_hash ca.config key)) [
        | inl u ↦
            let (e, same) = chosen-In _ ca' _ k (rw (select_among, r, u) at h) in
            (get_elem?-In (x ∷ xs) _ k e, same)
        | inr u ↦
            let (e, same) = chosen-In _ ca' _ k (rw (select_among, r, u) at h) in
            (at_index-In (x ∷ xs) _ k e, same)
      ]
    ]

chosen-apart : (ca ca' : ClusterAdapter) (o : Option ℕ) → chosen ca o ≡ done (ca', none) → ⊥
chosen-apart ca ca' none h = cc
chosen-apart ca ca' (some j) h = index_apart (ap (λ x. x.1) (done-injective h))
  where
    index_apart : some j ≡ none → ⊥
    index_apart q = cc

select_among-none :
    (key : Text) (draw : ℕ) (ca ca' : ClusterAdapter) (ks : List ℕ)
    → select_among key draw ca ks ≡ done (ca', none)
    → ca'.nodes ≡ ca.nodes
unfolding select_among
select_among-none key draw ca ca' [] h = sym (ap (λ x. x.0.nodes) (done-injective h))
select_among-none key draw ca ca' (x ∷ xs) h =
    elim (Bool-cases (text_eq ca.config.load_balance_strategy (codes "random"))) [
      | inl r ↦ absurd (chosen-apart _ ca' _ (rw (select_among, r) at h))
      | inr r ↦ elim (Bool-cases (uses_hash ca.config key)) [
        | inl u ↦ absurd (chosen-apart _ ca' _ (rw (select_among, r, u) at h))
        | inr u ↦ absurd (chosen-apart _ ca' _ (rw (select_among, r, u) at h))
      ]
    ]

same_nodes :
    (answers : ℕ → Option Text) (ca ca' : ClusterAdapter)
    → ca'.nodes ≡ ca.nodes
    → Reachable answers ca ↔ Reachable answers ca'
same_nodes answers ca ca' e = Reachable-kept answers ca ca' (λ i z. ap (λ ns. get_elem? ns i) e)

selected_iff :
    (answers : ℕ → Option Text) (key : Text) (draw : ℕ) (ca ca' : ClusterAdapter) (o : Option ℕ)
    → select_node_for_publish key draw ca ≡ done (ca', o)
    → ((publish_first answers (ca', o)).1 ≡ true) ↔ Reachable answers ca
unfolding publish_first select_node_for_publish
selected_iff answers key draw ca ca' none h =
    let (there, back) = same_nodes answers ca ca' (select_among-none key draw ca ca' _ h) in
    let (to, from) = fail_over_iff answers ca' in ((λ p. back (to p)), (λ r. from (there r)))
selected_iff answers key draw ca ca' (some k) h =
    let (i, e) = select_among-In key draw ca ca' (get_healthy_nodes 0 ca.nodes) k h in
    let (j, s, up) = healthy-In 0 k ca.nodes i in
    let here =
      subst (λ ns. HealthyAt ns k) (sym e) (subst (HealthyAt ca.nodes) (omega (arith, s)) up) in
    let (there, back) = same_nodes answers ca ca' e in
    let (to, from) = publish_first_iff answers ca' k here in
    ((λ p. back (to p)), (λ r. from (there r)))

chosen_at :
    (ca : ClusterAdapter) (ks : List ℕ) (i : ℕ)
    → i < length ks
    → (r : ClusterAdapter × Option ℕ) × (chosen ca (get_elem? ks i) ≡ done r)
chosen_at ca ks i h = let (k, e) = get_elem?-lt ks i h in ((ca, some k), ap (chosen ca) e)

turned_index : (i n : ℕ) → i + 1 < 2 ^ 63 → round_robin_index (next_index i) n ≡ some ((i + 1) % n)
unfolding next_index
turned_index i n h =
    ap (λ c. round_robin_index c n) (mod_small (i + 1) (omega arith))
    ∙ round_robin_index_small (i + 1) n h
  where
    mod_small : (a : ℕ) → a < 2 ^ 64 → a % 2 ^ 64 ≡ a
    mod_small a l = omega arith

select_among_total :
    (key : Text) (draw : ℕ) (ca : ClusterAdapter) (ks : List ℕ)
    → ca.node_index + 1 < 2 ^ 63
    → (r : ClusterAdapter × Option ℕ) × (select_among key draw ca ks ≡ done r)
unfolding select_among
select_among_total key draw ca [] h = (_, refl)
select_among_total key draw ca (k ∷ ks) h =
    let n = length (k ∷ ks) in
    let within : (a : ℕ) → a % n < n = λ a. omega arith in
    elim (Bool-cases (text_eq ca.config.load_balance_strategy (codes "random"))) [
      | inl r ↦ rw (select_among, r) (chosen_at ca (k ∷ ks) (draw % n) (within draw))
      | inr r ↦ elim (Bool-cases (uses_hash ca.config key)) [
        | inl u ↦
            rw (select_among, r, u) (chosen_at ca (k ∷ ks) (fnv32a offset32 key % n) (within _))
        | inr u ↦
            let turned = record ca { node_index = next_index ca.node_index } in
            let (p, e) = chosen_at turned (k ∷ ks) ((ca.node_index + 1) % n) (within _) in
            (
              p,
              rw (select_among, r, u)
                  (ap (λ o. chosen turned (at_index (k ∷ ks) o)) (turned_index ca.node_index n h)
                    ∙ e),
            )
      ]
    ]

-- While the counter of the round robin is short of its wrap-around, `Publish` returns, and it has
-- published the message exactly if some healthy node has a channel that takes it, whatever the
-- strategy selects first and whichever nodes fail before.
pub publish_iff :
    (answers : ℕ → Option Text) (key : Text) (draw : ℕ) (ca : ClusterAdapter)
    → ca.node_index + 1 < 2 ^ 63
    → (p : Published) × (publish answers key draw ca ≡ done p)
      × ((p.1 ≡ true) ↔ Reachable answers ca)
unfolding publish select_node_for_publish
publish_iff answers key draw ca h =
    let ((ca', o), e) = select_among_total key draw ca (get_healthy_nodes 0 ca.nodes) h in
    (
      publish_first answers (ca', o),
      ap (λ m. m >>= λ selected. done (publish_first answers selected)) e,
      selected_iff answers key draw ca ca' o e,
    )
