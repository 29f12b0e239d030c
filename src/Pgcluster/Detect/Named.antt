-- ===== src/Pgcluster/Detect/Named.antt =====
-- What `SetWriterNode` of pgcluster/writer_detection.go means for `Writer`.
use mathlib.Core.Option.{some-injective}
use svckit.Base.{
  ℕ, suc, ◌≡◌, ◌≢◌, refl, ap, sym, subst, ◌∙◌, true, false, List, [], ◌∷◌, some, if◌then◌else◌,
  arith, Bool-cases, Option-cases, inl, inr, All, get_elem?, ok, err, ℕ_discrete,
}
use svckit.Base.Text.{Text, text_eq}
use svckit.Pgcluster.Node.{DatabaseNode, ClusterManager, is_healthy}
use svckit.Pgcluster.Connect.Laws.{IsSound}
use svckit.Pgcluster.Detect.{map_indexed, find_node, after_first, set_role, set_writer_node}
use svckit.Pgcluster.Routing.{no_healthy_writer, writer, is_circuit_open, can_write}
use svckit.Pgcluster.Routing.Readers.{get_elem?-All}
use svckit.Pgcluster.Routing.Laws.{NoWriter, writer-none}
use svckit.Pgcluster.Detect.Laws.{not_some, open_for, writer_of_loop, map_indexed-NoWriter}

-- Node `k` has the name.
abbrev Named : Text → List DatabaseNode → ℕ → Type 0
Named name nodes k =
    (n : DatabaseNode) × (get_elem? nodes k ≡ some n) × (text_eq n.name name ≡ true)

find_node_miss :
    (name : Text) (n : DatabaseNode) (nodes : List DatabaseNode)
    → text_eq n.name name ≡ false
    → find_node name (n ∷ nodes) ≡ after_first (find_node name nodes)
unfolding find_node after_first
find_node_miss name n nodes f = rw f refl

find_node-Named :
    (name : Text) (nodes : List DatabaseNode) (k : ℕ)
    → find_node name nodes ≡ some k
    → Named name nodes k
unfolding find_node after_first
find_node-Named name [] k h = absurd (cc)
find_node-Named name (n ∷ nodes) k h = elim (Bool-cases (text_eq n.name name)) [
  | inl t ↦ subst (Named name (n ∷ nodes)) (some-injective 0 k (sym (rw t refl) ∙ h)) (n, refl, t)
  | inr f ↦ elim (Option-cases (find_node name nodes)) [
    | inl q ↦ absurd (not_some (sym (find_node_miss name n nodes f ∙ ap after_first q) ∙ h))
    | inr (i, q) ↦
        subst (Named name (n ∷ nodes))
          (some-injective (suc i) k (sym (find_node_miss name n nodes f ∙ ap after_first q) ∙ h))
          (find_node-Named name nodes i q)
  ]
]

set_role_target :
    (k : ℕ) (n : DatabaseNode)
    → IsSound n
    → (can_write (set_role k k n) ≡ is_healthy n.health) × ((set_role k k n).sql_db ≡ n.sql_db)
unfolding set_role
set_role_target k n s = ground arith

set_role_unhealthy :
    (k i : ℕ) (n : DatabaseNode) → is_healthy n.health ≡ false → can_write (set_role k i n) ≡ false
unfolding set_role
set_role_unhealthy k i n h = ground arith

set_role_other : (k i : ℕ) (n : DatabaseNode) → i ≢ k → can_write (set_role k i n) ≡ false
unfolding set_role
set_role_other k i n h = ground arith

-- `SetWriterNode` that finds its node makes it the only writer: `Writer` then returns its pool if it
-- is healthy, and fails otherwise, whatever writers there were before.
pub set_writer_node-writer :
    (now : ℕ) (cm : ClusterManager) (name : Text) (ns : List DatabaseNode)
    → All IsSound cm.nodes
    → (is_circuit_open now cm).1 ≡ false
    → set_writer_node name cm.nodes ≡ some ns
    → (k : ℕ) × (n : DatabaseNode) × (get_elem? cm.nodes k ≡ some n)
      × (text_eq n.name name ≡ true)
      × ((writer now (record cm { nodes = ns })).1
          ≡ (if is_healthy n.health then ok n.sql_db else err no_healthy_writer))
unfolding set_writer_node
set_writer_node-writer now cm name ns s c h = elim (Option-cases (find_node name cm.nodes)) [
  | inl q ↦ absurd (not_some (sym (rw (q, set_writer_node) refl) ∙ h))
  | inr (k, q) ↦
      let (n, g, t) = find_node-Named name cm.nodes k q in
      let e : ns ≡ map_indexed (set_role k) cm.nodes =
        some-injective _ _ (sym h ∙ rw (q, set_writer_node) refl) in
      let (able, pool) = set_role_target k n (get_elem?-All IsSound cm.nodes k n g s) in
      elim (Bool-cases (is_healthy n.health)) [
        | inl w ↦ (
          k,
          n,
          g,
          t,
          rw w (
              writer_of_loop now k cm (set_role k) ns n e c g (able ∙ w)
                (λ j m l _. set_role_other k j m (omega arith))
              ∙ ap ok pool),
        )
        | inr w ↦ (
          k,
          n,
          g,
          t,
          rw w (
              ap (λ r. r.1)
                (writer-none now (record cm { nodes = ns }) (open_for cm ns now c)
                  (subst NoWriter (sym e) (
                    map_indexed-NoWriter (set_role k) cm.nodes (λ j m l. elim (ℕ_discrete j k) [
                      | yes same ↦ set_role_unhealthy k j m (
                          ap (λ x. is_healthy x.health)
                            (some-injective m n (sym l ∙ ap (get_elem? cm.nodes) same ∙ g))
                          ∙ w)
                      | no other ↦ set_role_other k j m other
                    ]))))),
        )
      ]
]
