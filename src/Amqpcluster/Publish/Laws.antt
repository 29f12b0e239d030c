-- ===== src/Amqpcluster/Publish/Laws.antt =====
-- About the attempts of `publishToNode` and of the loop of `Publish` in amqpcluster/adapter.go.
use svckit.Base.{
  ℕ, zero, suc, ◌≡◌, ◌≢◌, ◌↔◌, ◌⊎◌, inl, inr, refl, ap, sym, subst, ◌∙◌, true, false, List, [], ◌∷◌,
  Option, none, some, get_elem?, modify,
}
use svckit.Base.Text.{Text, is_some}
use svckit.Amqpcluster.Node.{Node, ClusterAdapter, is_healthy}
use svckit.Amqpcluster.Publish.{
  count_error, Published, answered, on_channel, channel_of, publish_to_node, counted_or,
  publish_to_any,
}

-- Node `k` has a channel that takes the message.
abbrev pub Accepts : (ℕ → Option Text) → ClusterAdapter → ℕ → Type 0
Accepts answers ca k =
    (n : Node) × (get_elem? ca.nodes k ≡ some n)
    × (is_some n.publish_ch ≡ true)
    × (answers k ≡ none)

-- Node `k` is healthy.
abbrev pub HealthyAt : List Node → ℕ → Type 0
HealthyAt ns k = (n : Node) × (get_elem? ns k ≡ some n) × (is_healthy n.state ≡ true)

modify-other :
    (k j : ℕ) (f : Node → Node) (ns : List Node)
    → k ≢ j
    → get_elem? (modify k f ns) j ≡ get_elem? ns j
modify-other k j f [] d = refl
modify-other zero zero f (n ∷ ns) d = absurd (d refl)
modify-other zero (suc j) f (n ∷ ns) d = refl
modify-other (suc k) zero f (n ∷ ns) d = refl
modify-other (suc k) (suc j) f (n ∷ ns) d = modify-other k j f ns (λ e. d (ap suc e))

-- What a call of `publishToNode` says of a node: it published exactly if the node accepts, and
-- otherwise the nodes that accept are as they were.
abbrev pub Tried : (ℕ → Option Text) → ℕ → ClusterAdapter → Published → Type 0
Tried answers k ca (ca', r, log) =
    ((r ≡ true) × Accepts answers ca k)
    ⊎ ((r ≡ false)
        × (Accepts answers ca k → ⊥)
        × ((j : ℕ) → answers j ≡ none → get_elem? ca'.nodes j ≡ get_elem? ca.nodes j))

answered-Tried :
    (answers : ℕ → Option Text) (k : ℕ) (ca : ClusterAdapter) (n : Node) (a : Option Text)
    → get_elem? ca.nodes k ≡ some n
    → is_some n.publish_ch ≡ true
    → answers k ≡ a
    → Tried answers k ca (answered k ca a)
answered-Tried answers k ca n none g c e = inl (refl, (n, g, c, e))
answered-Tried answers k ca n (some x) g c e = inr (
  refl,
  (λ (m, _, _, z). some-apart (sym e ∙ z)),
  (λ j z. modify-other k j count_error ca.nodes (λ s. some-apart (sym e ∙ (ap answers s ∙ z)))),
)
  where
    some-apart : some x ≡ none → ⊥
    some-apart q = cc

pub some-injective : {n m : Node} → some n ≡ some m → n ≡ m
some-injective q = cc

pub none-some : {n : Node} → ◌≡◌ {A = Option Node} none (some n) → ⊥
none-some q = cc

no_channel : (n : Node) → n.publish_ch ≡ none → is_some n.publish_ch ≡ true → ⊥
no_channel n c h = false-apart (sym (ap is_some c) ∙ h)
  where
    false-apart : false ≡ true → ⊥
    false-apart q = cc

pub publish_to_node-Tried :
    (answers : ℕ → Option Text) (k : ℕ) (ca : ClusterAdapter)
    → Tried answers k ca (publish_to_node answers k ca)
unfolding publish_to_node
publish_to_node-Tried answers k ca = by_node (get_elem? ca.nodes k) refl
  where
    by_channel :
        (n : Node) (c : Option ℕ)
        → get_elem? ca.nodes k ≡ some n
        → n.publish_ch ≡ c
        → Tried answers k ca (on_channel answers k ca c)
    by_channel n none g c = inr (
      refl,
      (λ (m, h, i, _).
          no_channel n c (subst (λ x. is_some x.publish_ch ≡ true) (some-injective (sym h ∙ g)) i)),
      (λ j z. refl),
    )
    by_channel n (some ch) g c = answered-Tried answers k ca n (answers k) g (ap is_some c) refl

    by_node :
        (o : Option Node)
        → get_elem? ca.nodes k ≡ o
        → Tried answers k ca (on_channel answers k ca (channel_of o))
    by_node none g = inr (refl, (λ (m, h, _, _). none-some (sym g ∙ h)), (λ j z. refl))
    by_node (some n) g = by_channel n n.publish_ch g refl

-- Acceptance is read off the node.
Accepts-kept :
    (answers : ℕ → Option Text) (ca ca' : ClusterAdapter) (j : ℕ)
    → ((i : ℕ) → answers i ≡ none → get_elem? ca'.nodes i ≡ get_elem? ca.nodes i)
    → Accepts answers ca j ↔ Accepts answers ca' j
Accepts-kept answers ca ca' j same =
    ((λ (n, g, c, z). (n, same j z ∙ g, c, z)), (λ (n, g, c, z). (n, sym (same j z) ∙ g, c, z)))

abbrev pub In : ℕ → List ℕ → Type 0
In k [] = ⊥
In k (x ∷ xs) = (x ≡ k) ⊎ In k xs

pub counted_or-true :
    (k : ℕ) (p : Published) (next : ClusterAdapter → Published)
    → p.1 ≡ true
    → (counted_or k p next).1 ≡ true
counted_or-true k (ca, true, log) next h = refl
counted_or-true k (ca, false, log) next h = absurd (cc)

pub counted_or-false :
    (k : ℕ) (p : Published) (next : ClusterAdapter → Published)
    → p.1 ≡ false
    → (counted_or k p next).1 ≡ (next p.0).1
counted_or-false k (ca, true, log) next h = absurd (cc)
counted_or-false k (ca, false, log) next h = refl

-- Among the nodes of a list: one that accepts.
abbrev SomeAccepts : (ℕ → Option Text) → ClusterAdapter → List ℕ → Type 0
SomeAccepts answers ca ks = (k : ℕ) × In k ks × Accepts answers ca k

pub publish_to_any_iff :
    (answers : ℕ → Option Text) (ks : List ℕ) (ca : ClusterAdapter)
    → ((publish_to_any answers ks ca).1 ≡ true) ↔ SomeAccepts answers ca ks
unfolding publish_to_any
publish_to_any_iff answers [] ca = ((λ h. absurd (cc)), (λ (k, i, _). absurd i))
publish_to_any_iff answers (k ∷ ks) ca =
    let p = publish_to_node answers k ca in
    let (to, from) = publish_to_any_iff answers ks p.0 in
    elim (publish_to_node-Tried answers k ca) [
      | inl (e, a) ↦
          ((λ h. (k, inl refl, a)), (λ h. counted_or-true k p (publish_to_any answers ks) e))
      | inr (e, refuses, same) ↦
          let step = counted_or-false k p (publish_to_any answers ks) e in
          (
            (λ h.
                let (j, i, a) = to (sym step ∙ h) in
                (j, inr i, (Accepts-kept answers ca p.0 j same).1 a)),
            (λ (j, i, a). elim i [
              | inl s ↦ absurd (refuses (subst (Accepts answers ca) (sym s) a))
              | inr t ↦ step ∙ from (j, t, (Accepts-kept answers ca p.0 j same).0 a)
            ]),
          )
    ]
