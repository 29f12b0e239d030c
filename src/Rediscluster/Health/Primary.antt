-- ===== src/Rediscluster/Health/Primary.antt =====
-- The primary client that `updatePrimaryClient` of rediscluster/health.go chooses.
use svckit.Base.{
  ℕ, suc, ◌≡◌, refl, ap, subst, Bool, true, false, ◌&&◌, List, [], ◌∷◌, Option, none, some, All,
  Bool-cases, inl, inr, ◌⊎◌, arith, ◌==◌, ==_iff, &&-parts,
}
use svckit.Base.Run.{done, blocked, >>=-eq-done, done-injective}
use svckit.Base.Text.{is_some}
use svckit.Rediscluster.Node.{RedisNode, ClusterAdapter, is_healthy, is_usable}
use svckit.Rediscluster.Health.{
  scan, kept_primary, choose_primary, client_of, update_primary_client, has_client,
}

abbrev pub Somewhere : (RedisNode → Type 0) → List RedisNode → Type 0
Somewhere P [] = ⊥
Somewhere P (n ∷ ns) = P n ⊎ Somewhere P ns

-- What a scan that ends has found.
abbrev Found : (RedisNode → Bool) → List RedisNode → Option RedisNode → Type 0
Found test ns none = All (λ n. test n ≡ false) ns
Found test ns (some m) = Somewhere (λ n. (n ≡ m) × (test n ≡ true)) ns

Found-cons :
    (test : RedisNode → Bool) (n : RedisNode) (ns : List RedisNode) (o : Option RedisNode)
    → test n ≡ false
    → Found test ns o
    → Found test (n ∷ ns) o
Found-cons test n ns none f h = (f, h)
Found-cons test n ns (some m) f h = inr h

blocked-eq-done {ℓ} : {A : Type ℓ} {a : A} → blocked ≡ done a → ⊥
blocked-eq-done h = cc

scan-Found :
    (test : RedisNode → Bool) (held i : ℕ) (ns : List RedisNode) (o : Option RedisNode)
    → scan test held i ns ≡ done o
    → Found test ns o
unfolding scan
scan-Found test held i [] o h = subst (Found test []) (done-injective h) tt
scan-Found test held i (n ∷ ns) o h = elim (Bool-cases (i == held)) [
  | inl e ↦ absurd (blocked-eq-done (rw (scan, e) at h))
  | inr e ↦ elim (Bool-cases (test n)) [
    | inl t ↦ subst (Found test (n ∷ ns)) (done-injective (rw (scan, e, t) at h)) (inl (refl, t))
    | inr t ↦ Found-cons test n ns o t (scan-Found test held (suc i) ns o (rw (scan, e, t) at h))
  ]
]

-- The client is one of a usable node, or there is none and no node is usable.
abbrev pub IsPrimary : List RedisNode → Option ℕ → Type 0
IsPrimary ns p =
    Somewhere (λ n. (is_usable n ≡ true) × (n.client ≡ p)) ns
    ⊎ ((p ≡ none) × All (λ n. is_usable n ≡ false) ns)

weaken :
    (P Q : RedisNode → Type 0) (ns : List RedisNode)
    → ((n : RedisNode) → P n → Q n)
    → Somewhere P ns
    → Somewhere Q ns
weaken P Q [] f h = absurd h
weaken P Q (n ∷ ns) f (inl h) = inl (f n h)
weaken P Q (n ∷ ns) f (inr h) = inr (weaken P Q ns f h)

Found-IsPrimary :
    (ns : List RedisNode) (o : Option RedisNode) → Found is_usable ns o → IsPrimary ns (client_of o)
Found-IsPrimary ns none h = inr (refl, h)
Found-IsPrimary ns (some m) h = inl (weaken _ _ ns (λ n (same, t). (t, ap (λ x. x.client) same)) h)

keeps :
    (p : ℕ) (c : Option ℕ) (b : Bool)
    → (has_client p c && b) ≡ true
    → (b && is_some c ≡ true) × (c ≡ some p)
keeps p none b h = absurd (cc)
keeps p (some c) b h = (ground arith, ap some ((==_iff c p).0 (&&-parts (c == p) b h).0))

kept-IsPrimary :
    (held : ℕ) (ns : List RedisNode) (p : Option ℕ) (n : RedisNode)
    → kept_primary held ns p ≡ done (some n)
    → Somewhere (λ m. (is_usable m ≡ true) × (m.client ≡ p)) ns
unfolding kept_primary
kept-IsPrimary held ns none n h = absurd (cc)
kept-IsPrimary held ns (some p) n h =
    weaken _ _ ns (λ m (same, t). keeps p m.client (is_healthy m.state) t)
      (scan-Found _ held 0 ns (some n) h)

choose-IsPrimary :
    (held : ℕ) (ca ca' : ClusterAdapter) (kept : Option RedisNode)
    → kept_primary held ca.nodes ca.primary_client ≡ done kept
    → choose_primary held ca kept ≡ done ca'
    → IsPrimary ca.nodes ca'.primary_client × (ca'.nodes ≡ ca.nodes)
unfolding choose_primary
choose-IsPrimary held ca ca' (some n) k h =
    subst (λ c. IsPrimary ca.nodes c.primary_client × (c.nodes ≡ ca.nodes)) (done-injective h)
      (inl (kept-IsPrimary held ca.nodes ca.primary_client n k), refl)
choose-IsPrimary held ca ca' none k h =
    let (found, e, rest) = >>=-eq-done (scan is_usable held 0 ca.nodes) _ h in
    subst (λ c. IsPrimary ca.nodes c.primary_client × (c.nodes ≡ ca.nodes)) (done-injective rest)
      (Found-IsPrimary ca.nodes found (scan-Found is_usable held 0 ca.nodes found e), refl)

-- An update of the primary client that ends leaves the nodes as they are and the client of a healthy
-- node, if there is one with a client, and none otherwise.
pub update_primary_client-IsPrimary :
    (held : ℕ) (ca ca' : ClusterAdapter)
    → update_primary_client held ca ≡ done ca'
    → IsPrimary ca.nodes ca'.primary_client × (ca'.nodes ≡ ca.nodes)
unfolding update_primary_client
update_primary_client-IsPrimary held ca ca' h =
    let (kept, e, rest) = >>=-eq-done (kept_primary held ca.nodes ca.primary_client) _ h in
    choose-IsPrimary held ca ca' kept e rest
