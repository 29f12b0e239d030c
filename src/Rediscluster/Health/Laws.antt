-- ===== src/Rediscluster/Health/Laws.antt =====
-- Which nodes of rediscluster/health.go recover, and which client is the primary one.
use svckit.Base.{
  ℕ, zero, suc, ◌*◌, ◌≡◌, refl, ap, sym, subst, ◌∙◌, false, List, [], ◌∷◌, Option, none, some,
  modify, get_elem?, All, Bool-cases, inl, inr, arith,
}
use svckit.Base.Int.{ℤ, pos, sub_ℕ, ltb_ℤ, ◌≤ℤ◌}
use svckit.Base.Run.{Run, done, blocked, >>=-eq-done, done-injective}
use svckit.Base.Text.{Text}
use svckit.Rediscluster.Node.{node_degraded, RedisNode, ClusterAdapter}
use svckit.Rediscluster.Health.{
  Checkup, connect_to_node, reconnected, after_ping, ping_client, check_client, check_node_health,
  check_often, put_node, second,
}

-- Node `k` is degraded.
abbrev pub DegradedAt : ℕ → ClusterAdapter → Type 0
DegradedAt k ca = (n : RedisNode) × (get_elem? ca.nodes k ≡ some n) × (n.state ≡ node_degraded)

get_elem?-modify :
    (k : ℕ) (ns : List RedisNode) (n m : RedisNode)
    → get_elem? ns k ≡ some n
    → get_elem? (modify k (λ _. m) ns) k ≡ some m
get_elem?-modify k [] n m h = absurd (cc)
get_elem?-modify zero (x ∷ ns) n m h = refl
get_elem?-modify (suc k) (x ∷ ns) n m h = get_elem?-modify k ns n m h

-- A check whose ping comes back within the timeout of the breaker.
abbrev pub IsPrompt : ℤ → Checkup → Type 0
IsPrompt timeout x = sub_ℕ x.later x.now ≤ℤ timeout

reconnected-blocked :
    (k : ℕ) (x : Checkup) (node : RedisNode) (ca : ClusterAdapter)
    → reconnected k x node ca ≡ blocked
unfolding reconnected connect_to_node
reconnected-blocked k x node ca = refl

blocked-done {ℓ} : {A : Type ℓ} {m : Run A} {a : A} → m ≡ blocked → m ≡ done a → ⊥
blocked-done p q = cc

not_late :
    (x : Checkup) (m : RedisNode) (timeout : ℤ)
    → m.last_check ≡ x.now
    → IsPrompt timeout x
    → ltb_ℤ timeout (sub_ℕ x.later m.last_check) ≡ false
not_late x m timeout e p = rw e (ground arith)

-- What a check leaves that finds the node degraded.
abbrev Stays : ℕ → ClusterAdapter → ClusterAdapter → Type 0
Stays k ca ca' = DegradedAt k ca' × (ca'.config ≡ ca.config)

put-Stays :
    (k : ℕ) (n m : RedisNode) (ca : ClusterAdapter)
    → get_elem? ca.nodes k ≡ some n
    → m.state ≡ node_degraded
    → Stays k ca (put_node k m ca)
put-Stays k n m ca g d = ((m, get_elem?-modify k ca.nodes n m g, d), refl)

ping_client-Stays :
    (k : ℕ) (x : Checkup) (n m : RedisNode) (ping : Option Text) (ca ca' : ClusterAdapter)
    → get_elem? ca.nodes k ≡ some n
    → m.state ≡ node_degraded
    → m.last_check ≡ x.now
    → IsPrompt ca.config.circuit_breaker_timeout x
    → ping_client k x m ping ca ≡ done ca'
    → Stays k ca ca'
unfolding ping_client after_ping reconnected connect_to_node
ping_client-Stays k x n m none ca ca' g d l p h =
    let m' = record m { last_latency = x.latency } in
    let same : after_ping k x m' m.state ca ≡ done (put_node k m' ca) =
      ap (λ state. after_ping k x m' state ca) d
      ∙ rw (after_ping, not_late x m' ca.config.circuit_breaker_timeout l p) refl in
    subst (Stays k ca) (done-injective (sym same ∙ h)) (put-Stays k n m' ca g d)
ping_client-Stays k x n m (some e) ca ca' g d l p h = absurd (blocked-done refl h)

check_client-Stays :
    (k : ℕ) (x : Checkup) (n m : RedisNode) (client : Option ℕ) (ca ca' : ClusterAdapter)
    → get_elem? ca.nodes k ≡ some n
    → m.state ≡ node_degraded
    → m.last_check ≡ x.now
    → IsPrompt ca.config.circuit_breaker_timeout x
    → check_client k x m client ca ≡ done ca'
    → Stays k ca ca'
unfolding check_client
check_client-Stays k x n m none ca ca' g d l p h =
    absurd (blocked-done (reconnected-blocked k x m ca) h)
check_client-Stays k x n m (some c) ca ca' g d l p h =
    ping_client-Stays k x n m x.ping ca ca' g d l p h

check_node_health-Stays :
    (k : ℕ) (x : Checkup) (node : RedisNode) (ca ca' : ClusterAdapter)
    → get_elem? ca.nodes k ≡ some node
    → node.state ≡ node_degraded
    → IsPrompt ca.config.circuit_breaker_timeout x
    → check_node_health k x node ca ≡ done ca'
    → Stays k ca ca'
unfolding check_node_health
check_node_health-Stays k x node ca ca' g d p h =
    elim (Bool-cases (ltb_ℤ (sub_ℕ x.now node.last_check) (pos (10 * second)))) [
      | inl r ↦
          subst (Stays k ca) (done-injective (rw (check_node_health, r) at h)) ((node, g, d), refl)
      | inr r ↦
          check_client-Stays k x node (record node { last_check = x.now }) node.client ca ca' g d
            refl p (rw (check_node_health, r) at h)
    ]

-- A degraded node never recovers: after any number of health checks whose pings come back within
-- `CircuitBreakerTimeout`, at any intervals, it is degraded still, or a check has blocked.
pub check_often-DegradedAt :
    (k : ℕ) (xs : List Checkup) (ca ca' : ClusterAdapter)
    → DegradedAt k ca
    → All (IsPrompt ca.config.circuit_breaker_timeout) xs
    → check_often k xs ca ≡ done ca'
    → DegradedAt k ca'
unfolding check_often
check_often-DegradedAt k [] ca ca' d p h = subst (DegradedAt k) (done-injective h) d
check_often-DegradedAt k (x ∷ xs) ca ca' (node, g, d) p h =
    let (ca1, e, rest) = >>=-eq-done (check_node_health k x node ca) _ (rw (check_often, g) at h) in
    let (degraded, config) = check_node_health-Stays k x node ca ca1 g d p.0 e in
    check_often-DegradedAt k xs ca1 ca' degraded
      (subst (λ c. All (IsPrompt c.circuit_breaker_timeout) xs) (sym config) p.1) rest
