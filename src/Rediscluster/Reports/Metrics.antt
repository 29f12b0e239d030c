-- ===== src/Rediscluster/Reports/Metrics.antt =====
-- The latencies that `GetMetrics` of rediscluster/adapter.go reports.
use svckit.Base.{
  ℕ, zero, suc, ◌+◌, ◌*◌, ◌/◌, ◌≤◌, ◌<◌, ◌≡◌, refl, List, [], ◌∷◌, All, inl, inr, ◌⊎◌, ◌==◌, ltb,
  ◌||◌, if◌then◌else◌, arith,
}
use native.Mathlib.Nat.{zero-lt-suc, mul-le-mul_right, le-div_iff_mul-le, div-lt_iff_lt-mul}
use svckit.Rediscluster.Node.{RedisNode, ClusterAdapter}
use svckit.Rediscluster.Reports.{
  Totals, add_node, with_latency, no_totals, total_from, average, get_metrics,
}

-- Nothing is counted, or the latencies that are lie between positive bounds.
abbrev Counts : ℕ → ℕ → Type 0
Counts count least = ((count ≡ 0) × (least ≡ 0)) ⊎ ((0 < count) × (0 < least))

abbrev Bounded : (least greatest latency count : ℕ) → Type 0
Bounded least greatest latency count =
    (least ≤ greatest) × (least * count ≤ latency) × (latency ≤ greatest * count)

abbrev Sums : Totals → Type 0
Sums t = Bounded t.least t.greatest t.latency t.latency_count × Counts t.latency_count t.least

-- The totals after some more nodes.
abbrev Widens : Totals → Totals → Type 0
Widens t u = ((t.least ≡ 0) ⊎ ((0 < u.least) × (u.least ≤ t.least))) × (t.greatest ≤ u.greatest)

abbrev lower : ℕ → ℕ → ℕ
lower least l = if least == 0 || ltb l least then l else least

abbrev upper : ℕ → ℕ → ℕ
upper greatest l = if ltb greatest l then l else greatest

lower_lem :
    (least l : ℕ)
    → 0 < l
    → (lower least l ≤ l)
      × ((least ≡ 0) ⊎ ((0 < lower least l) × (lower least l ≤ least)))
      × (0 < lower least l)
lower_lem least l p = (ground arith, ground arith, ground arith)

upper_lem : (greatest l : ℕ) → (greatest ≤ upper greatest l) × (l ≤ upper greatest l)
upper_lem greatest l = (ground arith, ground arith)

widened_low :
    (least least' l latency count : ℕ)
    → least' ≤ l
    → (least ≡ 0) ⊎ ((0 < least') × (least' ≤ least))
    → Counts count least
    → least * count ≤ latency
    → least' * suc count ≤ latency + l
widened_low least least' l latency count a (inr b) c h = omega (arith, mul-le-mul_right count b.1)
widened_low least least' l latency count a (inl b) (inl (c, z)) h = rw c (omega arith)
widened_low least least' l latency count a (inl b) (inr (c, z)) h = absurd (omega arith)

widened_high :
    (greatest greatest' l latency count : ℕ)
    → greatest ≤ greatest'
    → l ≤ greatest'
    → latency ≤ greatest * count
    → latency + l ≤ greatest' * suc count
widened_high greatest greatest' l latency count a b h = omega (arith, mul-le-mul_right count a)

Widens-self : (t : Totals) → Widens t t
Widens-self t = (ground arith, omega arith)

with_latency-Sums :
    (l : ℕ) (t : Totals) → Sums t → Sums (with_latency l t) × Widens t (with_latency l t)
with_latency-Sums zero t h = (h, Widens-self t)
with_latency-Sums (suc l) t ((order, low, high), counts) =
    let (below, least, positive) = lower_lem t.least (suc l) (omega arith) in
    let (greatest, above) = upper_lem t.greatest (suc l) in
    (
      (
        (
          omega (arith, below, above),
          widened_low t.least _ (suc l) t.latency t.latency_count below least counts low,
          widened_high t.greatest _ (suc l) t.latency t.latency_count greatest above high,
        ),
        inr (omega arith, positive),
      ),
      (least, greatest),
    )

-- A latency that is counted lies between the bounds.
abbrev pub Between : (least greatest latency : ℕ) → Type 0
Between least greatest latency =
    (latency ≡ 0) ⊎ ((0 < least) × (least ≤ latency) × (latency ≤ greatest))

with_latency-Between :
    (l : ℕ) (t : Totals) → Between (with_latency l t).least (with_latency l t).greatest l
with_latency-Between zero t = inl refl
with_latency-Between (suc l) t =
    let (below, _, positive) = lower_lem t.least (suc l) (omega arith) in
    inr (positive, below, (upper_lem t.greatest (suc l)).1)

Widens-then : (t u v : Totals) → Widens t u → Widens u v → Widens t v
Widens-then t u v (inl a, b) (d, e) = (inl a, omega arith)
Widens-then t u v (inr a, b) (inl d, e) = absurd (omega arith)
Widens-then t u v (inr a, b) (inr d, e) = (inr (d.0, omega arith), omega arith)

Between-Widens :
    (l : ℕ) (t u : Totals)
    → Between t.least t.greatest l
    → Widens t u
    → Between u.least u.greatest l
Between-Widens l t u (inl z) b = inl z
Between-Widens l t u (inr a) (inl z, b) = absurd (omega arith)
Between-Widens l t u (inr a) (inr d, b) = inr (d.0, omega arith, omega arith)

-- Every latency lies between the bounds of the totals.
abbrev Spans : Totals → List RedisNode → Type 0
Spans t ns = All (λ n. Between t.least t.greatest n.last_latency) ns

total_from-Sums :
    (t : Totals) (ns : List RedisNode)
    → Sums t
    → Sums (total_from t ns) × Widens t (total_from t ns) × Spans (total_from t ns) ns
unfolding total_from
total_from-Sums t [] h = (h, Widens-self t, tt)
total_from-Sums t (n ∷ ns) h =
    let t' = record t {
      operations = t.operations + n.ops_count;
      failed = t.failed + n.error_count;
    } in
    let (sums, widens) = with_latency-Sums n.last_latency t' h in
    let total = total_from (add_node n t) ns in
    let (sums', widens', spans) = total_from-Sums (add_node n t) ns sums in
    (
      sums',
      Widens-then t (add_node n t) total widens widens',
      (
        Between-Widens n.last_latency (add_node n t) total (with_latency-Between n.last_latency t')
            widens',
        spans,
      ),
    )

average-Between :
    (least greatest latency count : ℕ)
    → Bounded least greatest latency count
    → Counts count least
    → (least ≤ average latency count) × (average latency count ≤ greatest)
average-Between least greatest latency zero h (inl (c, z)) = (omega arith, omega arith)
average-Between least greatest latency zero h (inr c) = absurd (omega arith)
average-Between least greatest latency (suc count) (order, low, high) c =
    let below : latency < suc greatest * suc count = omega (arith, high) in
    let within : latency / suc count < suc greatest =
      (div-lt_iff_lt-mul (zero-lt-suc count)).1 below in
    ((le-div_iff_mul-le (zero-lt-suc count)).1 low, omega (arith, within))

-- The average of the reported latencies lies between the least and the greatest one, and so does the
-- latency of every node that has one.
pub get_metrics-Between :
    (now : ℕ) (ca : ClusterAdapter)
    → ((get_metrics now ca).min_latency ≤ (get_metrics now ca).average_latency)
      × ((get_metrics now ca).average_latency ≤ (get_metrics now ca).max_latency)
      × All
          (λ n.
            Between
              (get_metrics now ca).min_latency
              (get_metrics now ca).max_latency
              n.last_latency)
          ca.nodes
unfolding get_metrics
get_metrics-Between now ca =
    let (sums, _, spans) =
      total_from-Sums no_totals ca.nodes
        ((omega arith, omega arith, omega arith), inl (refl, refl)) in
    let (low, high) = average-Between _ _ _ _ sums.0 sums.1 in (low, high, spans)
