-- ===== src/Rediscluster/Adapter/Laws.antt =====
-- What `NewClusterAdapter` of rediscluster/adapter.go promises of the adapter that it returns.
use svckit.Base.{
  ℕ, suc, ◌<◌, ◌≡◌, refl, ap, ◌∙◌, Bool, true, false, List, [], ◌∷◌, Option, none, some, length,
  arith,
}
use svckit.Base.Run.{done, ◌>>=◌}
use svckit.Base.Text.{Text, is_some}
use svckit.Rediscluster.Node.{RedisNode, is_usable}
use svckit.Rediscluster.Health.{Link, connect_to_node, link_up, client_of}
use svckit.Rediscluster.Adapter.{
  new_node, new_nodes, Connected, with_node, counted, last_of, connect_from, get_first_healthy_node,
}

-- The client that a link gives: none if the URL or the ping has an error.
abbrev pub client_up : Link → Option ℕ
client_up l = elim l.parse_error [
  | some e ↦ none
  | none ↦ elim l.ping_error [ some e ↦ none | none ↦ some l.new_client ]
]

abbrev pub earlier : Option ℕ → Option ℕ → Option ℕ
earlier none later = later
earlier (some c) later = some c

-- The client of the first link that is up, for the nodes from `i` on.
abbrev pub first_up : (ℕ → Link) → ℕ → List Text → Option ℕ
first_up links i [] = none
first_up links i (url ∷ urls) = earlier (client_up (links i)) (first_up links (suc i) urls)

-- A node and the error that connecting it leaves, by the client of the link.
abbrev Linked : Option ℕ → RedisNode → Option Text → Type 0
Linked none m r = (is_usable m ≡ false) × (is_some r ≡ true)
Linked (some c) m r = (is_usable m ≡ true) × (m.client ≡ some c) × (r ≡ none)

abbrev Joined : Link → RedisNode → Type 0
Joined l n = Linked (client_up l) (link_up l n).0 (link_up l n).1

link_up-Joined :
    (l : Link) (n : RedisNode) (parse ping : Option Text)
    → n.client ≡ none
    → l.parse_error ≡ parse
    → l.ping_error ≡ ping
    → Joined l n
unfolding link_up
link_up-Joined l n (some e) ping c p q = rw (link_up, p) (refl, refl)
link_up-Joined l n none (some e) c p q = rw (link_up, p, q) (refl, refl)
link_up-Joined l n none none c p q = rw (link_up, p, q) (refl, refl, refl)

-- What the loop from node `i` leaves, with `healthy` nodes counted before.
abbrev pub Rises : Option ℕ → ℕ → ℕ → Type 0
Rises none healthy total = total ≡ healthy
Rises (some c) healthy total = healthy < total

abbrev pub Loops : Option ℕ → ℕ → List Text → Connected → Type 0
Loops up healthy urls (ns, total, last) =
    (client_of (get_first_healthy_node ns) ≡ up)
    × (length ns ≡ length urls)
    × Rises up healthy total

first_healthy-cons :
    (m : RedisNode) (ns : List RedisNode) (b : Bool)
    → is_usable m ≡ b
    → get_first_healthy_node (m ∷ ns)
      ≡ (elim b [ true ↦ some m | false ↦ get_first_healthy_node ns ])
unfolding get_first_healthy_node
first_healthy-cons m ns true h = rw (get_first_healthy_node, h)
first_healthy-cons m ns false h = rw (get_first_healthy_node, h)

Rises-suc : (up : Option ℕ) (healthy total : ℕ) → Rises up (suc healthy) total → healthy < total
Rises-suc none healthy total h = omega (arith, h)
Rises-suc (some c) healthy total h = omega (arith, h)

Loops-cons :
    (up later : Option ℕ) (m : RedisNode) (r : Option Text) (healthy : ℕ) (url : Text)
    (urls : List Text) (c : Connected)
    → Linked up m r
    → Loops later (counted r healthy) urls c
    → Loops (earlier up later) healthy (url ∷ urls) (with_node m c)
Loops-cons none later m none healthy url urls (ns, total, last) l h = absurd (cc)
Loops-cons none later m (some e) healthy url urls (ns, total, last) l (first, len, rises) =
    (ap client_of (first_healthy-cons m ns false l.0) ∙ first, omega (arith, len), rises)
Loops-cons (some p) later m none healthy url urls (ns, total, last) l (first, len, rises) = (
  ap client_of (first_healthy-cons m ns true l.0) ∙ l.1,
  omega (arith, len),
  Rises-suc later healthy total rises,
)
Loops-cons (some p) later m (some e) healthy url urls (ns, total, last) l h = absurd (cc)

new_node-client : (i now : ℕ) (url : Text) → (new_node i now url).client ≡ none
unfolding new_node
new_node-client i now url = refl

pub connect_from-Loops :
    (clock : ℕ → ℕ) (links : ℕ → Link) (i healthy : ℕ) (last : Option Text) (urls : List Text)
    → (c : Connected) × (connect_from links i healthy last (new_nodes clock i urls) ≡ done c)
      × Loops (first_up links i urls) healthy urls c
unfolding connect_from new_nodes connect_to_node get_first_healthy_node
connect_from-Loops clock links i healthy last [] = (_, refl, (refl, refl, refl))
connect_from-Loops clock links i healthy last (url ∷ urls) =
    let n = new_node i (clock i) url in
    let l = links i in
    let r = link_up l n in
    let (c, e, loops) =
      connect_from-Loops clock links (suc i) (counted r.1 healthy) (last_of r.1 last) urls in
    let joined = link_up-Joined l n _ _ (new_node-client i (clock i) url) refl refl in
    (
      with_node r.0 c,
      ap (λ x. x >>= λ rest. done (with_node r.0 rest)) e,
      Loops-cons (client_up l) (first_up links (suc i) urls) r.0 r.1 healthy url urls c joined
          loops,
    )
