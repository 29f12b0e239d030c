-- ===== src/Pgcluster/Routing/Laws.antt =====
-- What `Writer`, `Reader` and `DB` of pgcluster/manager.go return, on every branch.
use svckit.Base.{
  ℕ, zero, suc, ◌≡◌, refl, ap, Bool, true, false, List, [], ◌∷◌, Option, none, some, ok, err,
  modify, All, arith,
}
use svckit.Base.Int.{sub_ℕ, ◌≤ℤ◌}
use svckit.Pgcluster.Node.{DatabaseNode, ClusterManager}
use svckit.Pgcluster.Routing.{
  circuit_breaker_open, no_healthy_writer, is_circuit_open, open_circuit_breaker, can_write,
  take_writer, writer, reader, db,
}

abbrev count_write : DatabaseNode → DatabaseNode
count_write n = record n { write_count = suc n.write_count }

-- The first node of the list that can take writes stands at `k`.
abbrev pub FirstWriter : ℕ → DatabaseNode → List DatabaseNode → Type 0
FirstWriter k n [] = ⊥
FirstWriter zero n (x ∷ xs) = (x ≡ n) × (can_write x ≡ true)
FirstWriter (suc k) n (x ∷ xs) = (can_write x ≡ false) × FirstWriter k n xs

abbrev pub NoWriter : List DatabaseNode → Type 0
NoWriter = All λ n. can_write n ≡ false

take_writer_first :
    (k : ℕ) (n : DatabaseNode) (ns : List DatabaseNode)
    → FirstWriter k n ns
    → take_writer ns ≡ some (n.sql_db, modify k count_write ns)
unfolding take_writer
take_writer_first k n [] h = absurd h
take_writer_first zero n (x ∷ ns) h = rw h.1 (ap (λ y. some (y.sql_db, count_write x ∷ ns)) h.0)
take_writer_first (suc k) n (x ∷ ns) h = rw (h.0, take_writer_first k n ns h.1)

take_writer-none : (ns : List DatabaseNode) → NoWriter ns → take_writer ns ≡ none
unfolding take_writer
take_writer-none [] h = refl
take_writer-none (x ∷ ns) h = rw (h.0, take_writer-none ns h.1)

-- `Writer` returns the pool of the first healthy writer and counts its use, and changes nothing else.
pub writer_first :
    (now : ℕ) (cm : ClusterManager) (k : ℕ) (n : DatabaseNode)
    → (is_circuit_open now cm).1 ≡ false
    → FirstWriter k n cm.nodes
    → writer now cm
      ≡ (record cm { circuit_open = false; nodes = modify k count_write cm.nodes }, ok n.sql_db)
unfolding writer is_circuit_open
writer_first now cm k n c h = ground (arith, take_writer_first k n cm.nodes h)

-- Without a healthy writer `Writer` fails and opens the circuit breaker at once.
pub writer-none :
    (now : ℕ) (cm : ClusterManager)
    → (is_circuit_open now cm).1 ≡ false
    → NoWriter cm.nodes
    → writer now cm
      ≡ (record cm { circuit_open = true; circuit_open_time = now }, err no_healthy_writer)
unfolding writer is_circuit_open open_circuit_breaker
writer-none now cm c h = ground (arith, take_writer-none cm.nodes h)

-- One call of `Writer` that finds no healthy writer makes `DB`, for reads as for writes and however
-- many readers are healthy, refuse every call until the timeout has passed, changing nothing.
pub writer_miss_blocks :
    (now later after draw : ℕ) (cm : ClusterManager) (hint : Option Bool)
    → (is_circuit_open now cm).1 ≡ false
    → NoWriter cm.nodes
    → sub_ℕ later now ≤ℤ cm.config.circuit_breaker_timeout
    → let cm' = (writer now cm).0 in db hint later after draw cm' ≡ (cm', err circuit_breaker_open)
writer_miss_blocks now later after draw cm hint c h t = rw (writer-none now cm c h) (blocked hint)
  where
    blocked :
        (hint : Option Bool)
        → let cm' = record cm { circuit_open = true; circuit_open_time = now } in
          db hint later after draw cm' ≡ (cm', err circuit_breaker_open)
    blocked none = unfold db reader is_circuit_open in ground arith
    blocked (some true) = unfold db writer is_circuit_open in ground arith
    blocked (some false) = unfold db reader is_circuit_open in ground arith
