-- ===== src/Tests/Store.antt =====
-- The store at concrete inputs: bin/src/store.rs.
use nailgun.Prelude.{count, ◌≤◌, ℕ, ◌+◌, ◌≡◌, refl, List, [], ◌∷◌, length, add64}
use nailgun.Prelude.Assoc.{lookup}
use nailgun.Store.{Store, AtomicStore, clear_timeouts, copies}
use nailgun.Store.Timeouts.{IsKept, clear_timeouts_lem}

abbrev two_queries : Store
two_queries = record {
  ids = 7 ∷ [];
  in_flight = (3, record { sent = 10; len = 40 }) ∷ (4, record { sent = 95; len = 41 }) ∷ [];
}

abbrev counters : AtomicStore
counters = record { sent = 2; timed_out = 0 }

-- At time 100 with a timeout of 50 the first query is given up.
cleared : clear_timeouts 50 100 two_queries counters ≡ (
  record { ids = 7 ∷ 3 ∷ []; in_flight = (4, record { sent = 95; len = 41 }) ∷ [] },
  record { sent = 2; timed_out = 1 },
)
unfolding clear_timeouts
cleared = refl

clear_timeouts_lem_example :
    let r = clear_timeouts 50 100 two_queries counters in
    (removed : List ℕ) × (r.0.ids ≡ 7 ∷ removed)
    × (length removed + length r.0.in_flight ≡ 2)
    × (r.1.timed_out ≡ add64 0 (length removed))
    × (r.1.sent ≡ 2)
    × ((j : ℕ) → copies j r.0 ≡ copies j two_queries)
    × ((j : ℕ)
        → count j (3 ∷ 4 ∷ []) ≤ 1
        → IsKept 50 100 (lookup j two_queries.in_flight) (lookup j r.0.in_flight))
    × ((b : AtomicStore) → (clear_timeouts 50 100 r.0 b).0 ≡ r.0)
clear_timeouts_lem_example = clear_timeouts_lem 50 100 two_queries counters
