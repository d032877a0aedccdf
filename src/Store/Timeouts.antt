-- ===== src/Store/Timeouts.antt =====
-- bin/src/store.rs, `clear_timeouts`: what stays in flight, what comes back, and what is counted.
use nailgun.Prelude.{
  ℕ, ◌+◌, ◌-◌, ◌<◌, ◌≤◌, ◌≡◌, refl, Option, none, some, List, [], ◌∷◌, ◌++◌, append-nil, arith,
  if◌then◌else◌, length, count, count-append, add64,
}
use nailgun.Prelude.Assoc.{keys, lookup, lookup_absent}
use nailgun.Store.{Store, AtomicStore, QueryInfo, is_expired, retain_live, clear_timeouts, copies}

count-retain_live :
    (j timeout now : ℕ) (m : List (ℕ × QueryInfo))
    → let r = retain_live timeout now m in count j r.1 + count j (keys r.0) ≡ count j (keys m)
unfolding retain_live
count-retain_live j timeout now [] = refl
count-retain_live j timeout now ((id, info) ∷ m) = ground (arith, count-retain_live j timeout now m)

length-retain_live :
    (timeout now : ℕ) (m : List (ℕ × QueryInfo))
    → let r = retain_live timeout now m in length r.1 + length r.0 ≡ length m
unfolding retain_live
length-retain_live timeout now [] = refl
length-retain_live timeout now ((id, info) ∷ m) = ground (arith, length-retain_live timeout now m)

-- What is left of an entry after the timeouts are cleared.
abbrev pub unexpired : ℕ → ℕ → Option QueryInfo → Option QueryInfo
unexpired timeout now none = none
unexpired timeout now (some info) = if is_expired timeout now info then none else some info

lookup-retain_live :
    (j timeout now : ℕ) (m : List (ℕ × QueryInfo))
    → count j (keys m) ≤ 1
    → lookup j (retain_live timeout now m).0 ≡ unexpired timeout now (lookup j m)
unfolding retain_live lookup
lookup-retain_live j timeout now [] h = refl
lookup-retain_live j timeout now ((id, info) ∷ m) h = ground (
  arith,
  lookup-retain_live j timeout now m,
  lookup_absent j m,
  lookup_absent j (retain_live timeout now m).0,
  count-retain_live j timeout now m,
)

retain_live_twice :
    (timeout now : ℕ) (m : List (ℕ × QueryInfo))
    → let kept = (retain_live timeout now m).0 in retain_live timeout now kept ≡ (kept, [])
unfolding retain_live
retain_live_twice timeout now [] = refl
retain_live_twice timeout now ((id, info) ∷ m) = ground (arith, retain_live_twice timeout now m)

-- Clearing the timeouts moves ids from the queries in flight back to the free ids: no id is lost or
-- made up, whatever the store holds.
pub copies-clear_timeouts :
    (j timeout now : ℕ) (s : Store) (a : AtomicStore)
    → copies j (clear_timeouts timeout now s a).0 ≡ copies j s
unfolding clear_timeouts
copies-clear_timeouts j timeout now s a = omega (
  arith,
  count-retain_live j timeout now s.in_flight,
  count-append j s.ids (retain_live timeout now s.in_flight).1,
)

-- An id that has at most one query in flight keeps it exactly if it is younger than the timeout.
lookup-clear_timeouts :
    (j timeout now : ℕ) (s : Store) (a : AtomicStore)
    → count j (keys s.in_flight) ≤ 1
    → lookup j (clear_timeouts timeout now s a).0.in_flight
      ≡ unexpired timeout now (lookup j s.in_flight)
unfolding clear_timeouts
lookup-clear_timeouts j timeout now s a h = lookup-retain_live j timeout now s.in_flight h

-- The counter of timeouts grows, modulo 2 ^ 64, by the number of queries taken out of flight, as
-- many ids go to the end of the free ones, and the counter of queries sent stays.
pub clear_timeouts_counts :
    (timeout now : ℕ) (s : Store) (a : AtomicStore)
    → let r = clear_timeouts timeout now s a in
      (removed : List ℕ) × (r.0.ids ≡ s.ids ++ removed)
      × (length removed + length r.0.in_flight ≡ length s.in_flight)
      × (r.1.timed_out ≡ add64 a.timed_out (length removed))
      × (r.1.sent ≡ a.sent)
unfolding clear_timeouts
clear_timeouts_counts timeout now s a = (
  (retain_live timeout now s.in_flight).1,
  refl,
  length-retain_live timeout now s.in_flight,
  refl,
  refl,
)

-- To clear again at the same time, once the first result is in place, leaves the store as it is.
clear_timeouts_twice :
    (timeout now : ℕ) (s : Store) (a b : AtomicStore)
    → let once = (clear_timeouts timeout now s a).0 in (clear_timeouts timeout now once b).0 ≡ once
unfolding clear_timeouts
clear_timeouts_twice timeout now s a b = rw (retain_live_twice timeout now s.in_flight, append-nil)

-- A query that was sent less than the timeout ago stays as it is, any other goes, and none is added.
abbrev pub IsKept : ℕ → ℕ → Option QueryInfo → Option QueryInfo → Type 0
IsKept timeout now none after = after ≡ none
IsKept timeout now (some info) after =
    (now - info.sent < timeout → after ≡ some info) × (timeout ≤ now - info.sent → after ≡ none)

unexpired-IsKept :
    (timeout now : ℕ) (o : Option QueryInfo) → IsKept timeout now o (unexpired timeout now o)
unexpired-IsKept timeout now none = refl
unexpired-IsKept timeout now (some info) = ((λ young. ground arith), (λ old. ground arith))

-- Clearing the timeouts takes some queries out of flight: their ids go to the end of the free ones,
-- the counter of timeouts grows by their number, modulo 2 ^ 64, and the counter of queries sent
-- stays. No id is lost or made up. An id that has at most one query in flight keeps it exactly if it
-- is younger than the timeout. To clear again at the same time changes nothing in the store.
pub clear_timeouts_lem :
    (timeout now : ℕ) (s : Store) (a : AtomicStore)
    → let r = clear_timeouts timeout now s a in
      (removed : List ℕ) × (r.0.ids ≡ s.ids ++ removed)
      × (length removed + length r.0.in_flight ≡ length s.in_flight)
      × (r.1.timed_out ≡ add64 a.timed_out (length removed))
      × (r.1.sent ≡ a.sent)
      × ((j : ℕ) → copies j r.0 ≡ copies j s)
      × ((j : ℕ)
          → count j (keys s.in_flight) ≤ 1
          → IsKept timeout now (lookup j s.in_flight) (lookup j r.0.in_flight))
      × ((b : AtomicStore) → (clear_timeouts timeout now r.0 b).0 ≡ r.0)
clear_timeouts_lem timeout now s a =
    let (removed, ids, left, timeouts, sent) = clear_timeouts_counts timeout now s a in
    (
      removed,
      ids,
      left,
      timeouts,
      sent,
      λ j. copies-clear_timeouts j timeout now s a,
      λ j h.
          rw (lookup-clear_timeouts j timeout now s a h)
            (unexpired-IsKept timeout now (lookup j s.in_flight)),
      λ b. clear_timeouts_twice timeout now s a b,
    )
