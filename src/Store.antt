-- ===== src/Store.antt =====
-- bin/src/store.rs: the ids that are free, the queries in flight, and the counters that the
-- generator shares with its sender. An `Instant` is a number of nanoseconds; the difference of two
-- is 0 where the second is later. The shuffle of the `rand` crate is a parameter.
pub mod Timeouts
pub mod Fresh
use nailgun.Prelude.{
  ℕ, zero, suc, ◌+◌, ◌-◌, Bool, List, [], ◌∷◌, ◌++◌, leb, if◌then◌else◌, length, count, add64,
}
use nailgun.Prelude.Assoc.{keys}

pub record QueryInfo : Type 0 where
  pub sent : ℕ
  pub len : ℕ

pub record Store : Type 0 where
  pub ids : List ℕ
  pub in_flight : List (ℕ × QueryInfo)

pub record AtomicStore : Type 0 where
  pub sent : ℕ
  pub timed_out : ℕ

-- `AtomicStore::reset`: both counters are stored to, whatever they were.
unfoldable pub reset : AtomicStore → AtomicStore
reset a = record { sent = 0; timed_out = 0 }

-- `fetch_add` wraps.
unfoldable pub add_sent : ℕ → AtomicStore → AtomicStore
add_sent n a = record a { sent = add64 a.sent n }

unfoldable pub add_timed_out : ℕ → AtomicStore → AtomicStore
add_timed_out n a = record a { timed_out = add64 a.timed_out n }

-- The test of the closure that `clear_timeouts` gives to `retain`.
abbrev pub is_expired : ℕ → ℕ → QueryInfo → Bool
is_expired timeout now info = leb timeout (now - info.sent)

-- `retain` with that closure: the entries that stay, and the ids that it pushed.
unfoldable pub retain_live : ℕ → ℕ → List (ℕ × QueryInfo) → List (ℕ × QueryInfo) × List ℕ
retain_live timeout now [] = ([], [])
retain_live timeout now ((id, info) ∷ m) =
    let (kept, ids) = retain_live timeout now m in
    if is_expired timeout now info then (kept, id ∷ ids) else ((id, info) ∷ kept, ids)

unfoldable pub clear_timeouts : ℕ → ℕ → Store → AtomicStore → Store × AtomicStore
unfolding retain_live add_timed_out
clear_timeouts timeout now s a =
    let (kept, ids) = retain_live timeout now s.in_flight in
    (record { ids = s.ids ++ ids; in_flight = kept }, add_timed_out (length ids) a)

-- `(lo..lo + n).collect()`
unfoldable pub range_from : ℕ → ℕ → List ℕ
range_from lo zero = []
range_from lo (suc n) = lo ∷ range_from (suc lo) n

-- `0..u16::max_value()` ends before 65535.
abbrev pub id_count : ℕ
id_count = 65535

unfoldable pub create_and_shuffle : (List ℕ → List ℕ) → List ℕ
create_and_shuffle shuffle = shuffle (range_from 0 id_count)

-- `Store::new`
unfoldable pub fresh : (List ℕ → List ℕ) → Store
unfolding create_and_shuffle
fresh shuffle = record { ids = create_and_shuffle shuffle; in_flight = [] }

-- How many copies of an id the store holds, free or in flight.
abbrev pub copies : ℕ → Store → ℕ
copies j s = count j s.ids + count j (keys s.in_flight)
