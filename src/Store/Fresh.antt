-- ===== src/Store/Fresh.antt =====
-- bin/src/store.rs, `create_and_shuffle` and `Store::new`: which ids a new store holds.
use nailgun.Prelude.{
  ℕ, zero, suc, ◌+◌, ◌≡◌, refl, ◌&&◌, List, [], arith, ltb, leb, if◌then◌else◌, count,
}
use nailgun.Store.{range_from, id_count, create_and_shuffle, fresh, copies}

count-range_from :
    (j lo n : ℕ) → count j (range_from lo n) ≡ (if leb lo j && ltb j (lo + n) then 1 else 0)
unfolding range_from
count-range_from j lo zero = ground arith
count-range_from j lo (suc n) = ground (arith, count-range_from j (suc lo) n)

-- With a shuffle that permutes, a new store holds each of the ids 0 to 65534 exactly once, all
-- free, and never the id 65535.
pub copies-fresh :
    (shuffle : List ℕ → List ℕ)
    → ((j : ℕ) (l : List ℕ) → count j (shuffle l) ≡ count j l)
    → (j : ℕ)
    → (copies j (fresh shuffle) ≡ (if ltb j id_count then 1 else 0))
      × ((fresh shuffle).in_flight ≡ [])
unfolding fresh create_and_shuffle
copies-fresh shuffle permutes j =
    (rw permutes (ground (arith, count-range_from j 0 id_count)), refl)
