-- ===== src/Sender/Batch.antt =====
-- bin/src/sender.rs: which ids a batch takes out of the store.
use nailgun.Prelude.{
  ℕ, zero, suc, ◌+◌, ◌≤◌, ◌≡◌, refl, ◌⊎◌, inl, inr, true, false, List, [], ◌∷◌, arith, Bool-cases,
  length, take, drop, count,
}
use nailgun.Prelude.Assoc.{contains_key}
use nailgun.Store.{Store, QueryInfo}
use nailgun.Sender.{pop_ids, take_batch}

module _ (fl : List (ℕ × QueryInfo)) where
  length-pop_ids-le : (n : ℕ) (ids : List ℕ) → length (pop_ids n ids fl).0 ≤ n
  unfolding pop_ids
  length-pop_ids-le zero ids = omega arith
  length-pop_ids-le (suc n) [] = omega (arith, length-pop_ids-le n [])
  length-pop_ids-le (suc n) (id ∷ ids) = ground (arith, length-pop_ids-le n ids)

  count-pop_ids_absent :
      (j n : ℕ) (ids : List ℕ)
      → contains_key j fl ≡ false
      → let r = pop_ids n ids fl in count j r.0 + count j r.1 ≡ count j ids
  unfolding pop_ids
  count-pop_ids_absent j zero ids h = omega arith
  count-pop_ids_absent j (suc n) [] h = count-pop_ids_absent j n [] h
  count-pop_ids_absent j (suc n) (id ∷ ids) h = ground (arith, count-pop_ids_absent j n ids)

  count-pop_ids_present :
      (j n : ℕ) (ids : List ℕ) → contains_key j fl ≡ true → count j (pop_ids n ids fl).0 ≡ 0
  unfolding pop_ids
  count-pop_ids_present j zero ids h = refl
  count-pop_ids_present j (suc n) [] h = count-pop_ids_present j n [] h
  count-pop_ids_present j (suc n) (id ∷ ids) h = ground (arith, count-pop_ids_present j n ids)

  pop_ids_nil : (n : ℕ) → pop_ids n [] fl ≡ ([], [])
  unfolding pop_ids
  pop_ids_nil zero = refl
  pop_ids_nil (suc n) = pop_ids_nil n

  pop_ids_fresh :
      (n : ℕ) (ids : List ℕ)
      → ((j : ℕ) → contains_key j fl ≡ true → count j ids ≡ 0)
      → pop_ids n ids fl ≡ (take n ids, drop n ids)
  unfolding pop_ids
  pop_ids_fresh zero ids h = refl
  pop_ids_fresh (suc n) [] h = pop_ids_nil n
  pop_ids_fresh (suc n) (id ∷ ids) h =
      ground (arith, pop_ids_fresh n ids (λ j c. ground (arith, h j c)), h id)

-- A batch takes no more than `num` ids, none of which is in flight. Every copy of an id that is not
-- in flight is either taken or stays free; and what is in flight does not change.
pub take_batch_lem :
    (num : ℕ) (s : Store)
    → let (picked, s') = take_batch num s in
      (length picked ≤ num)
      × (s'.in_flight ≡ s.in_flight)
      × ((j : ℕ)
          → ((contains_key j s.in_flight ≡ true) × (count j picked ≡ 0))
            ⊎ ((contains_key j s.in_flight ≡ false)
                × (count j picked + count j s'.ids ≡ count j s.ids)))
unfolding take_batch
take_batch_lem num s = (
  length-pop_ids-le s.in_flight num s.ids,
  refl,
  λ j. elim (Bool-cases (contains_key j s.in_flight)) [
    | inl present ↦ inl (present, count-pop_ids_present s.in_flight j num s.ids present)
    | inr absent ↦ inr (absent, count-pop_ids_absent s.in_flight j num s.ids absent)
  ],
)

-- Where no free id is in flight, a batch is the first `num` free ids in their order, or all of them
-- if there are fewer, and the others stay in theirs.
pub take_batch_fresh :
    (num : ℕ) (s : Store)
    → ((j : ℕ) → contains_key j s.in_flight ≡ true → count j s.ids ≡ 0)
    → take_batch num s ≡ (take num s.ids, record s { ids = drop num s.ids })
unfolding take_batch
take_batch_fresh num s h = rw (pop_ids_fresh s.in_flight num s.ids h)
