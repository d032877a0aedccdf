-- ===== src/Prelude/Assoc.antt =====
-- `FxHashMap` with integer keys, as an association list in the order of iteration. The program
-- relies on no order of iteration; the keys of a map are distinct, which the invariants carry.
use Prim.Native.Nat.{ℕ, ◌+◌, ◌%◌, ◌≤◌}
use mathlib.Core.Path.{◌≡◌, refl}
use mathlib.Core.Bool.{Bool, true, false}
use mathlib.Core.List.{List, [], ◌∷◌}
use mathlib.Core.Option.{Option, none, some}
use native.Mathlib.Omega.{arith}
use nailgun.Prelude.Tests.{◌==◌, if◌then◌else◌}
use nailgun.Prelude.Lists.{length, count}
use nailgun.Prelude.Word.{add64, u64_mod}

module _ {ℓ} {V : Type ℓ} where
  abbrev pub keys : List (ℕ × V) → List ℕ
  keys [] = []
  keys ((k, v) ∷ m) = k ∷ keys m

  -- The test asks whether the entry's key is the one that is sought.
  unfoldable pub lookup : ℕ → List (ℕ × V) → Option V
  lookup key [] = none
  lookup key ((found, val) ∷ rest) = if found == key then some val else lookup key rest

  unfoldable pub contains_key : ℕ → List (ℕ × V) → Bool
  unfolding lookup
  contains_key k m = elim (lookup k m) [ none ↦ false | some _ ↦ true ]

  -- An entry with the key is replaced where it stands; a new one goes to the end.
  unfoldable pub insert : ℕ → V → List (ℕ × V) → List (ℕ × V)
  insert key val [] = (key, val) ∷ []
  insert key val ((found, old) ∷ rest) =
      if found == key then (key, val) ∷ rest else (found, old) ∷ insert key val rest

  unfoldable pub remove : ℕ → List (ℕ × V) → List (ℕ × V)
  remove k [] = []
  remove k ((j, v) ∷ m) = if j == k then m else (j, v) ∷ remove k m

  pub lookup-insert_self :
      (key : ℕ) (val : V) (m : List (ℕ × V)) → lookup key (insert key val m) ≡ some val
  unfolding lookup insert
  lookup-insert_self key val [] = ground arith
  lookup-insert_self key val ((_, _) ∷ rest) = ground (arith, lookup-insert_self key val rest)

  -- A key that is not there occurs in no entry, and one that is there in at least one.
  pub count-keys_absent : (k : ℕ) (m : List (ℕ × V)) → lookup k m ≡ none → count k (keys m) ≡ 0
  unfolding lookup
  count-keys_absent k [] h = refl
  count-keys_absent k ((j, v) ∷ m) h = ground (arith, count-keys_absent k m)

  pub count-keys_present :
      (k : ℕ) (v : V) (m : List (ℕ × V)) → lookup k m ≡ some v → 1 ≤ count k (keys m)
  unfolding lookup
  count-keys_present k v [] h = ground arith
  count-keys_present k v ((j, w) ∷ m) h = ground (arith, count-keys_present k v m)

  pub lookup_absent : (k : ℕ) (m : List (ℕ × V)) → count k (keys m) ≡ 0 → lookup k m ≡ none
  unfolding lookup
  lookup_absent k [] h = refl
  lookup_absent k ((j, v) ∷ m) h = ground (arith, lookup_absent k m)

  pub count-insert :
      (k j : ℕ) (v : V) (m : List (ℕ × V))
      → count j (keys (insert k v m))
        ≡ count j (keys m) + (if contains_key k m then 0 else (if j == k then 1 else 0))
  unfolding lookup insert contains_key
  count-insert k j v [] = ground arith
  count-insert k j v ((i, w) ∷ m) = ground (arith, count-insert k j v m)

  pub count-remove :
      (k j : ℕ) (m : List (ℕ × V))
      → count j (keys m)
        ≡ count j (keys (remove k m)) + (if contains_key k m then (if j == k then 1 else 0) else 0)
  unfolding lookup remove contains_key
  count-remove k j [] = ground arith
  count-remove k j ((i, w) ∷ m) = ground (arith, count-remove k j m)

  pub remove_absent : (k : ℕ) (m : List (ℕ × V)) → lookup k m ≡ none → remove k m ≡ m
  unfolding lookup remove
  remove_absent k [] h = refl
  remove_absent k ((j, v) ∷ m) h = ground (arith, remove_absent k m)

  pub length-insert_absent :
      (k : ℕ) (v : V) (m : List (ℕ × V)) → lookup k m ≡ none → length (insert k v m) ≡ length m + 1
  unfolding lookup insert
  length-insert_absent k v [] h = refl
  length-insert_absent k v ((j, w) ∷ m) h = ground (arith, length-insert_absent k v m)

  pub length-remove_present :
      (k : ℕ) (v : V) (m : List (ℕ × V)) → lookup k m ≡ some v → length (remove k m) + 1 ≡ length m
  unfolding lookup remove
  length-remove_present k v [] h = ground arith
  length-remove_present k v ((j, w) ∷ m) h = ground (arith, length-remove_present k v m)

-- `*m.entry(k).or_insert(0) += n` over u64 counts.
abbrev pub or_zero : Option ℕ → ℕ
or_zero none = 0
or_zero (some n) = n

unfoldable pub entry_add : ℕ → ℕ → List (ℕ × ℕ) → List (ℕ × ℕ)
entry_add k n m = insert k (add64 (or_zero (lookup k m)) n) m

-- The sum of all that a list of entries holds at a key.
abbrev pub sum_at : ℕ → List (ℕ × ℕ) → ℕ
sum_at j [] = 0
sum_at j ((k, n) ∷ m) = (if k == j then n else 0) + sum_at j m

pub sum_at-entry_add :
    (k j n : ℕ) (m : List (ℕ × ℕ))
    → sum_at j (entry_add k n m) % u64_mod ≡ (sum_at j m + (if k == j then n else 0)) % u64_mod
unfolding entry_add insert lookup
sum_at-entry_add k j n [] = ground arith
sum_at-entry_add k j n ((i, w) ∷ m) = ground (arith, sum_at-entry_add k j n m)
