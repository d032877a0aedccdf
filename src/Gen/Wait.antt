-- ===== src/Gen/Wait.antt =====
-- bin/src/gen.rs, `wait_in_flight`: after the sender is stopped, the loop clears timeouts at each
-- tick of a timer of 10 ms until nothing is in flight or it has waited for longer than the timeout.
-- Nothing reads answers then, and the cleanup runs on: a round begins with the times at which it
-- ran since the last one.
use nailgun.Prelude.{
  ℕ, suc, ◌+◌, ◌-◌, ◌*◌, ◌%◌, ◌≤◌, ◌<◌, ◌≡◌, refl, ◌∙◌, ◌⊎◌, inl, inr, Bool, true, false, ◌||◌,
  Option, none, some, List, [], ◌∷◌, arith, ltb, ap, ◌++◌, if◌then◌else◌, Bool-cases, length,
  u64_mod,
}
use nailgun.Store.{Store, AtomicStore, clear_timeouts, copies}
use nailgun.Store.Timeouts.{copies-clear_timeouts, clear_timeouts_counts}

-- One round of the loop: the runs of the cleanup before it, the time at which the loop clears, and
-- the time that it compares with the start.
pub record Round : Type 0 where
  pub cleanups : List ℕ
  pub now : ℕ
  pub test : ℕ

-- The runs of `cleanup_task`.
unfoldable pub cleanup_all : ℕ → List ℕ → Store × AtomicStore → Store × AtomicStore
cleanup_all timeout [] (s, a) = (s, a)
cleanup_all timeout (now ∷ times) (s, a) =
    cleanup_all timeout times (clear_timeouts timeout now s a)

abbrev pub is_empty {ℓ} : {A : Type ℓ} → List A → Bool
is_empty [] = true
is_empty (x ∷ xs) = false

-- The loop over the rounds given, from the time `start`; `none` if it has not ended with them.
unfoldable pub wait_in_flight :
    ℕ → ℕ → List Round → Store × AtomicStore → Option (Store × AtomicStore)
unfolding cleanup_all
wait_in_flight timeout start [] sa = none
wait_in_flight timeout start (r ∷ rs) sa =
    let (s, a) = cleanup_all timeout r.cleanups sa in
    let cleared = clear_timeouts timeout r.now s a in
    let rest = wait_in_flight timeout start rs cleared in
    if is_empty cleared.0.in_flight || ltb timeout (r.test - start) then some cleared else rest

abbrev pub tick_period : ℕ
tick_period = 10_000_000

-- Since the timer was made, its period has passed `k` times at the first round, and once more at
-- each other: its first tick is at once.
abbrev pub Paced : ℕ → ℕ → List Round → Type 0
Paced made k [] = Unit {0}
Paced made k (r ∷ rs) = (made + k * tick_period ≤ r.test) × Paced made (suc k) rs

-- What any number of clears does: no id is lost or made up, no query is added, each that is gone
-- is counted as timed out, and the count of queries sent stays.
pub record Clears (s : Store × AtomicStore) (s' : Store × AtomicStore) : Type 0 where
  pub kept : (j : ℕ) → copies j s'.0 ≡ copies j s.0
  pub fewer : length s'.0.in_flight ≤ length s.0.in_flight
  pub counted :
      (s'.1.timed_out + length s'.0.in_flight) % u64_mod
      ≡ (s.1.timed_out + length s.0.in_flight) % u64_mod
  pub same : s'.1.sent ≡ s.1.sent

clear_timeouts-Clears :
    (timeout now : ℕ) (s : Store) (a : AtomicStore) → Clears (s, a) (clear_timeouts timeout now s a)
clear_timeouts-Clears timeout now s a =
    let (removed, ids, left, timeouts, sent) = clear_timeouts_counts timeout now s a in
    record {
      kept = λ j. copies-clear_timeouts j timeout now s a;
      fewer = omega arith;
      counted = omega arith;
      same = sent;
    }

Clears-trans : {r s t : Store × AtomicStore} → Clears r s → Clears s t → Clears r t
Clears-trans c d = record {
  kept = λ j. d.kept j ∙ c.kept j;
  fewer = omega arith;
  counted = d.counted ∙ c.counted;
  same = d.same ∙ c.same;
}

cleanup_all-Clears :
    (timeout : ℕ) (times : List ℕ) (s : Store × AtomicStore)
    → Clears s (cleanup_all timeout times s)
unfolding cleanup_all
cleanup_all-Clears timeout [] s = record {
  kept = λ j. refl;
  fewer = omega arith;
  counted = refl;
  same = refl;
}
cleanup_all-Clears timeout (now ∷ times) (s, a) =
    Clears-trans (clear_timeouts-Clears timeout now s a)
      (cleanup_all-Clears timeout times (clear_timeouts timeout now s a))

-- The same of a wait that ends, whatever the timer did.
pub wait_in_flight_cleared :
    (timeout start : ℕ) (rs : List Round) (s : Store × AtomicStore) {s' : Store × AtomicStore}
    → wait_in_flight timeout start rs s ≡ some s'
    → Clears s s'
unfolding wait_in_flight
wait_in_flight_cleared timeout start [] s h = absurd (ground arith)
wait_in_flight_cleared timeout start (r ∷ rs) s {s'} h =
    let (s₁, a₁) = cleanup_all timeout r.cleanups s in
    let cleared = clear_timeouts timeout r.now s₁ a₁ in
    let both =
      Clears-trans (cleanup_all-Clears timeout r.cleanups s)
        (clear_timeouts-Clears timeout r.now s₁ a₁) in
    elim (Bool-cases (is_empty cleared.0.in_flight || ltb timeout (r.test - start))) [
      | inl over ↦ let same : cleared ≡ s' = ground arith in rw (← same) both
      | inr on ↦ Clears-trans both (wait_in_flight_cleared timeout start rs cleared (ground arith))
    ]

-- A round, whatever its test says, and several.
abbrev pub after_round : ℕ → Round → Store × AtomicStore → Store × AtomicStore
after_round timeout r sa =
    let (s, a) = cleanup_all timeout r.cleanups sa in clear_timeouts timeout r.now s a

abbrev pub after_rounds : ℕ → List Round → Store × AtomicStore → Store × AtomicStore
after_rounds timeout [] s = s
after_rounds timeout (r ∷ rs) s = after_rounds timeout rs (after_round timeout r s)

-- After each of these rounds something is in flight and the wait is not longer than the timeout.
abbrev pub AllGoOn : ℕ → ℕ → List Round → Store × AtomicStore → Type 0
AllGoOn timeout start [] s = Unit {0}
AllGoOn timeout start (r ∷ rs) s =
    (0 < length (after_round timeout r s).0.in_flight)
    × (r.test - start ≤ timeout)
    × AllGoOn timeout start rs (after_round timeout r s)

-- The first round after which nothing is in flight or the wait is longer than the timeout leaves
-- this state.
abbrev pub IsFirstStop : ℕ → ℕ → List Round → Store × AtomicStore → Store × AtomicStore → Type 0
IsFirstStop timeout start rs s s' =
    (before : List Round) × (r : Round) × (after : List Round) × (rs ≡ before ++ r ∷ after)
    × AllGoOn timeout start before s
    × (s' ≡ after_round timeout r (after_rounds timeout before s))
    × ((s'.0.in_flight ≡ []) ⊎ (timeout < r.test - start))

is_empty-eq_nil {ℓ} : {A : Type ℓ} (xs : List A) → is_empty xs ≡ true → xs ≡ []
is_empty-eq_nil [] h = refl
is_empty-eq_nil (x ∷ xs) h = cc

is_empty-length {ℓ} : {A : Type ℓ} (xs : List A) → is_empty xs ≡ false → 0 < length xs
is_empty-length [] h = absurd (ground arith)
is_empty-length (x ∷ xs) h = omega arith

-- The test at the end of a round.
stop_reason :
    (timeout start : ℕ) (s : Store) (r : Round)
    → (is_empty s.in_flight || ltb timeout (r.test - start)) ≡ true
    → (s.in_flight ≡ []) ⊎ (timeout < r.test - start)
stop_reason timeout start s r h = elim (Bool-cases (is_empty s.in_flight)) [
  | inl none_left ↦ inl (is_empty-eq_nil s.in_flight none_left)
  | inr some_left ↦ inr (ground arith)
]

rounds-Clears :
    (timeout made start k : ℕ) (rs : List Round) (s : Store × AtomicStore)
    → Paced made k rs
    → start + timeout + tick_period < made + (k + length rs) * tick_period
    → 0 < length rs
    → (s' : Store × AtomicStore) × (wait_in_flight timeout start rs s ≡ some s')
      × IsFirstStop timeout start rs s s'
      × Clears s s'
unfolding wait_in_flight
rounds-Clears timeout made start k [] s p enough pos = absurd (omega arith)
rounds-Clears timeout made start k (r ∷ rs) s (on_time, p) enough pos =
    let before = cleanup_all-Clears timeout r.cleanups s in
    let (s₁, a₁) = cleanup_all timeout r.cleanups s in
    let now = clear_timeouts-Clears timeout r.now s₁ a₁ in
    let both = Clears-trans before now in
    let cleared = clear_timeouts timeout r.now s₁ a₁ in
    elim (Bool-cases (is_empty cleared.0.in_flight || ltb timeout (r.test - start))) [
      | inl over ↦ (
        cleared,
        rw over,
        ([], r, rs, refl, tt, refl, stop_reason timeout start cleared.0 r over),
        both,
      )
      | inr on ↦
          let short : r.test - start ≤ timeout = ground arith in
          let some_left = is_empty-length cleared.0.in_flight (ground arith) in
          let more : 0 < length rs = omega arith in
          let shift : k + suc (length rs) ≡ suc k + length rs = omega arith in
          let (s', e, (rounds, last, after, split, on_first, is_last, why), cleared_more) =
            rounds-Clears timeout made start (suc k) rs cleared p (rw shift at enough) more in
          (
            s',
            rw on e,
            (
              r ∷ rounds,
              last,
              after,
              ap (λ xs. r ∷ xs) split,
              (some_left, short, on_first),
              is_last,
              why,
            ),
            Clears-trans both cleared_more,
          )
    ]

-- With a timer that is made before the wait starts and keeps its period, and rounds until more than
-- the timeout and one period after the start, the loop ends, and it ends with the first round after
-- which nothing is in flight or more than the timeout has passed since the start. No id is lost or
-- made up; and every query that is no longer in flight has been counted as timed out, modulo 2 ^ 64,
-- since no answer is read.
pub wait_in_flight-Clears :
    (timeout made start : ℕ) (rs : List Round) (s : Store × AtomicStore)
    → made ≤ start
    → Paced made 0 rs
    → start + timeout + tick_period < made + length rs * tick_period
    → (s' : Store × AtomicStore) × (wait_in_flight timeout start rs s ≡ some s')
      × IsFirstStop timeout start rs s s'
      × Clears s s'
wait_in_flight-Clears timeout made start rs s before p enough =
    let same : 0 + length rs ≡ length rs = omega arith in
    rounds-Clears timeout made start 0 rs s p (rw same enough) (omega arith)
