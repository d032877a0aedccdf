-- ===== src/Gen/Finish.antt =====
-- bin/src/gen.rs: the branch of `run` that the shutdown signal takes. The sender is aborted, and what
-- is left of its batch goes with it; the loop waits for the queries in flight and sends a last
-- report. The abort is taken to stop the sender at once.
use nailgun.Prelude.{
  ℕ, ◌+◌, ◌-◌, ◌*◌, ◌%◌, ◌≤◌, ◌<◌, ◌≡◌, ◌∙◌, inl, inr, Option, none, some, List, [], arith, length,
  Result, ok, Result-cases, u64_mod, duration_limit, ap,
}
use nailgun.Store.{Store, AtomicStore}
use nailgun.Stats.Tracker
use nailgun.Stats.Conservation.{Counter, sum_reported}
use nailgun.Gen.{Generator, report}
use nailgun.Gen.Turns.{report_cases}
use nailgun.Gen.Account.{answer_count, sent_count, IsBalanced, sum_reported-append}
use nailgun.Gen.Wait.{
  Round, wait_in_flight, tick_period, Paced, IsFirstStop, Clears, wait_in_flight-Clears,
}

-- The generator after the abort, with the store and the counters that the wait leaves. The sender is
-- taken to be between two sends: one that is aborted while it waits for its write leaves its query in
-- flight and not counted, as a write that fails does.
abbrev pub aborted : {G Addr : Type 0} → Generator G Addr → Store × AtomicStore → Generator G Addr
aborted g (s, a) = record g {
  store = s;
  tracker = record g.tracker { atomic_store = a };
  pending = [];
}

-- The wait begins at the time `since`, and the last report is made at the time `now`; `none` if the
-- wait has not ended with the rounds given.
unfoldable pub finish :
    {G Addr : Type 0}
    → ℕ
    → ℕ
    → List Round
    → ℕ
    → Generator G Addr
    → Option (Result (Generator G Addr))
unfolding wait_in_flight report
finish timeout since rounds now g =
    elim (wait_in_flight timeout since rounds (g.store, g.tracker.atomic_store)) [
      | none ↦ none
      | some sa ↦ some (report now (aborted g sa))
    ]

-- All that is in the reports: each query sent is answered, timed out or left in flight.
abbrev pub IsSettled : {G Addr : Type 0} → Generator G Addr → Type 0
IsSettled g =
    sum_reported Counter.sent g.reports % u64_mod
    ≡ (sum_reported Counter.ok_recv g.reports
        + sum_reported Counter.timeouts g.reports
        + length g.store.in_flight)
      % u64_mod

module _ {G Addr : Type 0} where
  report-ok :
      (now : ℕ) (g : Generator G Addr)
      → g.total_duration + (now - g.interval) < duration_limit
      → (g' : Generator G Addr) × (report now g ≡ ok g')
  unfolding report
  report-ok now g fits = elim (Result-cases (report now g)) [
    | inl done ↦ done
    | inr (f, fault) ↦ absurd (ground arith)
  ]

  aborted-IsBalanced :
      (g : Generator G Addr) (sa : Store × AtomicStore)
      → Clears (g.store, g.tracker.atomic_store) sa
      → IsBalanced g
      → IsBalanced (aborted g sa)
  aborted-IsBalanced g sa c b = omega (arith, c.counted, c.same)

  -- A report leaves nothing in the counters.
  report-IsSettled :
      (now : ℕ) (g : Generator G Addr) {g' : Generator G Addr}
      → report now g ≡ ok g'
      → IsBalanced g
      → IsSettled g'
        × (sum_reported Counter.ok_recv g'.reports ≡ answer_count g)
        × (sum_reported Counter.sent g'.reports ≡ sent_count g)
        × (g'.store ≡ g.store)
  unfolding Tracker.interval
  report-IsSettled now g h b =
      let (total, e, (t, r), s, p, d, i) = report_cases now g h in
      (
        rw (r, s) (omega (arith, sum_reported-append)),
        rw r (omega (arith, sum_reported-append)),
        rw r (omega (arith, sum_reported-append)),
        s,
      )

  -- From a balanced generator, whose sender is between two sends, with a timer that is made before
  -- the wait starts and keeps its period, rounds until more than the timeout and one period after
  -- the start, and a total time that fits a duration: the shutdown ends with a last report. Then
  -- the reports have every query that was counted as sent and every answer; the queries sent are as
  -- many as those answered, those timed out and those left in flight, modulo 2 ^ 64; and the store
  -- is that after the first round of the wait after which nothing is in flight or the wait is
  -- longer than the timeout.
  pub finish-IsSettled :
      (timeout made since : ℕ) (rounds : List Round) (now : ℕ) (g : Generator G Addr)
      → IsBalanced g
      → made ≤ since
      → Paced made 0 rounds
      → since + timeout + tick_period < made + length rounds * tick_period
      → g.total_duration + (now - g.interval) < duration_limit
      → (g' : Generator G Addr) × (finish timeout since rounds now g ≡ some (ok g'))
        × IsSettled g'
        × (sum_reported Counter.sent g'.reports ≡ sent_count g)
        × (sum_reported Counter.ok_recv g'.reports ≡ answer_count g)
        × ((a : AtomicStore) × IsFirstStop timeout since rounds
              (g.store, g.tracker.atomic_store)
              (g'.store, a))
  unfolding finish report-ok
  finish-IsSettled timeout made since rounds now g b before paced enough fits =
      let (sa, waited, why, clears) =
        wait_in_flight-Clears timeout made since rounds (g.store, g.tracker.atomic_store) before
          paced enough in
      let (g', done) = report-ok now (aborted g sa) fits in
      let (settled, answers, queries, kept) =
        report-IsSettled now (aborted g sa) done (aborted-IsBalanced g sa clears b) in
      (
        g',
        rw (finish, waited, done),
        settled,
        queries ∙ ap (λ n. sum_reported Counter.sent g.reports + n) clears.same,
        answers,
        (sa.1, rw kept why),
      )
