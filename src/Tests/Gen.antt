-- ===== src/Tests/Gen.antt =====
-- A generator of random packets at work: bin/src/gen.rs and what it uses.
use nailgun.Prelude.{
  ℕ, ◌+◌, ◌≡◌, refl, some, List, [], ◌∷◌, arith, ◌==◌, if◌then◌else◌, length, Result, ok, err,
}
use nailgun.Prelude.Assoc.{lookup, insert, remove, contains_key, entry_add}
use nailgun.Msg.{msg_id, rcode}
use nailgun.Store.{Store, AtomicStore, range_from, fresh, clear_timeouts}
use nailgun.Sender.{all_written, udp, pop_ids, take_batch, send_one}
use nailgun.Stats.Tracker
use nailgun.Query.{RandomPkt, random_pkt_gen, random_pkt_next}
use nailgun.Gen.{Generator, Turn, sender, frame, broken, tick, cleanup, turns, turn, start, held}
use nailgun.Gen.Whole.{IsWhole, unsolicited, turns-start-IsWhole}
use nailgun.Gen.Wait.{Round, wait_in_flight, wait_in_flight-Clears, Clears, IsFirstStop}
use nailgun.Gen.Whole.{handle_frame_unsolicited}
use nailgun.Gen.{handle_frame}
use nailgun.Gen.Account.{turns-start-IsBalanced}
use nailgun.Gen.Finish.{finish, finish-IsSettled, IsSettled}
use nailgun.Stats.Conservation.{Counter, sum_reported}

abbrev pub keep_order : List ℕ → List ℕ
keep_order l = l

abbrev pub packets : RandomPkt
packets = record { len = 10; random = λ n. n; drawn = 0 }

abbrev pub here : Generator RandomPkt ℕ
here = start keep_order packets 0

-- A batch is taken, two queries are sent, one is answered, the other times out.
abbrev pub day : List (Turn ℕ)
day =
    sender 1 all_written
    ∷ sender 5 all_written
    ∷ sender 6 all_written
    ∷ frame 9 (0 ∷ 1 ∷ 0 ∷ 3 ∷ []) 7
    ∷ broken
    ∷ tick 1_000
    ∷ cleanup 2_000
    ∷ []

program : Unit {0}
unfolding turns unsolicited turn start random_pkt_next pop_ids take_batch send_one msg_id rcode
    range_from fresh clear_timeouts Tracker.update Tracker.interval lookup insert remove
    contains_key entry_add
program = tt

result_of {ℓ} : {A : Type ℓ} → A → Result A → A
result_of a (ok b) = b
result_of a (err e) = a

pub evening : Generator RandomPkt ℕ
unfolding program result_of
evening = result_of here (turns random_pkt_gen (udp 7) 500 day here)

pub day-ok : turns random_pkt_gen (udp 7) 500 day here ≡ ok evening
unfolding evening
day-ok = refl

day-solicited : unsolicited random_pkt_gen (udp 7) 500 day here ≡ 0
unfolding program
day-solicited = refl

turns-start-IsWhole_example : IsWhole evening
turns-start-IsWhole_example =
    turns-start-IsWhole random_pkt_gen (udp 7) 500 keep_order packets 0 day (λ j l. refl)
      day-solicited day-ok

evening_counts :
    (length evening.reports ≡ 1)
    × (evening.tracker.atomic_store.timed_out ≡ 1)
    × (length evening.store.in_flight ≡ 0)
unfolding evening
evening_counts = (refl, refl, refl)

-- A second answer to the query that was answered.
handle_frame_unsolicited_example :
    (g' : Generator RandomPkt ℕ) × (handle_frame 3_000 (0 ∷ 1 ∷ 0 ∷ 3 ∷ []) 7 evening ≡ ok g')
    × ((j : ℕ) → held j g' ≡ held j evening + (if j == 1 then 1 else 0))
unfolding evening msg_id
handle_frame_unsolicited_example =
    handle_frame_unsolicited 3_000 1 (0 ∷ 1 ∷ 0 ∷ 3 ∷ []) 7 evening refl refl

-- A timeout of 5 ms: the second round is past it.
abbrev pub rounds : List Round
rounds =
    record { cleanups = []; now = 0; test = 0 }
    ∷ record { cleanups = 4_000_000 ∷ []; now = 10_000_000; test = 10_000_001 }
    ∷ []

wait_in_flight-Clears_example :
    (s' : Store × AtomicStore) × (wait_in_flight 5_000_000 10 rounds
        (evening.store, evening.tracker.atomic_store)
      ≡ some s')
    × IsFirstStop 5_000_000 10 rounds (evening.store, evening.tracker.atomic_store) s'
    × Clears (evening.store, evening.tracker.atomic_store) s'
wait_in_flight-Clears_example =
    wait_in_flight-Clears 5_000_000 0 10 rounds (evening.store, evening.tracker.atomic_store)
      (omega arith) (omega arith) (omega arith)

-- The shutdown of the evening, with its last report 2000 ns later.
finish-IsSettled_example :
    (g' : Generator RandomPkt ℕ) × (finish 5_000_000 10 rounds 4_000 evening ≡ some (ok g'))
    × IsSettled g'
    × (sum_reported Counter.sent g'.reports ≡ 2)
    × (sum_reported Counter.ok_recv g'.reports ≡ 1)
    × ((a : AtomicStore) × IsFirstStop 5_000_000 10 rounds
          (evening.store, evening.tracker.atomic_store)
          (g'.store, a))
unfolding evening
finish-IsSettled_example =
    finish-IsSettled 5_000_000 0 10 rounds 4_000 evening
      (turns-start-IsBalanced random_pkt_gen (udp 7) 500 keep_order packets 0 day (λ j l. refl)
        day-solicited day-ok)
      (omega arith) (omega arith) (omega arith) (omega arith)
