-- ===== src/Tests/Acts.antt =====
-- A generator in small steps at concrete inputs: bin/src/gen.rs.
use nailgun.Prelude.{ℕ, ◌+◌, ◌%◌, ◌≡◌, refl, none, some, List, [], ◌∷◌, length, u64_mod}
use nailgun.Prelude.Assoc.{lookup, insert, remove, contains_key, entry_add}
use nailgun.Msg.{msg_id, rcode}
use nailgun.Store.{range_from, fresh, clear_timeouts}
use nailgun.Sender.{all_written, udp, pop_ids, take_batch}
use nailgun.Stats.Tracker
use nailgun.Query.{RandomPkt, random_pkt_gen, random_pkt_next}
use nailgun.Gen.{frame, cleanup, turn, start}
use nailgun.Gen.Whole.{IsWhole, is_unsolicited}
use nailgun.Gen.Account.{sent_count, answer_count, timeout_count}
use nailgun.Gen.Acts.{Busy, Act, begins, ends, loads, stores, takes_turn, acts, amiss, idle}
use nailgun.Gen.Acts.Sound.{uncounted, acts-start-IsSound}
use nailgun.Tests.Gen.{packets, keep_order, here}

-- A report is made while the first query is written; the second one is still written at the end.
abbrev morning : List (Act ℕ)
morning =
    begins 1
    ∷ begins 5
    ∷ loads 10
    ∷ takes_turn (cleanup 11)
    ∷ stores
    ∷ ends all_written
    ∷ takes_turn (frame 20 (0 ∷ 0 ∷ 0 ∷ 3 ∷ []) 7)
    ∷ begins 30
    ∷ []

program : Unit {0}
unfolding acts amiss is_unsolicited turn start random_pkt_next pop_ids take_batch msg_id rcode
    range_from fresh clear_timeouts Tracker.update Tracker.interval lookup insert remove
    contains_key entry_add
program = tt

noon : Busy RandomPkt ℕ
unfolding program
noon = elim (acts random_pkt_gen (udp 7) 500 morning (idle here)) [ none ↦ idle here | some b ↦ b ]

morning-ok : acts random_pkt_gen (udp 7) 500 morning (idle here) ≡ some noon
unfolding noon
morning-ok = refl

morning-amiss : amiss random_pkt_gen (udp 7) 500 morning (idle here) ≡ 0
unfolding program
morning-amiss = refl

noon_counts :
    (uncounted noon ≡ 1) × (length noon.gen.store.in_flight ≡ 1) × (sent_count noon.gen ≡ 1)
unfolding noon
noon_counts = (refl, refl, refl)

acts-start-IsSound_example :
    IsWhole noon.gen
    × ((sent_count noon.gen + uncounted noon) % u64_mod
        ≡ (answer_count noon.gen + timeout_count noon.gen + length noon.gen.store.in_flight)
          % u64_mod)
acts-start-IsSound_example =
    acts-start-IsSound random_pkt_gen (udp 7) 500 keep_order packets 0 morning (λ j l. refl)
      morning-amiss morning-ok
