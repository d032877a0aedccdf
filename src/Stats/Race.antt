-- ===== src/Stats/Race.antt =====
-- bin/src/stats.rs, `StatsTracker::interval`: the counters that it shares with the sender.
use nailgun.Prelude.{ℕ, ◌+◌, ◌<◌, ◌≡◌, arith, u64_mod}
use nailgun.Store.{AtomicStore, add_sent, add_timed_out}
use nailgun.Stats.Tracker.{StatsTracker, interval_racing}

-- Queries that the sender counts, and timeouts that the cleanup counts, between the loads and the
-- stores of a report are lost: with `n` such queries and `m` such timeouts the report has the counts
-- from before, and the counters after it are 0, so that the report and the counters together fall
-- short of what was counted by `n` and by `m`.
pub interval_racing_loses :
    (n m elapsed total_duration in_flight : ℕ) (t : StatsTracker)
    → t.atomic_store.sent + n < u64_mod
    → t.atomic_store.timed_out + m < u64_mod
    → let between = λ (a : AtomicStore). add_timed_out m (add_sent n a) in
      let (i, t') = interval_racing between elapsed total_duration in_flight t in
      (i.sent + t'.atomic_store.sent + n ≡ (between t.atomic_store).sent)
      × (i.timeouts + t'.atomic_store.timed_out + m ≡ (between t.atomic_store).timed_out)
unfolding interval_racing add_sent add_timed_out
interval_racing_loses n m elapsed total_duration in_flight t a b = (omega arith, omega arith)
