-- ===== src/Stats/Tracker.antt =====
-- bin/src/stats.rs, `StatsTracker`: what a generator counts between two reports.
use nailgun.Prelude.{
  ℕ, ◌-◌, min, max, Option, none, some, List, [], leb, if◌then◌else◌, length, Result, ok, ◌>>=◌,
  add64, add_duration,
}
use nailgun.Prelude.Assoc.{entry_add}
use nailgun.Msg.{BufMsg, rcode}
use nailgun.Store.{QueryInfo, AtomicStore}
use nailgun.Store
use nailgun.Stats.Interval.{StatsInterval, no_latency}

-- `atomic_store` is the value of the counters that the tracker shares with the sender.
pub record StatsTracker : Type 0 where
  pub intervals : ℕ
  pub recv : ℕ
  pub ok_recv : ℕ
  pub atomic_store : AtomicStore
  pub total_latency : ℕ
  pub min_latency : ℕ
  pub max_latency : ℕ
  pub rcodes : List (ℕ × ℕ)
  pub recv_buf_size : ℕ
  pub buf_size : ℕ

-- `StatsTracker::default`
unfoldable pub default : StatsTracker
default = record {
  intervals = 0;
  recv = 0;
  ok_recv = 0;
  atomic_store = record { sent = 0; timed_out = 0 };
  total_latency = 0;
  min_latency = no_latency;
  max_latency = 0;
  rcodes = [];
  recv_buf_size = 0;
  buf_size = 0;
}

-- `StatsTracker::reset`
unfoldable pub reset : StatsTracker → StatsTracker
unfolding Store.reset
reset t = record t {
  min_latency = no_latency;
  max_latency = 0;
  total_latency = 0;
  recv = 0;
  ok_recv = 0;
  recv_buf_size = 0;
  buf_size = 0;
  atomic_store = Store.reset t.atomic_store;
}

-- `checked_duration_since`
abbrev pub duration_since : ℕ → ℕ → Option ℕ
duration_since now earlier = if leb earlier now then some (now - earlier) else none

-- The first statement of `update`.
unfoldable pub add_latency : Option ℕ → StatsTracker → Result StatsTracker
add_latency none t = ok t
add_latency (some latency) t = do
  total ← add_duration t.total_latency latency
  ok (record t {
    total_latency = total;
    min_latency = min t.min_latency latency;
    max_latency = max t.max_latency latency;
  })

-- `update` at the time `now`.
unfoldable pub update :
    {Addr : Type 0} → ℕ → QueryInfo → BufMsg Addr → StatsTracker → Result StatsTracker
unfolding add_latency
update now qinfo msg t = do
  t' ← add_latency (duration_since now qinfo.sent) t
  code ← rcode msg
  ok (record t' {
    rcodes = entry_add code 1 t'.rcodes;
    buf_size = add64 t'.buf_size qinfo.len;
    recv_buf_size = add64 t'.recv_buf_size (length msg.buf);
    ok_recv = add64 t'.ok_recv 1;
  })

-- `interval`: the report, and the tracker after it.
unfoldable pub interval : ℕ → ℕ → ℕ → StatsTracker → StatsInterval × StatsTracker
unfolding reset
interval elapsed total_duration in_flight t = (
  record {
    duration = total_duration;
    elapsed = elapsed;
    interval = t.intervals;
    sent = t.atomic_store.sent;
    recv = t.recv;
    ok_recv = t.ok_recv;
    timeouts = t.atomic_store.timed_out;
    min_latency = t.min_latency;
    total_latency = t.total_latency;
    max_latency = t.max_latency;
    rcodes = t.rcodes;
    recv_buf_size = t.recv_buf_size;
    buf_size = t.buf_size;
    in_flight = in_flight;
  },
  reset (record t { intervals = add64 t.intervals 1; rcodes = [] }),
)

-- `interval` on several threads: between its loads of the shared counters and its stores of 0,
-- other tasks may have changed them by `between`.
unfoldable pub interval_racing :
    (AtomicStore → AtomicStore) → ℕ → ℕ → ℕ → StatsTracker → StatsInterval × StatsTracker
unfolding interval reset
interval_racing between elapsed total_duration in_flight t =
    let (i, _) = interval elapsed total_duration in_flight t in
    let late = record t { atomic_store = between t.atomic_store } in
    (i, reset (record late { intervals = add64 late.intervals 1; rcodes = [] }))
