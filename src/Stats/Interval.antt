-- ===== src/Stats/Interval.antt =====
-- bin/src/stats.rs, `StatsInterval`: the counts of one interval of one generator, and their sum
-- over all generators.
use nailgun.Prelude.{
  ℕ, ◌-◌, ◌/◌, min, max, List, [], ◌∷◌, ◌==◌, if◌then◌else◌, count, Result, ok, ◌>>=◌, u64_mod,
  add64, add_duration, from_micros, as_micros,
}
use nailgun.Prelude.Assoc.{entry_add}

-- `Duration::from_micros(u64::MAX)`, which stands for no latency yet.
abbrev pub no_latency : ℕ
no_latency = from_micros (u64_mod - 1)

pub record StatsInterval : Type 0 where
  pub duration : ℕ
  pub elapsed : ℕ
  pub interval : ℕ
  pub sent : ℕ
  pub recv : ℕ
  pub ok_recv : ℕ
  pub timeouts : ℕ
  pub min_latency : ℕ
  pub total_latency : ℕ
  pub max_latency : ℕ
  pub rcodes : List (ℕ × ℕ)
  pub recv_buf_size : ℕ
  pub buf_size : ℕ
  pub in_flight : ℕ

-- `StatsInterval::default`
unfoldable pub default : StatsInterval
default = record {
  duration = 0;
  elapsed = 0;
  interval = 0;
  sent = 0;
  recv = 0;
  ok_recv = 0;
  timeouts = 0;
  min_latency = no_latency;
  total_latency = 0;
  max_latency = 0;
  rcodes = [];
  recv_buf_size = 0;
  buf_size = 0;
  in_flight = 0;
}

-- `for (rcode, count) in other { *rcodes.entry(rcode).or_insert(0) += count }`
unfoldable pub add_rcodes : List (ℕ × ℕ) → List (ℕ × ℕ) → List (ℕ × ℕ)
add_rcodes rcodes [] = rcodes
add_rcodes rcodes ((rcode, count) ∷ other) = add_rcodes (entry_add rcode count rcodes) other

unfoldable pub aggregate : StatsInterval → StatsInterval → Result StatsInterval
unfolding add_rcodes
aggregate s agg = do
  elapsed ← add_duration s.elapsed agg.elapsed
  total_latency ← add_duration s.total_latency agg.total_latency
  ok (record {
    duration = agg.duration;
    elapsed = elapsed;
    interval = agg.interval;
    sent = add64 s.sent agg.sent;
    recv = add64 s.recv agg.recv;
    ok_recv = add64 s.ok_recv agg.ok_recv;
    timeouts = add64 s.timeouts agg.timeouts;
    min_latency = min agg.min_latency s.min_latency;
    total_latency = total_latency;
    max_latency = max agg.max_latency s.max_latency;
    rcodes = add_rcodes s.rcodes agg.rcodes;
    recv_buf_size = add64 s.recv_buf_size agg.recv_buf_size;
    buf_size = add64 s.buf_size agg.buf_size;
    in_flight = add64 s.in_flight agg.in_flight;
  })

-- `StatsInterval::reset`
unfoldable pub reset : StatsInterval → StatsInterval
reset s = record s {
  min_latency = no_latency;
  max_latency = 0;
  total_latency = 0;
  recv = 0;
  ok_recv = 0;
  recv_buf_size = 0;
  buf_size = 0;
  sent = 0;
  in_flight = 0;
  timeouts = 0;
}

-- `log`: the interval that it returns, and what it leaves.
unfoldable pub log : StatsInterval → StatsInterval × StatsInterval
unfolding reset
log s = (s, reset (record s { rcodes = [] }))

-- The averages that `log` prints; `/ self.sent as usize`.
unfoldable pub avg_size : StatsInterval → ℕ
avg_size s = if s.sent == 0 then s.buf_size else s.buf_size / s.sent

unfoldable pub recv_avg_size : StatsInterval → ℕ
recv_avg_size s = if s.ok_recv == 0 then s.recv_buf_size else s.recv_buf_size / s.ok_recv

-- The latencies in microseconds, before they are turned into f32 and divided by 1000.
unfoldable pub max_latency_micros : StatsInterval → ℕ
max_latency_micros s = as_micros s.max_latency

unfoldable pub avg_latency_micros : StatsInterval → ℕ
avg_latency_micros s =
    if s.ok_recv == 0 then as_micros s.total_latency else as_micros s.total_latency / s.ok_recv
