-- ===== src/Stats/Totals.antt =====
-- bin/src/stats.rs, `StatsTotals`: the sums and averages of a whole run. f32 is a parameter: its
-- type and the operations that the code uses, with no law.
use nailgun.Prelude.{
  ℕ, ◌-◌, ◌/◌, Bool, ◌&&◌, ◌||◌, not, List, [], ◌==◌, if◌then◌else◌, Result, ok, ◌>>=◌, u64_mod,
  add64, add_duration, as_micros,
}
use nailgun.Util.{Number, MovingAvg, moving_avg, next, usize_number}
use nailgun.Stats.Interval.{StatsInterval, add_rcodes, max_latency_micros, avg_latency_micros}

pub record Float32 : Type 1 where
  pub T : Type 0
  pub of_int : ℕ → T
  pub add : T → T → T
  pub mul : T → T → T
  pub div : T → T → T
  pub minimum : T → T → T
  pub maximum : T → T → T
  pub is_zero : T → Bool
  pub largest : T

abbrev pub float_number : Float32 → Number
float_number F = record {
  T = F.T;
  add = F.add;
  mul = F.mul;
  div = λ a b. ok (F.div a b);
  of_usize = F.of_int;
}

pub record StatsTotals (T : Type 0) : Type 0 where
  pub duration : ℕ
  pub elapsed : ℕ
  pub sent : ℕ
  pub recv : ℕ
  pub ok_recv : ℕ
  pub timeouts : ℕ
  pub min_latency : T
  pub avg_latency : MovingAvg T
  pub max_latency : T
  pub rcodes : List (ℕ × ℕ)
  pub avg_recv_buf_size : MovingAvg ℕ
  pub avg_buf_size : MovingAvg ℕ
  pub in_flight : ℕ

-- The guard in front of the two averages of sizes: both numbers differ from 0.
unfoldable pub next_size : ℕ → ℕ → MovingAvg ℕ → Result (MovingAvg ℕ)
next_size size n avg =
    if not (size == 0) && not (n == 0) then next usize_number (size / n) avg else ok avg

module _ (F : Float32) where
  -- `… as f32 / 1_000.`
  abbrev pub millis : ℕ → F.T
  millis micros = F.div (F.of_int micros) (F.of_int 1_000)

  -- The interval's `min_latency()`, which is `0.` where there is none, `max_latency()` and
  -- `avg_latency()`.
  unfoldable pub min_latency : StatsInterval → F.T
  min_latency i =
      if as_micros i.min_latency == u64_mod - 1
      then F.of_int 0
      else millis (as_micros i.min_latency)

  unfoldable pub max_latency : StatsInterval → F.T
  unfolding max_latency_micros
  max_latency i = millis (max_latency_micros i)

  unfoldable pub avg_latency : StatsInterval → F.T
  unfolding avg_latency_micros
  avg_latency i = millis (avg_latency_micros i)

  -- `StatsTotals::default`
  unfoldable pub default : StatsTotals F.T
  default = record {
    duration = 0;
    elapsed = 0;
    sent = 0;
    recv = 0;
    ok_recv = 0;
    timeouts = 0;
    min_latency = F.largest;
    avg_latency = moving_avg (F.of_int 0);
    max_latency = F.of_int 0;
    rcodes = [];
    avg_recv_buf_size = moving_avg 0;
    avg_buf_size = moving_avg 0;
    in_flight = 0;
  }

  unfoldable pub update : StatsInterval → StatsTotals F.T → Result (StatsTotals F.T)
  unfolding min_latency max_latency avg_latency next_size add_rcodes
  update i t = do
    elapsed ← add_duration t.elapsed i.elapsed
    let low = min_latency i
    let mean = avg_latency i
    avg ← if F.is_zero mean then ok t.avg_latency else next (float_number F) mean t.avg_latency
    avg_buf_size ← next_size i.buf_size i.sent t.avg_buf_size
    avg_recv_buf_size ← next_size i.recv_buf_size i.ok_recv t.avg_recv_buf_size
    ok (record {
      duration = i.duration;
      elapsed = elapsed;
      sent = add64 t.sent i.sent;
      recv = add64 t.recv i.recv;
      ok_recv = add64 t.ok_recv i.ok_recv;
      timeouts = add64 t.timeouts i.timeouts;
      min_latency = if F.is_zero low then t.min_latency else F.minimum low t.min_latency;
      avg_latency = avg;
      max_latency = F.maximum (max_latency i) t.max_latency;
      rcodes = add_rcodes t.rcodes i.rcodes;
      avg_recv_buf_size = avg_recv_buf_size;
      avg_buf_size = avg_buf_size;
      in_flight = add64 t.in_flight i.in_flight;
    })

  -- `to_percent` of `summary`.
  unfoldable pub to_percent : StatsTotals F.T → F.T
  to_percent t =
      if t.sent == 0 || t.timeouts == 0
      then F.of_int 0
      else F.mul (F.div (F.of_int t.timeouts) (F.of_int t.sent)) (F.of_int 100)
