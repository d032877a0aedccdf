-- ===== src/Tests/Stats.antt =====
-- The statistics at concrete inputs: bin/src/stats.rs.
use nailgun.Prelude.{
  ℕ, ◌+◌, ◌-◌, ◌*◌, ◌/◌, ◌%◌, ◌≤◌, ◌<◌, min, max, ◌≡◌, refl, ◌≢◌, ◌⊎◌, List, [], ◌∷◌, arith, ◌==◌,
  if◌then◌else◌, length, Result, ok, err, u64_mod, add64,
}
use nailgun.Prelude.Assoc.{sum_at}
use nailgun.Stats.Update.{IsConsistent, update_lem}
use nailgun.Prelude.Assoc.{entry_add, insert, lookup}
use nailgun.Util.{next}
use nailgun.Msg.{BufMsg, rcode}
use nailgun.Store.{QueryInfo, add_sent, add_timed_out, AtomicStore}
use nailgun.Stats.Interval.{StatsInterval, aggregate}
use nailgun.Stats.Interval
use nailgun.Stats.Tracker.{StatsTracker, update, interval_racing}
use nailgun.Stats.Race.{interval_racing_loses}
use nailgun.Stats.Totals.{Float32}
use nailgun.Stats.Totals
use nailgun.Stats.Runner.{StatsRunner, gather_all, run, runner}
use nailgun.Stats.Conservation.{Counter, totalled}
use nailgun.Stats.Totality.{run_conserves}
use nailgun.Stats.Elapsed.{sum_of_sums, gather_all-elapsed}

-- An answer with code 3, 20 ns after its query.
abbrev answer : BufMsg ℕ
answer = record { buf = 0 ∷ 1 ∷ 128 ∷ 131 ∷ []; addr = 7 }

abbrev query : QueryInfo
query = record { sent = 100; len = 33 }

abbrev blank : StatsTracker
blank = record {
  intervals = 0;
  recv = 0;
  ok_recv = 0;
  atomic_store = record { sent = 5; timed_out = 1 };
  total_latency = 0;
  min_latency = Interval.no_latency;
  max_latency = 0;
  rcodes = [];
  recv_buf_size = 0;
  buf_size = 0;
}

abbrev answered : StatsTracker
answered = record blank {
  ok_recv = 1;
  total_latency = 20;
  min_latency = 20;
  max_latency = 20;
  rcodes = (3, 1) ∷ [];
  recv_buf_size = 4;
  buf_size = 33;
}

updated : update 120 query answer blank ≡ ok answered
unfolding update rcode entry_add insert lookup
updated = refl

interval_racing_loses_example :
    let between = λ (a : AtomicStore). add_timed_out 2 (add_sent 3 a) in
    let (i, t') = interval_racing between 10 20 4 blank in
    (i.sent + t'.atomic_store.sent + 3 ≡ (between blank.atomic_store).sent)
    × (i.timeouts + t'.atomic_store.timed_out + 2 ≡ (between blank.atomic_store).timed_out)
interval_racing_loses_example = interval_racing_loses 3 2 10 20 4 blank (omega arith) (omega arith)

-- Whole numbers for f32.
abbrev pub whole : Float32
whole = record {
  T = ℕ;
  of_int = λ n. n;
  add = ◌+◌;
  mul = ◌*◌;
  div = ◌/◌;
  minimum = min;
  maximum = max;
  is_zero = λ n. n == 0;
  largest = 1_000_000;
}

abbrev pub one_report : ℕ → StatsInterval
one_report n = record {
  duration = 1_000;
  elapsed = 1_000;
  interval = 0;
  sent = n;
  recv = n;
  ok_recv = n;
  timeouts = 0;
  min_latency = 20;
  total_latency = 20 * n;
  max_latency = 20;
  rcodes = (0, n) ∷ [];
  recv_buf_size = 40 * n;
  buf_size = 30 * n;
  in_flight = 0;
}

abbrev four_reports : List StatsInterval
four_reports = one_report 3 ∷ one_report 4 ∷ one_report 5 ∷ one_report 6 ∷ []

run_conserves_example :
    (r : StatsRunner ℕ) × (run whole four_reports (runner whole 2) ≡ ok r)
    × ((totalled Counter.sent r.totals + r.summary.sent) % u64_mod ≡ 18)
    × ((length four_reports % 2 ≢ 0) ⊎ (r.summary.sent ≡ 0))
run_conserves_example =
    run_conserves whole 1_000 2 Counter.sent four_reports (omega arith) (omega arith) (omega arith)
      (omega arith) (omega arith)

result_of {ℓ} : {A : Type ℓ} → A → Result A → A
result_of a (ok b) = b
result_of a (err e) = a

-- One generator with two reports of 1000 ns: the total says 3000.
abbrev two_reports : List StatsInterval
two_reports = one_report 3 ∷ one_report 4 ∷ []

after : ℕ × StatsRunner ℕ
unfolding result_of gather_all runner aggregate Totals.update Interval.log next insert lookup
    entry_add
after = result_of (0, runner whole 1) (gather_all whole two_reports (0, runner whole 1))

after-ok : gather_all whole two_reports (0, runner whole 1) ≡ ok after
unfolding after
after-ok = refl

gather_all-elapsed_example :
    after.1.totals.elapsed
    ≡ (runner whole 1).totals.elapsed + sum_of_sums (runner whole 1).summary.elapsed two_reports
unfolding runner
gather_all-elapsed_example =
    gather_all-elapsed whole two_reports 0 (runner whole 1) refl refl after-ok

update_lem_example :
    (t' : StatsTracker) × (update 120 query answer blank ≡ ok t')
    × ((t'.ok_recv ≡ add64 0 1)
        × ((j : ℕ) → sum_at j t'.rcodes % u64_mod ≡ (0 + (if 3 == j then 1 else 0)) % u64_mod)
        × (t'.buf_size ≡ add64 0 33)
        × (t'.recv_buf_size ≡ add64 0 4)
        × (t'.recv ≡ 0)
        × (t'.atomic_store ≡ blank.atomic_store))
    × (((100 ≤ 120)
          × (t'.total_latency ≡ 0 + (120 - 100))
          × (t'.min_latency ≡ min blank.min_latency (120 - 100))
          × (t'.max_latency ≡ max 0 (120 - 100)))
        ⊎ ((120 < 100)
            × (t'.total_latency ≡ 0)
            × (t'.min_latency ≡ blank.min_latency)
            × (t'.max_latency ≡ 0)))
    × (IsConsistent blank → IsConsistent t')
unfolding rcode
update_lem_example = update_lem 120 query answer blank 3 refl (omega arith)
