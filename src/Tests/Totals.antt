-- ===== src/Tests/Totals.antt =====
-- The reports of two generators and the totals: bin/src/gen.rs, bin/src/stats.rs.
use nailgun.Prelude.{ℕ, ◌+◌, ◌%◌, ◌≡◌, refl, List, [], ◌∷◌, arith, ok, u64_mod}
use nailgun.Stats.Interval.{StatsInterval}
use nailgun.Stats.Conservation.{Counter, totalled}
use nailgun.Stats.Runner.{StatsRunner, run, runner}
use nailgun.Query.{RandomPkt}
use nailgun.Gen.{Generator}
use nailgun.Gen.Totals.{Arrives, closed, dropped, arrived, run-AllSettled}
use nailgun.Tests.Stats.{whole, one_report}
use nailgun.Tests.Gen.{here}

-- Three queries of which one timed out, and one that is in flight.
abbrev lossy : StatsInterval
lossy = record (one_report 2) { sent = 4; timeouts = 1; in_flight = 1 }

abbrev first : Generator RandomPkt ℕ
first = record here {
  reports = one_report 3 ∷ lossy ∷ [];
  store = record { ids = []; in_flight = (9, record { sent = 0; len = 12 }) ∷ [] };
}

abbrev second : Generator RandomPkt ℕ
second = record here { reports = one_report 5 ∷ []; store = record { ids = []; in_flight = [] } }

abbrev mixed : List StatsInterval
mixed = one_report 3 ∷ one_report 5 ∷ lossy ∷ []

order : Arrives (first.reports ∷ second.reports ∷ []) mixed
order = arrived [] (one_report 3) (lossy ∷ []) (second.reports ∷ []) _ (
    arrived ((lossy ∷ []) ∷ []) (one_report 5) [] [] _
      (arrived [] lossy [] ([] ∷ []) _ (dropped _ _ (dropped _ _ closed))))

run-AllSettled_example :
    (r : StatsRunner ℕ) × (run whole mixed (runner whole 2) ≡ ok r)
    × ((totalled Counter.sent r.totals + r.summary.sent) % u64_mod
        ≡ (totalled Counter.ok_recv r.totals
            + r.summary.ok_recv
            + (totalled Counter.timeouts r.totals + r.summary.timeouts)
            + 1)
          % u64_mod)
run-AllSettled_example =
    run-AllSettled whole 1_000 (first ∷ second ∷ []) mixed (refl, (refl, tt)) order (omega arith)
      (omega arith) (omega arith) (omega arith) (omega arith)
