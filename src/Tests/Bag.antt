-- ===== src/Tests/Bag.antt =====
-- The same reports in two orders: bin/src/stats.rs.
use mathlib.Core.List.{Permᴰ}
use mathlib.Core.Quot
use nailgun.Prelude.{ℕ, ◌%◌, ◌≡◌, refl, List, [], ◌∷◌, arith, ok, u64_mod}
use nailgun.Stats.Interval.{StatsInterval}
use nailgun.Stats.Conservation.{Counter, totalled}
use nailgun.Stats.Runner.{StatsRunner, run, runner}
use nailgun.Stats.Bag.{bag, in_all, run-in_all}
use nailgun.Tests.Stats.{whole, one_report}

abbrev early : List StatsInterval
early = one_report 3 ∷ one_report 4 ∷ []

abbrev late : List StatsInterval
late = one_report 4 ∷ one_report 3 ∷ []

bags_agree : bag early ≡ bag late
bags_agree = Quot.sound ∣ Permᴰ.swap refl refl ∣₁

run-in_all_example :
    (r r' : StatsRunner ℕ) × (run whole early (runner whole 2) ≡ ok r)
    × (run whole late (runner whole 2) ≡ ok r')
    × ((c : Counter)
        → (totalled c r.totals % u64_mod ≡ in_all c (bag early) % u64_mod)
          × (totalled c r'.totals % u64_mod ≡ in_all c (bag early) % u64_mod))
run-in_all_example =
    run-in_all whole 1_000 2 early late (omega arith) (omega arith) (omega arith) (omega arith)
      (omega arith) (omega arith) refl bags_agree
