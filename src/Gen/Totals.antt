-- ===== src/Gen/Totals.antt =====
-- bin/src/gen.rs with bin/src/stats.rs: the totals that the runner has after generators have shut
-- down. All generators send their reports to one channel: those of one arrive in order, those of
-- several in any interleaving.
use nailgun.Prelude.{
  ℕ, ◌+◌, ◌*◌, ◌%◌, ◌<◌, ◌≡◌, List, [], ◌∷◌, ◌++◌, arith, length, ok, u32_mod, u64_mod,
  duration_limit,
}
use nailgun.Stats.Interval.{StatsInterval}
use nailgun.Stats.Totals.{Float32}
use nailgun.Stats.Conservation.{Counter, reported, totalled, sum_reported}
use nailgun.Stats.Runner.{StatsRunner, runner, run}
use nailgun.Stats.Totality.{Lasting, run_conserves}
use nailgun.Gen.{Generator}
use nailgun.Gen.Finish.{IsSettled}

-- The reports that the generators have sent, in the order in which the channel gives them: the
-- next one is the first of those that are left of any generator.
pub data Arrives : List (List StatsInterval) → List StatsInterval → Type 0 where
  closed : Arrives [] []
  dropped :
      (qs : List (List StatsInterval)) (is : List StatsInterval)
      → Arrives qs is
      → Arrives ([] ∷ qs) is
  arrived :
      (before : List (List StatsInterval)) (i : StatsInterval) (q : List StatsInterval)
      (after : List (List StatsInterval)) (is : List StatsInterval)
      → Arrives (before ++ q ∷ after) is
      → Arrives (before ++ (i ∷ q) ∷ after) (i ∷ is)

abbrev sum_all : Counter → List (List StatsInterval) → ℕ
sum_all c [] = 0
sum_all c (q ∷ qs) = sum_reported c q + sum_all c qs

sum_all-cons :
    (c : Counter) (before : List (List StatsInterval)) (i : StatsInterval) (q : List StatsInterval)
    (after : List (List StatsInterval))
    → sum_all c (before ++ (i ∷ q) ∷ after) ≡ reported c i + sum_all c (before ++ q ∷ after)
sum_all-cons c [] i q after = omega arith
sum_all-cons c (b ∷ before) i q after = omega (arith, sum_all-cons c before i q after)

sum_reported-Arrives :
    (c : Counter) {qs : List (List StatsInterval)} {is : List StatsInterval}
    → Arrives qs is
    → sum_reported c is ≡ sum_all c qs
sum_reported-Arrives c closed = omega arith
sum_reported-Arrives c (dropped qs is a) = omega (arith, sum_reported-Arrives c a)
sum_reported-Arrives c (arrived before i q after is a) =
    omega (arith, sum_reported-Arrives c a, sum_all-cons c before i q after)

module _ {G Addr : Type 0} where
  -- The reports of each of several generators, how many queries they leave in flight, and that each
  -- is settled.
  abbrev pub reports_of : List (Generator G Addr) → List (List StatsInterval)
  reports_of [] = []
  reports_of (g ∷ gs) = g.reports ∷ reports_of gs

  abbrev pub left_of : List (Generator G Addr) → ℕ
  left_of [] = 0
  left_of (g ∷ gs) = length g.store.in_flight + left_of gs

  abbrev pub AllSettled : List (Generator G Addr) → Type 0
  AllSettled [] = Unit {0}
  AllSettled (g ∷ gs) = IsSettled g × AllSettled gs

  all_settled :
      (gs : List (Generator G Addr))
      → AllSettled gs
      → sum_all Counter.sent (reports_of gs) % u64_mod
        ≡ (sum_all Counter.ok_recv (reports_of gs)
            + sum_all Counter.timeouts (reports_of gs)
            + left_of gs)
          % u64_mod
  all_settled [] settled = omega arith
  all_settled (g ∷ gs) (first, settled) = omega (arith, all_settled gs settled)

  -- For generators that are settled, as each is after a shutdown, fewer than 2 ^ 32 of them, and
  -- their reports in any order in which they arrive, none of which lasts longer than `E`, where `E`
  -- times the square of their number fits a duration: the runner returns. With what an unfinished
  -- round leaves in its summary, the totals say that the queries sent are as many as those answered,
  -- those timed out and those that the generators leave in flight, modulo 2 ^ 64.
  pub run-AllSettled :
      (F : Float32) (E : ℕ) (gs : List (Generator G Addr)) (is : List StatsInterval)
      → AllSettled gs
      → Arrives (reports_of gs) is
      → 0 < length gs
      → length gs < u32_mod
      → Lasting E is
      → length is * length is * E < duration_limit
      → length is < u64_mod
      → (r : StatsRunner F.T) × (run F is (runner F (length gs)) ≡ ok r)
        × ((totalled Counter.sent r.totals + r.summary.sent) % u64_mod
            ≡ (totalled Counter.ok_recv r.totals
                + r.summary.ok_recv
                + (totalled Counter.timeouts r.totals + r.summary.timeouts)
                + left_of gs)
              % u64_mod)
  run-AllSettled F E gs is settled order pos fits lasting short few =
      let (r, e, queries, part) =
        run_conserves F E (length gs) Counter.sent is pos fits lasting short few in
      let (r₁, e₁, answers, part₁) =
        run_conserves F E (length gs) Counter.ok_recv is pos fits lasting short few in
      let (r₂, e₂, timeouts, part₂) =
        run_conserves F E (length gs) Counter.timeouts is pos fits lasting short few in
      let same₁ : r₁ ≡ r = cc in
      let same₂ : r₂ ≡ r = cc in
      (
        r,
        e,
        omega (
          arith,
          all_settled gs settled,
          sum_reported-Arrives Counter.sent order,
          sum_reported-Arrives Counter.ok_recv order,
          sum_reported-Arrives Counter.timeouts order,
          rw same₁ at answers,
          rw same₂ at timeouts,
        ),
      )
