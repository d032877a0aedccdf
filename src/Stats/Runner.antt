-- ===== src/Stats/Runner.antt =====
-- bin/src/stats.rs, `StatsRunner`: it adds up the reports of all generators, and takes the sum into
-- the totals when it has as many as there are generators. The channel is the list of the reports
-- in the order of their arrival; it ends when all senders are dropped.
use nailgun.Prelude.{ℕ, ◌+◌, ◌%◌, List, [], ◌∷◌, ◌==◌, if◌then◌else◌, Result, ok, ◌>>=◌, u32_mod}
use nailgun.Stats.Interval.{StatsInterval, aggregate, log}
use nailgun.Stats.Interval
use nailgun.Stats.Totals.{Float32, StatsTotals, update}
use nailgun.Stats.Totals

pub record StatsRunner (T : Type 0) : Type 0 where
  pub len : ℕ
  pub summary : StatsInterval
  pub totals : StatsTotals T

module _ (F : Float32) where
  -- `StatsRunner::new`; `len as u32` keeps the low 32 bits.
  unfoldable pub runner : ℕ → StatsRunner F.T
  unfolding Interval.default Totals.default
  runner len = record { len = len % u32_mod; summary = Interval.default; totals = Totals.default F }

  -- One turn of the `while` loop: the state is the runner and the variable `generators`, a u32.
  unfoldable pub gather : StatsInterval → ℕ × StatsRunner F.T → Result (ℕ × StatsRunner F.T)
  gather interval (generators, r) = do
    let generators' = (generators + 1) % u32_mod
    summary ← aggregate r.summary interval
    if generators' == r.len
        then (let (logged, left) = log summary in
            update F logged r.totals >>= λ totals.
            ok (0, record r { summary = left; totals = totals }))
        else ok (generators', record r { summary = summary })

  unfoldable pub gather_all :
      List StatsInterval → ℕ × StatsRunner F.T → Result (ℕ × StatsRunner F.T)
  unfolding gather
  gather_all [] s = ok s
  gather_all (interval ∷ rest) s = do s' ← gather interval s; gather_all rest s'

  -- `run`, up to the summary that it prints at the end.
  unfoldable pub run : List StatsInterval → StatsRunner F.T → Result (StatsRunner F.T)
  unfolding gather_all
  run reports r = do (_, r') ← gather_all reports (0, r); ok r'
