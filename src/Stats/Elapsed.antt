-- ===== src/Stats/Elapsed.antt =====
-- bin/src/stats.rs, `StatsInterval::reset`: the time elapsed is not reset between rounds.
use nailgun.Prelude.{ℕ, ◌+◌, ◌≡◌, ap, ◌∙◌, inl, inr, List, [], ◌∷◌, arith, ok, >>=-eq-ok}
use nailgun.Stats.Interval.{StatsInterval, aggregate, log}
use nailgun.Stats.Totals.{Float32, StatsTotals, update}
use nailgun.Stats.Conservation.{gather_cases}
use nailgun.Stats.Runner.{StatsRunner, gather_all, gather}

-- The sums of the times elapsed up to each report, all added up, from `before` on.
abbrev pub sum_of_sums : ℕ → List StatsInterval → ℕ
sum_of_sums before [] = 0
sum_of_sums before (i ∷ is) = before + i.elapsed + sum_of_sums (before + i.elapsed) is

aggregate-elapsed :
    (s i : StatsInterval) {s' : StatsInterval}
    → aggregate s i ≡ ok s'
    → s'.elapsed ≡ s.elapsed + i.elapsed
unfolding aggregate
aggregate-elapsed s i h = ground arith

update-elapsed :
    (F : Float32) (i : StatsInterval) (t : StatsTotals F.T) {t' : StatsTotals F.T}
    → update F i t ≡ ok t'
    → t'.elapsed ≡ t.elapsed + i.elapsed
unfolding update
update-elapsed F i t h = ground arith

-- With one generator, if the reports are all taken in, then the time elapsed in the totals has grown
-- by the sum, over the reports, of all the time up to and with each, not by the sum of their times.
pub gather_all-elapsed :
    (F : Float32) (is : List StatsInterval) (g : ℕ) (r : StatsRunner F.T) {s' : ℕ × StatsRunner F.T}
    → r.len ≡ 1
    → g ≡ 0
    → gather_all F is (g, r) ≡ ok s'
    → s'.1.totals.elapsed ≡ r.totals.elapsed + sum_of_sums r.summary.elapsed is
unfolding gather_all log
gather_all-elapsed F [] g r one z h = ground arith
gather_all-elapsed F (i ∷ is) g r one z h =
    let (s₁, e, rest) = >>=-eq-ok (gather F i (g, r)) _ h in
    let (summary, added, branch) = gather_cases F i (g, r) e in
    elim branch [
      | inl (t, full, moved, same) ↦
          let grown = aggregate-elapsed r.summary i added in
          let later =
            gather_all-elapsed F is s₁.0 s₁.1 (ap (λ p. p.1.len) same ∙ one) (ap (λ p. p.0) same)
              rest in
          let total = ap (λ p. p.1.totals.elapsed) same in
          let left = ap (λ p. p.1.summary.elapsed) same ∙ grown in
          let sums = ap (λ x. sum_of_sums x is) left in
          omega (arith, update-elapsed F (log summary).0 r.totals moved)
      | inr (short, same) ↦ absurd (omega arith)
    ]
