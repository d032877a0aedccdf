-- ===== src/Stats/Printed/Run.antt =====
-- bin/src/stats.rs, `StatsRunner::run`: the lines that it prints for all the reports of a run.
use nailgun.Prelude.{
  ℕ, ◌*◌, ◌%◌, ◌<◌, ◌≡◌, refl, ◌∙◌, inl, inr, Bool, true, List, [], ◌∷◌, ◌++◌, some, arith, length,
  get_elem?, ok, >>=-eq-ok, u32_mod, u64_mod, duration_limit, All, All-const, codes,
}
use nailgun.Stats.Interval.{StatsInterval, aggregate, log, no_latency}
use nailgun.Stats.Totals.{Float32, StatsTotals, update, min_latency}
use nailgun.Stats.Runner.{StatsRunner, gather, gather_all, run, runner}
use nailgun.Stats.Conservation.{Counter, sum_reported, gather_cases, update_fields}
use nailgun.Stats.Totality.{Lasting, run_conserves}
use nailgun.Stats.Printed.{Texts, ms, summary_lines, summary, run_and_print}

module _ (F : Float32) where
  -- What every turn of the loop keeps holds at its end.
  gather_all-keeps :
      (Good : StatsInterval → Type 0) (Kept : ℕ × StatsRunner F.T → Type 0)
      → ((i : StatsInterval) (s s' : ℕ × StatsRunner F.T)
          → Good i
          → Kept s
          → gather F i s ≡ ok s'
          → Kept s')
      → (is : List StatsInterval) (s : ℕ × StatsRunner F.T) {s' : ℕ × StatsRunner F.T} → All Good is
      → Kept s
      → gather_all F is s ≡ ok s'
      → Kept s'
  unfolding gather_all
  gather_all-keeps Good Kept step [] s {s'} a k h = let same : s ≡ s' = cc in rw (← same) k
  gather_all-keeps Good Kept step (i ∷ is) s (a, rest_good) k h =
      let (s₁, e, rest) = >>=-eq-ok (gather F i s) _ h in
      gather_all-keeps Good Kept step is s₁ rest_good (step i s s₁ a k e) rest

  -- The counts of the totals fit 64 bits.
  abbrev pub Fits : ℕ × StatsRunner F.T → Type 0
  Fits s = (s.1.totals.sent < u64_mod) × (s.1.totals.recv < u64_mod)

  pub gather-Fits :
      (i : StatsInterval) (s : ℕ × StatsRunner F.T) {s' : ℕ × StatsRunner F.T}
      → Fits s
      → gather F i s ≡ ok s'
      → Fits s'
  gather-Fits i s fits h =
      let (summary, e, turn) = gather_cases F i s h in
      elim turn [
        | inl (t, full, e', same) ↦ rw same (
          omega (arith, update_fields F _ s.1.totals e'),
          omega (arith, update_fields F _ s.1.totals e'),
        )
        | inr (short, same) ↦ rw same fits
      ]

  -- No latency has been seen: the sum of the round and the totals still hold their first bounds.
  abbrev NoneSeen : ℕ × StatsRunner F.T → Type 0
  NoneSeen s = (s.1.summary.min_latency ≡ no_latency) × (s.1.totals.min_latency ≡ F.largest)

  aggregate-none :
      (s i : StatsInterval) {s' : StatsInterval}
      → s.min_latency ≡ no_latency
      → i.min_latency ≡ no_latency
      → aggregate s i ≡ ok s'
      → s'.min_latency ≡ no_latency
  unfolding aggregate
  aggregate-none s i a b h = ground arith

  min_latency-none : (i : StatsInterval) → i.min_latency ≡ no_latency → min_latency F i ≡ F.of_int 0
  unfolding min_latency
  min_latency-none i h = rw h refl

  update-none :
      (i : StatsInterval) (t : StatsTotals F.T) {t' : StatsTotals F.T}
      → F.is_zero (F.of_int 0) ≡ true
      → i.min_latency ≡ no_latency
      → update F i t ≡ ok t'
      → t'.min_latency ≡ t.min_latency
  unfolding update
  update-none i t z a h = let low = min_latency-none i a in ground arith

  log-none : (s : StatsInterval) → ((log s).0 ≡ s) × ((log s).1.min_latency ≡ no_latency)
  unfolding log
  log-none s = (refl, refl)

  gather-NoneSeen :
      (i : StatsInterval) (s : ℕ × StatsRunner F.T) {s' : ℕ × StatsRunner F.T}
      → F.is_zero (F.of_int 0) ≡ true
      → i.min_latency ≡ no_latency
      → NoneSeen s
      → gather F i s ≡ ok s'
      → NoneSeen s'
  gather-NoneSeen i s z a (n, l) h =
      let (summary, e, turn) = gather_cases F i s h in
      let none_yet = aggregate-none s.1.summary i n a e in
      elim turn [
        | inl (t, full, e', same) ↦
            let (logged, left) = log-none summary in
            rw same (left, update-none summary s.1.totals z none_yet (rw logged at e') ∙ l)
        | inr (short, same) ↦ rw same (none_yet, l)
      ]

  pub runner-start : (len : ℕ) → Fits (0, runner F len) × NoneSeen (0, runner F len)
  unfolding runner
  runner-start len = ((omega arith, omega arith), (refl, refl))

  run-keeps :
      (len : ℕ) (is : List StatsInterval) {r : StatsRunner F.T}
      → run F is (runner F len) ≡ ok r
      → (n : ℕ) × (gather_all F is (0, runner F len) ≡ ok (n, r))
  unfolding run
  run-keeps len is h =
      let (s, e, same) = >>=-eq-ok (gather_all F is (0, runner F len)) _ h in (s.0, cc)

  run-Fits :
      (len : ℕ) (is : List StatsInterval) {r : StatsRunner F.T}
      → run F is (runner F len) ≡ ok r
      → (r.totals.sent < u64_mod) × (r.totals.recv < u64_mod)
  run-Fits len is h =
      let (n, e) = run-keeps len is h in
      gather_all-keeps (λ _. Unit) Fits (λ i s _ _ f g. gather-Fits i s f g) is (0, runner F len)
        (All-const (λ _. tt) is) (runner-start len).0 e

  run-NoneSeen :
      (len : ℕ) (is : List StatsInterval) {r : StatsRunner F.T}
      → F.is_zero (F.of_int 0) ≡ true
      → All (λ i. i.min_latency ≡ no_latency) is
      → run F is (runner F len) ≡ ok r
      → r.totals.min_latency ≡ F.largest
  run-NoneSeen len is z a h =
      let (n, e) = run-keeps len is h in
      (gather_all-keeps (λ i. i.min_latency ≡ no_latency) NoneSeen
        (λ i s _ b f g. gather-NoneSeen i s z b f g) is (0, runner F len) a (runner-start len).1
        e).1

module _ (F : Float32) (x : Texts F.T) {Out : Type 0} (writeln : List ℕ → Out → Out × Bool)
    (E len : ℕ) (is : List StatsInterval) (out : Out) (pos : 0 < len) (narrow : len < u32_mod)
    (lasting : Lasting E is) (short : length is * length is * E < duration_limit)
    (few : length is < u64_mod) where
  run_and_print-ok :
      {r : StatsRunner F.T}
      → run F is (runner F len) ≡ ok r
      → run_and_print F x writeln is (runner F len) out ≡ ok (summary F x writeln r.totals out)
  unfolding run_and_print
  run_and_print-ok h = rw h refl

  -- Where no report lasts longer than `E`, `E` times the square of the number of reports fits a
  -- duration, and every round is complete: the runner returns with what the summary of its totals
  -- leaves on standard output, and the third and fourth line of that summary give the sums of the
  -- queries sent and of the messages received that all reports count, modulo 2 ^ 64.
  pub run_prints_sums :
      length is % len ≡ 0
      → (t : StatsTotals F.T) × (run_and_print F x writeln is (runner F len) out
          ≡ ok (summary F x writeln t out))
        × (get_elem? (summary_lines F x t) 2
            ≡ some (codes "total sent     " ++ x.show_int (sum_reported Counter.sent is % u64_mod)))
        × (get_elem? (summary_lines F x t) 3
            ≡ some (codes "total rcvd     " ++ x.show_int (sum_reported Counter.recv is % u64_mod)))
  unfolding summary_lines
  run_prints_sums whole =
      let (r, e, sent, none_sent) =
        run_conserves F E len Counter.sent is pos narrow lasting short few in
      let (r', e', recv, none_recv) =
        run_conserves F E len Counter.recv is pos narrow lasting short few in
      let same : r' ≡ r = cc in
      let (fits, fits') = run-Fits F len is e in
      let all_sent : r.totals.sent ≡ sum_reported Counter.sent is % u64_mod = ground arith in
      let all_recv : r.totals.recv ≡ sum_reported Counter.recv is % u64_mod =
        ground (arith, rw same at recv, rw same at none_recv) in
      (r.totals, run_and_print-ok e, rw all_sent refl, rw all_recv refl)

  -- Under the same bounds, where f32 takes its 0 for 0 and no report has seen a latency: the runner
  -- returns, and the fifth line of the summary gives the largest f32 as the minimum.
  pub run_prints_largest :
      F.is_zero (F.of_int 0) ≡ true
      → All (λ i. i.min_latency ≡ no_latency) is
      → (t : StatsTotals F.T) × (run_and_print F x writeln is (runner F len) out
          ≡ ok (summary F x writeln t out))
        × (get_elem? (summary_lines F x t) 4
            ≡ some (codes "min latency    " ++ ms (x.show_float F.largest)))
  unfolding summary_lines
  run_prints_largest z none_seen =
      let (r, e, _, _) = run_conserves F E len Counter.sent is pos narrow lasting short few in
      let largest = run-NoneSeen F len is z none_seen e in
      (r.totals, run_and_print-ok e, rw largest refl)
