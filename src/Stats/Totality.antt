-- ===== src/Stats/Totality.antt =====
-- bin/src/stats.rs: the runner does not panic, where the reported durations are not absurdly long.
use native.Mathlib.Nat.{mod-eq_of_lt}
use nailgun.Prelude.{
  ℕ, suc, ◌+◌, ◌*◌, ◌/◌, ◌%◌, ◌≤◌, ◌<◌, ◌≡◌, refl, ◌≢◌, ◌⊎◌, inl, inr, ◌&&◌, not, List, [], ◌∷◌,
  arith, ◌==◌, if◌then◌else◌, Bool-cases, length, ok, Result-cases, u32_mod, u64_mod,
  duration_limit,
}
use nailgun.Util.{MovingAvg, next, usize_number}
use nailgun.Stats.Interval.{StatsInterval, aggregate, log}
use nailgun.Stats.Totals.{Float32, StatsTotals, update, avg_latency, float_number, next_size}
use nailgun.Stats.Conservation.{Counter, reported, totalled, sum_reported, run-totalled}
use nailgun.Stats.Runner.{StatsRunner, gather, gather_all, run, runner}

next-usize_interval :
    (x : ℕ) (m : MovingAvg ℕ)
    → m.interval + 1 < u64_mod
    → (m' : MovingAvg ℕ) × (next usize_number x m ≡ ok m') × (m'.interval ≡ m.interval + 1)
unfolding next
next-usize_interval x m h =
    let e : (m.interval + 1) % u64_mod ≡ m.interval + 1 = mod-eq_of_lt h in
    elim (Result-cases (next usize_number x m)) [
      | inl (m', done) ↦ (m', done, ground arith)
      | inr (f, fault) ↦ absurd (ground arith)
    ]

next_size-ok :
    (k size n : ℕ) (m : MovingAvg ℕ)
    → k + 1 < u64_mod
    → m.interval ≤ k
    → (m' : MovingAvg ℕ) × (next_size size n m ≡ ok m') × (m'.interval ≤ k + 1)
unfolding next_size
next_size-ok k size n m h l = elim (Bool-cases (not (size == 0) && not (n == 0))) [
  | inl both ↦
      let (m', e, i) = next-usize_interval (size / n) m (omega arith) in
      (m', rw both e, omega arith)
  | inr other ↦ (m, rw other, omega arith)
]

aggregate-ok :
    (s i : StatsInterval)
    → s.elapsed + i.elapsed < duration_limit
    → s.total_latency + i.total_latency < duration_limit
    → (s' : StatsInterval) × (aggregate s i ≡ ok s')
      × (s'.elapsed ≡ s.elapsed + i.elapsed)
      × (s'.total_latency ≡ s.total_latency + i.total_latency)
unfolding aggregate
aggregate-ok s i a b = elim (Result-cases (aggregate s i)) [
  | inl (s', done) ↦ (s', done, ground arith, ground arith)
  | inr (f, fault) ↦ absurd (ground arith)
]

module _ (F : Float32) where
  next-float_ok :
      (x : F.T) (m : MovingAvg F.T) → (m' : MovingAvg F.T) × (next (float_number F) x m ≡ ok m')
  unfolding next
  next-float_ok x m = (_, refl)

  mean-ok :
      (x : F.T) (m : MovingAvg F.T)
      → (m' : MovingAvg F.T) × ((if F.is_zero x then ok m else next (float_number F) x m) ≡ ok m')
  mean-ok x m = elim (Bool-cases (F.is_zero x)) [
    | inl z ↦ (m, rw z)
    | inr p ↦ let (m', e) = next-float_ok x m in (m', rw p e)
  ]

  update-ok :
      (k : ℕ) (i : StatsInterval) (t : StatsTotals F.T)
      → t.elapsed + i.elapsed < duration_limit
      → k + 1 < u64_mod
      → t.avg_buf_size.interval ≤ k
      → t.avg_recv_buf_size.interval ≤ k
      → (t' : StatsTotals F.T) × (update F i t ≡ ok t')
        × (t'.elapsed ≡ t.elapsed + i.elapsed)
        × (t'.avg_buf_size.interval ≤ k + 1)
        × (t'.avg_recv_buf_size.interval ≤ k + 1)
  unfolding update
  update-ok k i t a b c d =
      let (sizes, e, l) = next_size-ok k i.buf_size i.sent t.avg_buf_size b c in
      let (recv_sizes, e', l') = next_size-ok k i.recv_buf_size i.ok_recv t.avg_recv_buf_size b d in
      let (mean, e'') = mean-ok (avg_latency F i) t.avg_latency in
      elim (Result-cases (update F i t)) [
        | inl (t', done) ↦ (t', done, ground arith, ground arith, ground arith)
        | inr (f, fault) ↦ absurd (ground (arith))
      ]

-- The durations after `k` reports, none of which is longer than `E`.
record Bounded {T : Type 0} (E k : ℕ) (s : ℕ × StatsRunner T) : Type 0 where
  elapsed : s.1.summary.elapsed ≤ k * E
  total_latency : s.1.summary.total_latency ≤ k * E
  total_elapsed : s.1.totals.elapsed ≤ k * k * E
  sizes : s.1.totals.avg_buf_size.interval ≤ k
  recv_sizes : s.1.totals.avg_recv_buf_size.interval ≤ k

-- No report took longer than `E`, nor did the latencies of one add up to more.
abbrev pub Lasting : ℕ → List StatsInterval → Type 0
Lasting E [] = Unit {0}
Lasting E (i ∷ is) = (i.elapsed ≤ E) × (i.total_latency ≤ E) × Lasting E is

module _ (F : Float32) (E : ℕ) where
  gather-ok :
      (k : ℕ) (i : StatsInterval) (s : ℕ × StatsRunner F.T)
      → i.elapsed ≤ E
      → i.total_latency ≤ E
      → (k + 1) * (k + 1) * E < duration_limit
      → k + 1 < u64_mod
      → Bounded E k s
      → (s' : ℕ × StatsRunner F.T) × (gather F i s ≡ ok s') × Bounded E (k + 1) s'
  unfolding gather log
  gather-ok k i s a b c d v =
      let grown : (k + 1) * (k + 1) * E ≡ k * k * E + 2 * (k * E) + E = omega arith in
      let more : (k + 1) * E ≡ k * E + E = omega arith in
      let (summary, e, x, y) =
        aggregate-ok s.1.summary i (omega (arith, v.elapsed)) (omega (arith, v.total_latency)) in
      let (t, e', z, p, q) =
        update-ok F k summary s.1.totals (omega (arith, v.elapsed, v.total_elapsed)) d v.sizes
          v.recv_sizes in
      elim (Bool-cases ((s.0 + 1) % u32_mod == s.1.len)) [
        | inl full ↦ (
          (0, record s.1 { summary = (log summary).1; totals = t }),
          rw (e, full, e', gather),
          record {
            elapsed = omega (arith, v.elapsed);
            total_latency = omega arith;
            total_elapsed = omega (arith, v.elapsed, v.total_elapsed);
            sizes = p;
            recv_sizes = q;
          },
        )
        | inr short ↦ (
          ((s.0 + 1) % u32_mod, record s.1 { summary = summary }),
          rw (e, short, gather),
          record {
            elapsed = omega (arith, v.elapsed);
            total_latency = omega (arith, v.total_latency);
            total_elapsed = omega (arith, v.total_elapsed);
            sizes = omega (arith, v.sizes);
            recv_sizes = omega (arith, v.recv_sizes);
          },
        )
      ]

  gather_all-ok :
      (k : ℕ) (is : List StatsInterval) (s : ℕ × StatsRunner F.T)
      → Lasting E is
      → (k + length is) * (k + length is) * E < duration_limit
      → k + length is < u64_mod
      → Bounded E k s
      → (s' : ℕ × StatsRunner F.T) × (gather_all F is s ≡ ok s')
  unfolding gather_all
  gather_all-ok k [] s l c d v = (s, refl)
  gather_all-ok k (i ∷ is) s (a, b, l) c d v =
      let shift : k + suc (length is) ≡ k + 1 + length is = omega arith in
      let wide : (k + 1 + length is) * (k + 1 + length is) * E < duration_limit = rw shift at c in
      let less : (k + 1) * (k + 1) * E ≤ (k + 1 + length is) * (k + 1 + length is) * E =
        omega arith in
      let (s₁, e, v₁) = gather-ok k i s a b (omega arith) (omega arith) v in
      let (s₂, e') = gather_all-ok (k + 1) is s₁ l wide (omega arith) v₁ in (s₂, rw e e')

  -- Where no report lasts longer than `E` and `E` times the square of the number of reports fits a
  -- duration, the run returns. For a number of generators that u32 can hold, every count of the
  -- totals, with what the summary holds of an unfinished round, is then the sum of the counts of all
  -- reports, modulo 2 ^ 64; and the summary holds nothing, unless the number of reports is no multiple
  -- of the number of generators.
  pub run_conserves :
      (len : ℕ) (c : Counter) (is : List StatsInterval)
      → 0 < len
      → len < u32_mod
      → Lasting E is
      → length is * length is * E < duration_limit
      → length is < u64_mod
      → (r : StatsRunner F.T) × (run F is (runner F len) ≡ ok r)
        × ((totalled c r.totals + reported c r.summary) % u64_mod ≡ sum_reported c is % u64_mod)
        × ((length is % len ≢ 0) ⊎ (reported c r.summary ≡ 0))
  unfolding run runner
  run_conserves len c is pos fits l d n =
      let start : ℕ × StatsRunner F.T = (0, runner F len) in
      let none_yet : Bounded E 0 start = record {
        elapsed = omega arith;
        total_latency = omega arith;
        total_elapsed = omega arith;
        sizes = omega arith;
        recv_sizes = omega arith;
      } in
      let same : 0 + length is ≡ length is = omega arith in
      let (s, e) = gather_all-ok 0 is start l (rw same d) (rw same n) none_yet in
      let returns : run F is (runner F len) ≡ ok s.1 = rw e in
      let (held, whole) = run-totalled F len c is pos fits returns in (s.1, returns, held, whole)
