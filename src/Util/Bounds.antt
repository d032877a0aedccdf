-- ===== src/Util/Bounds.antt =====
-- bin/src/util.rs: the moving average against the average, and within which bounds it stays.
use native.Mathlib.Nat.{
  mod-eq_of_lt, div-mul-le_self, lt-div-mul-add, le-div_iff_mul-le, div-le_of_le-mul,
}
use nailgun.Prelude.{
  ℕ, zero, suc, ◌+◌, ◌-◌, ◌*◌, ◌/◌, ◌%◌, ◌≤◌, ◌<◌, ◌≡◌, refl, ap, ◌∙◌, ◌⊎◌, inl, inr, List, [], ◌∷◌,
  arith, length, sum, ok, u64_mod,
}
use nailgun.Util.{MovingAvg, next, next_all, moving_avg, usize_number}

module _ (x lo hi : ℕ) (m : MovingAvg ℕ) where
  -- The new average before it is divided lies between the bounds times the new number of values.
  weighted :
      lo ≤ x
      → x ≤ hi
      → (m.interval ≡ 0) ⊎ ((lo ≤ m.val) × (m.val ≤ hi))
      → (lo * (m.interval + 1) ≤ m.val * m.interval + x)
        × (m.val * m.interval + x ≤ hi * (m.interval + 1))
  weighted a b (inl e) = rw e (omega arith)
  weighted a b (inr (c, d)) = grind arith

  next_ok :
      m.interval + 1 < u64_mod
      → m.val * m.interval + x < u64_mod
      → next usize_number x m
        ≡ ok (record {
          val = (m.val * m.interval + x) / (m.interval + 1);
          interval = m.interval + 1;
        })
  unfolding next
  next_ok a b =
      let p : m.val * m.interval < u64_mod = omega arith in
      let e : (m.interval + 1) % u64_mod ≡ m.interval + 1 = mod-eq_of_lt a in
      let back : (m.interval + 1 + u64_mod - 1) % u64_mod ≡ m.interval = omega arith in
      rw (e, back, mod-eq_of_lt p, mod-eq_of_lt b) (ground arith)

  -- What one step does to the average: bounds, and the error against the sum of the values.
  next_step :
      (n : ℕ)
      → m.interval + 1 ≤ n
      → lo ≤ x
      → x ≤ hi
      → (m.interval ≡ 0) ⊎ ((lo ≤ m.val) × (m.val ≤ hi))
      → n < u64_mod
      → hi * n < u64_mod
      → (m' : MovingAvg ℕ) × (next usize_number x m ≡ ok m')
        × (m'.interval ≡ m.interval + 1)
        × (lo ≤ m'.val)
        × (m'.val ≤ hi)
        × (m'.val * m'.interval ≤ m.val * m.interval + x)
        × (m.val * m.interval + x ≤ m'.val * m'.interval + m.interval)
  next_step n a b c d e f =
      let k : ℕ = m.interval in
      let total : ℕ = m.val * k + x in
      let (low, high) = weighted b c d in
      let fits : hi * (k + 1) ≤ hi * n = grind arith in
      let pos : 0 < k + 1 = omega arith in
      let down : total / (k + 1) * (k + 1) ≤ total = div-mul-le_self total (k + 1) in
      let up : total < total / (k + 1) * (k + 1) + (k + 1) = lt-div-mul-add pos in
      (
        record { val = total / (k + 1); interval = k + 1 },
        next_ok (omega arith) (omega arith),
        refl,
        (le-div_iff_mul-le pos).1 low,
        div-le_of_le-mul (k + 1) (omega arith),
        down,
        omega arith,
      )

-- Every value of a list lies between the two bounds.
abbrev pub Within : ℕ → ℕ → List ℕ → Type 0
Within lo hi [] = Unit {0}
Within lo hi (x ∷ xs) = (lo ≤ x) × (x ≤ hi) × Within lo hi xs

-- The average after some values, the sum of which is `s`: within the bounds, and below the true
-- mean by less than half the number of values.
abbrev IsMean : ℕ → ℕ → ℕ → MovingAvg ℕ → Type 0
IsMean lo hi s m =
    ((m.interval ≡ 0) ⊎ ((lo ≤ m.val) × (m.val ≤ hi)))
    × (m.val * m.interval ≤ s)
    × (2 * s ≤ 2 * (m.val * m.interval) + m.interval * (m.interval - 1))

triangle : (k : ℕ) → (k + 1) * (k + 1 - 1) ≡ k * (k - 1) + 2 * k
triangle zero = refl
triangle (suc k) =
    let e : suc k + 1 - 1 ≡ suc k = omega arith in
    let f : suc k - 1 ≡ k = omega arith in rw (e, f) (omega arith)

next-IsMean :
    (lo hi s x n : ℕ) (m : MovingAvg ℕ)
    → m.interval + 1 ≤ n
    → lo ≤ x
    → x ≤ hi
    → n < u64_mod
    → hi * n < u64_mod
    → IsMean lo hi s m
    → (m' : MovingAvg ℕ) × (next usize_number x m ≡ ok m')
      × (m'.interval ≡ m.interval + 1)
      × IsMean lo hi (s + x) m'
next-IsMean lo hi s x n m a b c fits wide (i, j, k) =
    let (m', e, eq, low, high, down, up) = next_step x lo hi m n a b c i fits wide in
    let grown = ap (λ (t : ℕ). t * (t - 1)) eq ∙ triangle m.interval in
    (m', e, eq, (inr (low, high), omega arith, omega arith))

next_all-IsMean :
    (lo hi s : ℕ) (xs : List ℕ) (m : MovingAvg ℕ)
    → Within lo hi xs
    → m.interval + length xs < u64_mod
    → hi * (m.interval + length xs) < u64_mod
    → IsMean lo hi s m
    → (m' : MovingAvg ℕ) × (next_all usize_number xs m ≡ ok m')
      × (m'.interval ≡ m.interval + length xs)
      × IsMean lo hi (s + sum xs) m'
unfolding next_all
next_all-IsMean lo hi s [] m w a b (i, j, k) = (m, refl, omega arith, (i, omega arith, omega arith))
next_all-IsMean lo hi s (x ∷ xs) m (b, c, w) fits wide i =
    let (m', e, eq, i') =
      next-IsMean lo hi s x (m.interval + suc (length xs)) m (omega arith) b c fits wide i in
    let same : m'.interval + length xs ≡ m.interval + suc (length xs) = omega arith in
    let (m'', e', eq', i'') =
      next_all-IsMean lo hi (s + x) xs m' w (rw same fits) (rw same wide) i' in
    (m'', rw e e', omega arith, (i''.0, omega arith, omega arith))

-- The moving average over usize of a non-empty list of values between `lo` and `hi`, where the
-- upper bound times the number of values fits 64 bits: no step panics, every value is counted, the
-- result lies between the bounds too, it is not above the true mean, and it is below it by less
-- than half the number of values.
pub next_all_bounds :
    (lo hi x : ℕ) (xs : List ℕ)
    → Within lo hi (x ∷ xs)
    → length (x ∷ xs) < u64_mod
    → hi * length (x ∷ xs) < u64_mod
    → let n = length (x ∷ xs) in
      (m : MovingAvg ℕ) × (next_all usize_number (x ∷ xs) (moving_avg 0) ≡ ok m)
      × (m.interval ≡ n)
      × (lo ≤ m.val)
      × (m.val ≤ hi)
      × (m.val * n ≤ sum (x ∷ xs))
      × (2 * sum (x ∷ xs) ≤ 2 * (m.val * n) + n * (n - 1))
next_all_bounds lo hi x xs w fits wide =
    let same : 0 + length (x ∷ xs) ≡ length (x ∷ xs) = omega arith in
    let (m, e, eq, mean) =
      next_all-IsMean lo hi 0 (x ∷ xs) (moving_avg 0) w (rw same fits) (rw same wide)
        (inl refl, omega arith, omega arith) in
    let (i, j, k) = mean in
    let n : m.interval ≡ length (x ∷ xs) = omega arith in
    let grown = ap (λ (t : ℕ). t * (t - 1)) n in
    let scaled = ap (λ (t : ℕ). m.val * t) n in
    (m, e, n, ground arith, ground arith, omega arith, omega arith)
