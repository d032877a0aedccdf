-- ===== src/Util.antt =====
-- bin/src/util.rs: a moving average over any kind of number, and over usize.
pub mod Bounds
use nailgun.Prelude.{
  ℕ, ◌+◌, ◌-◌, ◌*◌, ◌/◌, ◌%◌, List, [], ◌∷◌, ◌==◌, if◌then◌else◌, Fault, Result, ok, err, ◌>>=◌,
  u64_mod, add64,
}

-- `T: Num + AsPrimitive<T>`, `usize: AsPrimitive<T>`: the operations that `next` uses. Those of
-- usize wrap, and its division panics at 0.
pub record Number : Type 1 where
  pub T : Type 0
  pub add : T → T → T
  pub mul : T → T → T
  pub div : T → T → Result T
  pub of_usize : ℕ → T

pub record MovingAvg (T : Type 0) : Type 0 where
  pub val : T
  pub interval : ℕ

-- `MovingAvg::new`
abbrev pub moving_avg : {T : Type 0} → T → MovingAvg T
moving_avg val = record { val = val; interval = 0 }

-- `(interval - 1).as_()` takes the wrapped predecessor of a wrapped successor, which is the
-- interval before the call.
unfoldable pub next : (N : Number) → N.T → MovingAvg N.T → Result (MovingAvg N.T)
next N x m = do
  let interval = add64 m.interval 1
  let before = (interval + u64_mod - 1) % u64_mod
  val ← N.div (N.add (N.mul m.val (N.of_usize before)) x) (N.of_usize interval)
  ok (record { val = val; interval = interval })

unfoldable pub next_all : (N : Number) → List N.T → MovingAvg N.T → Result (MovingAvg N.T)
next_all N [] m = ok m
next_all N (x ∷ xs) m = do m' ← next N x m; next_all N xs m'

abbrev pub usize_div : ℕ → ℕ → Result ℕ
usize_div a b = if b == 0 then err Fault.panicked else ok (a / b)

abbrev pub usize_number : Number
usize_number = record {
  T = ℕ;
  add = add64;
  mul = λ a b. (a * b) % u64_mod;
  div = usize_div;
  of_usize = λ n. n;
}
