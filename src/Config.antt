-- ===== src/Config.antt =====
-- bin/src/config.rs: the configuration, the rate of each generator and the rate limiter. Times are
-- numbers of nanoseconds, addresses and the source of queries are parameters, and the limiter of
-- the `governor` crate is represented by the quota for each second that it is made with.
pub mod Rate
use nailgun.Prelude.{
  ℕ, ◌/◌, ◌%◌, Bool, true, false, not, Option, none, some, ◌==◌, if◌then◌else◌, Fault, Result, ok,
  err, ◌>>=◌, u32_mod,
}

pub data Protocol : Type 0 where
  udp tcp doh : Protocol

pub record Config (Addr Ip Name Source : Type 0) : Type 0 where
  pub target : Addr
  pub name_server : Option Name
  pub protocol : Protocol
  pub bind : Ip
  pub qps : ℕ
  pub timeout : ℕ
  pub generators : ℕ
  pub query_src : Source

pub data Qps : Type 0 where
  unlimited : Qps
  limited : ℕ → Qps

unfoldable pub is_limited : Qps → Bool
is_limited unlimited = false
is_limited (limited n) = true

unfoldable pub is_unlimited : Qps → Bool
unfolding is_limited
is_unlimited q = not (is_limited q)

-- `Config::batch_size`
abbrev pub batch_size : ℕ
batch_size = 1_000

-- `NonZeroU32::new(..).expect("QPS is non-zero")`
unfoldable pub non_zero : ℕ → Result ℕ
non_zero n = if n == 0 then err Fault.panicked else ok n

module _ {Addr Ip Name Source : Type 0} where
  -- `generators as u32` keeps the low 32 bits; a division by 0 panics.
  unfoldable pub rate_per_gen : Config Addr Ip Name Source → Result ℕ
  rate_per_gen c =
      let n = c.generators % u32_mod in if n == 0 then err Fault.panicked else ok (c.qps / n)

  -- `Config::qps`
  unfoldable pub qps_of : Config Addr Ip Name Source → Qps
  qps_of c = if c.qps == 0 then unlimited else limited c.qps

  unfoldable pub rate_limiter : Config Addr Ip Name Source → Result (Option ℕ)
  unfolding is_limited qps_of rate_per_gen non_zero
  rate_limiter c =
      if is_limited (qps_of c)
      then (do rate ← rate_per_gen c; quota ← non_zero rate; ok (some quota))
      else ok none
