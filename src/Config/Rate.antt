-- ===== src/Config/Rate.antt =====
-- bin/src/config.rs: when the rate limiter can be made, and what all generators send together.
use native.Mathlib.Nat.{
  le-div_iff_mul-le, div-mul-le_self, lt-div-mul-add, div-eq_of_lt, mod-eq_of_lt,
}
use nailgun.Prelude.{
  ℕ, ◌+◌, ◌*◌, ◌/◌, ◌≤◌, ◌<◌, ◌≡◌, ◌⊎◌, inl, inr, none, some, arith, leb, ◌==◌, Bool-cases, Fault,
  ok, err, u32_mod,
}
use nailgun.Config.{Config, rate_limiter}

module _ {Addr Ip Name Source : Type 0} (c : Config Addr Ip Name Source) where
  -- For a number of generators that u32 can hold: with no rate asked for there is no limiter; with
  -- at least one query a second for each generator, each gets the same positive quota, and all
  -- quotas together fall short of the rate by less than the number of generators; with a positive
  -- rate below the number of generators, to make the limiter panics.
  pub rate_limiter_lem :
      0 < c.generators
      → c.generators < u32_mod
      → ((c.qps ≡ 0) × (rate_limiter c ≡ ok none))
        ⊎ ((c.generators ≤ c.qps)
            × ((q : ℕ) × (rate_limiter c ≡ ok (some q))
                × (0 < q)
                × (q * c.generators ≤ c.qps)
                × (c.qps < q * c.generators + c.generators)))
        ⊎ ((0 < c.qps) × (c.qps < c.generators) × (rate_limiter c ≡ err Fault.panicked))
  unfolding rate_limiter
  rate_limiter_lem pos fits = elim (Bool-cases (c.qps == 0)) [
    | inl unlimited_rate ↦ inl (ground arith, ground arith)
    | inr some_rate ↦ inr (elim (Bool-cases (leb c.generators c.qps)) [
      | inl enough ↦
          let h : c.generators ≤ c.qps = ground arith in
          inl (
            h,
            (
              c.qps / c.generators,
              ground arith,
              (le-div_iff_mul-le pos).1 (omega arith),
              div-mul-le_self c.qps c.generators,
              lt-div-mul-add pos,
            ),
          )
      | inr less ↦
          let h : c.qps < c.generators = ground arith in
          inr (ground arith, h, ground (arith, div-eq_of_lt h, mod-eq_of_lt fits))
    ])
  ]
