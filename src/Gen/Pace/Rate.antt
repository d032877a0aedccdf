-- ===== src/Gen/Pace/Rate.antt =====
-- bin/src/config.rs, bin/src/gen.rs and bin/src/sender.rs: the rate at which all generators of the
-- program send together.
use nailgun.Prelude.{
  ℕ, ◌+◌, ◌*◌, ◌≤◌, ◌<◌, ◌≡◌, inl, inr, Option, none, some, List, [], ◌∷◌, arith, length, ok,
  u32_mod, nanos_per_sec,
}
use native.Mathlib.Nat.{mul-le-mul_right}
use nailgun.Config.{Config, rate_limiter}
use nailgun.Config.Rate.{rate_limiter_lem}
use nailgun.Sender.{QueryGen, MsgSend}
use nailgun.Gen.Pace.{Limiter, Send, Event, Paced, paced, within, stamps, Keeps}
use nailgun.Gen.Pace.Window.{within-stamps, paced-InOrder}

-- The stamps of several generators that lie in a window.
abbrev pub total_within : ℕ → ℕ → List (List Send) → ℕ
total_within a b [] = 0
total_within a b (sends ∷ runs) = within a b (stamps sends) + total_within a b runs

-- The limiter of a quota, if there is one.
abbrev pub limiter_of : {L : Type 0} → (ℕ → L) → Option ℕ → Option L
limiter_of new none = none
limiter_of new (some quota) = some (new quota)

module _ {L G Addr : Type 0} (limiter : Limiter L) (new : ℕ → L) (q : QueryGen G)
    (how : MsgSend Addr) (timeout : ℕ) where
  -- All that a generator sends that has started with a new limiter, up to some time.
  abbrev pub IsRun : Option ℕ → List Send → Type 0
  IsRun bucket sends =
      (events : List (Event Addr)) × (p p' : Paced L G Addr) × (p.bucket ≡ limiter_of new bucket)
      × (paced limiter q how timeout events p ≡ ok (sends, p'))

  abbrev pub AreRuns : Option ℕ → List (List Send) → Type 0
  AreRuns bucket [] = Unit {0}
  AreRuns bucket (sends ∷ runs) = IsRun bucket sends × AreRuns bucket runs

  IsRun-within :
      (quota : ℕ) (sends : List Send)
      → Keeps limiter quota (new quota)
      → IsRun (some quota) sends
      → (a secs : ℕ)
      → within a (a + secs * nanos_per_sec) (stamps sends) ≤ 1 + (quota + quota * secs)
  IsRun-within quota sends keeps (events, p, p', held, ran) a secs =
      let (asked, ordered) =
        paced-InOrder limiter q how timeout events p p' 0 (new quota) keeps.after held (omega arith)
          ran in
      let permits = keeps.limits 0 sends asked a secs in
      let one_more = within-stamps a (a + secs * nanos_per_sec) p.clock sends ordered in omega arith

  AreRuns-within :
      (quota : ℕ) (runs : List (List Send))
      → Keeps limiter quota (new quota)
      → AreRuns (some quota) runs
      → (a secs : ℕ)
      → total_within a (a + secs * nanos_per_sec) runs ≤ length runs * (1 + (quota + quota * secs))
  AreRuns-within quota [] keeps all a secs = omega arith
  AreRuns-within quota (sends ∷ runs) keeps (one, all) a secs =
      let h = IsRun-within quota sends keeps one a secs in
      let h' = AreRuns-within quota runs keeps all a secs in omega arith

  -- With a positive rate `qps` and a limiter that keeps to its quota and burst: however the tasks of
  -- the generators are interleaved and delayed, in any window of whole seconds all of them together
  -- stamp no more queries than the rate allows for these seconds and one more, and one for each
  -- generator.
  pub rate_limiter-total_within :
      {Ip Name Source : Type 0} (c : Config Addr Ip Name Source) (bucket : Option ℕ)
      → 0 < c.generators
      → c.generators < u32_mod
      → 0 < c.qps
      → rate_limiter c ≡ ok bucket
      → ((quota : ℕ) → 0 < quota → Keeps limiter quota (new quota))
      → (runs : List (List Send)) → length runs ≡ c.generators
      → AreRuns bucket runs
      → (a secs : ℕ)
      → total_within a (a + secs * nanos_per_sec) runs ≤ c.qps * (secs + 1) + c.generators
  rate_limiter-total_within c bucket pos fits limited made keeps runs all_of all a secs =
      elim (rate_limiter_lem c pos fits) [
        | inl (unlimited, e) ↦ absurd (omega arith)
        | inr (inr (x, y, e)) ↦ absurd (ground arith)
        | inr (inl (enough, (quota, e, some_quota, below, above))) ↦
            let same : bucket ≡ some quota = cc in
            let each = AreRuns-within quota runs (keeps quota some_quota) (rw same at all) a secs in
            let whole : c.generators * (1 + (quota + quota * secs))
                ≡ c.generators + quota * c.generators * (secs + 1) =
              omega arith in
            let less : quota * c.generators * (secs + 1) ≤ c.qps * (secs + 1) =
              mul-le-mul_right (secs + 1) below in
            omega (arith, rw (all_of, whole) at each)
      ]
