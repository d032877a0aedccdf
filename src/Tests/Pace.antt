-- ===== src/Tests/Pace.antt =====
-- Two generators that send with a limiter of one query a second, at concrete times:
-- bin/src/config.rs, bin/src/gen.rs, bin/src/sender.rs.
use nailgun.Prelude.{
  ℕ, ◌+◌, ◌-◌, ◌*◌, ◌≤◌, ◌<◌, max, ◌≡◌, refl, inl, inr, none, some, List, [], ◌∷◌, arith, leb,
  Bool-cases, ok, err, nanos_per_sec,
}
use native.Mathlib.Nat.{mul-le-mul_right}
use nailgun.Prelude.Assoc.{lookup, insert, remove, contains_key}
use nailgun.Config.{Config, udp, rate_limiter}
use nailgun.Store.{clear_timeouts}
use nailgun.Sender.{all_written, MsgSend, pop_ids, take_batch, send_one}
use nailgun.Query.{RandomPkt, random_pkt_gen, random_pkt_next}
use nailgun.Gen.{cleanup, turn, start}
use nailgun.Gen.Pace.{
  Limiter, Send, Event, goes_on, other, Paced, paced, permit, step, within, readies, Asked, Keeps,
}
use nailgun.Gen.Pace.Rate.{total_within, IsRun, rate_limiter-total_within}
use nailgun.Tests.Gen.{here}

-- A limiter that is ready at most once a second: its state is the time from which it is.
abbrev each_second : Limiter ℕ
each_second = record { until_ready = λ now free. (max now free, max now free + nanos_per_sec) }

-- Past the start of the window, one permit for each second up to its end.
seconds_left :
    (a b clock free : ℕ) (sends : List Send)
    → Asked each_second clock free sends
    → a ≤ free
    → within a b (readies sends) * nanos_per_sec < (b - free) + nanos_per_sec
seconds_left a b clock free [] asked h = omega arith
seconds_left a b clock free (s ∷ sends) (x, ready, asked) h =
    let later =
      seconds_left a b s.ready (max s.asked free + nanos_per_sec) sends asked (omega arith) in
    ground arith

each_second-within :
    (a secs clock free : ℕ) (sends : List Send)
    → Asked each_second clock free sends
    → within a (a + secs * nanos_per_sec) (readies sends) ≤ secs
each_second-within a secs clock free [] asked = omega arith
each_second-within a secs clock free (s ∷ sends) (x, ready, asked) =
    elim (Bool-cases (leb a (max s.asked free))) [
      | inl inside ↦
          let later =
            seconds_left a (a + secs * nanos_per_sec) s.ready (max s.asked free + nanos_per_sec)
              sends asked (ground arith) in
          ground arith
      | inr before ↦
          let later =
            each_second-within a secs s.ready (max s.asked free + nanos_per_sec) sends asked in
          ground arith
    ]

each_second-Keeps : (quota : ℕ) → 0 < quota → Keeps each_second quota 0
each_second-Keeps quota some_quota = record {
  after = λ now l'. omega arith;
  limits = λ clock sends asked a secs.
      let few = each_second-within a secs clock 0 sends asked in
      let more = mul-le-mul_right secs some_quota in omega arith;
}

-- Three queries a second for two generators.
abbrev shared : Config ℕ ℕ ℕ ℕ
shared = record {
  target = 1;
  name_server = none;
  protocol = udp;
  bind = 0;
  qps = 3;
  timeout = 500;
  generators = 2;
  query_src = 0;
}

shared_limited : rate_limiter shared ≡ ok (some 1)
unfolding rate_limiter
shared_limited = refl

abbrev fresh_start : Paced ℕ RandomPkt ℕ
fresh_start = record {
  clock = 0;
  bucket = some 0;
  gen = record here { store = record { ids = 1 ∷ 2 ∷ 3 ∷ []; in_flight = [] } };
}

-- A batch is taken, a query is sent, the cleanup runs, and the next query waits for its second.
abbrev two_sends : List (Event ℕ)
two_sends =
    goes_on 0 0 all_written
    ∷ goes_on 5 7 all_written
    ∷ other (cleanup 50) tt
    ∷ goes_on 100 3 all_written
    ∷ []

abbrev sends : List Send
sends =
    record { asked = 5; ready = 5; stamped = 12 }
    ∷ record { asked = 112; ready = 1_000_000_005; stamped = 1_000_000_008 }
    ∷ []

after : Paced ℕ RandomPkt ℕ
unfolding paced step permit turn random_pkt_next pop_ids take_batch send_one clear_timeouts lookup
    insert remove contains_key
after = elim (paced each_second random_pkt_gen (MsgSend.udp 7) 500 two_sends fresh_start) [
  | ok (s, p) ↦ p
  | err e ↦ fresh_start
]

sends-IsRun :
    IsRun {Addr = ℕ} each_second (λ n. 0) random_pkt_gen (MsgSend.udp 7) 500 (some 1) sends
unfolding after start
sends-IsRun = (two_sends, fresh_start, after, refl, refl)

rate_limiter-total_within_example :
    total_within 10 (10 + 1 * nanos_per_sec) (sends ∷ sends ∷ []) ≤ 3 * (1 + 1) + 2
rate_limiter-total_within_example =
    rate_limiter-total_within each_second (λ n. 0) random_pkt_gen (MsgSend.udp 7) 500 shared
      (some 1) (omega arith) (omega arith) (omega arith) shared_limited each_second-Keeps
      (sends ∷ sends ∷ []) refl (sends-IsRun, (sends-IsRun, tt)) 10 1
