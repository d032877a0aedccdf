-- ===== src/Tests/Sender.antt =====
-- The sender at concrete inputs: bin/src/sender.rs, bin/src/config.rs, bin/src/util.rs.
use nailgun.Prelude.{
  ℕ, ◌+◌, ◌*◌, ◌≤◌, ◌<◌, ◌≡◌, refl, ◌⊎◌, true, false, none, some, List, [], ◌∷◌, arith, length,
  count, Fault, ok, err, add64,
}
use nailgun.Prelude.Assoc.{lookup, contains_key}
use nailgun.Config.{Config, udp, rate_limiter}
use nailgun.Config.Rate.{rate_limiter_lem}
use nailgun.Msg.Framing.{drain}
use nailgun.Store.{Store}
use nailgun.Query.{RandomPkt, random_pkt_gen, random_pkt_next}
use nailgun.Sender.{
  Write, all_written, broken_off, Output, tcp, Sending, take_batch, send_one, send_batch,
}
use nailgun.Sender.Batch.{take_batch_lem}
use nailgun.Sender.Wire.{
  stream, all_outputs, generate, send_one_stopped, IsBrokenOff, send_batch_wire, send_batch_decoded,
}
use nailgun.Util.{MovingAvg, next_all, moving_avg, usize_number}
use nailgun.Util.Bounds.{next_all_bounds}

-- The id 5 stands among the free ids and is in flight too.
abbrev doubled : Store
doubled = record { ids = 4 ∷ 5 ∷ 6 ∷ []; in_flight = (5, record { sent = 0; len = 12 }) ∷ [] }

take_batch_lem_example :
    let (picked, s') = take_batch 2 doubled in
    (length picked ≤ 2)
    × (s'.in_flight ≡ doubled.in_flight)
    × ((j : ℕ)
        → ((contains_key j doubled.in_flight ≡ true) × (count j picked ≡ 0))
          ⊎ ((contains_key j doubled.in_flight ≡ false)
              × (count j picked + count j s'.ids ≡ count j doubled.ids)))
take_batch_lem_example = take_batch_lem 2 doubled

abbrev idle : Store
idle = record { ids = 4 ∷ 5 ∷ 6 ∷ []; in_flight = [] }

abbrev peer : ℕ
peer = 7

abbrev packets : RandomPkt
packets = record { len = 1; random = λ n. n; drawn = 0 }

abbrev before : Sending RandomPkt ℕ
before = record {
  store = record { ids = 6 ∷ []; in_flight = [] };
  atomic_store = record { sent = 0; timed_out = 0 };
  query_gen = packets;
  wire = [];
}

abbrev batch : List (ℕ × ℕ × Write)
batch = (4, 10, all_written) ∷ (5, 11, all_written) ∷ []

-- The write fails when the length and one byte of the message are out.
send_one_stopped_example :
    let s' = (send_one random_pkt_gen tcp 10 (broken_off 3) 4 before).1 in
    (s'.atomic_store ≡ before.atomic_store)
    × (((s'.store ≡ before.store) × (s'.wire ≡ []))
        ⊎ ((msg : List ℕ) × (k : ℕ) × (broken_off 3 ≡ broken_off k)
            × (random_pkt_next packets 4 ≡ ok (some msg, s'.query_gen))
            × (lookup 4 s'.store.in_flight ≡ some (record { sent = 10; len = length msg }))
            × (out : List (Output ℕ)) × (s'.wire ≡ out)
            × IsBrokenOff tcp k msg out))
unfolding send_one random_pkt_next
send_one_stopped_example =
    send_one_stopped random_pkt_gen tcp 10 4 (broken_off 3) before {f = Fault.failed} refl

send_batch_wire_example :
    let s' = (send_batch random_pkt_gen tcp batch before).1 in
    (msgs : List (List ℕ)) × (generate random_pkt_gen packets (4 ∷ 5 ∷ [])
      ≡ ok (msgs, s'.query_gen))
    × (s'.wire ≡ all_outputs tcp msgs)
    × (s'.atomic_store.sent ≡ add64 0 2)
    × (length msgs ≡ 2)
unfolding send_batch random_pkt_next
send_batch_wire_example = send_batch_wire random_pkt_gen tcp batch before (omega arith) refl

abbrev two_msgs : List (List ℕ)
two_msgs = (0 ∷ 4 ∷ 0 ∷ []) ∷ (0 ∷ 5 ∷ 1 ∷ []) ∷ []

send_batch_decoded_example :
    drain peer 3 (stream (send_batch random_pkt_gen tcp batch before).1.wire)
    ≡ ((0 ∷ 4 ∷ 0 ∷ [], peer) ∷ (0 ∷ 5 ∷ 1 ∷ [], peer) ∷ [], [])
unfolding send_batch random_pkt_next generate
send_batch_decoded_example =
    send_batch_decoded random_pkt_gen peer batch before two_msgs {g = record packets { drawn = 2 }}
      refl (omega arith) refl refl (omega arith)

abbrev busy : Config ℕ ℕ ℕ ℕ
busy = record {
  target = 1;
  name_server = none;
  protocol = udp;
  bind = 0;
  qps = 3;
  timeout = 2_000_000_000;
  generators = 4;
  query_src = 0;
}

rate_limiter_lem_example :
    ((busy.qps ≡ 0) × (rate_limiter busy ≡ ok none))
    ⊎ ((4 ≤ 3)
        × ((q : ℕ) × (rate_limiter busy ≡ ok (some q)) × (0 < q) × (q * 4 ≤ 3) × (3 < q * 4 + 4)))
    ⊎ ((0 < 3) × (3 < 4) × (rate_limiter busy ≡ err Fault.panicked))
rate_limiter_lem_example = rate_limiter_lem busy (omega arith) (omega arith)

-- Three queries a second for four generators.
busy_panics : rate_limiter busy ≡ err Fault.panicked
unfolding rate_limiter
busy_panics = refl

next_all_bounds_example :
    (m : MovingAvg ℕ) × (next_all usize_number (5 ∷ 6 ∷ 8 ∷ []) (moving_avg 0) ≡ ok m)
    × (m.interval ≡ 3)
    × (5 ≤ m.val)
    × (m.val ≤ 8)
    × (m.val * 3 ≤ 19)
    × (2 * 19 ≤ 2 * (m.val * 3) + 6)
next_all_bounds_example =
    next_all_bounds 5 8 5 (6 ∷ 8 ∷ []) (omega arith) (omega arith) (omega arith)
