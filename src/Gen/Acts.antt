-- ===== src/Gen/Acts.antt =====
-- bin/src/gen.rs, bin/src/sender.rs and bin/src/stats.rs: a generator in smaller steps than its turns.
-- A send stops at its write, and a report is made between the load of the shared counters and the
-- stores of 0, while other tasks go on. The turns of Gen are the runs in which nothing comes between.
pub mod Sound
pub mod Refines
use nailgun.Prelude.{
  ℕ, suc, ◌+◌, ◌-◌, ◌%◌, u64_mod, ◌≡◌, refl, ap, inl, inr, Option, none, some, List, [], ◌∷◌, ◌++◌,
  arith, ◌==◌, ◌&&◌, if◌then◌else◌, Option-cases, Result-cases, >>=-eq-ok, length, count, ok, err,
  Result, add_duration, Bool-cases,
}
use nailgun.Prelude.Assoc.{contains_key, count-insert, length-insert_absent}
use nailgun.Config.{batch_size}
use nailgun.Store.{AtomicStore, QueryInfo, add_sent}
use nailgun.Sender.{
  Write, all_written, broken_off, MsgSend, outputs, QueryGen, take_batch, insert_in_flight,
  send_one,
}
use nailgun.Stats.Tracker
use nailgun.Stats.Conservation.{Counter}
use nailgun.Gen.{
  Generator, Turn, sender, frame, broken, tick, cleanup, report, sender_turn, turn, turns, start,
}
use nailgun.Gen.Whole.{
  IsWhole, is_unsolicited, pending-absent, SenderStep-IsWhole, turn-IsWhole, start-IsWhole,
}
use nailgun.Gen.Account.{
  sent_count, answer_count, timeout_count, IsOwing, SenderStep-IsOwing, turn-IsOwing,
  sum_reported-append,
}

-- What a report has read: the time, the queries in flight, and the counters.
pub record Loaded : Type 0 where
  pub now : ℕ
  pub in_flight : ℕ
  pub counters : AtomicStore

-- A generator with the message whose write the sender waits for, and the report that is being made.
pub record Busy (G Addr : Type 0) : Type 0 where
  pub gen : Generator G Addr
  pub writing : Option (List ℕ)
  pub loaded : Option Loaded

-- The sender takes a batch, or the next id of it as far as the write; its write ends; the loop starts a
-- report, or ends it; an answer arrives, or the cleanup runs.
pub data Act (Addr : Type 0) : Type 0 where
  begins : ℕ → Act Addr
  ends : Write → Act Addr
  loads : ℕ → Act Addr
  stores : Act Addr
  takes_turn : Turn Addr → Act Addr

module _ {G Addr : Type 0} (q : QueryGen G) (how : MsgSend Addr) (timeout : ℕ) where
  -- The query is put in flight before it is written.
  unfoldable pub begin : ℕ → Busy G Addr → List ℕ → Option (Busy G Addr)
  unfolding insert_in_flight
  begin now b [] =
      let (ids, s) = take_batch batch_size b.gen.store in
      some (record b { gen = record b.gen { store = s; pending = ids } })
  begin now b (id ∷ rest) = elim (q.next_msg b.gen.query_gen id) [
    | err e ↦ none
    | ok (none, g) ↦ none
    | ok (some msg, g) ↦
        let info : QueryInfo = record { sent = now; len = length msg } in
        some (record b {
          gen = record b.gen {
            store = insert_in_flight id info b.gen.store;
            query_gen = g;
            pending = rest;
          };
          writing = some msg;
        })
  ]

  -- It is counted after that.
  unfoldable pub end_write : Write → List ℕ → Busy G Addr → Option (Busy G Addr)
  unfolding add_sent outputs
  end_write (broken_off k) msg b = none
  end_write all_written msg b = some (record b {
    gen = record b.gen {
      tracker = record b.gen.tracker { atomic_store = add_sent 1 b.gen.tracker.atomic_store };
      wire = b.gen.wire ++ outputs how msg;
    };
    writing = none;
  })

  -- The report has what was loaded, and the counters are set to 0 whatever they are now.
  unfoldable pub store_report : Loaded → Busy G Addr → Option (Busy G Addr)
  unfolding Tracker.interval
  store_report l b =
      let g = b.gen in
      elim (add_duration g.total_duration (l.now - g.interval)) [
        | err e ↦ none
        | ok total ↦
            let read = record g.tracker { atomic_store = l.counters } in
            let (i, t) = Tracker.interval (l.now - g.interval) total l.in_flight read in
            some (record b {
              gen = record g {
                tracker = t;
                interval = l.now;
                total_duration = total;
                reports = g.reports ++ i ∷ [];
              };
              loaded = none;
            })
      ]

  -- The turn of another task; the loop that makes a report takes no answer.
  unfoldable pub other_turn : Turn Addr → Option Loaded → Busy G Addr → Option (Busy G Addr)
  unfolding turn
  other_turn (cleanup now) l b = elim (turn q how timeout (cleanup now) b.gen) [
    | err e ↦ none
    | ok g ↦ some (record b { gen = g })
  ]
  other_turn (frame now buf addr) none b = elim (turn q how timeout (frame now buf addr) b.gen) [
    | err e ↦ none
    | ok g ↦ some (record b { gen = g })
  ]
  other_turn broken none b = elim (turn q how timeout broken b.gen) [
    | err e ↦ none
    | ok g ↦ some (record b { gen = g })
  ]
  other_turn _ l b = none

  -- `none` where the act is not possible, or ends its task.
  unfoldable pub act : Act Addr → Busy G Addr → Option (Busy G Addr)
  unfolding begin end_write store_report other_turn
  act (begins now) b = elim b.writing [ some msg ↦ none | none ↦ begin now b b.gen.pending ]
  act (ends writes) b = elim b.writing [ none ↦ none | some msg ↦ end_write writes msg b ]
  act (loads now) b = elim b.loaded [
    | some l ↦ none
    | none ↦ some (record b {
      loaded = some (record {
        now = now;
        in_flight = length b.gen.store.in_flight;
        counters = b.gen.tracker.atomic_store;
      });
    })
  ]
  act stores b = elim b.loaded [ none ↦ none | some l ↦ store_report l b ]
  act (takes_turn t) b = other_turn t b.loaded b

  unfoldable pub acts : List (Act Addr) → Busy G Addr → Option (Busy G Addr)
  unfolding act
  acts [] b = some b
  acts (a ∷ rest) b = elim (act a b) [ none ↦ none | some b' ↦ acts rest b' ]

  -- Whether an act is an answer to no query in flight, or the end of a report whose counters have
  -- changed since it loaded them.
  unfoldable pub is_amiss : Act Addr → Busy G Addr → ℕ
  unfolding is_unsolicited
  is_amiss (takes_turn t) b = is_unsolicited t b.gen
  is_amiss stores b = elim b.loaded [
    | none ↦ 0
    | some l ↦
        let a = b.gen.tracker.atomic_store in
        if (l.counters.sent == a.sent) && (l.counters.timed_out == a.timed_out) then 0 else 1
  ]
  is_amiss _ b = 0

  unfoldable pub amiss : List (Act Addr) → Busy G Addr → ℕ
  unfolding is_amiss
  amiss [] b = 0
  amiss (a ∷ rest) b = is_amiss a b + (elim (act a b) [ none ↦ 0 | some b' ↦ amiss rest b' ])

abbrev pub idle : {G Addr : Type 0} → Generator G Addr → Busy G Addr
idle g = record { gen = g; writing = none; loaded = none }
