-- ===== src/Gen/Life.antt =====
-- bin/src/gen.rs: the life of a generator, from the turns of its loop to the end of its tasks. The
-- loop ends by the shutdown signal or with the sender's task, after a wait and a last report; or at
-- once, by the end of the stream of answers or by a panic. Only the first way aborts the sender and
-- the cleanup: to drop a `JoinHandle` leaves its task running.
use nailgun.Prelude.{ℕ, Bool, true, false, Option, none, some, List, [], ◌∷◌, Result, ok, err}
use nailgun.Prelude.Assoc.{lookup}
use nailgun.Shutdown.{Shutdown, recv}
use nailgun.Msg.{buf_msg, msg_id}
use nailgun.Store.{QueryInfo}
use nailgun.Sender.{Write, QueryGen, MsgSend, Sending, sent, stopped, send_one}
use nailgun.Stats.Tracker.{StatsTracker, duration_since, add_latency}
use nailgun.Gen.{Generator, Turn, sender, frame, tick, cleanup, receive, report, turn}
use nailgun.Gen.Wait.{Round, wait_in_flight}
use nailgun.Gen.Finish.{aborted}

-- What the loop waits for after its end: the time when the wait starts, its rounds, and the time of
-- the last report.
pub record Waiting : Type 0 where
  pub since : ℕ
  pub rounds : List Round
  pub now : ℕ

-- The tasks of a generator that still run: all three; the sender and the cleanup without the loop;
-- the cleanup alone; or none.
pub data Stage : Type 0 where
  looping detached cleaning ended : Stage

pub record Life (G Addr : Type 0) : Type 0 where
  pub gen : Generator G Addr
  pub stage : Stage
  pub shutdown : Shutdown

-- What may happen next: a turn; the turn in which the sender's task ends; the signal; the end of
-- the stream of answers.
pub data Move (Addr : Type 0) : Type 0 where
  act : Turn Addr → Move Addr
  sender_over : ℕ → Write → Waiting → Move Addr
  signalled : Waiting → Move Addr
  stream_over : Move Addr

-- The tracker that `update` leaves where it panics: by the sum of the latencies, before it has
-- changed anything, or by the response code, when the latency is in.
unfoldable pub update_panicked : ℕ → QueryInfo → StatsTracker → StatsTracker
unfolding add_latency
update_panicked now qinfo t = elim (add_latency (duration_since now qinfo.sent) t) [
  | ok t' ↦ t'
  | err e ↦ t
]

-- What a turn that panics leaves: a frame that is too short for an id, nothing; one that is too
-- short for a response code, its id given back and its query out of flight.
unfoldable pub panicked_turn : {G Addr : Type 0} → Turn Addr → Generator G Addr → Generator G Addr
unfolding receive update_panicked
panicked_turn (frame now buf addr) g = elim (msg_id (buf_msg buf addr)) [
  | err e ↦ g
  | ok id ↦ elim (lookup id g.store.in_flight) [
    | none ↦ record g { store = (receive id g.store).1 }
    | some qinfo ↦ record g {
      store = (receive id g.store).1;
      tracker = update_panicked now qinfo g.tracker;
    }
  ]
]
panicked_turn _ g = g

-- The turns that the loop takes, those of the sender and those of the cleanup.
pub data Who : Type 0 where
  by_loop by_sender by_cleanup : Who

abbrev pub who : {Addr : Type 0} → Turn Addr → Who
who (sender now writes) = by_sender
who (cleanup now) = by_cleanup
who _ = by_loop

abbrev pub runs : Stage → Who → Bool
runs looping _ = true
runs detached by_sender = true
runs detached by_cleanup = true
runs cleaning by_cleanup = true
runs _ _ = false

-- The stage after a move that sends its report to a channel whose receiver is gone: the `?` ends the
-- loop, at a tick as the end of the stream does; after a wait it leaves the cleanup running.
abbrev pub after_tick : Stage → Stage
after_tick looping = detached
after_tick stage = stage

abbrev pub after_wait : Stage → Stage
after_wait ended = cleaning
after_wait stage = stage

abbrev pub stage_unheard : {Addr : Type 0} → Move Addr → Stage → Stage
stage_unheard (act (tick now)) stage = after_tick stage
stage_unheard (act t) stage = stage
stage_unheard stream_over stage = stage
stage_unheard m stage = after_wait stage

module _ {G Addr : Type 0} (q : QueryGen G) (how : MsgSend Addr) (timeout : ℕ) where
  -- What the other tasks see after the turn in which the sender's task ends; `none` where it does
  -- not end.
  unfoldable pub sender_stop : ℕ → Write → Generator G Addr → Option (Generator G Addr)
  unfolding send_one
  sender_stop now writes g = elim g.pending [
    | [] ↦ none
    | id ∷ rest ↦
        let before : Sending G Addr = record {
          store = g.store;
          atomic_store = g.tracker.atomic_store;
          query_gen = g.query_gen;
          wire = g.wire;
        } in
        let (progress, after) = send_one q how now writes id before in
        elim progress [
          | sent ↦ none
          | stopped e ↦ some (record g {
            store = after.store;
            tracker = record g.tracker { atomic_store = after.atomic_store };
            query_gen = after.query_gen;
            wire = after.wire;
            pending = rest;
          })
        ]
  ]

  -- The end of the loop with a wait and a last report. If that panics, by the sum of the durations,
  -- the cleanup runs on.
  unfoldable pub wind_up : Waiting → Generator G Addr → Shutdown → Option (Life G Addr)
  unfolding wait_in_flight report
  wind_up w g shutdown =
      elim (wait_in_flight timeout w.since w.rounds (g.store, g.tracker.atomic_store)) [
        | none ↦ none
        | some sa ↦ elim (report w.now (aborted g sa)) [
          | ok g' ↦ some (record { gen = g'; stage = ended; shutdown = shutdown })
          | err e ↦ some (record { gen = aborted g sa; stage = cleaning; shutdown = shutdown })
        ]
      ]

  -- A turn that faults ends the loop if it is the loop's; that of the sender is `sender_over`.
  abbrev acted : Turn Addr → Life G Addr → Who → Result (Generator G Addr) → Option (Life G Addr)
  acted t l by (ok g') = some (record l { gen = g' })
  acted t l by_loop (err e) = some (record l { gen = panicked_turn t l.gen; stage = detached })
  acted t l _ (err e) = none

  abbrev sender_ended :
      Waiting → Life G Addr → Stage → Option (Generator G Addr) → Option (Life G Addr)
  sender_ended w l looping (some g') = wind_up w g' l.shutdown
  sender_ended w l detached (some g') = some (record l { gen = g'; stage = cleaning })
  sender_ended w l _ _ = none

  abbrev heard : Waiting → Life G Addr → Option Shutdown → Option (Life G Addr)
  heard w l none = none
  heard w l (some shutdown) = wind_up w l.gen shutdown

  -- `none` where the move is not possible.
  unfoldable pub live : Move Addr → Life G Addr → Option (Life G Addr)
  unfolding turn panicked_turn sender_stop wind_up recv
  live (act t) l = elim (runs l.stage (who t)) [
    | true ↦ acted t l (who t) (turn q how timeout t l.gen)
    | false ↦ none
  ]
  live (sender_over now writes w) l = sender_ended w l l.stage (sender_stop now writes l.gen)
  live (signalled w) l = elim l.stage [ looping ↦ heard w l (recv l.shutdown) | _ ↦ none ]
  live stream_over l = elim l.stage [ looping ↦ some (record l { stage = detached }) | _ ↦ none ]

  -- The same with a channel whose receiver is gone: a report is made and nobody gets it.
  unfoldable pub live_unheard : Move Addr → Life G Addr → Option (Life G Addr)
  live_unheard m l = elim (live m l) [
    | none ↦ none
    | some l' ↦ some (record l' { stage = stage_unheard m l'.stage })
  ]
