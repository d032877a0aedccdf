-- ===== src/Gen.antt =====
-- bin/src/gen.rs: a generator. Its tasks are the sender, which takes ids and sends queries, the
-- loop of `run`, which reads the answers and reports, and the cleanup. They share the store and the
-- counters, and run in turns: an execution is a list of whole turns. Acts has a generator in
-- smaller steps, where other tasks go on while a query is written and while a report is made.
-- Sockets, channels and the making of the tasks are not modelled.
pub mod Turns
pub mod Whole
pub mod Account
pub mod Acts
pub mod Wait
pub mod Finish
pub mod Totals
pub mod Life
pub mod Fair
pub mod Build
pub mod Pace
use nailgun.Prelude.{
  ℕ, ◌+◌, ◌-◌, Bool, Option, none, some, List, [], ◌∷◌, ◌++◌, length, count, Result, ok, err, ◌>>=◌,
  add64, add_duration,
}
use nailgun.Prelude.Assoc.{lookup, remove}
use nailgun.Config.{batch_size}
use nailgun.Msg.{buf_msg, msg_id}
use nailgun.Store.{Store, QueryInfo, clear_timeouts, fresh, copies}
use nailgun.Sender.{
  Write, all_written, MsgSend, Output, QueryGen, Sending, sent, stopped, take_batch, send_one,
}
use nailgun.Stats.Interval.{StatsInterval}
use nailgun.Stats.Tracker
use nailgun.Stats.Tracker.{StatsTracker}

-- The state of a generator: what its tasks share, the rest of the batch that its sender has taken,
-- and the variables of `run` with the reports that it has sent. The counters that are shared with
-- the sender stand in the tracker.
pub record Generator (G Addr : Type 0) : Type 0 where
  pub store : Store
  pub tracker : StatsTracker
  pub query_gen : G
  pub wire : List (Output Addr)
  pub pending : List ℕ
  pub interval : ℕ
  pub total_duration : ℕ
  pub reports : List StatsInterval

-- One turn of a task: the sender takes a batch, or sends for the next id of it; an answer arrives,
-- or a frame that is broken; the timer of the loop fires; the cleanup runs.
pub data Turn (Addr : Type 0) : Type 0 where
  sender : ℕ → Write → Turn Addr
  frame : ℕ → List ℕ → Addr → Turn Addr
  broken : Turn Addr
  tick : ℕ → Turn Addr
  cleanup : ℕ → Turn Addr

-- The answer's id goes back to the free ids in any case; the query is taken out of flight if it is
-- there.
unfoldable pub receive : ℕ → Store → Option QueryInfo × Store
receive id s =
    (lookup id s.in_flight, record { ids = s.ids ++ id ∷ []; in_flight = remove id s.in_flight })

-- The lines from the message to the end of the branch; `now` is the time that the tracker reads.
unfoldable pub handle_frame :
    {G Addr : Type 0} → ℕ → List ℕ → Addr → Generator G Addr → Result (Generator G Addr)
unfolding receive
handle_frame now buf addr g = do
  let msg = buf_msg buf addr
  id ← msg_id msg
  let (found, store) = receive id g.store
  t ← elim found [ none ↦ ok g.tracker | some qinfo ↦ Tracker.update now qinfo msg g.tracker ]
  ok (record g { store = store; tracker = record t { recv = add64 t.recv 1 } })

-- A frame with an error is only counted.
unfoldable pub handle_broken : {G Addr : Type 0} → Generator G Addr → Generator G Addr
handle_broken g = record g { tracker = record g.tracker { recv = add64 g.tracker.recv 1 } }

-- A report to the runner of the statistics, at the time `now`, of which nothing comes between the
-- loads of the shared counters and the stores of 0; Acts has the two parts of it.
unfoldable pub report : {G Addr : Type 0} → ℕ → Generator G Addr → Result (Generator G Addr)
report now g = do
  let elapsed = now - g.interval
  total ← add_duration g.total_duration elapsed
  let (i, t) = Tracker.interval elapsed total (length g.store.in_flight) g.tracker
  ok (record g {
    tracker = t;
    interval = now;
    total_duration = total;
    reports = g.reports ++ i ∷ [];
  })

-- `clear_timeouts` on the shared store and counters.
unfoldable pub clean : {G Addr : Type 0} → ℕ → ℕ → Generator G Addr → Generator G Addr
clean timeout now g =
    let (s, a) = clear_timeouts timeout now g.store g.tracker.atomic_store in
    record g { store = s; tracker = record g.tracker { atomic_store = a } }

module _ {G Addr : Type 0} (q : QueryGen G) (how : MsgSend Addr) (timeout : ℕ) where
  -- The sender's turn: it takes a batch, or makes one whole send, with the wait for its write, in which
  -- nothing else is done here; Acts has the two parts of it. Its fault ends the run.
  unfoldable pub sender_turn : ℕ → Write → Generator G Addr → Result (Generator G Addr)
  sender_turn now writes g = elim g.pending [
    | [] ↦
        let (ids, s) = take_batch batch_size g.store in ok (record g { store = s; pending = ids })
    | id ∷ rest ↦
        let before : Sending G Addr = record {
          store = g.store;
          atomic_store = g.tracker.atomic_store;
          query_gen = g.query_gen;
          wire = g.wire;
        } in
        let (progress, after) = send_one q how now writes id before in
        elim progress [
          | stopped e ↦ err e
          | sent ↦ ok (record g {
            store = after.store;
            tracker = record g.tracker { atomic_store = after.atomic_store };
            query_gen = after.query_gen;
            wire = after.wire;
            pending = rest;
          })
        ]
  ]

  unfoldable pub turn : Turn Addr → Generator G Addr → Result (Generator G Addr)
  unfolding sender_turn handle_frame handle_broken report clean
  turn (sender now writes) g = sender_turn now writes g
  turn (frame now buf addr) g = handle_frame now buf addr g
  turn broken g = ok (handle_broken g)
  turn (tick now) g = report now g
  turn (cleanup now) g = ok (clean timeout now g)

  unfoldable pub turns : List (Turn Addr) → Generator G Addr → Result (Generator G Addr)
  turns [] g = ok g
  turns (t ∷ ts) g = do g' ← turn t g; turns ts g'

-- A generator at the start of `run`, at the time `now`.
unfoldable pub start : {G Addr : Type 0} → (List ℕ → List ℕ) → G → ℕ → Generator G Addr
unfolding Tracker.default fresh
start shuffle query_gen now = record {
  store = fresh shuffle;
  tracker = Tracker.default;
  query_gen = query_gen;
  wire = [];
  pending = [];
  interval = now;
  total_duration = 0;
  reports = [];
}

-- How many copies of an id a generator holds: free, taken by the sender, or in flight.
abbrev pub held : {G Addr : Type 0} → ℕ → Generator G Addr → ℕ
held j g = copies j g.store + count j g.pending
