-- ===== src/Sender.antt =====
-- bin/src/sender.rs: the loop that takes ids from the store in batches and sends a query for each.
-- The generator of queries, the reading of the clock at each send and the outcome of each write
-- are parameters; to yield and to wait for the limiter only takes time. A send is taken as a whole,
-- with the wait for its write: no other task does anything in between.
pub mod Batch
pub mod Wire
pub mod Doh
use nailgun.Prelude.{
  ℕ, zero, suc, ◌%◌, Option, none, some, List, [], ◌∷◌, ◌++◌, if◌then◌else◌, length, take, Fault,
  Result, ok, err, u16_mod,
}
use nailgun.Prelude.Assoc.{insert, contains_key}
use nailgun.Msg.{u16_to_be_bytes}
use nailgun.Store.{Store, QueryInfo, AtomicStore, add_sent}

-- The lines that lock the store and take a batch: `num` calls of `pop_front`, each of which gives
-- nothing on an empty queue, or where the id is in flight.
unfoldable pub pop_ids : ℕ → List ℕ → List (ℕ × QueryInfo) → List ℕ × List ℕ
pop_ids zero ids in_flight = ([], ids)
pop_ids (suc n) [] in_flight = pop_ids n [] in_flight
pop_ids (suc n) (id ∷ ids) in_flight =
    let (picked, rest) = pop_ids n ids in_flight in
    if contains_key id in_flight then (picked, rest) else (id ∷ picked, rest)

unfoldable pub take_batch : ℕ → Store → List ℕ × Store
unfolding pop_ids
take_batch num s =
    let (picked, rest) = pop_ids num s.ids s.in_flight in (picked, record s { ids = rest })

pub data MsgSend (Addr : Type 0) : Type 0 where
  tcp : MsgSend Addr
  udp : Addr → MsgSend Addr
  doh : MsgSend Addr

-- What `MsgSend::send` hands to a socket or a channel.
pub data Output (Addr : Type 0) : Type 0 where
  bytes : List ℕ → Output Addr
  datagram : List ℕ → Addr → Output Addr
  request : List ℕ → Output Addr

-- Over TCP the length goes first, as a u16 in network order.
unfoldable pub outputs : {Addr : Type 0} → MsgSend Addr → List ℕ → List (Output Addr)
outputs tcp msg = bytes (u16_to_be_bytes (length msg % u16_mod)) ∷ bytes msg ∷ []
outputs (udp target) msg = datagram msg target ∷ []
outputs doh msg = request msg ∷ []

-- How a write ends: all is written, or it fails when so many bytes are out.
pub data Write : Type 0 where
  all_written : Write
  broken_off : ℕ → Write

-- What is out when `MsgSend::send` fails: over TCP, where the length and the message are two writes,
-- some bytes of both; a datagram or a message for a channel is written as a whole or not at all.
unfoldable pub begun : {Addr : Type 0} → MsgSend Addr → ℕ → List ℕ → List (Output Addr)
begun tcp k msg = bytes (take k (u16_to_be_bytes (length msg % u16_mod) ++ msg)) ∷ []
begun _ k msg = []

-- `QueryGen`: the next message for an id, if there is one, and the generator after that.
pub record QueryGen (G : Type 0) : Type 0 where
  pub next_msg : G → ℕ → Result (Option (List ℕ) × G)

-- What the sender's task has changed: the shared store and counters, its generator, and all that
-- it has written.
pub record Sending (G Addr : Type 0) : Type 0 where
  pub store : Store
  pub atomic_store : AtomicStore
  pub query_gen : G
  pub wire : List (Output Addr)

unfoldable pub insert_in_flight : ℕ → QueryInfo → Store → Store
insert_in_flight id info s = record s { in_flight = insert id info s.in_flight }

-- How a step of the sender's task ends: it goes on, or the task is over.
pub data Progress : Type 0 where
  sent : Progress
  stopped : Fault → Progress

module _ {G Addr : Type 0} (q : QueryGen G) (how : MsgSend Addr) where
  -- The body of the `for` loop, for one id at the time `now`; `writes` says how the write of the
  -- message ends. The state after a fault is what the other tasks see.
  unfoldable pub send_one : ℕ → Write → ℕ → Sending G Addr → Progress × Sending G Addr
  unfolding insert_in_flight outputs begun add_sent
  send_one now writes id s = elim (q.next_msg s.query_gen id) [
    | err e ↦ (stopped e, s)
    | ok (none, g) ↦ (stopped Fault.failed, record s { query_gen = g })
    | ok (some msg, g) ↦
        let info : QueryInfo = record { sent = now; len = length msg } in
        let store = insert_in_flight id info s.store in
        elim writes [
          | all_written ↦ (
            sent,
            record {
              store = store;
              atomic_store = add_sent 1 s.atomic_store;
              query_gen = g;
              wire = s.wire ++ outputs how msg;
            },
          )
          | broken_off k ↦ (
            stopped Fault.failed,
            record {
              store = store;
              atomic_store = s.atomic_store;
              query_gen = g;
              wire = s.wire ++ begun how k msg;
            },
          )
        ]
  ]

  -- The `for` loop over a batch; each id comes with the time of its send and its outcome.
  unfoldable pub send_batch : List (ℕ × ℕ × Write) → Sending G Addr → Progress × Sending G Addr
  unfolding send_one
  send_batch [] s = (sent, s)
  send_batch ((id, now, writes) ∷ batch) s =
      let (progress, s') = send_one now writes id s in
      elim progress [ sent ↦ send_batch batch s' | stopped e ↦ (stopped e, s') ]
