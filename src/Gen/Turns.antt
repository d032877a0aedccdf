-- ===== src/Gen/Turns.antt =====
-- bin/src/gen.rs and bin/src/sender.rs: what each turn of a generator does to the shared state.
use nailgun.Prelude.{
  ℕ, ◌+◌, ◌-◌, ◌≡◌, refl, ◌⊎◌, inl, inr, none, some, List, [], ◌∷◌, ◌++◌, arith, ◌==◌,
  if◌then◌else◌, Option-cases, length, count-append, ok, >>=-eq-ok, Result-cases, add64,
  add_duration,
}
use nailgun.Prelude.Assoc.{lookup, contains_key, count-remove}
use nailgun.Config.{batch_size}
use nailgun.Msg.{buf_msg, msg_id}
use nailgun.Store.{Store, QueryInfo, add_sent, copies}
use nailgun.Sender.{Write, QueryGen, MsgSend, Sending, sent, take_batch, send_one, insert_in_flight}
use nailgun.Stats.Tracker
use nailgun.Stats.Tracker.{StatsTracker}
use nailgun.Gen.{Generator, receive, handle_frame, sender_turn, report}

module _ {G Addr : Type 0} (q : QueryGen G) (how : MsgSend Addr) where
  -- A send that goes well puts the query in flight, and counts it.
  pub send_one_sent :
      (now id : ℕ) (writes : Write) (s : Sending G Addr)
      → (send_one q how now writes id s).0 ≡ sent
      → (info : QueryInfo) × ((send_one q how now writes id s).1.store
          ≡ insert_in_flight id info s.store)
        × ((send_one q how now writes id s).1.atomic_store ≡ add_sent 1 s.atomic_store)
  unfolding send_one
  send_one_sent now id writes s h = elim (Result-cases (q.next_msg s.query_gen id)) [
    | inr (f, e) ↦ absurd (ground arith)
    | inl ((m, g), e) ↦ elim (Option-cases m) [
      | inl out ↦ absurd (ground arith)
      | inr (msg, some_msg) ↦ (record { sent = now; len = length msg }, ground arith, ground arith)
    ]
  ]

module _ {G Addr : Type 0} where
  -- An answer that is handled was long enough for an id; its id is free again, its query is out of
  -- flight, and the tracker takes it in if there was such a query.
  pub handle_frame_cases :
      (now : ℕ) (buf : List ℕ) (addr : Addr) (g : Generator G Addr) {g' : Generator G Addr}
      → handle_frame now buf addr g ≡ ok g'
      → (id : ℕ) × (t : StatsTracker) × (msg_id (buf_msg buf addr) ≡ ok id)
        × (g' ≡ record g {
          store = (receive id g.store).1;
          tracker = record t { recv = add64 t.recv 1 };
        })
        × (((lookup id g.store.in_flight ≡ none) × (t ≡ g.tracker))
            ⊎ ((qinfo : QueryInfo) × (lookup id g.store.in_flight ≡ some qinfo)
                × (Tracker.update now qinfo (buf_msg buf addr) g.tracker ≡ ok t)))
  unfolding handle_frame
  handle_frame_cases now buf addr g h =
      let (id, known, rest) = >>=-eq-ok (msg_id (buf_msg buf addr)) _ h in
      elim (Option-cases (lookup id g.store.in_flight)) [
        | inl absent ↦ (id, g.tracker, known, ground arith, inl (absent, refl))
        | inr (qinfo, present) ↦
            elim (Result-cases (Tracker.update now qinfo (buf_msg buf addr) g.tracker)) [
              | inl (t, e) ↦ (id, t, known, ground arith, inr (qinfo, present, e))
              | inr (f, e) ↦ absurd (ground arith)
            ]
      ]

-- A response adds a copy of its id exactly if there is no query of that id in flight.
pub copies-receive :
    (j id : ℕ) (s : Store)
    → copies j (receive id s).1
      ≡ copies j s + (if contains_key id s.in_flight then 0 else (if j == id then 1 else 0))
unfolding receive
copies-receive j id s =
    ground (arith, count-append j s.ids (id ∷ []), count-remove id j s.in_flight)

-- A turn of the sender: it takes a batch, or puts the query of its next id in flight and counts it.
abbrev pub SenderStep : {G Addr : Type 0} → Generator G Addr → Generator G Addr → Type 0
SenderStep g g' =
    ((g.pending ≡ [])
      × (g'.store ≡ (take_batch batch_size g.store).1)
      × (g'.pending ≡ (take_batch batch_size g.store).0)
      × (g'.tracker ≡ g.tracker)
      × (g'.reports ≡ g.reports))
    ⊎ ((id : ℕ) × (rest : List ℕ) × (info : QueryInfo) × (g.pending ≡ id ∷ rest)
        × (g'.store ≡ insert_in_flight id info g.store)
        × (g'.pending ≡ rest)
        × (g'.tracker ≡ record g.tracker { atomic_store = add_sent 1 g.tracker.atomic_store })
        × (g'.reports ≡ g.reports))

module _ {G Addr : Type 0} (q : QueryGen G) (how : MsgSend Addr) (timeout : ℕ) where
  pub sender_turn-SenderStep :
      (now : ℕ) (writes : Write) (g : Generator G Addr) {g' : Generator G Addr}
      → sender_turn q how timeout now writes g ≡ ok g'
      → SenderStep g g'
  unfolding sender_turn
  sender_turn-SenderStep now writes g {g'} h = go g.pending refl
    where
      before : Sending G Addr
      before = record {
        store = g.store;
        atomic_store = g.tracker.atomic_store;
        query_gen = g.query_gen;
        wire = g.wire;
      }

      go : (l : List ℕ) → g.pending ≡ l → SenderStep g g'
      go [] e = inl (e, ground arith, ground arith, ground arith, ground arith)
      go (id ∷ rest) e =
          let ran : (send_one q how now writes id before).0 ≡ sent = ground arith in
          let (info, s, a) = send_one_sent q how now id writes before ran in
          inr (id, rest, info, e, ground arith, ground arith, ground arith, ground arith)

module _ {G Addr : Type 0} where
  -- A report moves what the tracker has counted into the reports, with the number of queries in
  -- flight, and leaves the store and the sender's batch as they are.
  pub report_cases :
      (now : ℕ) (g : Generator G Addr) {g' : Generator G Addr}
      → report now g ≡ ok g'
      → (total : ℕ) × (add_duration g.total_duration (now - g.interval) ≡ ok total)
        × (let (i, t) =
              Tracker.interval (now - g.interval) total (length g.store.in_flight) g.tracker in
            (g'.tracker ≡ t) × (g'.reports ≡ g.reports ++ i ∷ []))
        × (g'.store ≡ g.store)
        × (g'.pending ≡ g.pending)
        × (g'.total_duration ≡ total)
        × (g'.interval ≡ now)
  unfolding report
  report_cases now g h =
      let (total, e, rest) = >>=-eq-ok (add_duration g.total_duration (now - g.interval)) _ h in
      (
        total,
        e,
        (ground arith, ground arith),
        ground arith,
        ground arith,
        ground arith,
        ground arith,
      )
