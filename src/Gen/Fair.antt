-- ===== src/Gen/Fair.antt =====
-- bin/src/gen.rs: what a generator owes through its whole life, its error paths included.
pub mod Moves
use nailgun.Prelude.{
  ℕ, ◌≤◌, ◌≡◌, refl, ◌⊎◌, inl, inr, Bool, true, some, List, [], ◌∷◌, arith, Option-cases,
  Result-cases, length,
}
use nailgun.Prelude.Assoc.{lookup, contains_key, length-insert_absent, length-remove_present}
use nailgun.Shutdown.{Shutdown}
use nailgun.Msg.{buf_msg, msg_id}
use nailgun.Store.{Store, AtomicStore, QueryInfo}
use nailgun.Sender.{
  Write, all_written, QueryGen, MsgSend, Sending, sent, stopped, send_one, insert_in_flight,
  Progress,
}
use nailgun.Stats.Tracker.{StatsTracker, add_latency}
use nailgun.Gen.{Generator, frame, receive, report}
use nailgun.Gen.Turns.{copies-receive}
use nailgun.Gen.Whole.{IsWhole, is_unsolicited, pending-absent}
use nailgun.Gen.Account.{IsOwing, report-IsOwing}
use nailgun.Gen.Wait.{wait_in_flight, Clears, wait_in_flight_cleared}
use nailgun.Gen.Finish.{aborted}
use nailgun.Gen.Life.{
  Waiting, cleaning, ended, Life, update_panicked, panicked_turn, sender_stop, wind_up,
}

-- What an update that panics leaves of the counts.
update_panicked-counts :
    (now : ℕ) (qinfo : QueryInfo) (t : StatsTracker)
    → let t' = update_panicked now qinfo t in
      (t'.ok_recv ≡ t.ok_recv) × (t'.atomic_store ≡ t.atomic_store)
unfolding update_panicked add_latency
update_panicked-counts now qinfo t = ground arith

module _ {G Addr : Type 0} (g : Generator G Addr) where
  -- A frame that panics and is no unsolicited answer loses at most one answer.
  pub panicked_frame :
      (now : ℕ) (buf : List ℕ) (addr : Addr)
      → is_unsolicited (frame now buf addr) g ≡ 0
      → IsWhole g
      → IsOwing 0 0 g
      → let g' = panicked_turn (frame now buf addr) g in
        IsWhole g' × ((lost : ℕ) × (lost ≤ 1) × IsOwing 0 lost g')
  unfolding panicked_turn is_unsolicited contains_key msg_id
  panicked_frame now buf addr u w b = elim (Result-cases (msg_id (buf_msg buf addr))) [
    | inr (e, short) ↦ rw short (w, (0, omega arith, b))
    | inl (id, known) ↦ elim (Option-cases (lookup id g.store.in_flight)) [
      | inl absent ↦ absurd (ground arith)
      | inr (qinfo, present) ↦
          let (answers, counters) = update_panicked-counts now qinfo g.tracker in
          let there : contains_key id g.store.in_flight ≡ true = ground arith in
          let same : (j : ℕ) → _ = λ (j : ℕ). copies-receive j id g.store in
          let fewer = length-remove_present id qinfo g.store.in_flight present in
          rw (known, present)
            (
              λ j. ground (arith, w j, same j),
              (1, omega arith, rw (answers, counters) (unfold receive in omega arith)),
            )
    ]
  ]

-- The turn in which the sender's task ends.
abbrev pub Stopped : {G Addr : Type 0} → Generator G Addr → Generator G Addr → Type 0
Stopped g g' =
    (id : ℕ) × (rest : List ℕ) × (g.pending ≡ id ∷ rest)
    × (g'.pending ≡ rest)
    × (g'.tracker ≡ g.tracker)
    × (g'.reports ≡ g.reports)
    × ((g'.store ≡ g.store) ⊎ ((info : QueryInfo) × (g'.store ≡ insert_in_flight id info g.store)))

module _ {G Addr : Type 0} (q : QueryGen G) (how : MsgSend Addr) where
  -- A send that stops the task counts nothing, and may have put its query in flight.
  send_one_left :
      (now id : ℕ) (writes : Write) (s : Sending G Addr) {e : _}
      → (send_one q how now writes id s).0 ≡ stopped e
      → let s' = (send_one q how now writes id s).1 in
        (s'.atomic_store ≡ s.atomic_store)
        × ((s'.store ≡ s.store)
            ⊎ ((info : QueryInfo) × (s'.store ≡ insert_in_flight id info s.store)))
  unfolding send_one
  send_one_left now id writes s h = elim (Result-cases (q.next_msg s.query_gen id)) [
    | inr (f, fault) ↦ (ground arith, inl (ground arith))
    | inl ((m, g), e) ↦ elim (Option-cases m) [
      | inl out ↦ (ground arith, inl (ground arith))
      | inr (msg, some_msg) ↦
          let info : QueryInfo = record { sent = now; len = length msg } in
          (ground arith, inr (info, ground arith))
    ]
  ]

  pub sender_stop-Stopped :
      (timeout now : ℕ) (writes : Write) (g : Generator G Addr) {g' : Generator G Addr}
      → sender_stop q how timeout now writes g ≡ some g'
      → Stopped g g'
  unfolding sender_stop
  sender_stop-Stopped timeout now writes g {g'} h = go g.pending refl
    where
      before : Sending G Addr
      before = record {
        store = g.store;
        atomic_store = g.tracker.atomic_store;
        query_gen = g.query_gen;
        wire = g.wire;
      }

      go : (l : List ℕ) → g.pending ≡ l → Stopped g g'
      go [] e = absurd (ground arith)
      go (id ∷ rest) e = split (send_one q how now writes id before).0 refl
        where
          split : (p : Progress) → (send_one q how now writes id before).0 ≡ p → Stopped g g'
          split sent r = absurd (ground arith)
          split (stopped f) r =
              let (a, left) = send_one_left now id writes before r in
              (id, rest, e, ground arith, ground arith, ground arith, ground arith)

module _ {G Addr : Type 0} where
  -- What a stop of the sender leaves: one query more in flight, or none.
  pub Stopped-IsOwing :
      (lost : ℕ) (g g' : Generator G Addr)
      → Stopped g g'
      → IsWhole g
      → IsOwing 0 lost g
      → (unsent : ℕ) × (unsent ≤ 1) × IsOwing unsent lost g'
  unfolding insert_in_flight
  Stopped-IsOwing lost g g' (id, rest, p, p', t, r, left) w b = elim left [
    | inl same ↦ (0, omega arith, rw (t, r, same) b)
    | inr (info, s) ↦
        let apart = pending-absent g id rest w p in
        (
          1,
          omega arith,
          rw (t, r, s) (omega (arith, length-insert_absent id info g.store.in_flight apart)),
        )
  ]

  aborted-IsOwing :
      (unsent lost : ℕ) (g : Generator G Addr) (sa : Store × AtomicStore)
      → Clears (g.store, g.tracker.atomic_store) sa
      → IsOwing unsent lost g
      → IsOwing unsent lost (aborted g sa)
  aborted-IsOwing unsent lost g sa c b = omega (arith, c.counted, c.same)

  -- A wait and a last report keep what is owed, also where the report panics.
  pub wind_up-IsOwing :
      (q : QueryGen G) (how : MsgSend Addr) (timeout unsent lost : ℕ) (w : Waiting)
      (g : Generator G Addr) (shutdown : Shutdown) {l : Life G Addr}
      → wind_up q how timeout w g shutdown ≡ some l
      → IsOwing unsent lost g
      → IsOwing unsent lost l.gen × ((l.stage ≡ ended) ⊎ (l.stage ≡ cleaning))
  unfolding wind_up
  wind_up-IsOwing q how timeout unsent lost w g shutdown {l} h b =
      elim (Option-cases
        (wait_in_flight timeout w.since w.rounds (g.store, g.tracker.atomic_store))) [
          | inl waits ↦ absurd (ground arith)
          | inr (sa, waited) ↦
              let cleared =
                wait_in_flight_cleared timeout w.since w.rounds (g.store, g.tracker.atomic_store)
                  waited in
              let after = aborted-IsOwing unsent lost g sa cleared b in
              elim (Result-cases (report w.now (aborted g sa))) [
                | inl (g', done) ↦
                    let same : record { gen = g'; stage = ended; shutdown = shutdown } ≡ l =
                      ground arith in
                    rw (← same)
                      (report-IsOwing unsent lost (aborted g sa) w.now g' done after, inl refl)
                | inr (e, fault) ↦
                    let same : record { gen = aborted g sa; stage = cleaning; shutdown = shutdown }
                        ≡ l =
                      ground arith in
                    rw (← same) (after, inr refl)
              ]
        ]
