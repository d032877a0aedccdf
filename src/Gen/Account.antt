-- ===== src/Gen/Account.antt =====
-- bin/src/gen.rs with bin/src/sender.rs, bin/src/store.rs and bin/src/stats.rs: every query that is
-- counted as sent is answered, timed out or in flight.
use nailgun.Prelude.{
  ℕ, ◌+◌, ◌%◌, ◌≡◌, refl, inl, inr, List, [], ◌∷◌, ◌++◌, arith, length, count, ok, >>=-eq-ok,
  u64_mod, add64,
}
use nailgun.Prelude.Assoc.{length-insert_absent, length-remove_present, remove_absent}
use nailgun.Msg.{BufMsg, buf_msg}
use nailgun.Store.{QueryInfo, add_sent}
use nailgun.Store.Timeouts.{clear_timeouts_counts}
use nailgun.Sender.{take_batch, QueryGen, MsgSend, insert_in_flight}
use nailgun.Stats.Interval.{StatsInterval}
use nailgun.Stats.Tracker
use nailgun.Stats.Tracker.{StatsTracker}
use nailgun.Stats.Conservation.{Counter, reported, sum_reported}
use nailgun.Gen.{
  Generator, Turn, sender, frame, broken, tick, cleanup, receive, handle_frame, report, turn, turns,
  start,
}
use nailgun.Gen.Turns.{SenderStep, sender_turn-SenderStep, handle_frame_cases, report_cases}
use nailgun.Gen.Whole.{IsWhole, unsolicited, pending-absent, turn-IsWhole, start-IsWhole}

-- What a generator has counted of queries sent, answered and timed out, in its reports and since.
abbrev pub sent_count : {G Addr : Type 0} → Generator G Addr → ℕ
sent_count g = sum_reported Counter.sent g.reports + g.tracker.atomic_store.sent

abbrev pub answer_count : {G Addr : Type 0} → Generator G Addr → ℕ
answer_count g = sum_reported Counter.ok_recv g.reports + g.tracker.ok_recv

abbrev pub timeout_count : {G Addr : Type 0} → Generator G Addr → ℕ
timeout_count g = sum_reported Counter.timeouts g.reports + g.tracker.atomic_store.timed_out

-- The balance of the counts, which wrap at 64 bits.
abbrev pub IsBalanced : {G Addr : Type 0} → Generator G Addr → Type 0
IsBalanced g =
    sent_count g % u64_mod ≡ (answer_count g + timeout_count g + length g.store.in_flight) % u64_mod

-- The same, where `unsent` queries are in flight that were not counted as sent, and `lost` answers
-- were taken out of flight and not counted.
abbrev pub IsOwing : {G Addr : Type 0} → ℕ → ℕ → Generator G Addr → Type 0
IsOwing unsent lost g =
    (sent_count g + unsent) % u64_mod
    ≡ (answer_count g + timeout_count g + length g.store.in_flight + lost) % u64_mod

pub sum_reported-append :
    (c : Counter) (is : List StatsInterval) (i : StatsInterval)
    → sum_reported c (is ++ i ∷ []) ≡ sum_reported c is + reported c i
sum_reported-append c [] i = omega arith
sum_reported-append c (x ∷ is) i = omega (arith, sum_reported-append c is i)

update-counts :
    {Addr : Type 0} (now : ℕ) (qinfo : QueryInfo) (msg : BufMsg Addr) (t : StatsTracker)
    {t' : StatsTracker}
    → Tracker.update now qinfo msg t ≡ ok t'
    → (t'.ok_recv ≡ add64 t.ok_recv 1) × (t'.atomic_store ≡ t.atomic_store)
unfolding Tracker.update
update-counts now qinfo msg t h = ground arith

module _ {G Addr : Type 0} (unsent lost : ℕ) (g : Generator G Addr) where
  pub SenderStep-IsOwing :
      (g' : Generator G Addr)
      → SenderStep g g'
      → IsWhole g
      → IsOwing unsent lost g
      → IsOwing unsent lost g'
  unfolding insert_in_flight add_sent take_batch
  SenderStep-IsOwing g' (inl (none_left, s, p, t, r)) w b = rw (s, t, r) b
  SenderStep-IsOwing g' (inr (id, rest, info, p, s, p', t, r)) w b =
      let apart = pending-absent g id rest w p in
      rw (s, t, r) (omega (arith, length-insert_absent id info g.store.in_flight apart))

  frame-IsOwing :
      (now : ℕ) (buf : List ℕ) (addr : Addr) (g' : Generator G Addr)
      → handle_frame now buf addr g ≡ ok g'
      → IsOwing unsent lost g
      → IsOwing unsent lost g'
  unfolding receive
  frame-IsOwing now buf addr g' h b =
      let (id, t, known, same, found) = handle_frame_cases now buf addr g h in
      elim found [
        | inl (absent, none_found) ↦
            rw (same, none_found, remove_absent id g.store.in_flight absent) b
        | inr (qinfo, present, updated) ↦
            let (answers, counters) =
              update-counts now qinfo (buf_msg buf addr) g.tracker updated in
            rw (same, answers, counters)
              (omega (arith, length-remove_present id qinfo g.store.in_flight present))
      ]

  pub report-IsOwing :
      (now : ℕ) (g' : Generator G Addr)
      → report now g ≡ ok g'
      → IsOwing unsent lost g
      → IsOwing unsent lost g'
  unfolding Tracker.interval
  report-IsOwing now g' h b =
      let (total, e, (t, r), s, p, d, i) = report_cases now g h in
      rw (t, r, s) (omega (arith, sum_reported-append))

  -- One turn of a whole generator keeps what it owes.
  pub turn-IsOwing :
      (q : QueryGen G) (how : MsgSend Addr) (timeout : ℕ) (t : Turn Addr) (g' : Generator G Addr)
      → turn q how timeout t g ≡ ok g'
      → IsWhole g
      → IsOwing unsent lost g
      → IsOwing unsent lost g'
  unfolding turn
  turn-IsOwing q how timeout (sender now writes) g' h w b =
      SenderStep-IsOwing g' (sender_turn-SenderStep q how timeout now writes g h) w b
  turn-IsOwing q how timeout (frame now buf addr) g' h w b = frame-IsOwing now buf addr g' h b
  turn-IsOwing q how timeout broken g' h w b = ground arith
  turn-IsOwing q how timeout (tick now) g' h w b = report-IsOwing now g' h b
  turn-IsOwing q how timeout (cleanup now) g' h w b =
      let (removed, ids, left, timeouts, same) =
        clear_timeouts_counts timeout now g.store g.tracker.atomic_store in
      ground arith

module _ {G Addr : Type 0} (q : QueryGen G) (how : MsgSend Addr) (timeout : ℕ) where
  turns-IsBalanced :
      (ts : List (Turn Addr)) (g : Generator G Addr) {g' : Generator G Addr}
      → turns q how timeout ts g ≡ ok g'
      → unsolicited q how timeout ts g ≡ 0
      → IsWhole g
      → IsBalanced g
      → IsBalanced g'
  unfolding turns unsolicited
  turns-IsBalanced [] g {g'} h u w b = let same : g ≡ g' = cc in rw (← same) b
  turns-IsBalanced (t ∷ ts) g h u w b =
      let (g₁, e, rest) = >>=-eq-ok (turn q how timeout t g) _ h in
      turns-IsBalanced ts g₁ rest (ground arith)
        (turn-IsWhole g q how timeout t g₁ e (ground arith) w)
        (omega (arith, turn-IsOwing 0 0 g q how timeout t g₁ e w (omega arith)))

  -- After any run of turns from the start, with a shuffle that permutes and no answer but to
  -- queries in flight, the queries counted as sent, in the reports and since the last, are as many
  -- as those counted as answered, those counted as timed out and those in flight, modulo 2 ^ 64.
  pub turns-start-IsBalanced :
      (shuffle : List ℕ → List ℕ) (query_gen : G) (now : ℕ) (ts : List (Turn Addr))
      {g : Generator G Addr}
      → ((j : ℕ) (l : List ℕ) → count j (shuffle l) ≡ count j l)
      → unsolicited q how timeout ts (start shuffle query_gen now) ≡ 0
      → turns q how timeout ts (start shuffle query_gen now) ≡ ok g
      → IsBalanced g
  unfolding start
  turns-start-IsBalanced shuffle query_gen now ts permutes u h =
      turns-IsBalanced ts (start shuffle query_gen now) h u
        (start-IsWhole Addr shuffle query_gen now permutes) refl
