-- ===== src/Gen/Acts/Sound.antt =====
-- bin/src/gen.rs, bin/src/sender.rs and bin/src/stats.rs: the ids and the counts of a generator, where
-- other tasks go on while a query is written and while a report is made.
use nailgun.Prelude.{
  ℕ, ◌+◌, ◌-◌, ◌%◌, u64_mod, ◌≡◌, refl, ap, inl, inr, none, some, List, [], ◌∷◌, ◌++◌, arith,
  Option-cases, Result-cases, length, count, ok, err, add_duration,
}
use nailgun.Prelude.Assoc.{contains_key, count-insert, length-insert_absent}
use nailgun.Config.{batch_size}
use nailgun.Store.{QueryInfo, add_sent}
use nailgun.Sender.{
  Write, all_written, broken_off, MsgSend, outputs, QueryGen, take_batch, insert_in_flight,
}
use nailgun.Stats.Tracker
use nailgun.Stats.Conservation.{Counter}
use nailgun.Gen.{Generator, Turn, sender, frame, broken, tick, cleanup, turn, start}
use nailgun.Gen.Whole.{
  IsWhole, is_unsolicited, pending-absent, SenderStep-IsWhole, turn-IsWhole, start-IsWhole,
}
use nailgun.Gen.Account.{
  sent_count, answer_count, timeout_count, IsOwing, SenderStep-IsOwing, turn-IsOwing,
  sum_reported-append,
}
use nailgun.Gen.Acts.{
  Loaded, Busy, Act, begins, ends, loads, stores, takes_turn, begin, end_write, store_report,
  other_turn, act, acts, is_amiss, amiss, idle,
}

-- How many queries are in flight and not counted yet.
abbrev pub uncounted : {G Addr : Type 0} → Busy G Addr → ℕ
uncounted b = elim b.writing [ none ↦ 0 | some msg ↦ 1 ]

abbrev pub IsSound : {G Addr : Type 0} → Busy G Addr → Type 0
IsSound b = IsWhole b.gen × IsOwing (uncounted b) 0 b.gen

module _ {G Addr : Type 0} (q : QueryGen G) (how : MsgSend Addr) (timeout : ℕ) where
  begin-IsSound :
      (now : ℕ) (b : Busy G Addr) {b' : Busy G Addr} (ids : List ℕ)
      → b.gen.pending ≡ ids
      → b.writing ≡ none
      → begin q how timeout now b ids ≡ some b'
      → IsSound b
      → IsSound b'
  unfolding begin insert_in_flight contains_key
  begin-IsSound now b {b'} [] e free h (w, o) =
      let (ids, s) = take_batch batch_size b.gen.store in
      let g' : Generator G Addr = record b.gen { store = s; pending = ids } in
      let same : record b { gen = g' } ≡ b' = ground arith in
      let step = inl (e, refl, refl, refl, refl) in
      rw (← same)
        (SenderStep-IsWhole b.gen g' step w, SenderStep-IsOwing (uncounted b) 0 b.gen g' step w o)
  begin-IsSound now b {b'} (id ∷ rest) e free h (w, o) =
      elim (Result-cases (q.next_msg b.gen.query_gen id)) [
        | inr (f, fault) ↦ absurd (ground arith)
        | inl ((m, g), made) ↦ elim (Option-cases m) [
          | inl out ↦ absurd (ground arith)
          | inr (msg, some_msg) ↦
              let info : QueryInfo = record { sent = now; len = length msg } in
              let apart = pending-absent b.gen id rest w e in
              let after : Busy G Addr = record b {
                gen = record b.gen {
                  store = insert_in_flight id info b.gen.store;
                  query_gen = g;
                  pending = rest;
                };
                writing = some msg;
              } in
              let same : after ≡ b' = ground arith in
              rw (← same) (
                λ j.
                    ground
                      (arith, w j, ap (count j) e, count-insert id j info b.gen.store.in_flight),
                omega (
                  arith,
                  o,
                  ap (λ x. uncounted (record b { writing = x })) free,
                  length-insert_absent id info b.gen.store.in_flight apart,
                ),
              )
        ]
      ]

  end_write-IsSound :
      (writes : Write) (msg : List ℕ) (b : Busy G Addr) {b' : Busy G Addr}
      → b.writing ≡ some msg
      → end_write q how timeout writes msg b ≡ some b'
      → IsSound b
      → IsSound b'
  unfolding end_write add_sent
  end_write-IsSound (broken_off k) msg b busy h sound = absurd (ground arith)
  end_write-IsSound all_written msg b {b'} busy h (w, o) =
      let after : Busy G Addr = record b {
        gen = record b.gen {
          tracker = record b.gen.tracker { atomic_store = add_sent 1 b.gen.tracker.atomic_store };
          wire = b.gen.wire ++ outputs how msg;
        };
        writing = none;
      } in
      let same : after ≡ b' = ground arith in
      rw (← same) (λ j. w j, omega (arith, o, ap (λ x. uncounted (record b { writing = x })) busy))

  store_report-IsSound :
      (l : Loaded) (b : Busy G Addr) {b' : Busy G Addr}
      → l.counters.sent ≡ b.gen.tracker.atomic_store.sent
      → l.counters.timed_out ≡ b.gen.tracker.atomic_store.timed_out
      → store_report q how timeout l b ≡ some b'
      → IsSound b
      → IsSound b'
  unfolding store_report Tracker.interval
  store_report-IsSound l b {b'} sent_same timed_same h (w, o) =
      let g = b.gen in
      elim (Result-cases (add_duration g.total_duration (l.now - g.interval))) [
        | inr (f, fault) ↦ absurd (ground arith)
        | inl (total, added) ↦
            let read = record g.tracker { atomic_store = l.counters } in
            let (i, t) = Tracker.interval (l.now - g.interval) total l.in_flight read in
            let after : Busy G Addr = record b {
              gen = record g {
                tracker = t;
                interval = l.now;
                total_duration = total;
                reports = g.reports ++ i ∷ [];
              };
              loaded = none;
            } in
            let same : after ≡ b' = ground arith in
            rw (← same) (
              λ j. w j,
              omega (
                arith,
                o,
                sent_same,
                timed_same,
                sum_reported-append Counter.sent g.reports i,
                sum_reported-append Counter.timeouts g.reports i,
                sum_reported-append Counter.ok_recv g.reports i,
              ),
            )
      ]

  ran-IsSound :
      (t : Turn Addr) (b : Busy G Addr) {b' : Busy G Addr}
      → (elim (turn q how timeout t b.gen) [ err e ↦ none | ok g ↦ some (record b { gen = g }) ])
        ≡ some b'
      → is_unsolicited t b.gen ≡ 0
      → IsSound b
      → IsSound b'
  ran-IsSound t b {b'} h u (w, o) = elim (Result-cases (turn q how timeout t b.gen)) [
    | inr (f, fault) ↦ absurd (ground arith)
    | inl (g, ran) ↦
        let same : record b { gen = g } ≡ b' = ground arith in
        rw (← same) (
          turn-IsWhole b.gen q how timeout t g ran u w,
          turn-IsOwing (uncounted b) 0 b.gen q how timeout t g ran w o,
        )
  ]

  act-IsSound :
      (a : Act Addr) (b : Busy G Addr) {b' : Busy G Addr}
      → act q how timeout a b ≡ some b'
      → is_amiss q how timeout a b ≡ 0
      → IsSound b
      → IsSound b'
  unfolding act other_turn is_amiss
  act-IsSound (begins now) b {b'} h u sound = elim (Option-cases b.writing) [
    | inl free ↦ begin-IsSound now b {b' = b'} b.gen.pending refl free (ground arith) sound
    | inr (msg, busy) ↦ absurd (ground arith)
  ]
  act-IsSound (ends writes) b {b'} h u sound = elim (Option-cases b.writing) [
    | inl free ↦ absurd (ground arith)
    | inr (msg, busy) ↦ end_write-IsSound writes msg b {b' = b'} busy (ground arith) sound
  ]
  act-IsSound (loads now) b {b'} h u (w, o) = elim (Option-cases b.loaded) [
    | inl free ↦
        let read : Loaded = record {
          now = now;
          in_flight = length b.gen.store.in_flight;
          counters = b.gen.tracker.atomic_store;
        } in
        let same : record b { loaded = some read } ≡ b' = ground arith in rw (← same) (w, o)
    | inr (l, busy) ↦ absurd (ground arith)
  ]
  act-IsSound stores b {b'} h u sound = elim (Option-cases b.loaded) [
    | inl free ↦ absurd (ground arith)
    | inr (l, busy) ↦
        store_report-IsSound l b {b' = b'} (ground arith) (ground arith) (ground arith) sound
  ]
  act-IsSound (takes_turn (cleanup now)) b h u sound = ran-IsSound (cleanup now) b h u sound
  act-IsSound (takes_turn (frame now buf addr)) b {b'} h u sound = elim (Option-cases b.loaded) [
    | inl free ↦ ran-IsSound (frame now buf addr) b {b' = b'} (ground arith) u sound
    | inr (l, busy) ↦ absurd (ground arith)
  ]
  act-IsSound (takes_turn broken) b {b'} h u sound = elim (Option-cases b.loaded) [
    | inl free ↦ ran-IsSound broken b {b' = b'} (ground arith) u sound
    | inr (l, busy) ↦ absurd (ground arith)
  ]
  act-IsSound (takes_turn (tick now)) b h u sound = absurd (ground arith)
  act-IsSound (takes_turn (sender now writes)) b h u sound = absurd (ground arith)

  acts-IsSound :
      (steps : List (Act Addr)) (b : Busy G Addr) {b' : Busy G Addr}
      → acts q how timeout steps b ≡ some b'
      → amiss q how timeout steps b ≡ 0
      → IsSound b
      → IsSound b'
  unfolding acts amiss
  acts-IsSound [] b {b'} h u sound = let same : b ≡ b' = cc in rw (← same) sound
  acts-IsSound (a ∷ rest) b {b'} h u sound = elim (Option-cases (act q how timeout a b)) [
    | inl stuck ↦ absurd (ground arith)
    | inr (b₁, done) ↦
        acts-IsSound rest b₁ {b' = b'} (ground arith) (ground arith)
          (act-IsSound a b done (ground arith) sound)
  ]

  -- After any run of acts from the start, where others go on while a query is written and while a
  -- report is made: with a shuffle that permutes, no answer but to queries in flight, and no report
  -- whose counters change between its load and its stores, each of the ids 0 to 65534 is held
  -- exactly once, and no other; and the queries counted as sent, in the reports and since the last,
  -- with the one that is being written, are as many as those counted as answered, those counted as
  -- timed out and those in flight, modulo 2 ^ 64.
  pub acts-start-IsSound :
      (shuffle : List ℕ → List ℕ) (query_gen : G) (now : ℕ) (steps : List (Act Addr))
      {b : Busy G Addr}
      → ((j : ℕ) (l : List ℕ) → count j (shuffle l) ≡ count j l)
      → amiss q how timeout steps (idle (start shuffle query_gen now)) ≡ 0
      → acts q how timeout steps (idle (start shuffle query_gen now)) ≡ some b
      → IsWhole b.gen
        × ((sent_count b.gen + uncounted b) % u64_mod
            ≡ (answer_count b.gen + timeout_count b.gen + length b.gen.store.in_flight) % u64_mod)
  unfolding start
  acts-start-IsSound shuffle query_gen now steps permutes u h =
      let (w, o) =
        acts-IsSound steps (idle (start shuffle query_gen now)) h u
          (start-IsWhole Addr shuffle query_gen now permutes, refl) in
      (w, omega (arith, o))
