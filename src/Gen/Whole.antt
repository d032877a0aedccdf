-- ===== src/Gen/Whole.antt =====
-- bin/src/gen.rs, bin/src/sender.rs and bin/src/store.rs: an id is never lost and never used twice,
-- as long as every answer is to a query in flight; any other answer adds a copy of its id.
use nailgun.Prelude.{
  ℕ, ◌+◌, ◌≡◌, ap, ◌∙◌, inl, inr, true, none, List, [], ◌∷◌, arith, ltb, ◌==◌, if◌then◌else◌,
  Option-cases, count, count-take-drop, ok, err, >>=-eq-ok, add64,
}
use nailgun.Prelude.Assoc.{lookup, contains_key, count-insert, count-keys_present}
use nailgun.Config.{batch_size}
use nailgun.Msg.{buf_msg, msg_id}
use nailgun.Store.{id_count}
use nailgun.Store.Timeouts.{copies-clear_timeouts}
use nailgun.Store.Fresh.{copies-fresh}
use nailgun.Sender.{QueryGen, MsgSend, insert_in_flight}
use nailgun.Sender.Batch.{take_batch_fresh}
use nailgun.Gen.{
  Generator, Turn, sender, frame, broken, tick, cleanup, receive, handle_frame, turn, turns, start,
  held,
}
use nailgun.Gen.Turns.{
  report_cases, SenderStep, sender_turn-SenderStep, handle_frame_cases, copies-receive,
}

-- Each of the ids 0 to 65534 is held once, and no other: it is free, taken by the sender or in
-- flight.
abbrev pub IsWhole : {G Addr : Type 0} → Generator G Addr → Type 0
IsWhole g = (j : ℕ) → held j g ≡ (if ltb j id_count then 1 else 0)

-- Whether a turn is an answer to no query in flight, as a number.
unfoldable pub is_unsolicited : {G Addr : Type 0} → Turn Addr → Generator G Addr → ℕ
is_unsolicited (frame now buf addr) g = elim (msg_id (buf_msg buf addr)) [
  | err e ↦ 0
  | ok id ↦ if contains_key id g.store.in_flight then 0 else 1
]
is_unsolicited _ g = 0

module _ {G Addr : Type 0} (g : Generator G Addr) where
  free-in_flight :
      IsWhole g → (j : ℕ) → contains_key j g.store.in_flight ≡ true → count j g.store.ids ≡ 0
  unfolding contains_key
  free-in_flight w j c = elim (Option-cases (lookup j g.store.in_flight)) [
    | inl absent ↦ absurd (ground arith)
    | inr (v, present) ↦ ground (arith, w j, count-keys_present j v g.store.in_flight)
  ]

  -- An id that the sender has taken is not in flight.
  pub pending-absent :
      (id : ℕ) (rest : List ℕ)
      → IsWhole g
      → g.pending ≡ id ∷ rest
      → lookup id g.store.in_flight ≡ none
  pending-absent id rest w p = elim (Option-cases (lookup id g.store.in_flight)) [
    | inl absent ↦ absent
    | inr (v, present) ↦
        absurd (ground (arith, w id, ap (count id) p, count-keys_present id v g.store.in_flight))
  ]

  pub SenderStep-IsWhole : (g' : Generator G Addr) → SenderStep g g' → IsWhole g → IsWhole g'
  unfolding insert_in_flight contains_key
  SenderStep-IsWhole g' (inl (none_left, s, p, t, r)) w j =
      let batch = take_batch_fresh batch_size g.store (free-in_flight w) in
      let store = s ∙ ap (λ b. b.1) batch in
      let taken = p ∙ ap (λ b. b.0) batch in
      rw (store, taken)
        (omega (arith, w j, ap (count j) none_left, count-take-drop j batch_size g.store.ids))
  SenderStep-IsWhole g' (inr (id, rest, info, p, s, p', t, r)) w j =
      let apart = pending-absent id rest w p in
      rw (s, p') (ground (arith, w j, ap (count j) p, count-insert id j info g.store.in_flight))

  frame-IsWhole :
      (now : ℕ) (buf : List ℕ) (addr : Addr) (g' : Generator G Addr)
      → handle_frame now buf addr g ≡ ok g'
      → is_unsolicited (frame now buf addr) g ≡ 0
      → IsWhole g
      → IsWhole g'
  unfolding is_unsolicited
  frame-IsWhole now buf addr g' h u w j =
      let (id, t, known, same, found) = handle_frame_cases now buf addr g h in
      let solicited : contains_key id g.store.in_flight ≡ true = ground arith in
      rw same (ground (arith, w j, copies-receive j id g.store))

  -- One turn of a whole generator that is no unsolicited answer.
  pub turn-IsWhole :
      (q : QueryGen G) (how : MsgSend Addr) (timeout : ℕ) (t : Turn Addr) (g' : Generator G Addr)
      → turn q how timeout t g ≡ ok g'
      → is_unsolicited t g ≡ 0
      → IsWhole g
      → IsWhole g'
  unfolding turn
  turn-IsWhole q how timeout (sender now writes) g' h u w =
      SenderStep-IsWhole g' (sender_turn-SenderStep q how timeout now writes g h) w
  turn-IsWhole q how timeout (frame now buf addr) g' h u w = frame-IsWhole now buf addr g' h u w
  turn-IsWhole q how timeout broken g' h u w = λ j. ground (arith, w j)
  turn-IsWhole q how timeout (tick now) g' h u w =
      let (total, e, counted, s, p, d, i) = report_cases now g h in λ j. rw (s, p) (w j)
  turn-IsWhole q how timeout (cleanup now) g' h u w =
      λ j. ground (arith, w j, copies-clear_timeouts j timeout now g.store g.tracker.atomic_store)

-- A generator starts whole, with a shuffle that permutes.
pub start-IsWhole :
    (Addr : Type 0) {G : Type 0} (shuffle : List ℕ → List ℕ) (query_gen : G) (now : ℕ)
    → ((j : ℕ) (l : List ℕ) → count j (shuffle l) ≡ count j l)
    → IsWhole (start {Addr = Addr} shuffle query_gen now)
unfolding start
start-IsWhole Addr shuffle query_gen now permutes j =
    ground (arith, copies-fresh shuffle permutes j)

module _ {G Addr : Type 0} (q : QueryGen G) (how : MsgSend Addr) (timeout : ℕ) where
  -- How many turns of a run are answers to no query in flight.
  unfoldable pub unsolicited : List (Turn Addr) → Generator G Addr → ℕ
  unfolding is_unsolicited
  unsolicited [] g = 0
  unsolicited (t ∷ ts) g =
      is_unsolicited t g + (elim (turn q how timeout t g) [ err e ↦ 0 | ok g' ↦ unsolicited ts g' ])

  turns-IsWhole :
      (ts : List (Turn Addr)) (g : Generator G Addr) {g' : Generator G Addr}
      → turns q how timeout ts g ≡ ok g'
      → unsolicited ts g ≡ 0
      → IsWhole g
      → IsWhole g'
  unfolding turns unsolicited
  turns-IsWhole [] g {g'} h u w = let same : g ≡ g' = cc in λ j. rw (← same) (w j)
  turns-IsWhole (t ∷ ts) g h u w =
      let (g₁, e, rest) = >>=-eq-ok (turn q how timeout t g) _ h in
      turns-IsWhole ts g₁ rest (ground arith) (turn-IsWhole g q how timeout t g₁ e (ground arith) w)

  -- After any run of turns from the start, with a shuffle that permutes and no answer but to
  -- queries in flight, each of the ids 0 to 65534 is held exactly once, and no other id: it is free,
  -- taken by the sender or in flight. So no id is lost, and none is used for two queries at a time.
  pub turns-start-IsWhole :
      (shuffle : List ℕ → List ℕ) (query_gen : G) (now : ℕ) (ts : List (Turn Addr))
      {g : Generator G Addr}
      → ((j : ℕ) (l : List ℕ) → count j (shuffle l) ≡ count j l)
      → unsolicited ts (start shuffle query_gen now) ≡ 0
      → turns q how timeout ts (start shuffle query_gen now) ≡ ok g
      → IsWhole g
  turns-start-IsWhole shuffle query_gen now ts permutes u h =
      turns-IsWhole ts (start shuffle query_gen now) h u
        (start-IsWhole Addr shuffle query_gen now permutes)

-- An answer to no query in flight that is long enough for an id adds one copy of that id, and of no
-- other: the generator goes on with one copy too many.
pub handle_frame_unsolicited :
    {G Addr : Type 0} (now id : ℕ) (buf : List ℕ) (addr : Addr) (g : Generator G Addr)
    → msg_id (buf_msg buf addr) ≡ ok id
    → lookup id g.store.in_flight ≡ none
    → (g' : Generator G Addr) × (handle_frame now buf addr g ≡ ok g')
      × ((j : ℕ) → held j g' ≡ held j g + (if j == id then 1 else 0))
unfolding handle_frame contains_key
handle_frame_unsolicited now id buf addr g known absent = (
  record g {
    store = (receive id g.store).1;
    tracker = record g.tracker { recv = add64 g.tracker.recv 1 };
  },
  ground arith,
  λ j. ground (arith, copies-receive j id g.store),
)
