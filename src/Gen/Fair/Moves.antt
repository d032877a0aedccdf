-- ===== src/Gen/Fair/Moves.antt =====
-- bin/src/gen.rs: every move of a generator keeps what it owes within bounds.
use nailgun.Prelude.{ℕ, ◌≤◌, ◌≡◌, refl, inl, inr, true, some, arith, Option-cases, Result-cases, ok}
use nailgun.Shutdown.{Shutdown, recv}
use nailgun.Store.Timeouts.{clear_timeouts_counts}
use nailgun.Sender.{Write, QueryGen, MsgSend}
use nailgun.Gen.{Generator, Turn, sender, frame, broken, tick, cleanup, turn, clean}
use nailgun.Gen.Whole.{IsWhole, is_unsolicited, turn-IsWhole}
use nailgun.Gen.Account.{IsOwing, turn-IsOwing}
use nailgun.Gen.Life.{
  Waiting, Stage, looping, detached, cleaning, ended, Life, Move, act, sender_over, signalled,
  stream_over, panicked_turn, sender_stop, wind_up, live, after_tick, after_wait, stage_unheard,
  live_unheard, runs, who, by_loop,
}
use nailgun.Gen.Fair.{
  panicked_frame, Stopped, sender_stop-Stopped, Stopped-IsOwing, wind_up-IsOwing,
}

-- How much may be owed at a stage: a write that failed ended the sender, and an answer that was
-- lost ended the loop. While the sender runs, the ids are whole.
abbrev pub Limits : Stage → ℕ → ℕ → Type 0
Limits looping unsent lost = (unsent ≡ 0) × (lost ≡ 0)
Limits detached unsent lost = (unsent ≡ 0) × (lost ≤ 1)
Limits cleaning unsent lost = (unsent ≤ 1) × (lost ≤ 1)
Limits ended unsent lost = (unsent ≤ 1) × (lost ≤ 1)

abbrev pub WholeAt : {G Addr : Type 0} → Stage → Generator G Addr → Type 0
WholeAt looping g = IsWhole g
WholeAt detached g = IsWhole g
WholeAt cleaning g = Unit {0}
WholeAt ended g = Unit {0}

abbrev pub IsFair : {G Addr : Type 0} → Life G Addr → Type 0
IsFair l =
    WholeAt l.stage l.gen
    × ((unsent lost : ℕ) × Limits l.stage unsent lost × IsOwing unsent lost l.gen)

-- Whether a move is an answer to no query in flight, as a number.
unfoldable pub is_unsolicited_move : {G Addr : Type 0} → Move Addr → Generator G Addr → ℕ
is_unsolicited_move (act t) g = is_unsolicited t g
is_unsolicited_move _ g = 0

module _ {G Addr : Type 0} (g : Generator G Addr) where
  -- A turn of the loop that panics.
  panicked_turn-IsOwing :
      (t : Turn Addr)
      → who t ≡ by_loop
      → is_unsolicited t g ≡ 0
      → IsWhole g
      → IsOwing 0 0 g
      → IsWhole (panicked_turn t g) × ((lost : ℕ) × (lost ≤ 1) × IsOwing 0 lost (panicked_turn t g))
  unfolding panicked_turn
  panicked_turn-IsOwing (sender now writes) e u w b = absurd (ground arith)
  panicked_turn-IsOwing (frame now buf addr) e u w b = panicked_frame g now buf addr u w b
  panicked_turn-IsOwing broken e u w b = (w, (0, omega arith, b))
  panicked_turn-IsOwing (tick now) e u w b = (w, (0, omega arith, b))
  panicked_turn-IsOwing (cleanup now) e u w b = absurd (ground arith)

  clean-IsOwing :
      (timeout now unsent lost : ℕ)
      → IsOwing unsent lost g
      → IsOwing unsent lost (clean timeout now g)
  unfolding clean
  clean-IsOwing timeout now unsent lost b =
      let (removed, ids, left, timeouts, same) =
        clear_timeouts_counts timeout now g.store g.tracker.atomic_store in
      ground arith

  module _ (q : QueryGen G) (how : MsgSend Addr) (timeout : ℕ) where
    -- A turn that goes well, at each stage.
    turn-WholeAt :
        (st : Stage) (t : Turn Addr) (g' : Generator G Addr) (unsent lost : ℕ)
        → runs st (who t) ≡ true
        → turn q how timeout t g ≡ ok g'
        → is_unsolicited t g ≡ 0
        → WholeAt st g
        → IsOwing unsent lost g
        → WholeAt st g' × IsOwing unsent lost g'
    unfolding turn
    turn-WholeAt looping t g' unsent lost r e u w b = (
      turn-IsWhole g q how timeout t g' e u w,
      turn-IsOwing unsent lost g q how timeout t g' e w b,
    )
    turn-WholeAt detached t g' unsent lost r e u w b = (
      turn-IsWhole g q how timeout t g' e u w,
      turn-IsOwing unsent lost g q how timeout t g' e w b,
    )
    turn-WholeAt cleaning (cleanup now) g' unsent lost r e u w b =
        let same : clean timeout now g ≡ g' = ground arith in
        rw (← same) (tt, clean-IsOwing timeout now unsent lost b)
    turn-WholeAt cleaning (sender now writes) g' unsent lost r e u w b = absurd (ground arith)
    turn-WholeAt cleaning (frame now buf addr) g' unsent lost r e u w b = absurd (ground arith)
    turn-WholeAt cleaning broken g' unsent lost r e u w b = absurd (ground arith)
    turn-WholeAt cleaning (tick now) g' unsent lost r e u w b = absurd (ground arith)
    turn-WholeAt ended t g' unsent lost r e u w b = absurd (ground arith)

module _ {G Addr : Type 0} (g : Generator G Addr) (shutdown : Shutdown) where
  abbrev FairAt : Stage → Type 0
  FairAt stage = IsFair (record { gen = g; stage = stage; shutdown = shutdown })

  after_tick-IsFair : (stage : Stage) → FairAt stage → FairAt (after_tick stage)
  after_tick-IsFair looping (w, (unsent, lost, (none_unsent, none_lost), b)) =
      (w, (unsent, lost, (none_unsent, omega arith), b))
  after_tick-IsFair detached f = f
  after_tick-IsFair cleaning f = f
  after_tick-IsFair ended f = f

  after_wait-IsFair : (stage : Stage) → FairAt stage → FairAt (after_wait stage)
  after_wait-IsFair looping f = f
  after_wait-IsFair detached f = f
  after_wait-IsFair cleaning f = f
  after_wait-IsFair ended f = f

  stage_unheard-IsFair :
      (m : Move Addr) (stage : Stage) → FairAt stage → FairAt (stage_unheard m stage)
  stage_unheard-IsFair (act (sender now writes)) stage f = f
  stage_unheard-IsFair (act (frame now buf addr)) stage f = f
  stage_unheard-IsFair (act broken) stage f = f
  stage_unheard-IsFair (act (tick now)) stage f = after_tick-IsFair stage f
  stage_unheard-IsFair (act (cleanup now)) stage f = f
  stage_unheard-IsFair (sender_over now writes v) stage f = after_wait-IsFair stage f
  stage_unheard-IsFair (signalled v) stage f = after_wait-IsFair stage f
  stage_unheard-IsFair stream_over stage f = f

module _ {G Addr : Type 0} (q : QueryGen G) (how : MsgSend Addr) (timeout : ℕ) where
  act-IsFair :
      (t : Turn Addr) (l : Life G Addr) {l' : Life G Addr}
      → live q how timeout (act t) l ≡ some l'
      → is_unsolicited t l.gen ≡ 0
      → IsFair l
      → IsFair l'
  unfolding live
  act-IsFair t l {l'} h u (w, (unsent, lost, limits, b)) =
      let may : runs l.stage (who t) ≡ true = ground arith in
      elim (Result-cases (turn q how timeout t l.gen)) [
        | inl (g', done) ↦
            let same : record l { gen = g' } ≡ l' = ground arith in
            let (w', b') =
              turn-WholeAt l.gen q how timeout l.stage t g' unsent lost may done u w b in
            rw (← same) (w', (unsent, lost, limits, b'))
        | inr (e, fault) ↦
            let loops : who t ≡ by_loop = ground arith in
            let at_loop : l.stage ≡ looping = ground arith in
            let same : record l { gen = panicked_turn t l.gen; stage = detached } ≡ l' =
              ground arith in
            let bounds : (unsent ≡ 0) × (lost ≡ 0) = rw at_loop at limits in
            let kept : IsWhole l.gen = rw at_loop at w in
            let start : IsOwing 0 0 l.gen = omega (arith, bounds) in
            let (whole, (n, few, owing)) = panicked_turn-IsOwing l.gen t loops u kept start in
            rw (← same) (whole, (0, n, (refl, few), owing))
      ]

  -- The end of the loop with a wait, at a stage in which the loop runs.
  wind_up-IsFair :
      (unsent : ℕ) (w : Waiting) (g : Generator G Addr) (shutdown : Shutdown) {l : Life G Addr}
      → wind_up q how timeout w g shutdown ≡ some l
      → unsent ≤ 1
      → IsOwing unsent 0 g
      → IsFair l
  wind_up-IsFair unsent w g shutdown {l} h few b =
      let (owing, at) = wind_up-IsOwing q how timeout unsent 0 w g shutdown h b in
      elim at [
        | inl over ↦ rw over (tt, (unsent, 0, (few, omega arith), owing))
        | inr over ↦ rw over (tt, (unsent, 0, (few, omega arith), owing))
      ]

  sender_over-IsFair :
      (now : ℕ) (writes : Write) (v : Waiting) (l : Life G Addr) {l' : Life G Addr}
      → live q how timeout (sender_over now writes v) l ≡ some l'
      → IsFair l
      → IsFair l'
  unfolding live
  sender_over-IsFair now writes v l {l'} h (w, (unsent, lost, limits, b)) =
      elim (Option-cases (sender_stop q how timeout now writes l.gen)) [
        | inl runs_on ↦ absurd (ground arith)
        | inr (g', stop) ↦
            let over = sender_stop-Stopped q how timeout now writes l.gen stop in
            go g' stop over l.stage refl
      ]
    where
      go :
          (g' : Generator G Addr)
          → sender_stop q how timeout now writes l.gen ≡ some g'
          → Stopped l.gen g'
          → (st : Stage) → l.stage ≡ st
          → IsFair l'
      go g' stop over looping e =
          let bounds : (unsent ≡ 0) × (lost ≡ 0) = rw e at limits in
          let start : IsOwing 0 0 l.gen = omega (arith, bounds) in
          let (k, few, owing) = Stopped-IsOwing 0 l.gen g' over (rw e at w) start in
          wind_up-IsFair k v g' l.shutdown {l = l'} (ground arith) few owing
      go g' stop over detached e =
          let bounds : (unsent ≡ 0) × (lost ≤ 1) = rw e at limits in
          let start : IsOwing 0 lost l.gen = omega (arith, bounds) in
          let (k, few, owing) = Stopped-IsOwing lost l.gen g' over (rw e at w) start in
          let same : record l { gen = g'; stage = cleaning } ≡ l' = ground arith in
          rw (← same) (tt, (k, lost, (few, bounds.1), owing))
      go g' stop over cleaning e = absurd (ground arith)
      go g' stop over ended e = absurd (ground arith)

  signalled-IsFair :
      (v : Waiting) (l : Life G Addr) {l' : Life G Addr}
      → live q how timeout (signalled v) l ≡ some l'
      → IsFair l
      → IsFair l'
  unfolding live
  signalled-IsFair v l {l'} h (w, (unsent, lost, limits, b)) =
      elim (Option-cases (recv l.shutdown)) [
        | inl waits ↦ absurd (ground arith)
        | inr (shutdown, heard) ↦
            let at_loop : l.stage ≡ looping = ground arith in
            let bounds : (unsent ≡ 0) × (lost ≡ 0) = rw at_loop at limits in
            wind_up-IsFair 0 v l.gen shutdown {l = l'} (ground arith) (omega arith)
              (omega (arith, bounds))
      ]

  stream_over-IsFair :
      (l : Life G Addr) {l' : Life G Addr}
      → live q how timeout stream_over l ≡ some l'
      → IsFair l
      → IsFair l'
  unfolding live
  stream_over-IsFair l {l'} h (w, (unsent, lost, limits, b)) =
      let at_loop : l.stage ≡ looping = ground arith in
      let bounds : (unsent ≡ 0) × (lost ≡ 0) = rw at_loop at limits in
      let kept : IsWhole l.gen = rw at_loop at w in
      let same : record l { stage = detached } ≡ l' = ground arith in
      rw (← same) (kept, (0, 0, (refl, omega arith), omega (arith, bounds)))

  -- Every move of a generator that is no unsolicited answer keeps it fair: while its sender runs, no
  -- id is lost or used twice; and the queries counted as sent are as many as those counted as
  -- answered, those counted as timed out and those in flight, modulo 2 ^ 64, but for one query whose
  -- write failed, and one answer that panicked.
  pub live-IsFair :
      (m : Move Addr) (l : Life G Addr) {l' : Life G Addr}
      → live q how timeout m l ≡ some l'
      → is_unsolicited_move m l.gen ≡ 0
      → IsFair l
      → IsFair l'
  unfolding is_unsolicited_move
  live-IsFair (act t) l h u f = act-IsFair t l h u f
  live-IsFair (sender_over now writes v) l h u f = sender_over-IsFair now writes v l h f
  live-IsFair (signalled v) l h u f = signalled-IsFair v l h f
  live-IsFair stream_over l h u f = stream_over-IsFair l h f

  -- The same of a move whose report nobody receives.
  pub live_unheard-IsFair :
      (m : Move Addr) (l : Life G Addr) {l' : Life G Addr}
      → live_unheard q how timeout m l ≡ some l'
      → is_unsolicited_move m l.gen ≡ 0
      → IsFair l
      → IsFair l'
  unfolding live_unheard
  live_unheard-IsFair m l {l'} h u f = elim (Option-cases (live q how timeout m l)) [
    | inl stuck ↦ absurd (ground arith)
    | inr (l₁, done) ↦
        let same : record l₁ { stage = stage_unheard m l₁.stage } ≡ l' = ground arith in
        rw (← same) (stage_unheard-IsFair l₁.gen l₁.shutdown m l₁.stage (live-IsFair m l done u f))
  ]
