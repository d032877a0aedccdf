-- ===== src/Main.antt =====
-- bin/src/main.rs: the program as a whole. `main` starts the runner, which makes the channel and the
-- runner of the statistics and spawns the generators, some of which may not get to their loop; when
-- the run is over, a signal comes or the time is up, it drops the sender of the shutdown signal and
-- waits until every generator is dropped.
-- A step is a move of one generator, with the reports that it sends; the statistics take one report
-- off the channel; the signal; or the exit, after which nothing runs. A send to a channel that is
-- full only takes time. Where the runner of the statistics panics, its end of the channel is dropped,
-- and a report that is sent after that ends the loop that sends it.
pub mod Reached
pub mod Accounts
pub mod Balance
pub mod Printed
pub mod Exit
pub mod Select
use nailgun.Prelude.{
  ℕ, ◌+◌, ◌<◌, ◌≡◌, arith, Result, Bool, true, false, List, [], ◌∷◌, ◌++◌, map, length, ok, err,
  Fault, some,
}
use nailgun.Shutdown.{waits, returns, listening}
use nailgun.Sender.{QueryGen, MsgSend}
use nailgun.Stats.Interval.{StatsInterval}
use nailgun.Stats.Totals.{Float32}
use nailgun.Stats.Runner.{StatsRunner, runner, gather}
use nailgun.Gen.{start}
use nailgun.Gen.Life.{Life, Stage, looping, ended, live, live_unheard, Move}
use nailgun.Gen.Fair.Moves.{is_unsolicited_move}

-- `dropped` says that the sender of the signal is gone. `gathered` is the state of the loop of the
-- statistics: its variable `generators` and the runner; `silent` says that it has panicked, and
-- `unheard` are the reports that nobody takes then.
pub record Program (T G Addr : Type 0) : Type 0 where
  pub lives : List (Life G Addr)
  pub channel : List StatsInterval
  pub gathered : ℕ × StatsRunner T
  pub silent : Bool
  pub unheard : List StatsInterval
  pub dropped : Bool
  pub exited : Bool

-- What differs between generators at their start: whether all that `run` does before its loop succeeds
-- (`set_up` and `task_gen`), the shuffle, the generator of queries, the time.
pub record Spawn (G : Type 0) : Type 0 where
  pub is_set_up : Bool
  pub shuffle : List ℕ → List ℕ
  pub query_gen : G
  pub now : ℕ

-- A generator that cannot be set up returns before its loop, and starts no task.
abbrev pub first_stage : Bool → Stage
first_stage true = looping
first_stage false = ended

abbrev pub spawn : {G Addr : Type 0} → Spawn G → Life G Addr
spawn p = record {
  gen = start p.shuffle p.query_gen p.now;
  stage = first_stage p.is_set_up;
  shutdown = listening waits;
}

-- What `Runner::run` has started when it waits for the generators.
unfoldable pub launched : {G Addr : Type 0} (F : Float32) → List (Spawn G) → Program F.T G Addr
unfolding start runner
launched F ps = record {
  lives = map spawn ps;
  channel = [];
  gathered = (0, runner F (length ps));
  silent = false;
  unheard = [];
  dropped = false;
  exited = false;
}

-- `Runner::run`, up to the wait for the generators. A channel with no room, as for no generator, is
-- refused with a panic.
unfoldable pub launch :
    {G Addr : Type 0} (F : Float32) → List (Spawn G) → Result (Program F.T G Addr)
unfolding launched
launch F [] = err Fault.panicked
launch F (p ∷ ps) = ok (launched F (p ∷ ps))

-- A program that is launched has a generator.
pub launch-launched :
    {G Addr : Type 0} (F : Float32) (ps : List (Spawn G)) (s : Program F.T G Addr)
    → launch F ps ≡ ok s
    → (s ≡ launched F ps) × (0 < length ps)
unfolding launch
launch-launched F [] s h = absurd (ground arith)
launch-launched F (p ∷ ps) s h = (ground arith, omega arith)

-- A receiver whose sender is dropped is told so.
abbrev pub told : {G Addr : Type 0} → Life G Addr → Life G Addr
told l = record l { shutdown = record l.shutdown { notify = returns } }

-- The generator's value is dropped with the end of its loop, whatever else of it still runs.
abbrev pub is_looping : Stage → Bool
is_looping looping = true
is_looping _ = false

abbrev pub AllOver : {G Addr : Type 0} → List (Life G Addr) → Type 0
AllOver [] = Unit {0}
AllOver (l ∷ ls) = (is_looping l.stage ≡ false) × AllOver ls

module _ {G Addr : Type 0} (F : Float32) (q : QueryGen G) (how : MsgSend Addr) (timeout : ℕ) where
  -- A step, with the number of answers in it that are to no query in flight.
  pub data Step (s : Program F.T G Addr) (n : ℕ) (s' : Program F.T G Addr) : Type 0 where
    moves :
        (before after : List (Life G Addr)) (l l' : Life G Addr) (m : Move Addr)
        (reports : List StatsInterval)
        → s.exited ≡ false
        → s.silent ≡ false
        → s.lives ≡ before ++ l ∷ after
        → live q how timeout m l ≡ some l'
        → l'.gen.reports ≡ l.gen.reports ++ reports
        → n ≡ is_unsolicited_move m l.gen
        → s' ≡ record s { lives = before ++ l' ∷ after; channel = s.channel ++ reports }
        → Step s n s'
    moves_unheard :
        (before after : List (Life G Addr)) (l l' : Life G Addr) (m : Move Addr)
        (reports : List StatsInterval)
        → s.exited ≡ false
        → s.silent ≡ true
        → s.lives ≡ before ++ l ∷ after
        → live_unheard q how timeout m l ≡ some l'
        → l'.gen.reports ≡ l.gen.reports ++ reports
        → n ≡ is_unsolicited_move m l.gen
        → s' ≡ record s { lives = before ++ l' ∷ after; unheard = s.unheard ++ reports }
        → Step s n s'
    panics :
        (i : StatsInterval) (rest : List StatsInterval) (f : Fault)
        → s.exited ≡ false
        → s.silent ≡ false
        → s.channel ≡ i ∷ rest
        → gather F i s.gathered ≡ err f
        → n ≡ 0
        → s' ≡ record s { silent = true; channel = []; unheard = s.unheard ++ i ∷ rest }
        → Step s n s'
    gathers :
        (i : StatsInterval) (rest : List StatsInterval) (r : ℕ × StatsRunner F.T)
        → s.exited ≡ false
        → s.silent ≡ false
        → s.channel ≡ i ∷ rest
        → gather F i s.gathered ≡ ok r
        → n ≡ 0
        → s' ≡ record s { channel = rest; gathered = r }
        → Step s n s'
    drops :
        s.exited ≡ false
        → n ≡ 0
        → s' ≡ record s { dropped = true; lives = map told s.lives }
        → Step s n s'
    exits :
        s.exited ≡ false
        → s.dropped ≡ true
        → AllOver s.lives
        → n ≡ 0
        → s' ≡ record s { exited = true }
        → Step s n s'

  -- The states that are reached from the start, with the number of such answers on the way.
  pub data Reach (ps : List (Spawn G)) : ℕ → Program F.T G Addr → Type 0 where
    started : (n : ℕ) (s : Program F.T G Addr) → n ≡ 0 → launch F ps ≡ ok s → Reach ps n s
    later :
        (n m k : ℕ) (s t : Program F.T G Addr)
        → Reach ps m t
        → Step t k s
        → n ≡ m + k
        → Reach ps n s
