-- ===== src/Main/Exit.antt =====
-- bin/src/main.rs with bin/src/gen.rs: the program can always be ended by the signal.
use nailgun.Prelude.{ℕ, ◌+◌, ◌*◌, ◌≤◌, ◌<◌, ◌≡◌, false, some, List, [], ◌∷◌, ◌++◌, length}
use nailgun.Shutdown.{Shutdown, returns}
use nailgun.Sender.{QueryGen, MsgSend}
use nailgun.Stats.Interval.{StatsInterval}
use nailgun.Gen.Wait.{tick_period, Paced}
use nailgun.Gen.Life.{Life, Waiting, signalled, live}
use nailgun.Main.{is_looping}

-- A wait that is long enough: its timer is made before it starts and keeps its period, and its rounds
-- go on until more than the timeout and one period after the start.
abbrev pub IsTimely : ℕ → Waiting → Type 0
IsTimely timeout w =
    (made : ℕ) × (made ≤ w.since)
    × Paced made 0 w.rounds
    × (w.since + timeout + tick_period < made + length w.rounds * tick_period)

abbrev pub AreTimely : ℕ → List Waiting → Type 0
AreTimely timeout [] = Unit {0}
AreTimely timeout (w ∷ ws) = IsTimely timeout w × AreTimely timeout ws

module _ {G Addr : Type 0} where
  abbrev AllTold : List (Life G Addr) → Type 0
  AllTold [] = Unit {0}
  AllTold (l ∷ ls) = (l.shutdown.notify ≡ returns) × AllTold ls

module _ {G Addr : Type 0} (q : QueryGen G) (how : MsgSend Addr) (timeout : ℕ) where
  -- What a generator that is told does: its loop ends, with a report or with none.
  abbrev Winds : Waiting → Life G Addr → Type 0
  Winds w l =
      (l' : Life G Addr) × (reports : List StatsInterval) × (live q how timeout (signalled w) l
        ≡ some l')
      × (l'.gen.reports ≡ l.gen.reports ++ reports)
      × (is_looping l'.stage ≡ false)
