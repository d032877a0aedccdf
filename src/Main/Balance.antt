-- ===== src/Main/Balance.antt =====
-- The program as a whole: where each query is, in bin/src/main.rs with the files it puts together.
use nailgun.Prelude.{ℕ, ◌+◌, length}
use nailgun.Stats.Totals.{Float32}
use nailgun.Stats.Conservation.{Counter, sum_reported, held}
use nailgun.Gen.Life.{Life}
use nailgun.Main.{Program}
use nailgun.Main.Accounts.{over_all}

-- What a generator has counted since its last report, and what it has in flight.
abbrev pub sent_since : {G Addr : Type 0} → Life G Addr → ℕ
sent_since l = l.gen.tracker.atomic_store.sent

abbrev pub answered_since : {G Addr : Type 0} → Life G Addr → ℕ
answered_since l = l.gen.tracker.ok_recv

abbrev pub timed_out_since : {G Addr : Type 0} → Life G Addr → ℕ
timed_out_since l = l.gen.tracker.atomic_store.timed_out

abbrev pub in_flight : {G Addr : Type 0} → Life G Addr → ℕ
in_flight l = length l.gen.store.in_flight

-- All that the program knows of a counter: the totals and the summary, the reports in the channel,
-- those that nobody takes, and what the generators have counted since.
abbrev pub known :
    {G Addr : Type 0} (F : Float32) → Counter → (Life G Addr → ℕ) → Program F.T G Addr → ℕ
known F c since s =
    held F c s.gathered
    + sum_reported c s.channel
    + sum_reported c s.unheard
    + over_all since s.lives
