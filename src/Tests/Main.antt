-- ===== src/Tests/Main.antt =====
-- The program with one generator: bin/src/main.rs and all that it uses.
use nailgun.Prelude.{
  ℕ, ◌+◌, ◌%◌, ◌≡◌, refl, Bool, true, false, none, some, List, [], ◌∷◌, ◌++◌, ◌<◌, codes, get_elem?,
  arith, length, ok, err, u64_mod,
}
use nailgun.Prelude.Assoc.{lookup, insert, contains_key, entry_add}
use nailgun.Store.{range_from, fresh, clear_timeouts}
use nailgun.Sender.{all_written, udp, pop_ids, take_batch, send_one}
use nailgun.Util.{next}
use nailgun.Stats.Interval
use nailgun.Stats.Interval.{StatsInterval, aggregate}
use nailgun.Stats.Tracker
use nailgun.Stats.Totals
use nailgun.Stats.Conservation.{Counter, sum_reported, held}
use nailgun.Stats.Runner.{StatsRunner, runner, gather}
use nailgun.Query.{RandomPkt, random_pkt_gen, random_pkt_next}
use nailgun.Gen.{sender, tick, start, turn}
use nailgun.Gen.Whole.{is_unsolicited}
use nailgun.Gen.Life.{Life, Move, act, signalled, live, Waiting}
use nailgun.Gen.Fair.Moves.{is_unsolicited_move}
use nailgun.Main.{
  Program, Spawn, spawn, launch, told, moves, gathers, drops, exits, Reach, started, later,
}
use nailgun.Main.Accounts.{over_all, reported_by, Reach-IsReported}
use nailgun.Main.Printed.{end_stats, Reach-end_stats}
use nailgun.Stats.Printed.{summary, summary_lines}
use nailgun.Tests.Printed.{texts, print_on, three_lines}
use nailgun.Main.Balance.{known, sent_since}
use nailgun.Tests.Stats.{whole}
use nailgun.Tests.Gen.{packets, keep_order, rounds}

abbrev pub one : List (Spawn RandomPkt)
one = record { is_set_up = true; shuffle = keep_order; query_gen = packets; now = 0 } ∷ []

-- The life of the generator: it takes a batch, sends a query, reports, and hears the signal.
after : Move ℕ → Life RandomPkt ℕ → Life RandomPkt ℕ
unfolding live turn start random_pkt_next pop_ids take_batch send_one range_from fresh
    clear_timeouts Tracker.interval lookup insert contains_key
after m l = elim (live random_pkt_gen (udp 7) 500 m l) [ none ↦ l | some l' ↦ l' ]

abbrev pub waiting : Waiting
waiting = record { since = 10; rounds = rounds; now = 4_000 }

batch : Life RandomPkt ℕ
unfolding after
batch =
    after (act (sender 1 all_written))
      (spawn (record { is_set_up = true; shuffle = keep_order; query_gen = packets; now = 0 }))

busy : Life RandomPkt ℕ
unfolding batch
busy = after (act (sender 5 all_written)) batch

pub reporting : Life RandomPkt ℕ
unfolding busy
reporting = after (act (tick 1_000)) busy

over : Life RandomPkt ℕ
unfolding reporting
over = after (signalled waiting) (told reporting)

report_of : List StatsInterval → StatsInterval
report_of [] = Interval.default
report_of (i ∷ is) = i

pub gathered : ℕ × StatsRunner ℕ
unfolding reporting report_of gather runner aggregate Totals.update Interval.log next insert lookup
    entry_add
gathered = elim (gather whole (report_of reporting.gen.reports) (0, runner whole 1)) [
  | ok r ↦ r
  | err e ↦ (0, runner whole 1)
]

abbrev pub state :
    Life RandomPkt ℕ → List StatsInterval → ℕ × StatsRunner ℕ → Bool → Bool → Program ℕ RandomPkt ℕ
state l channel r dropped exited = record {
  lives = l ∷ [];
  channel = channel;
  gathered = r;
  silent = false;
  unheard = [];
  dropped = dropped;
  exited = exited;
}

-- Seven steps of the program.
abbrev pub Reached : Program ℕ RandomPkt ℕ → Type 0
Reached s = Reach whole random_pkt_gen (udp 7) 500 one 0 s

begin : Reached (
    state
      (spawn (record { is_set_up = true; shuffle = keep_order; query_gen = packets; now = 0 }))
      []
      (0, runner whole 1)
      false
      false)
unfolding launch
begin = started _ _ refl refl

with_batch : Reached (state batch [] (0, runner whole 1) false false)
unfolding batch is_unsolicited_move is_unsolicited
with_batch =
    later _ _ _ _ _ begin
      (moves [] [] _ batch (act (sender 1 all_written)) [] refl refl refl refl refl refl refl) refl

with_query : Reached (state busy [] (0, runner whole 1) false false)
unfolding busy is_unsolicited_move is_unsolicited
with_query =
    later _ _ _ _ _ with_batch
      (moves [] [] _ busy (act (sender 5 all_written)) [] refl refl refl refl refl refl refl) refl

with_report : Reached (state reporting reporting.gen.reports (0, runner whole 1) false false)
unfolding reporting is_unsolicited_move is_unsolicited
with_report =
    later _ _ _ _ _ with_query
      (moves [] [] _ reporting (act (tick 1_000)) reporting.gen.reports refl refl refl refl refl
        refl refl)
      refl

pub with_totals : Reached (state reporting [] gathered false false)
unfolding gathered
with_totals =
    later _ _ _ _ _ with_report
      (gathers (report_of reporting.gen.reports) [] gathered refl refl refl refl refl refl) refl

with_signal : Reached (state (told reporting) [] gathered true false)
with_signal = later _ _ _ _ _ with_totals (drops refl refl refl) refl

-- The last report is still in the channel when the program exits.
abbrev last_reports : List StatsInterval
last_reports = tail_of over.gen.reports
  where
    tail_of : List StatsInterval → List StatsInterval
    tail_of [] = []
    tail_of (i ∷ is) = is

with_end : Reached (state over last_reports gathered true false)
unfolding over is_unsolicited_move
with_end =
    later _ _ _ _ _ with_signal
      (moves [] [] _ over (signalled waiting) last_reports refl refl refl refl refl refl refl) refl

abbrev gone : Program ℕ RandomPkt ℕ
gone = state over last_reports gathered true true

with_exit : Reached gone
unfolding over
with_exit = later _ _ _ _ _ with_end (exits refl refl (refl, tt) refl refl) refl

Reach-IsReported_example :
    (held whole Counter.sent gone.gathered
        + sum_reported Counter.sent gone.channel
        + sum_reported Counter.sent gone.unheard)
      % u64_mod
    ≡ over_all (reported_by Counter.sent) gone.lives % u64_mod
Reach-IsReported_example =
    Reach-IsReported whole random_pkt_gen (udp 7) 500 Counter.sent one 0 gone (omega arith)
      (omega arith) with_exit

-- One query was sent and timed out, which only the report in the channel says.
gone_counts :
    (known whole Counter.sent sent_since gone ≡ 1)
    × (sum_reported Counter.timeouts gone.channel ≡ 1)
    × (length gone.channel ≡ 1)
unfolding over gathered
gone_counts = (refl, refl, refl)

-- The last report is taken before the exit, and the statistics end.
gathered_last : ℕ × StatsRunner ℕ
unfolding over gathered report_of gather runner aggregate Totals.update Interval.log next insert
    lookup entry_add
gathered_last = elim (gather whole (report_of last_reports) gathered) [
  | ok r ↦ r
  | err e ↦ gathered
]

abbrev drained : Program ℕ RandomPkt ℕ
drained = state over [] gathered_last true false

with_last : Reached drained
unfolding gathered_last
with_last =
    later _ _ _ _ _ with_end
      (gathers (report_of last_reports) [] gathered_last refl refl refl refl refl refl) refl

printed :
    end_stats whole texts print_on drained three_lines
    ≡ some (summary whole texts print_on gathered_last.1.totals three_lines)
unfolding end_stats over
printed = refl

Reach-end_stats_example :
    (sent recv : ℕ) × (summary whole texts print_on gathered_last.1.totals three_lines
      ≡ summary whole texts print_on gathered_last.1.totals three_lines)
    × (get_elem? (summary_lines whole texts gathered_last.1.totals) 2
        ≡ some (codes "total sent     " ++ (sent ∷ [])))
    × (get_elem? (summary_lines whole texts gathered_last.1.totals) 3
        ≡ some (codes "total rcvd     " ++ (recv ∷ [])))
    × (sent < u64_mod)
    × (recv < u64_mod)
    × ((sent + gathered_last.1.summary.sent) % u64_mod
        ≡ over_all (reported_by Counter.sent) (over ∷ []) % u64_mod)
    × ((recv + gathered_last.1.summary.recv) % u64_mod
        ≡ over_all (reported_by Counter.recv) (over ∷ []) % u64_mod)
    × (gathered_last.0 ≡ 0
        → (gathered_last.1.summary.sent ≡ 0) × (gathered_last.1.summary.recv ≡ 0))
Reach-end_stats_example =
    Reach-end_stats whole random_pkt_gen (udp 7) 500 texts print_on three_lines
      (summary whole texts print_on gathered_last.1.totals three_lines) one 0 drained (omega arith)
      (omega arith) with_last printed
