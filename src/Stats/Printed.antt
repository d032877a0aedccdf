-- ===== src/Stats/Printed.antt =====
-- bin/src/stats.rs, what `StatsInterval::log`, `StatsTotals::summary` and `StatsRunner::run` print.
-- The texts of numbers and codes, the order in which the map of counts is walked, and standard output are
-- parameters; a text is the list of its bytes.
pub mod Written
pub mod Run
use nailgun.Prelude.{
  ℕ, Bool, true, false, List, [], ◌∷◌, ◌++◌, map, min, ◌==◌, if◌then◌else◌, length, take, Result,
  ok, ◌>>=◌, codes,
}
use nailgun.Util.{MovingAvg}
use nailgun.Stats.Interval.{StatsInterval, avg_size, recv_avg_size}
use nailgun.Stats.Totals.{Float32, StatsTotals, min_latency, max_latency, avg_latency, to_percent}
use nailgun.Stats.Runner.{StatsRunner, run}

-- `to_string` of an integer and of an f32, `as_secs_f32`, `ResponseCode::from(0, rcode)` as debug
-- text, and the walk over a map.
pub record Texts (T : Type 0) : Type 0 where
  pub show_int : ℕ → List ℕ
  pub show_float : T → List ℕ
  pub as_secs : ℕ → T
  pub show_rcode : ℕ → List ℕ
  pub walk : List (ℕ × ℕ) → List (ℕ × ℕ)

-- `{}ms`, `{} bytes` and `{} ({}%)`
abbrev pub ms : List ℕ → List ℕ
ms s = s ++ codes "ms"

abbrev pub bytes : List ℕ → List ℕ
bytes s = s ++ codes " bytes"

abbrev pub percent : List ℕ → List ℕ → List ℕ
percent s p = s ++ codes " (" ++ p ++ codes "%)"

module _ (F : Float32) (x : Texts F.T) where
  -- `PrettyDuration`: at most five characters of the seconds.
  unfoldable pub pretty_duration : ℕ → List ℕ
  pretty_duration d =
      let secs = x.show_float (x.as_secs d) in take (min (length secs) 5) secs ++ codes "s"

  unfoldable pub avg_latency_str : StatsInterval → List ℕ
  avg_latency_str s = if s.ok_recv == 0 then codes "-" else x.show_float (avg_latency F s)

  -- `Display` of a moving average is that of its value.
  abbrev pub show_average : {T : Type 0} → (T → List ℕ) → MovingAvg T → List ℕ
  show_average show m = show m.val

  -- The fields of the event of `log`.
  unfoldable pub log_fields : StatsInterval → List (List ℕ × List ℕ)
  unfolding pretty_duration avg_latency_str
  log_fields s =
      (codes "duration", pretty_duration s.duration)
      ∷ (codes "send", x.show_int s.sent)
      ∷ (codes "recv", x.show_int s.recv)
      ∷ (codes "to", x.show_int s.timeouts)
      ∷ (codes "min", ms (x.show_float (min_latency F s)))
      ∷ (codes "avg", ms (avg_latency_str s))
      ∷ (codes "max", ms (x.show_float (max_latency F s)))
      ∷ (codes "avg_size", x.show_int (avg_size s))
      ∷ (codes "recv_avg_size", x.show_int (recv_avg_size s))
      ∷ (codes "in_flight", x.show_int s.in_flight)
      ∷ []

  -- The line of a code and of its count.
  abbrev pub response_line : ℕ × ℕ → List ℕ
  response_line (rcode, count) = codes "   " ++ x.show_rcode rcode ++ codes " " ++ x.show_int count

  -- The lines that `summary` writes.
  unfoldable pub summary_lines : StatsTotals F.T → List (List ℕ)
  unfolding pretty_duration
  summary_lines t =
      codes "-----RESULTS-----"
      ∷ (codes "runtime        " ++ pretty_duration t.duration)
      ∷ (codes "total sent     " ++ x.show_int t.sent)
      ∷ (codes "total rcvd     " ++ x.show_int t.recv)
      ∷ (codes "min latency    " ++ ms (x.show_float t.min_latency))
      ∷ (codes "avg latency    " ++ ms (show_average x.show_float t.avg_latency))
      ∷ (codes "max latency    " ++ ms (x.show_float t.max_latency))
      ∷ (codes "sent avg size  " ++ bytes (show_average x.show_int t.avg_buf_size))
      ∷ (codes "rcvd avg size  " ++ bytes (show_average x.show_int t.avg_recv_buf_size))
      ∷ (codes "timeouts       " ++ percent (x.show_int t.timeouts) (x.show_float (to_percent F t)))
      ∷ codes "responses"
      ∷ map response_line (x.walk t.rcodes)

  module _ {Out : Type 0} (writeln : List ℕ → Out → Out × Bool) where
    -- `writeln!(…)?` for each line: the first that fails ends it.
    unfoldable pub write_all : List (List ℕ) → Out → Out × Bool
    write_all [] out = (out, true)
    write_all (line ∷ lines) out =
        let (out', written) = writeln line out in
        let rest = write_all lines out' in if written then rest else (out', false)

    -- `summary`: the output, and whether it returns `Ok`.
    unfoldable pub summary : StatsTotals F.T → Out → Out × Bool
    unfolding write_all summary_lines
    summary t out = write_all (summary_lines t) out

    -- The whole of `StatsRunner::run`.
    unfoldable pub run_and_print : List StatsInterval → StatsRunner F.T → Out → Result (Out × Bool)
    unfolding summary
    run_and_print reports r out = do r' ← run F reports r; ok (summary r'.totals out)
