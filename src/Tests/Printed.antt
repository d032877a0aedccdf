-- ===== src/Tests/Printed.antt =====
-- The lines that the runner of the statistics prints, at concrete inputs: bin/src/stats.rs.
use nailgun.Prelude.{
  ℕ, zero, suc, ◌<◌, ◌≡◌, refl, ◌⊎◌, Bool, true, false, List, [], ◌∷◌, ◌++◌, some, arith, length,
  take, get_elem?, ok, codes,
}
use nailgun.Stats.Interval.{StatsInterval, no_latency}
use nailgun.Stats.Totals.{StatsTotals}
use nailgun.Stats.Totals
use nailgun.Stats.Runner.{runner}
use nailgun.Stats.Printed.{Texts, ms, summary_lines, summary, run_and_print}
use nailgun.Stats.Printed.Written.{Lawful, summary_written}
use nailgun.Stats.Printed.Run.{run_prints_sums, run_prints_largest}
use nailgun.Tests.Stats.{whole, one_report}

abbrev pub texts : Texts ℕ
texts = record {
  show_int = λ n. n ∷ [];
  show_float = λ n. n ∷ [];
  as_secs = λ n. n;
  show_rcode = λ n. n ∷ [];
  walk = λ m. m;
}

-- An output with room for some lines.
abbrev pub Paper : Type 0
Paper = List (List ℕ) × ℕ

abbrev pub print_on : List ℕ → Paper → Paper × Bool
print_on line (lines, zero) = ((lines, 0), false)
print_on line (lines, suc n) = ((lines ++ (line ∷ []), n), true)

abbrev on_paper : Paper → List (List ℕ)
on_paper (lines, _) = lines

print_on-added :
    (line : List ℕ) (out : Paper)
    → (print_on line out).1 ≡ true
    → on_paper (print_on line out).0 ≡ on_paper out ++ (line ∷ [])
print_on-added line (lines, zero) h = absurd (ground arith)
print_on-added line (lines, suc n) h = refl

print_on-kept :
    (line : List ℕ) (out : Paper)
    → (print_on line out).1 ≡ false
    → on_paper (print_on line out).0 ≡ on_paper out
print_on-kept line (lines, zero) h = refl
print_on-kept line (lines, suc n) h = absurd (ground arith)

print_on-Lawful : Lawful print_on on_paper
print_on-Lawful = record { written = print_on-added; refused = print_on-kept }

abbrev pub three_lines : Paper
three_lines = ([], 3)

abbrev nothing_yet : StatsTotals ℕ
nothing_yet = Totals.default whole

summary_written_example :
    let (out, written) = summary whole texts print_on nothing_yet three_lines in
    ((written ≡ true)
      × (on_paper out ≡ on_paper three_lines ++ summary_lines whole texts nothing_yet))
    ⊎ ((k : ℕ) × (k < length (summary_lines whole texts nothing_yet))
        × (written ≡ false)
        × (on_paper out ≡ on_paper three_lines ++ take k (summary_lines whole texts nothing_yet)))
summary_written_example =
    summary_written whole texts print_on on_paper print_on-Lawful nothing_yet three_lines

abbrev two_rounds : List StatsInterval
two_rounds = one_report 3 ∷ one_report 4 ∷ one_report 5 ∷ one_report 6 ∷ []

run_prints_sums_example :
    (t : StatsTotals ℕ) × (run_and_print whole texts print_on two_rounds
        (runner whole 2)
        three_lines
      ≡ ok (summary whole texts print_on t three_lines))
    × (get_elem? (summary_lines whole texts t) 2 ≡ some (codes "total sent     " ++ (18 ∷ [])))
    × (get_elem? (summary_lines whole texts t) 3 ≡ some (codes "total rcvd     " ++ (18 ∷ [])))
run_prints_sums_example =
    run_prints_sums whole texts print_on 1_000 2 two_rounds three_lines (omega arith) (omega arith)
      (omega arith) (omega arith) (omega arith) refl

-- Queries, none of which is answered.
abbrev unanswered : StatsInterval
unanswered = record (one_report 0) {
  sent = 7;
  timeouts = 7;
  min_latency = no_latency;
  max_latency = 0;
  buf_size = 210;
  rcodes = [];
}

run_prints_largest_example :
    (t : StatsTotals ℕ) × (run_and_print whole texts print_on
        (unanswered ∷ unanswered ∷ [])
        (runner whole 1)
        three_lines
      ≡ ok (summary whole texts print_on t three_lines))
    × (get_elem? (summary_lines whole texts t) 4
        ≡ some (codes "min latency    " ++ ms (1_000_000 ∷ [])))
run_prints_largest_example =
    run_prints_largest whole texts print_on 1_000 1 (unanswered ∷ unanswered ∷ []) three_lines
      (omega arith) (omega arith) (omega arith) (omega arith) (omega arith) refl (refl, (refl, tt))
