-- ===== src/Stats/Printed/Written.antt =====
-- bin/src/stats.rs, `StatsTotals::summary`: what stands on standard output after it, also when a line
-- cannot be written.
use nailgun.Prelude.{
  ℕ, suc, ◌<◌, ◌≡◌, refl, ◌∙◌, ◌⊎◌, inl, inr, Bool, true, false, List, [], ◌∷◌, ◌++◌, append-nil,
  append_assoc, arith, Bool-cases, length, take,
}
use nailgun.Stats.Totals.{Float32, StatsTotals}
use nailgun.Stats.Printed.{Texts, summary_lines, write_all, summary}

-- Standard output as the complete lines that stand on it: a call that succeeds adds its line, and one
-- that fails adds none.
pub record Lawful {Out : Type 0} (writeln : List ℕ → Out → Out × Bool) (wrote : Out → List (List ℕ))
    : Type 0 where
  pub written :
      (line : List ℕ) (out : Out)
      → (writeln line out).1 ≡ true
      → wrote (writeln line out).0 ≡ wrote out ++ (line ∷ [])
  pub refused :
      (line : List ℕ) (out : Out)
      → (writeln line out).1 ≡ false
      → wrote (writeln line out).0 ≡ wrote out

module _ (F : Float32) (x : Texts F.T) {Out : Type 0} (writeln : List ℕ → Out → Out × Bool)
    (wrote : Out → List (List ℕ)) (law : Lawful writeln wrote) where
  -- Either all lines, or fewer.
  abbrev Outcome : List (List ℕ) → Out → Out × Bool → Type 0
  Outcome lines out r =
      ((r.1 ≡ true) × (wrote r.0 ≡ wrote out ++ lines))
      ⊎ ((k : ℕ) × (k < length lines) × (r.1 ≡ false) × (wrote r.0 ≡ wrote out ++ take k lines))

  write_all-Outcome :
      (lines : List (List ℕ)) (out : Out) → Outcome lines out (write_all F x writeln lines out)
  unfolding write_all
  write_all-Outcome [] out = inl (refl, rw append-nil refl)
  write_all-Outcome (line ∷ lines) out = elim (Bool-cases (writeln line out).1) [
    | inl good ↦ rw good (
        let one = law.written line out good in
        elim (write_all-Outcome lines (writeln line out).0) [
          | inl (whole, e) ↦ inl (whole, e ∙ rw (one, append_assoc) refl)
          | inr (k, less, failed, e) ↦
              inr (suc k, omega arith, failed, e ∙ rw (one, append_assoc) refl)
        ])
    | inr bad ↦ rw bad (inr (0, omega arith, refl, law.refused line out bad ∙ rw append-nil refl))
  ]

  -- Where a call of `writeln!` adds its line or fails and adds none: the summary returns `Ok` with all
  -- of its lines added to the output in their order, or it fails, and a proper part of them, from the
  -- first on, has been added and none after the one that failed.
  pub summary_written :
      (t : StatsTotals F.T) (out : Out)
      → (((summary F x writeln t out).1 ≡ true)
          × (wrote (summary F x writeln t out).0 ≡ wrote out ++ summary_lines F x t))
        ⊎ ((k : ℕ) × (k < length (summary_lines F x t))
            × ((summary F x writeln t out).1 ≡ false)
            × (wrote (summary F x writeln t out).0 ≡ wrote out ++ take k (summary_lines F x t)))
  unfolding summary
  summary_written t out = write_all-Outcome (summary_lines F x t) out
