-- ===== src/Stats/Conservation.antt =====
-- bin/src/stats.rs: no count is lost between the reports of the generators and the totals.
use native.Mathlib.Nat.{mod-eq_of_lt, mod_self, mod-add-mod, add-zero, zero-add}
use nailgun.Prelude.{
  ℕ, suc, ◌+◌, ◌%◌, ◌<◌, ◌≡◌, refl, sym, ◌∙◌, ◌≢◌, ◌⊎◌, inl, inr, List, [], ◌∷◌, arith, ◌==◌,
  Bool-cases, length, ok, >>=-eq-ok, u32_mod, u64_mod, add64,
}
use nailgun.Prelude.Assoc.{entry_add, sum_at, sum_at-entry_add}
use nailgun.Stats.Interval.{StatsInterval, add_rcodes, aggregate, log}
use nailgun.Stats.Totals.{Float32, StatsTotals, update}
use nailgun.Stats.Runner.{StatsRunner, gather, gather_all, run, runner}

-- The counts that both a report and the totals have; the last is of the responses with a code.
pub data Counter : Type 0 where
  sent recv ok_recv timeouts in_flight : Counter
  responses : ℕ → Counter

abbrev pub reported : Counter → StatsInterval → ℕ
reported sent i = i.sent
reported recv i = i.recv
reported ok_recv i = i.ok_recv
reported timeouts i = i.timeouts
reported in_flight i = i.in_flight
reported (responses code) i = sum_at code i.rcodes

abbrev pub totalled : {T : Type 0} → Counter → StatsTotals T → ℕ
totalled sent t = t.sent
totalled recv t = t.recv
totalled ok_recv t = t.ok_recv
totalled timeouts t = t.timeouts
totalled in_flight t = t.in_flight
totalled (responses code) t = sum_at code t.rcodes

-- The sum of a count over reports.
abbrev pub sum_reported : Counter → List StatsInterval → ℕ
sum_reported c [] = 0
sum_reported c (i ∷ is) = reported c i + sum_reported c is

pub sum_at-add_rcodes :
    (j : ℕ) (m other : List (ℕ × ℕ))
    → sum_at j (add_rcodes m other) % u64_mod ≡ (sum_at j m + sum_at j other) % u64_mod
unfolding add_rcodes
sum_at-add_rcodes j m [] = omega arith
sum_at-add_rcodes j m ((k, n) ∷ other) =
    omega (arith, sum_at-add_rcodes j (entry_add k n m) other, sum_at-entry_add k j n m)

-- The sum of two intervals adds up every count, modulo 2 ^ 64.
aggregate-reported :
    (c : Counter) (s i : StatsInterval) {s' : StatsInterval}
    → aggregate s i ≡ ok s'
    → reported c s' % u64_mod ≡ (reported c s + reported c i) % u64_mod
unfolding aggregate
aggregate-reported sent s i h = ground arith
aggregate-reported recv s i h = ground arith
aggregate-reported ok_recv s i h = ground arith
aggregate-reported timeouts s i h = ground arith
aggregate-reported in_flight s i h = ground arith
aggregate-reported (responses code) s i h = ground (arith, sum_at-add_rcodes code s.rcodes i.rcodes)

module _ (F : Float32) where
  -- What `update` does to the sums of the totals.
  pub update_fields :
      (i : StatsInterval) (t : StatsTotals F.T) {t' : StatsTotals F.T}
      → update F i t ≡ ok t'
      → (t'.sent ≡ add64 t.sent i.sent)
        × (t'.recv ≡ add64 t.recv i.recv)
        × (t'.ok_recv ≡ add64 t.ok_recv i.ok_recv)
        × (t'.timeouts ≡ add64 t.timeouts i.timeouts)
        × (t'.in_flight ≡ add64 t.in_flight i.in_flight)
        × (t'.rcodes ≡ add_rcodes t.rcodes i.rcodes)
  unfolding update
  update_fields i t h = ground arith

  update-totalled :
      (c : Counter) (i : StatsInterval) (t : StatsTotals F.T) {t' : StatsTotals F.T}
      → update F i t ≡ ok t'
      → totalled c t' % u64_mod ≡ (totalled c t + reported c i) % u64_mod
  update-totalled sent i t h = omega (arith, update_fields i t h)
  update-totalled recv i t h = omega (arith, update_fields i t h)
  update-totalled ok_recv i t h = omega (arith, update_fields i t h)
  update-totalled timeouts i t h = omega (arith, update_fields i t h)
  update-totalled in_flight i t h = omega (arith, update_fields i t h)
  update-totalled (responses code) i t h =
      ground (arith, update_fields i t h, sum_at-add_rcodes code t.rcodes i.rcodes)

  -- All that has been reported under a counter and is not yet lost.
  abbrev pub held : Counter → ℕ × StatsRunner F.T → ℕ
  held c s = totalled c s.1.totals + reported c s.1.summary

  log-reported :
      (c : Counter) (s : StatsInterval)
      → (reported c (log s).0 ≡ reported c s) × (reported c (log s).1 ≡ 0)
  unfolding log
  log-reported sent s = (refl, refl)
  log-reported recv s = (refl, refl)
  log-reported ok_recv s = (refl, refl)
  log-reported timeouts s = (refl, refl)
  log-reported in_flight s = (refl, refl)
  log-reported (responses code) s = (refl, refl)

  -- The two branches of a turn of the loop.
  pub gather_cases :
      (i : StatsInterval) (s : ℕ × StatsRunner F.T) {s' : ℕ × StatsRunner F.T}
      → gather F i s ≡ ok s'
      → (summary : StatsInterval) × (aggregate s.1.summary i ≡ ok summary)
        × (((t : StatsTotals F.T) × ((s.0 + 1) % u32_mod ≡ s.1.len)
              × (update F (log summary).0 s.1.totals ≡ ok t)
              × (s' ≡ (0, record { len = s.1.len; summary = (log summary).1; totals = t })))
            ⊎ (((s.0 + 1) % u32_mod ≢ s.1.len)
                × (s' ≡ ((s.0 + 1) % u32_mod, record s.1 { summary = summary }))))
  unfolding gather
  gather_cases i s h =
      let (summary, e, rest) = >>=-eq-ok (aggregate s.1.summary i) _ h in
      elim (Bool-cases ((s.0 + 1) % u32_mod == s.1.len)) [
        | inl full ↦
            let (t, e', same) =
              >>=-eq-ok (update F (log summary).0 s.1.totals) _ (rw full at rest) in
            (summary, e, inl (t, ground arith, e', ground arith))
        | inr short ↦ (summary, e, inr (ground arith, ground arith))
      ]

  -- What holds before each turn: fewer reports are gathered than there are generators, and none of
  -- their counts where none is gathered.
  abbrev pub Gathering : ℕ → Counter → ℕ × StatsRunner F.T → Type 0
  Gathering len c s = (s.1.len ≡ len) × (s.0 < len) × (s.0 ≡ 0 → reported c s.1.summary ≡ 0)

  pub gather-held :
      (len : ℕ) (c : Counter) (i : StatsInterval) (s : ℕ × StatsRunner F.T)
      {s' : ℕ × StatsRunner F.T}
      → len < u32_mod
      → Gathering len c s
      → gather F i s ≡ ok s'
      → (held c s' % u64_mod ≡ (held c s + reported c i) % u64_mod)
        × (s'.0 ≡ (s.0 + 1) % len)
        × Gathering len c s'
  gather-held len c i s fits (l, g, z) h =
      let (summary, e, turn) = gather_cases i s h in
      let added = aggregate-reported c s.1.summary i e in
      let (logged, left) = log-reported c summary in
      let next : (s.0 + 1) % u32_mod ≡ s.0 + 1 = omega arith in
      elim turn [
        | inl (t, full, e', same) ↦
            let moved = update-totalled c (log summary).0 s.1.totals e' in
            let wraps : (s.0 + 1) % len ≡ 0 = ground (arith, mod_self len) in
            rw same (omega arith, sym wraps, (l, omega arith, λ _. left))
        | inr (short, same) ↦
            let under : s.0 + 1 < len = omega arith in
            rw (same, next)
              (omega arith, sym (mod-eq_of_lt under), (l, under, λ w. absurd (omega arith)))
      ]

  gather_all-held :
      (len : ℕ) (c : Counter) (is : List StatsInterval) (s : ℕ × StatsRunner F.T)
      {s' : ℕ × StatsRunner F.T}
      → len < u32_mod
      → Gathering len c s
      → gather_all F is s ≡ ok s'
      → (held c s' % u64_mod ≡ (held c s + sum_reported c is) % u64_mod)
        × (s'.0 ≡ (s.0 + length is) % len)
        × Gathering len c s'
  unfolding gather_all
  gather_all-held len c [] s {s'} fits (l, g, z) h =
      let same : s ≡ s' = cc in
      rw (← same) (omega arith, sym (rw add-zero (mod-eq_of_lt g)), (l, g, z))
  gather_all-held len c (i ∷ is) s fits g h =
      let (s₁, e, rest) = >>=-eq-ok (gather F i s) _ h in
      let (h₁, n₁, g₁) = gather-held len c i s fits g e in
      let (h₂, n₂, g₂) = gather_all-held len c is s₁ fits g₁ rest in
      let turns : s.0 + 1 + length is ≡ s.0 + suc (length is) = omega arith in
      (omega arith, rw (n₂, n₁, mod-add-mod, turns) refl, g₂)

  -- A new runner holds no count.
  pub runner-empty :
      (len : ℕ) (c : Counter)
      → (totalled c (runner F len).totals ≡ 0) × (reported c (runner F len).summary ≡ 0)
  unfolding runner
  runner-empty len sent = (refl, refl)
  runner-empty len recv = (refl, refl)
  runner-empty len ok_recv = (refl, refl)
  runner-empty len timeouts = (refl, refl)
  runner-empty len in_flight = (refl, refl)
  runner-empty len (responses code) = (refl, refl)

  -- The totals of a run that returns, with what an unfinished round leaves in the summary.
  pub run-totalled :
      (len : ℕ) (c : Counter) (is : List StatsInterval) {r : StatsRunner F.T}
      → 0 < len
      → len < u32_mod
      → run F is (runner F len) ≡ ok r
      → ((totalled c r.totals + reported c r.summary) % u64_mod ≡ sum_reported c is % u64_mod)
        × ((length is % len ≢ 0) ⊎ (reported c r.summary ≡ 0))
  unfolding run runner
  run-totalled len c is {r} pos fits h =
      let start : ℕ × StatsRunner F.T = (0, runner F len) in
      let (s, e, same) = >>=-eq-ok (gather_all F is start) _ h in
      let narrow : len % u32_mod ≡ len = mod-eq_of_lt fits in
      let (none_yet, none_left) = runner-empty len c in
      let (total, turns, after) =
        gather_all-held len c is start fits (narrow, pos, λ _. none_left) e in
      let result : s.1 ≡ r = cc in
      rw (← result) (
        omega arith,
        elim (Bool-cases (length is % len == 0)) [
          | inl whole ↦ inr (after.2 (turns ∙ rw zero-add (ground arith)))
          | inr part ↦ inl (ground arith)
        ],
      )
