-- ===== src/Main/Accounts.antt =====
-- bin/src/main.rs, bin/src/gen.rs and bin/src/stats.rs: no count is lost between the generators and
-- the totals, in any interleaving.
use native.Mathlib.Nat.{mod-eq_of_lt}
use nailgun.Prelude.{
  ℕ, ◌+◌, ◌%◌, ◌<◌, ◌≡◌, refl, ◌∙◌, ap, List, [], ◌∷◌, ◌++◌, arith, map, length, u32_mod, u64_mod,
}
use nailgun.Sender.{QueryGen, MsgSend}
use nailgun.Stats.Interval.{StatsInterval}
use nailgun.Stats.Totals.{Float32}
use nailgun.Stats.Conservation.{Counter, sum_reported, held, Gathering, gather-held, runner-empty}
use nailgun.Stats.Runner.{runner}
use nailgun.Gen.{start}
use nailgun.Gen.Life.{Life}
use nailgun.Main.{
  Program, Spawn, spawn, launched, launch-launched, told, Step, moves, moves_unheard, panics,
  gathers, drops, exits, Reach, started, later,
}

-- A sum over the generators.
abbrev pub over_all : {G Addr : Type 0} → (Life G Addr → ℕ) → List (Life G Addr) → ℕ
over_all f [] = 0
over_all f (l ∷ ls) = f l + over_all f ls

abbrev pub reported_by : {G Addr : Type 0} → Counter → Life G Addr → ℕ
reported_by c l = sum_reported c l.gen.reports

sum_reported-append :
    (c : Counter) (is js : List StatsInterval)
    → sum_reported c (is ++ js) ≡ sum_reported c is + sum_reported c js
sum_reported-append c [] js = omega arith
sum_reported-append c (i ∷ is) js = omega (arith, sum_reported-append c is js)

module _ {G Addr : Type 0} where
  over_all-split :
      (f : Life G Addr → ℕ) (before after : List (Life G Addr)) (l l' : Life G Addr)
      → over_all f (before ++ l ∷ after) + f l' ≡ over_all f (before ++ l' ∷ after) + f l
  over_all-split f [] after l l' = omega arith
  over_all-split f (b ∷ before) after l l' = omega (arith, over_all-split f before after l l')

  over_all-told :
      (c : Counter) (ls : List (Life G Addr))
      → over_all (reported_by c) (map told ls) ≡ over_all (reported_by c) ls
  over_all-told c [] = refl
  over_all-told c (l ∷ ls) = omega (arith, over_all-told c ls)

over_all-spawn :
    (Addr : Type 0) {G : Type 0} (c : Counter) (ps : List (Spawn G))
    → over_all {Addr = Addr} (reported_by c) (map spawn ps) ≡ 0
unfolding start
over_all-spawn Addr c [] = refl
over_all-spawn Addr c (p ∷ ps) = omega (arith, over_all-spawn Addr c ps)

module _ {G Addr : Type 0} (F : Float32) where
  -- What the statistics and the channel hold under a counter is what the generators have reported.
  abbrev pub IsReported : ℕ → Counter → Program F.T G Addr → Type 0
  IsReported len c s =
      Gathering F len c s.gathered
      × ((held F c s.gathered + sum_reported c s.channel + sum_reported c s.unheard) % u64_mod
          ≡ over_all (reported_by c) s.lives % u64_mod)

launched-IsReported :
    (Addr : Type 0) {G : Type 0} (F : Float32) (c : Counter) (ps : List (Spawn G))
    → 0 < length ps
    → length ps < u32_mod
    → IsReported {Addr = Addr} F (length ps) c (launched F ps)
unfolding launched
launched-IsReported Addr F c ps pos fits =
    let (none_yet, none_left) = runner-empty F (length ps) c in
    (
      (unfold runner in mod-eq_of_lt fits, pos, λ _. none_left),
      omega (arith, none_yet, none_left, over_all-spawn Addr c ps),
    )

module _ {G Addr : Type 0} (F : Float32) (q : QueryGen G) (how : MsgSend Addr) (timeout : ℕ) where
  Step-IsReported :
      (len : ℕ) (c : Counter) (n : ℕ) (s s' : Program F.T G Addr)
      → len < u32_mod
      → Step F q how timeout s n s'
      → IsReported F len c s
      → IsReported F len c s'
  Step-IsReported len c n s s' fits
        (moves before after l l' m reports x heard split done sent u same) (g, e) =
      let grown : reported_by c l' ≡ reported_by c l + sum_reported c reports =
        ap (sum_reported c) sent ∙ sum_reported-append c l.gen.reports reports in
      let old = ap (over_all (reported_by c)) split in
      let new = over_all-split (reported_by c) before after l l' in
      let queue = sum_reported-append c s.channel reports in rw same (g, omega arith)
  Step-IsReported len c n s s' fits
        (moves_unheard before after l l' m reports x silence split done sent u same) (g, e) =
      let grown : reported_by c l' ≡ reported_by c l + sum_reported c reports =
        ap (sum_reported c) sent ∙ sum_reported-append c l.gen.reports reports in
      let old = ap (over_all (reported_by c)) split in
      let new = over_all-split (reported_by c) before after l l' in
      let queue = sum_reported-append c s.unheard reports in rw same (g, omega arith)
  Step-IsReported len c n s s' fits (panics i rest f x heard head done u same) (g, e) =
      let queue = ap (sum_reported c) head in
      let more = sum_reported-append c s.unheard (i ∷ rest) in rw same (g, omega arith)
  Step-IsReported len c n s s' fits (gathers i rest r x heard head done u same) (g, e) =
      let (moved, turns, g') = gather-held F len c i s.gathered fits g done in
      let queue = ap (sum_reported c) head in rw same (g', omega arith)
  Step-IsReported len c n s s' fits (drops x u same) (g, e) =
      rw same (g, omega (arith, over_all-told c s.lives))
  Step-IsReported len c n s s' fits (exits x d over u same) (g, e) = rw same (g, e)

  pub Reach-accounts :
      (c : Counter) (ps : List (Spawn G)) (n : ℕ) (s : Program F.T G Addr)
      → 0 < length ps
      → length ps < u32_mod
      → Reach F q how timeout ps n s
      → IsReported F (length ps) c s
  Reach-accounts c ps n s pos fits (started _ _ u same) =
      rw (launch-launched F ps s same).0 (launched-IsReported Addr F c ps pos fits)
  Reach-accounts c ps n s pos fits (later _ j k _ v r step u) =
      Step-IsReported (length ps) c k v s fits step (Reach-accounts c ps j v pos fits r)

  -- In every state that the program reaches, whatever is answered: each count of the totals, with
  -- that of the summary, those of the reports still in the channel and those of the reports that
  -- nobody takes once the statistics have panicked, is the sum of the counts of all reports of all
  -- generators, modulo 2 ^ 64.
  pub Reach-IsReported :
      (c : Counter) (ps : List (Spawn G)) (n : ℕ) (s : Program F.T G Addr)
      → 0 < length ps
      → length ps < u32_mod
      → Reach F q how timeout ps n s
      → (held F c s.gathered + sum_reported c s.channel + sum_reported c s.unheard) % u64_mod
        ≡ over_all (reported_by c) s.lives % u64_mod
  Reach-IsReported c ps n s pos fits r = (Reach-accounts c ps n s pos fits r).1
