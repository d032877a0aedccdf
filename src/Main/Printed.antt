-- ===== src/Main/Printed.antt =====
-- bin/src/main.rs and bin/src/stats.rs: the end of the statistics, and what the program prints then.
use nailgun.Prelude.{
  ℕ, ◌+◌, ◌%◌, ◌<◌, ◌≡◌, refl, ap, inl, inr, Bool, true, false, ◌&&◌, not, Option, none, some, List,
  [], ◌∷◌, ◌++◌, arith, if◌then◌else◌, length, get_elem?, u32_mod, u64_mod, codes, Bool-cases,
}
use nailgun.Sender.{QueryGen, MsgSend}
use nailgun.Stats.Interval.{StatsInterval}
use nailgun.Stats.Totals.{Float32}
use nailgun.Stats.Conservation.{Counter, sum_reported}
use nailgun.Stats.Printed.{Texts, summary, summary_lines}
use nailgun.Stats.Printed.Run.{Fits, gather-Fits, runner-start}
use nailgun.Gen.Life.{Life}
use nailgun.Main.{
  Program, Spawn, is_looping, launched, launch-launched, Step, moves, moves_unheard, panics,
  gathers, drops, exits, Reach, started, later,
}
use nailgun.Main.Accounts.{over_all, reported_by, Reach-accounts}

abbrev pub all_over : {G Addr : Type 0} → List (Life G Addr) → Bool
all_over [] = true
all_over (l ∷ ls) = not (is_looping l.stage) && all_over ls

abbrev pub is_empty : List StatsInterval → Bool
is_empty [] = true
is_empty _ = false

is_empty-true : (is : List StatsInterval) → is_empty is ≡ true → is ≡ []
is_empty-true [] h = refl
is_empty-true (i ∷ is) h = absurd (ground arith)

module _ {G Addr : Type 0} (F : Float32) (x : Texts F.T) {Out : Type 0}
    (writeln : List ℕ → Out → Out × Bool) where
  -- `recv` gives `None`, and the summary is printed, when the channel is empty and all its senders are
  -- dropped: that of the run, and those of the generators. Otherwise the loop goes on. A loop that has
  -- panicked prints nothing.
  unfoldable pub end_stats : Program F.T G Addr → Out → Option (Out × Bool)
  end_stats s out =
      if is_empty s.channel && (not s.silent && (s.dropped && all_over s.lives))
      then some (summary F x writeln s.gathered.1.totals out)
      else none

  end_stats-some :
      (s : Program F.T G Addr) (out : Out) {r : Out × Bool}
      → end_stats s out ≡ some r
      → (s.channel ≡ []) × (s.silent ≡ false) × (r ≡ summary F x writeln s.gathered.1.totals out)
  unfolding end_stats
  end_stats-some s out h =
      elim (Bool-cases (is_empty s.channel && (not s.silent && (s.dropped && all_over s.lives)))) [
        | inl over ↦ (is_empty-true s.channel (ground arith), ground arith, ground arith)
        | inr more ↦ absurd (ground arith)
      ]

-- Reports that nobody takes are there only after the panic.
abbrev IsHeard : {T G Addr : Type 0} → Program T G Addr → Type 0
IsHeard s = s.silent ≡ false → s.unheard ≡ []

module _ {G Addr : Type 0} (F : Float32) (q : QueryGen G) (how : MsgSend Addr) (timeout : ℕ) where
  Step-Fits :
      (n : ℕ) (s s' : Program F.T G Addr)
      → Step F q how timeout s n s'
      → Fits F s.gathered
      → Fits F s'.gathered
  Step-Fits n s s' (moves before after l l' m reports y heard split done sent u same) f = rw same f
  Step-Fits n s s' (moves_unheard before after l l' m reports y silence split done sent u same) f =
      rw same f
  Step-Fits n s s' (panics i rest e y heard head done u same) f = rw same f
  Step-Fits n s s' (gathers i rest r y heard head done u same) f =
      rw same (gather-Fits F i s.gathered f done)
  Step-Fits n s s' (drops y u same) f = rw same f
  Step-Fits n s s' (exits y d over u same) f = rw same f

  Step-IsHeard :
      (n : ℕ) (s s' : Program F.T G Addr) → Step F q how timeout s n s' → IsHeard s → IsHeard s'
  Step-IsHeard n s s' (moves before after l l' m reports y heard split done sent u same) f =
      rw same f
  Step-IsHeard n s s' (moves_unheard before after l l' m reports y silence split done sent u same)
        f =
      rw same (λ h. absurd (ground arith))
  Step-IsHeard n s s' (panics i rest e y heard head done u same) f =
      rw same (λ h. absurd (ground arith))
  Step-IsHeard n s s' (gathers i rest r y heard head done u same) f = rw same f
  Step-IsHeard n s s' (drops y u same) f = rw same f
  Step-IsHeard n s s' (exits y d over u same) f = rw same f

  Reach-IsHeard :
      (ps : List (Spawn G)) (n : ℕ) (s : Program F.T G Addr)
      → Reach F q how timeout ps n s
      → IsHeard s
  unfolding launched
  Reach-IsHeard ps n s (started _ _ u same) = rw (launch-launched F ps s same).0 (λ h. refl)
  Reach-IsHeard ps n s (later _ j k _ v r step u) = Step-IsHeard k v s step (Reach-IsHeard ps j v r)

  launched-Fits : (ps : List (Spawn G)) → Fits F (launched {Addr = Addr} F ps).gathered
  unfolding launched
  launched-Fits ps = (runner-start F (length ps)).0

  Reach-Fits :
      (ps : List (Spawn G)) (n : ℕ) (s : Program F.T G Addr)
      → Reach F q how timeout ps n s
      → Fits F s.gathered
  Reach-Fits ps n s (started _ _ u same) = rw (launch-launched F ps s same).0 (launched-Fits ps)
  Reach-Fits ps n s (later _ j k _ v r step u) = Step-Fits k v s step (Reach-Fits ps j v r)

  -- In every state that the program reaches and in which its statistics end: the summary of the totals
  -- is printed. The numbers of its lines for the queries sent and the messages received are, with what
  -- an unfinished round holds, which is not printed, the sums of those that all generators have
  -- reported, modulo 2 ^ 64; where no round is unfinished, nothing is held back.
  pub Reach-end_stats :
      (x : Texts F.T) {Out : Type 0} (writeln : List ℕ → Out → Out × Bool) (out : Out)
      (r : Out × Bool) (ps : List (Spawn G)) (n : ℕ) (s : Program F.T G Addr)
      → 0 < length ps
      → length ps < u32_mod
      → Reach F q how timeout ps n s
      → end_stats F x writeln s out ≡ some r
      → (sent recv : ℕ) × (r ≡ summary F x writeln s.gathered.1.totals out)
        × (get_elem? (summary_lines F x s.gathered.1.totals) 2
            ≡ some (codes "total sent     " ++ x.show_int sent))
        × (get_elem? (summary_lines F x s.gathered.1.totals) 3
            ≡ some (codes "total rcvd     " ++ x.show_int recv))
        × (sent < u64_mod)
        × (recv < u64_mod)
        × ((sent + s.gathered.1.summary.sent) % u64_mod
            ≡ over_all (reported_by Counter.sent) s.lives % u64_mod)
        × ((recv + s.gathered.1.summary.recv) % u64_mod
            ≡ over_all (reported_by Counter.recv) s.lives % u64_mod)
        × (s.gathered.0 ≡ 0 → (s.gathered.1.summary.sent ≡ 0) × (s.gathered.1.summary.recv ≡ 0))
  unfolding summary_lines
  Reach-end_stats x writeln out r ps n s pos fits reached h =
      let (drained, heard, printed) = end_stats-some F x writeln s out h in
      let (narrow, narrow') = Reach-Fits ps n s reached in
      let ((_, _, none_sent), sent) =
        Reach-accounts F q how timeout Counter.sent ps n s pos fits reached in
      let ((_, _, none_recv), recv) =
        Reach-accounts F q how timeout Counter.recv ps n s pos fits reached in
      let none_queued = ap (sum_reported Counter.sent) drained in
      let none_queued' = ap (sum_reported Counter.recv) drained in
      let none_unheard = ap (sum_reported Counter.sent) (Reach-IsHeard ps n s reached heard) in
      let none_unheard' = ap (sum_reported Counter.recv) (Reach-IsHeard ps n s reached heard) in
      let t = s.gathered.1.totals in
      (
        t.sent,
        t.recv,
        printed,
        refl,
        refl,
        narrow,
        narrow',
        omega arith,
        omega arith,
        λ z. (none_sent z, none_recv z),
      )
