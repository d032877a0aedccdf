-- ===== src/Main/Select.antt =====
-- bin/src/main.rs: what ends the run. `main` waits for the runner, the signal or the limit on the time,
-- whichever comes first; the runner waits for its generators, one after the other.
use nailgun.Prelude.{
  ℕ, ◌*◌, ◌≤◌, ◌<◌, ◌≡◌, refl, ap, ◌↔◌, ◌⊎◌, inl, inr, Bool, true, false, ◌&&◌, not, List, [], ◌∷◌,
  ◌++◌, leb, ◌==◌, arith, nanos_per_sec, sym, ◌∙◌, Bool-cases,
}
use nailgun.Gen.Life.{Life}
use nailgun.Main.{is_looping, AllOver}

-- The task of a generator: it runs, it has returned, whether `run` failed, which is only logged, or
-- not; or it has panicked.
pub data Handle : Type 0 where
  running returned panicked : Handle

-- Whether `Runner::run` still waits, has returned `Ok`, or an error.
pub data RunEnd : Type 0 where
  pending complete failed : RunEnd

-- `for handle in handles { handle.await? }`, from how the tasks stand: a task that is over stays so.
unfoldable pub join_all : List Handle → RunEnd
join_all [] = complete
join_all (running ∷ hs) = pending
join_all (returned ∷ hs) = join_all hs
join_all (panicked ∷ hs) = failed

-- The arguments may have no configuration: then nothing is spawned.
unfoldable pub run_end : Bool → List Handle → RunEnd
unfolding join_all
run_end true hs = join_all hs
run_end false hs = failed

abbrev pub is_over : RunEnd → Bool
is_over pending = false
is_over _ = true

-- What `select!` sees: whether there is a configuration, the handles, whether `ctrl_c` has returned,
-- with an error or not, the time that has passed, and the limit on it.
pub record Moment : Type 0 where
  pub is_configured : Bool
  pub handles : List Handle
  pub caught : Bool
  pub elapsed : ℕ
  pub limit_secs : ℕ

-- The branches of `select!`.
pub data Cause : Type 0 where
  run_over signal_caught limit_reached : Cause

-- Whether a branch is ready; of several that are, any one may be taken.
unfoldable pub is_ready : Cause → Moment → Bool
unfolding run_end
is_ready run_over m = is_over (run_end m.is_configured m.handles)
is_ready signal_caught m = m.caught
is_ready limit_reached m = not (m.limit_secs == 0) && leb (m.limit_secs * nanos_per_sec) m.elapsed

-- A task runs as long as the loop of its generator.
abbrev is_running : Handle → Bool
is_running running = true
is_running _ = false

abbrev pub AreHandles : {G Addr : Type 0} → List (Life G Addr) → List Handle → Type 0
AreHandles [] [] = Unit {0}
AreHandles (l ∷ ls) (h ∷ hs) = (is_running h ≡ is_looping l.stage) × AreHandles ls hs
AreHandles _ _ = ⊥

abbrev pub AllReturned : List Handle → Type 0
AllReturned [] = Unit {0}
AllReturned (h ∷ hs) = (h ≡ returned) × AllReturned hs

-- Some task has panicked, and all before it have returned.
abbrev pub HasFirstPanic : List Handle → Type 0
HasFirstPanic hs =
    (before after : List Handle) × (hs ≡ before ++ panicked ∷ after) × AllReturned before

module _ {G Addr : Type 0} where
  join_all-over :
      (ls : List (Life G Addr)) (hs : List Handle)
      → AreHandles ls hs
      → is_over (join_all hs) ≡ true
      → AllOver ls ⊎ HasFirstPanic hs
  unfolding join_all
  join_all-over [] [] same over = inl tt
  join_all-over [] (_ ∷ hs) same over = elim same [ ]
  join_all-over (l ∷ ls) [] same over = elim same [ ]
  join_all-over (l ∷ ls) (running ∷ hs) same over = absurd (ground arith)
  join_all-over (l ∷ ls) (panicked ∷ hs) same over = inr ([], hs, refl, tt)
  join_all-over (l ∷ ls) (returned ∷ hs) (one, same) over = elim (join_all-over ls hs same over) [
    | inl all ↦ inl (ground arith, all)
    | inr (before, after, split, all) ↦
        inr (returned ∷ before, after, ap (λ xs. returned ∷ xs) split, (refl, all))
  ]

  AllOver-join_all :
      (ls : List (Life G Addr)) (hs : List Handle)
      → AreHandles ls hs
      → AllOver ls
      → is_over (join_all hs) ≡ true
  unfolding join_all
  AllOver-join_all [] [] same over = refl
  AllOver-join_all [] (_ ∷ hs) same over = elim same [ ]
  AllOver-join_all (l ∷ ls) [] same over = elim same [ ]
  AllOver-join_all (l ∷ ls) (running ∷ hs) (one, same) (done, over) = absurd (ground arith)
  AllOver-join_all (l ∷ ls) (panicked ∷ hs) same over = refl
  AllOver-join_all (l ∷ ls) (returned ∷ hs) (one, same) (done, over) =
      AllOver-join_all ls hs same over

join_all-panic :
    (before after : List Handle)
    → AllReturned before
    → join_all (before ++ panicked ∷ after) ≡ failed
unfolding join_all
join_all-panic [] after all = refl
join_all-panic (h ∷ before) after (one, all) = rw one (join_all-panic before after all)

-- The tasks go on: one that is over stays as it is.
abbrev GoOn : List Handle → List Handle → Type 0
GoOn [] [] = Unit {0}
GoOn (running ∷ hs) (h' ∷ hs') = GoOn hs hs'
GoOn (h ∷ hs) (h' ∷ hs') = (h' ≡ h) × GoOn hs hs'
GoOn _ _ = ⊥

-- The wait for the tasks, one after the other, may be read off how they stand at one time: once it is
-- over, its result stays.
join_all-stays :
    (hs hs' : List Handle) → GoOn hs hs' → is_over (join_all hs) ≡ true → join_all hs' ≡ join_all hs
unfolding join_all
join_all-stays [] [] on over = refl
join_all-stays [] (h' ∷ hs') on over = elim on [ ]
join_all-stays (running ∷ hs) [] on over = elim on [ ]
join_all-stays (returned ∷ hs) [] on over = elim on [ ]
join_all-stays (panicked ∷ hs) [] on over = elim on [ ]
join_all-stays (running ∷ hs) (h' ∷ hs') on over = absurd (ground arith)
join_all-stays (returned ∷ hs) (h' ∷ hs') (one, on) over = rw one (join_all-stays hs hs' on over)
join_all-stays (panicked ∷ hs) (h' ∷ hs') (one, on) over = rw one refl

module _ {G Addr : Type 0} (m : Moment) (ls : List (Life G Addr)) where
  abbrev Begins : Type 0
  Begins =
      (m.is_configured ≡ false)
      ⊎ (AllOver ls
          ⊎ (HasFirstPanic m.handles
              ⊎ ((m.caught ≡ true)
                  ⊎ ((0 < m.limit_secs) × (m.limit_secs * nanos_per_sec ≤ m.elapsed)))))

  run_end-Begins :
      AreHandles ls m.handles → is_over (run_end m.is_configured m.handles) ≡ true → Begins
  unfolding run_end
  run_end-Begins same over = elim (Bool-cases m.is_configured) [
    | inr none ↦ inl none
    | inl there ↦
        elim (join_all-over ls m.handles same
          (ap (λ b. is_over (run_end b m.handles)) (sym there) ∙ over)) [
            | inl all ↦ inr (inl all)
            | inr panic ↦ inr (inr (inl panic))
          ]
  ]

  is_ready-Begins : (c : Cause) → AreHandles ls m.handles → is_ready c m ≡ true → Begins
  unfolding is_ready
  is_ready-Begins run_over same h = run_end-Begins same h
  is_ready-Begins signal_caught same h = inr (inr (inr (inl h)))
  is_ready-Begins limit_reached same h = inr (inr (inr (inr (ground arith, ground arith))))

  run_is_ready :
      (m.is_configured ≡ true → is_over (join_all m.handles) ≡ true) → is_ready run_over m ≡ true
  unfolding is_ready run_end
  run_is_ready h = elim (Bool-cases m.is_configured) [
    | inr none ↦ rw none refl
    | inl there ↦ rw there (h there)
  ]

  Begins-is_ready : AreHandles ls m.handles → Begins → (c : Cause) × (is_ready c m ≡ true)
  unfolding is_ready
  Begins-is_ready same (inl none) = (run_over, run_is_ready (λ there. absurd (ground arith)))
  Begins-is_ready same (inr (inl all)) =
      (run_over, run_is_ready (λ there. AllOver-join_all ls m.handles same all))
  Begins-is_ready same (inr (inr (inl (before, after, split, all)))) = (
    run_over,
    run_is_ready (λ there. ap is_over (ap join_all split ∙ join_all-panic before after all)),
  )
  Begins-is_ready same (inr (inr (inr (inl h)))) = (signal_caught, h)
  Begins-is_ready same (inr (inr (inr (inr (pos, passed))))) = (limit_reached, ground arith)

  -- What begins the shutdown, where the handles stand as the generators do: a branch of `select!` is
  -- ready exactly if there is no configuration, the loops of all generators are over, a generator has
  -- panicked and all before it have returned, the signal has come, or there is a limit on the time and
  -- it has passed.
  pub is_ready_iff :
      AreHandles ls m.handles
      → ((c : Cause) × (is_ready c m ≡ true)) ↔ (
          (m.is_configured ≡ false)
          ⊎ (AllOver ls
              ⊎ (HasFirstPanic m.handles
                  ⊎ ((m.caught ≡ true)
                      ⊎ ((0 < m.limit_secs) × (m.limit_secs * nanos_per_sec ≤ m.elapsed))))))
  is_ready_iff same = ((λ (c, h). is_ready-Begins c same h), Begins-is_ready same)
