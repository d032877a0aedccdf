-- ===== src/Gen/Pace.antt =====
-- bin/src/sender.rs with bin/src/gen.rs: the times at which a generator sends. The limiter of the
-- `governor` crate is a parameter: asked at some time, it says when it is ready. Between the turns
-- of the sender the other tasks have theirs, in any order.
pub mod Window
pub mod Rate
use nailgun.Prelude.{
  ℕ, ◌+◌, ◌≤◌, ◌*◌, ◌≡◌, Bool, Option, none, some, List, [], ◌∷◌, ◌++◌, map, Result, ok, ◌>>=◌, leb,
  ltb, ◌&&◌, if◌then◌else◌, nanos_per_sec,
}
use nailgun.Sender.{Write, all_written, QueryGen, MsgSend}
use nailgun.Gen.{Generator, Turn, sender, sender_turn, turn}

-- `until_ready` at a time: when it returns, and the limiter after that.
pub record Limiter (L : Type 0) : Type 0 where
  pub until_ready : ℕ → L → ℕ × L

-- One send: when the limiter was asked, when it was ready, and when the query was stamped.
pub record Send : Type 0 where
  pub asked : ℕ
  pub ready : ℕ
  pub stamped : ℕ

-- A turn that is not the sender's.
abbrev pub IsOther : {Addr : Type 0} → Turn Addr → Type 0
IsOther (sender now writes) = ⊥
IsOther _ = Unit {0}

-- What happens next in a generator: its sender goes on after some time, and its query is stamped
-- some time after the limiter is ready; or another task has a turn.
pub data Event (Addr : Type 0) : Type 0 where
  goes_on : ℕ → ℕ → Write → Event Addr
  other : (t : Turn Addr) → IsOther t → Event Addr

-- The sender with its limiter and the time of its last step.
pub record Paced (L G Addr : Type 0) : Type 0 where
  pub clock : ℕ
  pub bucket : Option L
  pub gen : Generator G Addr

-- `if let Some(bucket) = &self.bucket { bucket.until_ready().await; }`
unfoldable pub until_ready : {L : Type 0} → Limiter L → ℕ → Option L → ℕ × Option L
until_ready limiter now none = (now, none)
until_ready limiter now (some l) = let (ready, l') = limiter.until_ready now l in (ready, some l')

-- The wait for the limiter, for a sender that has ids left: what is sent and when, the time after it,
-- and the limiter. A sender without ids takes a batch and does not ask.
unfoldable pub permit :
    {L : Type 0} → Limiter L → ℕ → ℕ → Option L → List ℕ → List Send × ℕ × Option L
unfolding until_ready
permit limiter asked delay bucket [] = ([], asked, bucket)
permit limiter asked delay bucket (id ∷ rest) =
    let (ready, bucket') = until_ready limiter asked bucket in
    (record { asked = asked; ready = ready; stamped = ready + delay } ∷ [], ready + delay, bucket')

module _ {L G Addr : Type 0} (limiter : Limiter L) (q : QueryGen G) (how : MsgSend Addr)
    (timeout : ℕ) where
  -- A step of the sender: it takes a batch, or it waits for the limiter and sends for the next id.
  unfoldable pub step : ℕ → ℕ → Write → Paced L G Addr → Result (List Send × Paced L G Addr)
  unfolding permit sender_turn
  step pause delay writes p =
      let (sends, clock, bucket) = permit limiter (p.clock + pause) delay p.bucket p.gen.pending in
      do
        g ← sender_turn q how timeout clock writes p.gen
        ok (sends, record { clock = clock; bucket = bucket; gen = g })

  -- A run of a generator, with all that it sends.
  unfoldable pub paced : List (Event Addr) → Paced L G Addr → Result (List Send × Paced L G Addr)
  unfolding step turn
  paced [] p = ok ([], p)
  paced (goes_on pause delay writes ∷ events) p = do
    (sends, p') ← step pause delay writes p
    (later, p'') ← paced events p'
    ok (sends ++ later, p'')
  paced (other t h ∷ events) p = do
    g ← turn q how timeout t p.gen
    paced events (record p { gen = g })

-- How many of some times lie in a window, its end excluded.
abbrev pub within : ℕ → ℕ → List ℕ → ℕ
within a b [] = 0
within a b (t ∷ ts) = (if leb a t && ltb t b then 1 else 0) + within a b ts

abbrev pub stamps : List Send → List ℕ
stamps sends = map (λ s. s.stamped) sends

abbrev pub readies : List Send → List ℕ
readies sends = map (λ s. s.ready) sends

-- The limiter is asked in order, never before it was ready the time before.
abbrev pub Asked : {L : Type 0} → Limiter L → ℕ → L → List Send → Type 0
Asked limiter clock l [] = Unit {0}
Asked limiter clock l (s ∷ sends) =
    (clock ≤ s.asked)
    × ((limiter.until_ready s.asked l).0 ≡ s.ready)
    × Asked limiter s.ready (limiter.until_ready s.asked l).1 sends

-- What `governor` promises of a limiter with a quota for each second, which is also the size of its
-- burst: it is never ready before it is asked; and in a window of whole seconds it is ready at most
-- so often as the burst and the quota for these seconds allow.
pub record Keeps {L : Type 0} (limiter : Limiter L) (quota : ℕ) (l : L) : Type 0 where
  pub after : (now : ℕ) (l' : L) → now ≤ (limiter.until_ready now l').0
  pub limits :
      (clock : ℕ) (sends : List Send)
      → Asked limiter clock l sends
      → (a secs : ℕ) → within a (a + secs * nanos_per_sec) (readies sends) ≤ quota + quota * secs
