-- ===== src/Gen/Pace/Window.antt =====
-- bin/src/sender.rs: between two calls of the limiter lies one send, so that in any window there is at
-- most one send more than there are permits of the limiter.
use nailgun.Prelude.{
  Option, ◌⊎◌, ℕ, ◌+◌, ◌≤◌, ◌≡◌, refl, inl, inr, some, List, [], ◌∷◌, ◌++◌, arith, leb, Bool-cases,
  ok, >>=-eq-ok,
}
use mathlib.Core.Path.{subst}
use nailgun.Sender.{Write, QueryGen, MsgSend}
use nailgun.Gen.{sender_turn, turn}
use nailgun.Gen.Pace.{
  Limiter, Send, Event, goes_on, other, Paced, until_ready, permit, step, paced, within, stamps,
  readies, Asked,
}

-- The calls and stamps of a sender are in order: it asks, is ready, stamps, and asks again.
abbrev pub InOrder : ℕ → List Send → Type 0
InOrder clock [] = Unit {0}
InOrder clock (s ∷ sends) =
    (clock ≤ s.asked) × (s.asked ≤ s.ready) × (s.ready ≤ s.stamped) × InOrder s.stamped sends

-- Where all is past the start of the window, each stamp in it has its permit in it.
within-stamps_later :
    (a b clock : ℕ) (sends : List Send)
    → a ≤ clock
    → InOrder clock sends
    → within a b (stamps sends) ≤ within a b (readies sends)
within-stamps_later a b clock [] h o = omega arith
within-stamps_later a b clock (s ∷ sends) h (x, y, z, o) =
    let later = within-stamps_later a b s.stamped sends (omega arith) o in ground arith

pub within-stamps :
    (a b clock : ℕ) (sends : List Send)
    → InOrder clock sends
    → within a b (stamps sends) ≤ 1 + within a b (readies sends)
within-stamps a b clock [] o = omega arith
within-stamps a b clock (s ∷ sends) (x, y, z, o) = elim (Bool-cases (leb a s.stamped)) [
  | inl inside ↦
      let later = within-stamps_later a b s.stamped sends (ground arith) o in ground arith
  | inr before ↦ let later = within-stamps a b s.stamped sends o in ground arith
]

-- An earlier start does not matter.
InOrder-earlier :
    (clock clock' : ℕ) (sends : List Send)
    → clock ≤ clock'
    → InOrder clock' sends
    → InOrder clock sends
InOrder-earlier clock clock' [] h o = tt
InOrder-earlier clock clock' (s ∷ sends) h (x, y, z, o) = (omega arith, y, z, o)

module _ {L : Type 0} (limiter : Limiter L) where
  -- What a step of the sender asks of its limiter `l`.
  abbrev Permitted : ℕ → L → List Send × ℕ × Option L → Type 0
  Permitted asked l (sends, clock, bucket) =
      ((sends ≡ []) × (clock ≡ asked) × (bucket ≡ some l))
      ⊎ ((s : Send) × (sends ≡ s ∷ [])
          × (s.asked ≡ asked)
          × ((limiter.until_ready s.asked l).0 ≡ s.ready)
          × (s.ready ≤ s.stamped)
          × (clock ≡ s.stamped)
          × (bucket ≡ some (limiter.until_ready s.asked l).1))

  permit-Permitted :
      (asked delay : ℕ) (l : L) (pending : List ℕ)
      → Permitted asked l (permit limiter asked delay (some l) pending)
  unfolding permit until_ready
  permit-Permitted asked delay l [] = inl (refl, refl, refl)
  permit-Permitted asked delay l (id ∷ rest) = inr (_, refl, refl, refl, omega arith, refl, refl)

module _ {L G Addr : Type 0} (limiter : Limiter L) (q : QueryGen G) (how : MsgSend Addr)
    (timeout : ℕ) where
  step-Permitted :
      (pause delay : ℕ) (writes : Write) (p p' : Paced L G Addr) (l : L) {sends : List Send}
      → p.bucket ≡ some l
      → step limiter q how timeout pause delay writes p ≡ ok (sends, p')
      → Permitted limiter (p.clock + pause) l (sends, p'.clock, p'.bucket)
  unfolding step
  step-Permitted pause delay writes p p' l {sends} held h =
      let given = permit limiter (p.clock + pause) delay p.bucket p.gen.pending in
      let (g, e, same) = >>=-eq-ok (sender_turn q how timeout given.1 writes p.gen) _ h in
      let result : given ≡ (sends, p'.clock, p'.bucket) = cc in
      let asked : Permitted limiter (p.clock + pause) l given =
        rw held (permit-Permitted limiter (p.clock + pause) delay l p.gen.pending) in
      subst (Permitted limiter (p.clock + pause) l) result asked

  -- The limiter is asked in order, and between two calls of it lies one send.
  pub paced-InOrder :
      (events : List (Event Addr)) (p p' : Paced L G Addr) (clock : ℕ) (l : L) {sends : List Send}
      → ((now : ℕ) (l' : L) → now ≤ (limiter.until_ready now l').0)
      → p.bucket ≡ some l
      → clock ≤ p.clock
      → paced limiter q how timeout events p ≡ ok (sends, p')
      → Asked limiter clock l sends × InOrder p.clock sends
  unfolding paced
  paced-InOrder [] p p' clock l {sends} after held c h =
      let none_yet : [] ≡ sends = cc in rw (← none_yet) (tt, tt)
  paced-InOrder (goes_on pause delay writes ∷ events) p p' clock l {sends} after held c h =
      let ((one, p₁), e, rest) = >>=-eq-ok (step limiter q how timeout pause delay writes p) _ h in
      let ((later, p₂), e', same) = >>=-eq-ok (paced limiter q how timeout events p₁) _ rest in
      let whole : one ++ later ≡ sends = cc in
      elim (step-Permitted pause delay writes p p₁ l held e) [
        | inl (no_send, clock', held') ↦
            let (asked, ordered) =
              paced-InOrder events p₁ p₂ clock l after held' (omega arith) e' in
            rw (← whole, no_send)
              (asked, InOrder-earlier p.clock p₁.clock later (omega arith) ordered)
        | inr (s, one_send, at, ready, stamped, clock', held') ↦
            let (asked, ordered) =
              paced-InOrder events p₁ p₂ s.ready (limiter.until_ready s.asked l).1 after held'
                (omega arith) e' in
            let no_wait = after s.asked l in
            rw (← whole, one_send)
              (
                (omega arith, ready, asked),
                (omega arith, rw ready at no_wait, stamped, rw clock' at ordered),
              )
      ]
  paced-InOrder (other t h' ∷ events) p p' clock l {sends} after held c h =
      let (g, e, rest) = >>=-eq-ok (turn q how timeout t p.gen) _ h in
      paced-InOrder events (record p { gen = g }) p' clock l after held c rest
