-- ===== src/Sender/Wire.antt =====
-- bin/src/sender.rs: what the sender writes for a batch, and what a reader of its frames decodes.
use nailgun.Prelude.{
  ℕ, suc, ◌<◌, ◌≡◌, refl, sym, ap, ◌∙◌, ◌⊎◌, inl, inr, some, List, [], ◌∷◌, ◌++◌, map, append-nil,
  append_assoc, arith, Option-cases, length, take, Fault, Result, ok, ◌>>=◌, or_fault, Result-cases,
  u64_mod, add64,
}
use nailgun.Prelude.Assoc.{lookup, lookup-insert_self}
use nailgun.Msg.Framing.{frames, AllShort, drain, drain-frames}
use nailgun.Store.{QueryInfo, add_sent}
use nailgun.Sender.{
  MsgSend, Write, all_written, broken_off, begun, tcp, udp, doh, Output, bytes, datagram, request,
  outputs, QueryGen, Sending, sent, stopped, send_one, send_batch,
}

-- The bytes of a TCP connection, from what was handed to it.
abbrev pub stream : {Addr : Type 0} → List (Output Addr) → List ℕ
stream [] = []
stream (bytes b ∷ os) = b ++ stream os
stream (datagram b target ∷ os) = stream os
stream (request b ∷ os) = stream os

-- What is written for messages one after the other.
abbrev pub all_outputs : {Addr : Type 0} → MsgSend Addr → List (List ℕ) → List (Output Addr)
all_outputs how [] = []
all_outputs how (m ∷ ms) = outputs how m ++ all_outputs how ms

-- What is out of a message when its write fails after `k` bytes.
abbrev pub IsBrokenOff : {Addr : Type 0} → MsgSend Addr → ℕ → List ℕ → List (Output Addr) → Type 0
IsBrokenOff {Addr = Addr} tcp k msg out =
    stream out ≡ take k (stream {Addr = Addr} (outputs tcp msg))
IsBrokenOff _ k msg out = out ≡ []

begun-IsBrokenOff :
    {Addr : Type 0} (how : MsgSend Addr) (k : ℕ) (msg : List ℕ)
    → IsBrokenOff how k msg (begun how k msg)
unfolding begun outputs
begun-IsBrokenOff tcp k msg = rw (append-nil, append-nil) refl
begun-IsBrokenOff (udp target) k msg = refl
begun-IsBrokenOff doh k msg = refl

Write-cases : (w : Write) → (w ≡ all_written) ⊎ ((k : ℕ) × (w ≡ broken_off k))
Write-cases all_written = inl refl
Write-cases (broken_off k) = inr (k, refl)

-- The messages of a generator for a list of ids, if there is one for each.
unfoldable pub generate : {G : Type 0} → QueryGen G → G → List ℕ → Result (List (List ℕ) × G)
generate q g [] = ok ([], g)
generate q g (id ∷ ids) = do
  (m, g₁) ← q.next_msg g id
  msg ← or_fault m Fault.failed
  (msgs, g₂) ← generate q g₁ ids
  ok (msg ∷ msgs, g₂)

-- The ids of a batch.
abbrev pub ids_of : List (ℕ × ℕ × Write) → List ℕ
ids_of [] = []
ids_of ((id, now, writes) ∷ batch) = id ∷ ids_of batch

module _ {G Addr : Type 0} (q : QueryGen G) (how : MsgSend Addr) where
  -- One send that goes well: the generator had a message for the id, which was written out; the
  -- query is in flight with the time of the send and the length of the message, and is counted.
  pub send_one_wire :
      (now id : ℕ) (writes : Write) (s : Sending G Addr)
      → (send_one q how now writes id s).0 ≡ sent
      → let s' = (send_one q how now writes id s).1 in
        (msg : List ℕ) × (q.next_msg s.query_gen id ≡ ok (some msg, s'.query_gen))
        × (s'.wire ≡ s.wire ++ outputs how msg)
        × (lookup id s'.store.in_flight ≡ some (record { sent = now; len = length msg }))
        × (s'.atomic_store ≡ add_sent 1 s.atomic_store)
  unfolding send_one
  send_one_wire now id writes s h = elim (Result-cases (q.next_msg s.query_gen id)) [
    | inr (f, e) ↦ absurd (ground arith)
    | inl ((m, g), e) ↦ elim (Option-cases m) [
      | inl out ↦ absurd (ground arith)
      | inr (msg, some_msg) ↦
          let info : QueryInfo = record { sent = now; len = length msg } in
          let found = lookup-insert_self id info s.store.in_flight in
          (msg, ground arith, ground arith, ground arith, ground arith)
    ]
  ]

  -- One send that stops the task counts no query, and is of one of two kinds. The generator had no
  -- message, or failed: then the store stays as it was and nothing is written. Or the write of its
  -- message failed: then the query is in flight all the same, and what is out is, over UDP or to a
  -- channel, nothing, and over TCP the frame of the message up to where the write failed.
  pub send_one_stopped :
      (now id : ℕ) (writes : Write) (s : Sending G Addr) {f : Fault}
      → (send_one q how now writes id s).0 ≡ stopped f
      → let s' = (send_one q how now writes id s).1 in
        (s'.atomic_store ≡ s.atomic_store)
        × (((s'.store ≡ s.store) × (s'.wire ≡ s.wire))
            ⊎ ((msg : List ℕ) × (k : ℕ) × (writes ≡ broken_off k)
                × (q.next_msg s.query_gen id ≡ ok (some msg, s'.query_gen))
                × (lookup id s'.store.in_flight ≡ some (record { sent = now; len = length msg }))
                × (out : List (Output Addr)) × (s'.wire ≡ s.wire ++ out)
                × IsBrokenOff how k msg out))
  unfolding send_one
  send_one_stopped now id writes s h = elim (Result-cases (q.next_msg s.query_gen id)) [
    | inr (f, e) ↦ (ground arith, inl (ground arith, ground arith))
    | inl ((m, g), e) ↦ elim (Option-cases m) [
      | inl out ↦ (ground arith, inl (ground arith, ground arith))
      | inr (msg, some_msg) ↦
          let made : q.next_msg s.query_gen id ≡ ok (some msg, g) = ground arith in
          elim (Write-cases writes) [
            | inl all ↦ absurd (ground arith)
            | inr (k, broken) ↦
                let info : QueryInfo = record { sent = now; len = length msg } in
                let found = lookup-insert_self id info s.store.in_flight in
                (
                  ground arith,
                  inr (
                    msg,
                    k,
                    broken,
                    ground arith,
                    ground arith,
                    begun how k msg,
                    ground arith,
                    begun-IsBrokenOff how k msg,
                  ),
                )
          ]
    ]
  ]

  pub send_batch_next :
      (id now : ℕ) (writes : Write) (batch : List (ℕ × ℕ × Write)) (s : Sending G Addr)
      → (send_one q how now writes id s).0 ≡ sent
      → send_batch q how ((id, now, writes) ∷ batch) s
        ≡ send_batch q how batch (send_one q how now writes id s).1
  unfolding send_batch
  send_batch_next id now writes batch s h = rw (h, send_batch)

  send_batch_first :
      (id now : ℕ) (writes : Write) (batch : List (ℕ × ℕ × Write)) (s : Sending G Addr)
      → (send_batch q how ((id, now, writes) ∷ batch) s).0 ≡ sent
      → (send_one q how now writes id s).0 ≡ sent
  unfolding send_batch
  send_batch_first id now writes batch s h = ground arith

  -- A batch that is sent to its end: the generator had a message for each id; what was written is
  -- what those messages come to, in order, after what was there; and the counter of queries sent has
  -- grown by their number, modulo 2 ^ 64.
  pub send_batch_wire :
      (batch : List (ℕ × ℕ × Write)) (s : Sending G Addr)
      → s.atomic_store.sent < u64_mod
      → (send_batch q how batch s).0 ≡ sent
      → let s' = (send_batch q how batch s).1 in
        (msgs : List (List ℕ)) × (generate q s.query_gen (ids_of batch) ≡ ok (msgs, s'.query_gen))
        × (s'.wire ≡ s.wire ++ all_outputs how msgs)
        × (s'.atomic_store.sent ≡ add64 s.atomic_store.sent (length batch))
        × (length msgs ≡ length batch)
  unfolding generate
  send_batch_wire [] s small h = unfold send_batch in ([], refl, rw append-nil, omega arith, refl)
  send_batch_wire ((id, now, writes) ∷ batch) s small h =
      let first = send_batch_first id now writes batch s h in
      let s₁ = (send_one q how now writes id s).1 in
      let same = send_batch_next id now writes batch s first in
      let (msg, made, wrote, found, counted) = send_one_wire now id writes s first in
      let grown : s₁.atomic_store.sent ≡ add64 s.atomic_store.sent 1 =
        unfold add_sent in ap (λ a. a.sent) counted in
      let (msgs, all_made, all_wrote, all_counted, n) =
        send_batch_wire batch s₁ (omega arith) (sym (ap (λ r. r.0) same) ∙ h) in
      rw same (
        msg ∷ msgs,
        rw (made, all_made),
        all_wrote
            ∙ ap (λ w. w ++ all_outputs how msgs) wrote
            ∙ append_assoc s.wire (outputs how msg) (all_outputs how msgs),
        omega arith,
        ap suc n,
      )

-- The stream of several messages over TCP is their frames.
stream-all_outputs :
    (Addr : Type 0) (ms : List (List ℕ)) → stream (all_outputs {Addr = Addr} tcp ms) ≡ frames ms
unfolding outputs
stream-all_outputs Addr [] = refl
stream-all_outputs Addr (m ∷ ms) = rw (stream-all_outputs Addr ms)

-- A batch that is sent to its end over a new TCP connection, with messages of less than 2 ^ 16
-- bytes: a reader that decodes as the program does gets the messages of the generator for the ids
-- of the batch, in order, and nothing is left over.
pub send_batch_decoded :
    {G Addr : Type 0} (q : QueryGen G) (target : Addr) (batch : List (ℕ × ℕ × Write))
    (s : Sending G Addr) (msgs : List (List ℕ)) {g : G}
    → s.wire ≡ []
    → s.atomic_store.sent < u64_mod
    → (send_batch q tcp batch s).0 ≡ sent
    → generate q s.query_gen (ids_of batch) ≡ ok (msgs, g)
    → AllShort msgs
    → drain target (suc (length batch)) (stream (send_batch q tcp batch s).1.wire)
      ≡ (map (λ b. (b, target)) msgs, [])
send_batch_decoded {Addr} q target batch s msgs new small h made short =
    let (msgs', made', wrote, counted, n) = send_batch_wire q tcp batch s small h in
    let same : msgs' ≡ msgs = ground arith in
    let written = wrote ∙ ap (λ w. w ++ all_outputs tcp msgs') new ∙ ap (all_outputs tcp) same in
    let size : length msgs ≡ length batch = sym (ap length same) ∙ n in
    rw (written, stream-all_outputs Addr msgs, ← append-nil (frames msgs))
      (drain-frames target msgs [] 0 (suc (length batch)) short (omega arith) (omega arith)
        (omega arith))
