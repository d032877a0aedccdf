-- ===== src/Gen/Build/Sent.antt =====
-- bin/src/query.rs, bin/src/sender.rs and bin/src/msg.rs together: from the lines of a file to the
-- messages that a reader of the TCP stream gets.
use nailgun.Prelude.{
  ℕ, suc, ◌<◌, ◌≡◌, refl, ◌∙◌, ap, Option, none, some, List, [], ◌∷◌, ◌++◌, map, arith, length,
  Result, ok, >>=-eq-ok, u64_mod, or_fault, Fault,
}
use nailgun.Msg.Framing.{drain, AllShort}
use nailgun.Sender.{Write, all_written, QueryGen, MsgSend, tcp, Sending, sent, send_one, send_batch}
use nailgun.Sender.Wire.{generate, ids_of, stream, send_batch_decoded, send_batch_next}
use nailgun.Query.{Dns, Message}
use nailgun.Gen.Build.{from_file, task_queries, TaskGen}
use nailgun.Gen.Build.Files.{AreRead, asked_with, generate-AreRead}

-- Every write succeeds.
abbrev pub AllWrite : List (ℕ × ℕ × Write) → Type 0
AllWrite [] = Unit {0}
AllWrite ((id, now, writes) ∷ batch) = (writes ≡ all_written) × AllWrite batch

length-ids_of : (batch : List (ℕ × ℕ × Write)) → length (ids_of batch) ≡ length batch
length-ids_of [] = refl
length-ids_of ((id, now, writes) ∷ batch) = ap suc (length-ids_of batch)

or_fault-ok : {A : Type 0} (m : Option A) {x : A} → or_fault m Fault.failed ≡ ok x → m ≡ some x
or_fault-ok none h = absurd (ground arith)
or_fault-ok (some y) h = ground arith

module _ {G Addr : Type 0} (q : QueryGen G) (how : MsgSend Addr) where
  -- A send for which there is a message, and whose write succeeds, goes well.
  send_one-sent :
      (now id : ℕ) (s : Sending G Addr) (msg : List ℕ) (g : G)
      → q.next_msg s.query_gen id ≡ ok (some msg, g)
      → ((send_one q how now all_written id s).0 ≡ sent)
        × ((send_one q how now all_written id s).1.query_gen ≡ g)
  unfolding send_one
  send_one-sent now id s msg g h = rw (h, send_one) (refl, refl)

  -- A batch for which the generator has messages, and whose writes succeed, is sent to its end.
  send_batch-sent :
      (batch : List (ℕ × ℕ × Write)) (s : Sending G Addr) (msgs : List (List ℕ)) (g : G)
      → AllWrite batch
      → generate q s.query_gen (ids_of batch) ≡ ok (msgs, g)
      → ((send_batch q how batch s).0 ≡ sent) × ((send_batch q how batch s).1.query_gen ≡ g)
  unfolding send_batch generate
  send_batch-sent [] s msgs g w h = (refl, ground arith)
  send_batch-sent ((id, now, writes) ∷ batch) s msgs g (w, ws) h =
      let ((m, g₁), e, rest) = >>=-eq-ok (q.next_msg s.query_gen id) _ h in
      let (msg, e', rest') = >>=-eq-ok (or_fault m Fault.failed) _ rest in
      let ((later, g₂), e'', same) = >>=-eq-ok (generate q g₁ (ids_of batch)) _ rest' in
      let made : q.next_msg s.query_gen id ≡ ok (some msg, g₁) =
        e ∙ ap (λ o. ok (o, g₁)) (or_fault-ok m e') in
      let (goes, after) = send_one-sent now id s msg g₁ made in
      let s₁ = (send_one q how now all_written id s).1 in
      let more : generate q s₁.query_gen (ids_of batch) ≡ ok (later, g₂) =
        ap (λ x. generate q x (ids_of batch)) after ∙ e'' in
      let all = send_batch-sent batch s₁ later g₂ ws more in
      let last : g₂ ≡ g = cc in
      rw (w, send_batch_next q how id now all_written batch s goes) (all.0, all.1 ∙ last)

module _ {Name RecordType DnsClass : Type 0} (dns : Dns Name RecordType DnsClass)
    (encodes : (m : Message Name RecordType DnsClass)
      → (b : List ℕ) × (dns.to_vec m ≡ some b)) where
  -- Where every message can be encoded, in less than 2 ^ 16 bytes, and every write succeeds: a batch of
  -- as many ids as a file has lines at its start with a name and a type as their first two words is
  -- sent to its end over a new TCP connection; a reader that decodes as the program does gets, in
  -- order, the messages with each id and the name and type of the line at its place, and nothing is
  -- left over; and the sender goes on with the rest of the file.
  pub send_batch-AreRead :
      {Addr : Type 0} (target : Addr) (lines rest : List (Result (List ℕ)))
      (asked : List (Name × RecordType)) (batch : List (ℕ × ℕ × Write))
      (s : Sending (TaskGen Name RecordType DnsClass) Addr)
      → AreRead dns lines asked
      → length batch ≡ length lines
      → AllWrite batch
      → s.query_gen ≡ from_file (record { rdr = lines ++ rest })
      → s.wire ≡ []
      → s.atomic_store.sent < u64_mod
      → AllShort (asked_with dns encodes asked (ids_of batch))
      → let (progress, s') = send_batch (task_queries dns) tcp batch s in
        (progress ≡ sent)
        × (s'.query_gen ≡ from_file (record { rdr = rest }))
        × (drain target (suc (length batch)) (stream s'.wire)
            ≡ (map (λ b. (b, target)) (asked_with dns encodes asked (ids_of batch)), []))
  send_batch-AreRead target lines rest asked batch s read as_many writes source new small short =
      let msgs = asked_with dns encodes asked (ids_of batch) in
      let made =
        generate-AreRead dns encodes lines rest asked (ids_of batch) read
          (length-ids_of batch ∙ as_many) in
      let from_source = rw (← source) at made in
      let (whole, left) =
        send_batch-sent (task_queries dns) tcp batch s msgs (from_file (record { rdr = rest }))
          writes from_source in
      (
        whole,
        left,
        send_batch_decoded (task_queries dns) target batch s msgs new small whole from_source short,
      )
