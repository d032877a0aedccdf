-- ===== src/Gen/Build/Files.antt =====
-- bin/src/query.rs with bin/src/gen.rs: the messages that a whole file of queries gives.
use nailgun.Prelude.{ℕ, ◌≡◌, refl, some, none, List, [], ◌∷◌, ◌++◌, arith, length, Result, ok, err}
use nailgun.Sender.Wire.{generate}
use nailgun.Query.{Dns, Message, message}
use nailgun.Query.Lines.{AllSpace, NoSpace, EndsWord, file_next-line}
use nailgun.Gen.Build.{from_file, task_next, task_queries}

module _ {Name RecordType DnsClass : Type 0} (dns : Dns Name RecordType DnsClass) where
  -- A line whose first two words are a name and a type.
  pub record IsRead (line : List ℕ) (name : Name) (qtype : RecordType) : Type 0 where
    pub before : List ℕ
    pub c : ℕ
    pub w : List ℕ
    pub b : ℕ
    pub between : List ℕ
    pub d : ℕ
    pub v : List ℕ
    pub rest : List ℕ
    pub blank : AllSpace before
    pub spaced : AllSpace (b ∷ between)
    pub first : NoSpace (c ∷ w)
    pub second : NoSpace (d ∷ v)
    pub ended : EndsWord rest
    pub named : dns.name_from_ascii (c ∷ w) ≡ some name
    pub typed : dns.record_type_from_str (d ∷ v) ≡ some qtype
    pub whole : line ≡ before ++ c ∷ (w ++ b ∷ (between ++ d ∷ (v ++ rest)))

  -- The lines of a file and what they ask for.
  abbrev pub AreRead : List (Result (List ℕ)) → List (Name × RecordType) → Type 0
  AreRead [] [] = Unit {0}
  AreRead (ok line ∷ lines) ((name, qtype) ∷ asked) = IsRead line name qtype × AreRead lines asked
  AreRead _ _ = ⊥

  module _
      (encodes : (m : Message Name RecordType DnsClass)
        → (b : List ℕ) × (dns.to_vec m ≡ some b)) where
    -- The messages that ask for names and types, with ids in their order.
    abbrev pub asked_with : List (Name × RecordType) → List ℕ → List (List ℕ)
    asked_with ((name, qtype) ∷ asked) (id ∷ ids) =
        (encodes (message dns id name qtype none)).0 ∷ asked_with asked ids
    asked_with _ _ = []

    task_next-IsRead :
        (line : List ℕ) (name : Name) (qtype : RecordType) (lines : List (Result (List ℕ))) (id : ℕ)
        → IsRead line name qtype
        → task_next dns (from_file (record { rdr = ok line ∷ lines })) id
          ≡ ok (
            some (encodes (message dns id name qtype none)).0,
            from_file (record { rdr = lines }),
          )
    unfolding task_next
    task_next-IsRead line name qtype lines id r =
        let made =
          (file_next-line dns id r.before r.between r.b r.c r.d r.w r.v r.rest lines name qtype
            r.blank r.spaced r.first r.second r.ended r.named r.typed).0 in
        rw (r.whole, made, (encodes (message dns id name qtype none)).1) refl

    -- Where every message can be encoded: a file, the first lines of which have a name and a type as
    -- their first two words, gives for as many ids as those lines, in their order, the messages with
    -- each id and the name and type of the line at its place; the lines after these are left.
    pub generate-AreRead :
        (lines rest : List (Result (List ℕ))) (asked : List (Name × RecordType)) (ids : List ℕ)
        → AreRead lines asked
        → length ids ≡ length lines
        → generate (task_queries dns) (from_file (record { rdr = lines ++ rest })) ids
          ≡ ok (asked_with asked ids, from_file (record { rdr = rest }))
    unfolding generate
    generate-AreRead [] rest [] [] a n = refl
    generate-AreRead [] rest [] (id ∷ ids) a n = absurd (omega arith)
    generate-AreRead [] rest (x ∷ asked) ids a n = absurd a
    generate-AreRead (ok line ∷ lines) rest [] ids a n = absurd a
    generate-AreRead (err e ∷ lines) rest asked ids a n = absurd a
    generate-AreRead (ok line ∷ lines) rest ((name, qtype) ∷ asked) [] a n = absurd (omega arith)
    generate-AreRead (ok line ∷ lines) rest ((name, qtype) ∷ asked) (id ∷ ids) (r, a) n =
        let more = generate-AreRead lines rest asked ids a (omega arith) in
        rw (task_next-IsRead line name qtype (lines ++ rest) id r, more) refl
