-- ===== src/Query.antt =====
-- bin/src/query.rs: the generators of queries. A message is what the program sets in it; how the
-- `trust-dns` crate parses names and types and encodes a message are parameters, as are the random
-- bytes and labels of the `rand` crate. A file is the list of its lines; a line that cannot be read
-- is a fault.
pub mod Ids
pub mod Lines
use nailgun.Prelude.{
  ℕ, zero, suc, ◌+◌, Bool, true, ◌||◌, Option, none, some, List, [], ◌∷◌, ◌++◌, ◌==◌, if◌then◌else◌,
  Fault, Result, ok, err, ◌>>=◌, or_fault,
}
use nailgun.Msg.{u16_to_be_bytes}
use nailgun.Sender.{QueryGen}

pub data Source (FilePath Name RecordType DnsClass : Type 0) : Type 0 where
  file : FilePath → Source FilePath Name RecordType DnsClass
  static : Name → RecordType → DnsClass → Source FilePath Name RecordType DnsClass
  random_pkt : ℕ → Source FilePath Name RecordType DnsClass
  random_qname : RecordType → ℕ → Source FilePath Name RecordType DnsClass

-- What is set in a `Message` before it is encoded; a query's class is `none` where it is not set.
pub record Message (Name RecordType DnsClass : Type 0) : Type 0 where
  pub id : ℕ
  pub name : Name
  pub qtype : RecordType
  pub query_class : Option DnsClass
  pub recursion_desired : Bool
  pub edns : Bool

-- `id.to_be_bytes()` and then `len` random bytes; the generator's state is the length and the
-- source of the bytes, which is a list that is drawn from.
pub record RandomPkt : Type 0 where
  pub len : ℕ
  pub random : ℕ → ℕ
  pub drawn : ℕ

unfoldable pub draw : (ℕ → ℕ) → ℕ → ℕ → List ℕ
draw random from zero = []
draw random from (suc n) = random from ∷ draw random (suc from) n

unfoldable pub random_pkt_next : RandomPkt → ℕ → Result (Option (List ℕ) × RandomPkt)
unfolding draw
random_pkt_next g id =
    ok (
      some (u16_to_be_bytes id ++ draw g.random g.drawn g.len),
      record g { drawn = g.drawn + g.len },
    )

-- `RandomPkt::new`
abbrev pub random_pkt_new : (ℕ → ℕ) → ℕ → RandomPkt
random_pkt_new random len = record { len = len; random = random; drawn = 0 }

abbrev pub random_pkt_gen : QueryGen RandomPkt
random_pkt_gen = record { next_msg = random_pkt_next }

-- ASCII white space: space, tab, line feed, form feed and carriage return.
abbrev pub is_space : ℕ → Bool
is_space c = c == 32 || c == 9 || c == 10 || c == 12 || c == 13

-- `split_ascii_whitespace().next()`: the next word, if there is one, and what follows it.
unfoldable pub word_rest : List ℕ → List ℕ × List ℕ
word_rest [] = ([], [])
word_rest (c ∷ cs) =
    let (w, rest) = word_rest cs in if is_space c then ([], c ∷ cs) else (c ∷ w, rest)

unfoldable pub next_word : List ℕ → Option (List ℕ × List ℕ)
unfolding word_rest
next_word [] = none
next_word (c ∷ cs) =
    let later = next_word cs in
    if is_space c then later else (let (w, rest) = word_rest cs in some (c ∷ w, rest))

-- What the program calls of `trust-dns`; a fault of `to_vec` is `none`, which the program logs.
pub record Dns (Name RecordType DnsClass : Type 0) : Type 0 where
  pub name_from_ascii : List ℕ → Option Name
  pub name_from_str : List ℕ → Option Name
  pub record_type_from_str : List ℕ → Option RecordType
  pub class_is_in : DnsClass → Bool
  pub to_vec : Message Name RecordType DnsClass → Option (List ℕ)

pub record StaticGen (Name RecordType DnsClass : Type 0) : Type 0 where
  pub name : Name
  pub qtype : RecordType
  pub class : DnsClass

-- The lines that are left.
pub record FileGen : Type 0 where
  pub rdr : List (Result (List ℕ))

pub record RandomQName (RecordType : Type 0) : Type 0 where
  pub len : ℕ
  pub qtype : RecordType
  pub random : ℕ → ℕ
  pub drawn : ℕ

-- `StaticGen::new`
abbrev pub static_new :
    {Name RecordType DnsClass : Type 0}
    → Name
    → RecordType
    → DnsClass
    → StaticGen Name RecordType DnsClass
static_new name qtype class = record { name = name; qtype = qtype; class = class }

-- `FileGen::new`: a file that cannot be opened is an error.
unfoldable pub file_new :
    {FilePath : Type 0} → (FilePath → Option (List (Result (List ℕ)))) → FilePath → Result FileGen
file_new open_file path = do
  lines ← or_fault (open_file path) Fault.failed
  ok (record { rdr = lines })

-- `RandomQName::new`
abbrev pub random_qname_new :
    {RecordType : Type 0} → (ℕ → ℕ) → RecordType → ℕ → RandomQName RecordType
random_qname_new random qtype len = record { len = len; qtype = qtype; random = random; drawn = 0 }

module _ {Name RecordType DnsClass : Type 0} (dns : Dns Name RecordType DnsClass) where
  -- `set_id`, `add_query` with the query's class if it was set, and the settings that all share.
  abbrev pub message : ℕ → Name → RecordType → Option DnsClass → Message Name RecordType DnsClass
  message id name qtype class = record {
    id = id;
    name = name;
    qtype = qtype;
    query_class = class;
    recursion_desired = true;
    edns = true;
  }

  unfoldable pub static_next :
      StaticGen Name RecordType DnsClass
      → ℕ
      → Result (Option (List ℕ) × StaticGen Name RecordType DnsClass)
  static_next g id =
      let class = if dns.class_is_in g.class then none else some g.class in
      ok (dns.to_vec (message id g.name g.qtype class), g)

  -- A line's first word has to be a name and its second a type; `expect` panics where they are not,
  -- and a line with fewer words gives no message.
  unfoldable pub line_message : ℕ → List ℕ → Result (Option (List ℕ))
  unfolding next_word
  line_message id line = elim (next_word line) [
    | none ↦ ok none
    | some (word, rest) ↦ do
      name ← or_fault (dns.name_from_ascii word) Fault.panicked
      elim (next_word rest) [
        | none ↦ ok none
        | some (word', rest') ↦ do
          qtype ← or_fault (dns.record_type_from_str word') Fault.panicked
          ok (dns.to_vec (message id name qtype none))
      ]
  ]

  unfoldable pub file_lines_next : List (Result (List ℕ)) → ℕ → Result (Option (List ℕ) × FileGen)
  unfolding line_message
  file_lines_next [] id = ok (none, record { rdr = [] })
  file_lines_next (err e ∷ lines) id = err Fault.panicked
  file_lines_next (ok line ∷ lines) id = do m ← line_message id line; ok (m, record { rdr = lines })

  unfoldable pub file_next : FileGen → ℕ → Result (Option (List ℕ) × FileGen)
  unfolding file_lines_next
  file_next g id = file_lines_next g.rdr id

  -- A label of `len` random letters and digits is parsed as a name.
  unfoldable pub random_qname_next :
      RandomQName RecordType → ℕ → Result (Option (List ℕ) × RandomQName RecordType)
  unfolding draw
  random_qname_next g id =
      let after : RandomQName RecordType = record g { drawn = g.drawn + g.len } in
      elim (dns.name_from_str (draw g.random g.drawn g.len)) [
        | none ↦ ok (none, after)
        | some qname ↦ ok (dns.to_vec (message id qname g.qtype none), after)
      ]
