-- ===== src/Args.antt =====
-- bin/src/args.rs, and of bin/src/main.rs what it does with the arguments before it starts: their
-- parsing from text, the address to bind to, the port for DoH and the configuration. A text is the
-- list of its bytes. The parser of the command line, the resolver and the parsers of names and
-- addresses are not modelled: their results are parameters.
pub mod Names
pub mod Setup
use nailgun.Prelude.{
  ℕ, ◌+◌, ◌*◌, ◌%◌, Bool, true, false, ◌&&◌, Option, none, some, List, [], ◌∷◌, map, leb, ◌==◌,
  if◌then◌else◌, Fault, Result, ok, err, ◌>>=◌, or_fault, u64_mod, nanos_per_sec, codes,
}
use nailgun.Config.{Config, Protocol, udp, tcp, doh}
use nailgun.Query.{Source}

-- `to_ascii_lowercase`
unfoldable pub to_lower : ℕ → ℕ
to_lower c = if leb b'A' c && leb c b'Z' then c + 32 else c

abbrev pub bytes_eq : List ℕ → List ℕ → Bool
bytes_eq [] [] = true
bytes_eq (x ∷ xs) (y ∷ ys) = x == y && bytes_eq xs ys
bytes_eq _ _ = false

pub data LogStructure : Type 0 where
  debug pretty json : LogStructure

pub data Family : Type 0 where
  inet inet6 : Family

unfoldable pub parse_log_structure : List ℕ → Result LogStructure
parse_log_structure s =
    let l = map to_lower s in
    if bytes_eq l (codes "json")
    then ok json
    else if bytes_eq l (codes "pretty")
    then ok pretty
    else if bytes_eq l (codes "debug")
    then ok debug
    else err Fault.failed

unfoldable pub parse_protocol : List ℕ → Result Protocol
parse_protocol s =
    let l = map to_lower s in
    if bytes_eq l (codes "udp")
    then ok udp
    else if bytes_eq l (codes "tcp")
    then ok tcp
    else if bytes_eq l (codes "doh")
    then ok doh
    else err Fault.failed

unfoldable pub parse_family : List ℕ → Result Family
parse_family s =
    let l = map to_lower s in
    if bytes_eq l (codes "inet")
    then ok inet
    else if bytes_eq l (codes "inet6")
    then ok inet6
    else err Fault.failed

-- `is_udp`, `is_tcp`, `is_doh`
unfoldable pub is_udp : Protocol → Bool
is_udp udp = true
is_udp _ = false

unfoldable pub is_tcp : Protocol → Bool
is_tcp tcp = true
is_tcp _ = false

unfoldable pub is_doh : Protocol → Bool
is_doh doh = true
is_doh _ = false

pub data IpAddr : Type 0 where
  v4 v6 : ℕ → IpAddr

pub data GenType (FilePath : Type 0) : Type 0 where
  static : GenType FilePath
  random_pkt : ℕ → GenType FilePath
  random_qname : ℕ → GenType FilePath
  file : FilePath → GenType FilePath

pub record Args (FilePath RecordType DnsClass : Type 0) : Type 0 where
  pub target : List ℕ
  pub bind_ip : Option IpAddr
  pub port : ℕ
  pub family : Family
  pub record_name : List ℕ
  pub qtype : RecordType
  pub class : DnsClass
  pub timeout : ℕ
  pub protocol : Protocol
  pub qps : ℕ
  pub tcount : ℕ
  pub wcount : ℕ
  pub limit_secs : ℕ
  pub output : LogStructure
  pub generator : Option (GenType FilePath)
  pub log_file : Option FilePath

-- What `to_config` calls: the parser of names, that of addresses, and the resolver.
pub record Lookup (Name : Type 0) : Type 0 where
  pub from_ascii : List ℕ → Option Name
  pub parse_ip : List ℕ → Option IpAddr
  pub lookup_ip : List ℕ → Result (List IpAddr)

-- `main`: the unspecified address of the family if none is given, else it has to fit the family.
unfoldable pub bind_for : Family → Option IpAddr → Result IpAddr
bind_for inet none = ok (v4 0)
bind_for inet6 none = ok (v6 0)
bind_for inet (some (v4 a)) = ok (v4 a)
bind_for inet (some (v6 a)) = err Fault.failed
bind_for inet6 (some (v4 a)) = err Fault.failed
bind_for inet6 (some (v6 a)) = ok (v6 a)

module _ {FilePath RecordType DnsClass : Type 0} where
  -- `main` up to the start of the runtime; the default port changes for DoH.
  unfoldable pub prepare :
      Args FilePath RecordType DnsClass → Result (Args FilePath RecordType DnsClass)
  unfolding is_doh
  prepare a = do
    ip ← bind_for a.family a.bind_ip
    ok (record a {
      bind_ip = some ip;
      port = if is_doh a.protocol && a.port == 53 then 443 else a.port;
    })

abbrev pub head? {ℓ} : {A : Type ℓ} → List A → Option A
head? [] = none
head? (x ∷ xs) = some x

module _ {FilePath Name RecordType DnsClass : Type 0} (l : Lookup Name) where
  -- The first statement of `to_config`.
  unfoldable pub query_src :
      Args FilePath RecordType DnsClass → Result (Source FilePath Name RecordType DnsClass)
  query_src a = elim a.generator [
    | none ↦ do
      name ← or_fault (l.from_ascii a.record_name) Fault.failed
      ok (Source.static name a.qtype a.class)
    | some gen ↦ elim gen [
      | GenType.file path ↦ ok (Source.file path)
      | GenType.static ↦ do
        name ← or_fault (l.from_ascii a.record_name) Fault.failed
        ok (Source.static name a.qtype a.class)
      | GenType.random_pkt size ↦ ok (Source.random_pkt size)
      | GenType.random_qname size ↦ ok (Source.random_qname a.qtype size)
    ]
  ]

  -- The second: the address to send to, and the name if it was resolved.
  unfoldable pub target_of : Args FilePath RecordType DnsClass → Result (IpAddr × Option (List ℕ))
  unfolding is_doh
  target_of a = elim (l.parse_ip a.target) [
    | some ip ↦ if is_doh a.protocol then err Fault.failed else ok (ip, none)
    | none ↦ do
      answer ← l.lookup_ip a.target
      ip ← or_fault (head? answer) Fault.failed
      ok (ip, some a.target)
  ]

  unfoldable pub to_config :
      Args FilePath RecordType DnsClass
      → Result (Config (IpAddr × ℕ) IpAddr (List ℕ) (Source FilePath Name RecordType DnsClass))
  to_config a = do
    src ← query_src a
    (ip, name_server) ← target_of a
    bind ← or_fault a.bind_ip Fault.failed
    ok (record {
      target = (ip, a.port);
      name_server = name_server;
      protocol = a.protocol;
      bind = bind;
      qps = a.qps;
      timeout = a.timeout * nanos_per_sec;
      generators = (a.tcount * a.wcount) % u64_mod;
      query_src = src;
    })
