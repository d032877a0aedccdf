-- ===== src/Gen/Build.antt =====
-- bin/src/gen.rs: how a generator is built: the rate limiter, the reader and the sender of its
-- protocol, and the generator of queries that its source asks for. Sockets, TLS and files are
-- parameters: whether a connection is made, and the lines of a file.
pub mod Ready
pub mod Supply
pub mod Files
pub mod Sent
use nailgun.Prelude.{ℕ, Bool, Option, List, if◌then◌else◌, Fault, Result, ok, err, ◌>>=◌, or_fault}
use nailgun.Config.{Config, Protocol, udp, tcp, doh, rate_limiter}
use nailgun.Sender.{MsgSend, QueryGen}
use nailgun.Sender.Doh.{doh_new}
use nailgun.Query.{
  Source, Dns, StaticGen, FileGen, RandomPkt, RandomQName, static_next, file_next, random_pkt_next,
  random_qname_next, file_new, static_new, random_pkt_new, random_qname_new,
}

-- Where the answers come from: the frames of a TCP stream from the target, the datagrams of a UDP
-- socket, or the channel of the client for DoH.
pub data Reader (Addr : Type 0) : Type 0 where
  tcp_frames : Addr → Reader Addr
  datagrams : Reader Addr
  responses : Reader Addr

-- Whether a connection, a socket and a client can be made.
pub record Network (Addr Ip Name : Type 0) : Type 0 where
  pub connects : Addr → Bool
  pub binds : Ip → Bool
  pub handshakes : Addr → Name → Bool

abbrev pub or_failed : Bool → {A : Type 0} → A → Result A
or_failed b a = if b then ok a else err Fault.failed

module _ {Addr Ip Name Src : Type 0} (net : Network Addr Ip Name) where
  -- `TcpGen::build`
  unfoldable pub build_tcp : Config Addr Ip Name Src → Result (Reader Addr × MsgSend Addr)
  build_tcp c = or_failed (net.connects c.target) (tcp_frames c.target, MsgSend.tcp)

  -- `UdpGen::build`
  unfoldable pub build_udp : Config Addr Ip Name Src → Result (Reader Addr × MsgSend Addr)
  build_udp c = or_failed (net.binds c.bind) (datagrams, MsgSend.udp c.target)

  -- `DohGen::build`
  unfoldable pub build_doh : Config Addr Ip Name Src → Result (Reader Addr × MsgSend Addr)
  unfolding doh_new
  build_doh c = do
    name ← or_fault c.name_server Fault.failed
    client ← doh_new net.handshakes c.target name
    ok (responses, MsgSend.doh)

  unfoldable pub build : Protocol → Config Addr Ip Name Src → Result (Reader Addr × MsgSend Addr)
  unfolding build_tcp build_udp build_doh
  build tcp c = build_tcp c
  build udp c = build_udp c
  build doh c = build_doh c

  -- The first statements of `Generator::run`: the rate limiter, and then the reader and the sender.
  unfoldable pub set_up : Config Addr Ip Name Src → Result (Option ℕ × Reader Addr × MsgSend Addr)
  set_up c = do bucket ← rate_limiter c; (reader, s) ← build c.protocol c; ok (bucket, reader, s)

-- The generator of queries that the sender's task runs with.
pub data TaskGen (Name RecordType DnsClass : Type 0) : Type 0 where
  from_file : FileGen → TaskGen Name RecordType DnsClass
  from_static : StaticGen Name RecordType DnsClass → TaskGen Name RecordType DnsClass
  from_pkt : RandomPkt → TaskGen Name RecordType DnsClass
  from_qname : RandomQName RecordType → TaskGen Name RecordType DnsClass

module _ {FilePath Name RecordType DnsClass : Type 0} where
  -- `sender_task`: a file that cannot be opened is an error. The random bytes and labels are drawn
  -- from `random`.
  unfoldable pub task_gen :
      (FilePath → Option (List (Result (List ℕ))))
      → (ℕ → ℕ)
      → Source FilePath Name RecordType DnsClass
      → Result (TaskGen Name RecordType DnsClass)
  unfolding file_new
  task_gen open_file random (Source.file path) = do g ← file_new open_file path; ok (from_file g)
  task_gen open_file random (Source.static name qtype class) =
      ok (from_static (static_new name qtype class))
  task_gen open_file random (Source.random_pkt size) = ok (from_pkt (random_pkt_new random size))
  task_gen open_file random (Source.random_qname qtype size) =
      ok (from_qname (random_qname_new random qtype size))

module _ {Name RecordType DnsClass : Type 0} (dns : Dns Name RecordType DnsClass) where
  unfoldable pub task_next :
      TaskGen Name RecordType DnsClass
      → ℕ
      → Result (Option (List ℕ) × TaskGen Name RecordType DnsClass)
  task_next (from_file g) id = do (m, g') ← file_next dns g id; ok (m, from_file g')
  task_next (from_static g) id = do (m, g') ← static_next dns g id; ok (m, from_static g')
  task_next (from_pkt g) id = do (m, g') ← random_pkt_next g id; ok (m, from_pkt g')
  task_next (from_qname g) id = do (m, g') ← random_qname_next dns g id; ok (m, from_qname g')

  abbrev pub task_queries : QueryGen (TaskGen Name RecordType DnsClass)
  task_queries = record { next_msg = task_next }
