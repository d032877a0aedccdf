-- ===== src/Gen/Build/Ready.antt =====
-- bin/src/main.rs, bin/src/args.rs, bin/src/config.rs and bin/src/gen.rs together: from accepted
-- arguments to a generator that is set up.
use nailgun.Prelude.{
  ℕ, ◌*◌, ◌≤◌, ◌<◌, ◌≡◌, refl, ◌⊎◌, inl, inr, true, false, Option, none, some, List, arith, ok,
  u32_mod,
}
use nailgun.Config.{Config, Protocol, udp, tcp, doh, rate_limiter}
use nailgun.Config.Rate.{rate_limiter_lem}
use nailgun.Query.{Source}
use nailgun.Args.{Args, IpAddr, Lookup, prepare, query_src, target_of, to_config, is_doh}
use nailgun.Args.Setup.{to_config-prepare}
use nailgun.Sender.{MsgSend}
use nailgun.Gen.Build.{Reader, tcp_frames, datagrams, responses, Network, build, set_up}

-- The sender and the reader that belong to a protocol.
abbrev pub sender_of : {Addr : Type 0} → Protocol → Addr → MsgSend Addr
sender_of udp target = MsgSend.udp target
sender_of tcp target = MsgSend.tcp
sender_of doh target = MsgSend.doh

abbrev pub reader_of : {Addr : Type 0} → Protocol → Addr → Reader Addr
reader_of udp target = datagrams
reader_of tcp target = tcp_frames target
reader_of doh target = responses

module _ {Addr Ip Name Src : Type 0} (net : Network Addr Ip Name) where
  build_lem :
      (c : Config Addr Ip Name Src) (p : Protocol)
      → ((a : Addr) → net.connects a ≡ true)
      → ((i : Ip) → net.binds i ≡ true)
      → ((a : Addr) (n : Name) → net.handshakes a n ≡ true)
      → (is_doh p ≡ false) ⊎ ((n : Name) × (c.name_server ≡ some n))
      → build net p c ≡ ok (reader_of p c.target, sender_of p c.target)
  unfolding build is_doh
  build_lem c tcp tcp_up udp_up doh_up named = rw (tcp_up c.target) refl
  build_lem c udp tcp_up udp_up doh_up named = rw (udp_up c.bind) refl
  build_lem c doh tcp_up udp_up doh_up (inl other) = absurd (ground arith)
  build_lem c doh tcp_up udp_up doh_up (inr (n, e)) = rw (e, doh_up c.target n) refl

  set_up_of :
      (c : Config Addr Ip Name Src) (bucket : Option ℕ) (p : Protocol) {r : Reader Addr}
      {s : MsgSend Addr}
      → rate_limiter c ≡ ok bucket
      → c.protocol ≡ p
      → build net p c ≡ ok (r, s)
      → set_up net c ≡ ok (bucket, r, s)
  unfolding set_up
  set_up_of c bucket p limiter proto built = simp (limiter, proto, built)

module _ {FilePath Name RecordType DnsClass : Type 0} (l : Lookup Name) where
  -- With arguments that `main` accepts, for which the source of queries and the target can be found,
  -- and a network on which everything can be connected; with at least one generator, no more than u32
  -- can hold, and a rate of 0 or of at least one query a second for each: there is a configuration,
  -- and each generator is set up, with the reader and the sender of the protocol asked for and, if
  -- there is a rate, a limiter of a positive quota that keeps all generators together within it.
  pub set_up-to_config :
      (net : Network (IpAddr × ℕ) IpAddr (List ℕ)) (a a' : Args FilePath RecordType DnsClass)
      (src : Source FilePath Name RecordType DnsClass) (ip : IpAddr) (server : Option (List ℕ))
      → ((t : IpAddr × ℕ) → net.connects t ≡ true)
      → ((i : IpAddr) → net.binds i ≡ true)
      → ((t : IpAddr × ℕ) (n : List ℕ) → net.handshakes t n ≡ true)
      → prepare a ≡ ok a'
      → query_src l a ≡ ok src
      → target_of l a ≡ ok (ip, server)
      → 0 < a.tcount * a.wcount
      → a.tcount * a.wcount < u32_mod
      → (a.qps ≡ 0) ⊎ (a.tcount * a.wcount ≤ a.qps)
      → (c : Config (IpAddr × ℕ) IpAddr (List ℕ) (Source FilePath Name RecordType DnsClass))
        × (bucket : Option ℕ) × (to_config l a' ≡ ok c)
        × (set_up net c ≡ ok (bucket, reader_of a.protocol c.target, sender_of a.protocol c.target))
        × (((a.qps ≡ 0) × (bucket ≡ none))
            ⊎ ((quota : ℕ) × (bucket ≡ some quota)
                × (0 < quota)
                × (quota * (a.tcount * a.wcount) ≤ a.qps)))
  set_up-to_config net a a' src ip server tcp_up udp_up doh_up accepted found target pos fits rate =
      let (c, made, of, addr, gens, from, proto, qps, timeout, named) =
        to_config-prepare l a a' src ip server accepted found target in
      let count : c.generators ≡ a.tcount * a.wcount = omega arith in
      let name : (is_doh a.protocol ≡ false) ⊎ ((n : List ℕ) × (c.name_server ≡ some n)) =
        elim named [ inl other ↦ inl other | inr n ↦ inr (a.target, n) ] in
      let built = build_lem net c a.protocol tcp_up udp_up doh_up name in
      elim (rate_limiter_lem c (omega arith) (omega arith)) [
        | inl (zero_rate, none_made) ↦ (
          c,
          none,
          made,
          set_up_of net c none a.protocol none_made proto built,
          inl (omega arith, refl),
        )
        | inr (inl (enough, (q, limiter, positive, within, beyond))) ↦ (
          c,
          some q,
          made,
          set_up_of net c (some q) a.protocol limiter proto built,
          inr (q, refl, positive, rw (count, qps) at within),
        )
        | inr (inr (some_rate, less, panics)) ↦ absurd (omega arith)
      ]
