-- ===== src/Args/Setup.antt =====
-- bin/src/main.rs and bin/src/args.rs: from the arguments to the configuration.
use nailgun.Prelude.{
  ℕ, ◌*◌, ◌%◌, ◌≡◌, refl, ◌⊎◌, inl, inr, Bool, true, false, ◌&&◌, Option, none, some, List, arith,
  ◌==◌, if◌then◌else◌, Bool-cases, Fault, ok, err, >>=-eq-ok, u64_mod, nanos_per_sec,
}
use nailgun.Config.{Config}
use nailgun.Query.{Source}
use nailgun.Args.{
  Args, Family, inet, inet6, IpAddr, v4, v6, Lookup, bind_for, prepare, query_src, target_of,
  to_config, is_doh,
}

-- Whether an address is of a family.
abbrev pub is_of : Family → IpAddr → Bool
is_of inet (v4 a) = true
is_of inet6 (v6 a) = true
is_of _ _ = false

abbrev pub unspecified : Family → IpAddr
unspecified inet = v4 0
unspecified inet6 = v6 0

-- The address to bind to: the family's unspecified address if none is given, the given one if it
-- is of the family, and else the start fails.
bind_for_lem :
    (f : Family) (ip : IpAddr)
    → (bind_for f none ≡ ok (unspecified f))
      × (bind_for f (some ip) ≡ (if is_of f ip then ok ip else err Fault.failed))
      × (is_of f (unspecified f) ≡ true)
unfolding bind_for
bind_for_lem inet (v4 a) = (refl, refl, refl)
bind_for_lem inet (v6 a) = (refl, refl, refl)
bind_for_lem inet6 (v4 a) = (refl, refl, refl)
bind_for_lem inet6 (v6 a) = (refl, refl, refl)

bind_for-is_of :
    (f : Family) (o : Option IpAddr) {b : IpAddr} → bind_for f o ≡ ok b → is_of f b ≡ true
unfolding bind_for
bind_for-is_of inet none h = ground arith
bind_for-is_of inet6 none h = ground arith
bind_for-is_of inet (some (v4 a)) h = ground arith
bind_for-is_of inet (some (v6 a)) h = ground arith
bind_for-is_of inet6 (some (v4 a)) h = ground arith
bind_for-is_of inet6 (some (v6 a)) h = ground arith

module _ {FilePath Name RecordType DnsClass : Type 0} (l : Lookup Name) where
  query_src-prepared :
      (a : Args FilePath RecordType DnsClass) (b : Option IpAddr) (p : ℕ)
      → query_src l (record a { bind_ip = b; port = p }) ≡ query_src l a
  unfolding query_src
  query_src-prepared a b p = refl

  target_of-prepared :
      (a : Args FilePath RecordType DnsClass) (b : Option IpAddr) (p : ℕ)
      → target_of l (record a { bind_ip = b; port = p }) ≡ target_of l a
  unfolding target_of
  target_of-prepared a b p = refl

  -- For DoH a target that is found has been resolved from a name.
  target_of-doh :
      (a : Args FilePath RecordType DnsClass) {ip : IpAddr} {server : Option (List ℕ)}
      → target_of l a ≡ ok (ip, server)
      → (is_doh a.protocol ≡ false) ⊎ (server ≡ some a.target)
  unfolding target_of
  target_of-doh a h = elim (Bool-cases (is_doh a.protocol)) [
    | inl d ↦ inr (ground arith)
    | inr other ↦ inl other
  ]

  -- With arguments that `main` accepts, for which the source of queries and the target can be found:
  -- there is a configuration. It binds to an address of the family; it sends to the target found, at
  -- port 443 if the protocol is DoH and the port is 53, and else at the port given; the number of
  -- generators is the product of the two counts modulo 2 ^ 64; the source of queries, the protocol,
  -- the rate and the timeout are those asked for; and for DoH it has the name given.
  pub to_config-prepare :
      (a a' : Args FilePath RecordType DnsClass) (src : Source FilePath Name RecordType DnsClass)
      (ip : IpAddr) (server : Option (List ℕ))
      → prepare a ≡ ok a'
      → query_src l a ≡ ok src
      → target_of l a ≡ ok (ip, server)
      → (c : Config (IpAddr × ℕ) IpAddr (List ℕ) (Source FilePath Name RecordType DnsClass))
        × (to_config l a' ≡ ok c)
        × (is_of a.family c.bind ≡ true)
        × (c.target ≡ (ip, if is_doh a.protocol && a.port == 53 then 443 else a.port))
        × (c.generators ≡ (a.tcount * a.wcount) % u64_mod)
        × (c.query_src ≡ src)
        × (c.protocol ≡ a.protocol)
        × (c.qps ≡ a.qps)
        × (c.timeout ≡ a.timeout * nanos_per_sec)
        × ((is_doh a.protocol ≡ false) ⊎ (c.name_server ≡ some a.target))
  unfolding prepare to_config
  to_config-prepare a a' src ip server h found target =
      let (b, fits, same) = >>=-eq-ok (bind_for a.family a.bind_ip) _ h in
      let port : ℕ = if is_doh a.protocol && a.port == 53 then 443 else a.port in
      let same' : record a { bind_ip = some b; port = port } ≡ a' = ground arith in
      rw (← same') (
        record {
          target = (ip, port);
          name_server = server;
          protocol = a.protocol;
          bind = b;
          qps = a.qps;
          timeout = a.timeout * nanos_per_sec;
          generators = (a.tcount * a.wcount) % u64_mod;
          query_src = src;
        },
        rw (query_src-prepared a (some b) port, found, target_of-prepared a (some b) port, target),
        bind_for-is_of a.family a.bind_ip fits,
        refl,
        refl,
        refl,
        refl,
        refl,
        refl,
        target_of-doh a target,
      )
