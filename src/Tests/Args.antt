-- ===== src/Tests/Args.antt =====
-- The arguments at concrete inputs: bin/src/args.rs, bin/src/main.rs.
use nailgun.Prelude.{
  codes, ℕ, ◌*◌, ◌%◌, ◌≡◌, refl, ◌↔◌, ◌⊎◌, true, false, ◌&&◌, none, some, List, [], ◌∷◌, map, ◌==◌,
  if◌then◌else◌, ok, u64_mod, nanos_per_sec,
}
use nailgun.Config.{Config, tcp, doh}
use nailgun.Query.{Source}
use nailgun.Args.{
  to_lower, json, inet, inet6, parse_protocol, parse_family, parse_log_structure, IpAddr, v4, Args,
  Lookup, GenType, bind_for, prepare, query_src, target_of, to_config, is_doh,
}
use nailgun.Args.Names.{protocol_name, family_name, log_structure_name, parse_names_iff}
use nailgun.Args.Setup.{is_of, to_config-prepare}

parse_names_iff_example :
    ((parse_protocol (codes "TcP") ≡ ok tcp) ↔ (map to_lower (codes "TcP") ≡ protocol_name tcp))
    × ((parse_family (codes "TcP") ≡ ok inet6) ↔ (map to_lower (codes "TcP") ≡ family_name inet6))
    × ((parse_log_structure (codes "TcP") ≡ ok json)
        ↔ (map to_lower (codes "TcP") ≡ log_structure_name json))
parse_names_iff_example = parse_names_iff (codes "TcP") tcp inet6 json

parsed : parse_protocol (codes "DoH") ≡ ok doh
unfolding parse_protocol to_lower
parsed = refl

abbrev pub google : Args ℕ ℕ ℕ
google = record {
  target = codes "dns.google";
  bind_ip = none;
  port = 53;
  family = inet;
  record_name = codes "test.com.";
  qtype = 1;
  class = 1;
  timeout = 2;
  protocol = doh;
  qps = 2;
  tcount = 1;
  wcount = 16;
  limit_secs = 0;
  output = json;
  generator = some (GenType.random_qname 62);
  log_file = none;
}

-- Every name resolves to one address, and no text is an address.
abbrev pub one_address : Lookup (List ℕ)
one_address = record {
  from_ascii = λ s. some s;
  parse_ip = λ s. none;
  lookup_ip = λ s. ok (v4 8 ∷ []);
}

to_config-prepare_example :
    (c : Config (IpAddr × ℕ) IpAddr (List ℕ) (Source ℕ (List ℕ) ℕ ℕ)) × (to_config one_address
        (record google { bind_ip = some (v4 0); port = 443 })
      ≡ ok c)
    × (is_of inet c.bind ≡ true)
    × (c.target ≡ (v4 8, if is_doh doh && 53 == 53 then 443 else 53))
    × (c.generators ≡ (1 * 16) % u64_mod)
    × (c.query_src ≡ Source.random_qname 1 62)
    × (c.protocol ≡ doh)
    × (c.qps ≡ google.qps)
    × (c.timeout ≡ google.timeout * nanos_per_sec)
    × ((is_doh doh ≡ false) ⊎ (c.name_server ≡ some (codes "dns.google")))
unfolding prepare query_src target_of bind_for
to_config-prepare_example =
    to_config-prepare one_address google (record google { bind_ip = some (v4 0); port = 443 })
      (Source.random_qname 1 62) (v4 8) (some (codes "dns.google")) refl refl refl
