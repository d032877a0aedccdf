-- ===== src/Args/Names.antt =====
-- bin/src/args.rs: which texts are accepted.
use nailgun.Prelude.{codes, ℕ, ◌≡◌, refl, ◌↔◌, true, List, [], ◌∷◌, map, arith, ok}
use nailgun.Config.{Protocol, udp, tcp, doh}
use nailgun.Args.{
  to_lower, bytes_eq, LogStructure, debug, pretty, json, Family, inet, inet6, parse_log_structure,
  parse_protocol, parse_family,
}

bytes_eq_iff : (xs ys : List ℕ) → (bytes_eq xs ys ≡ true) ↔ (xs ≡ ys)
bytes_eq_iff [] [] = (λ h. refl, λ h. refl)
bytes_eq_iff [] (y ∷ ys) = (λ h. cc, λ h. cc)
bytes_eq_iff (x ∷ xs) [] = (λ h. cc, λ h. cc)
bytes_eq_iff (x ∷ xs) (y ∷ ys) =
    let ih = bytes_eq_iff xs ys in (λ h. ground arith, λ h. ground arith)

-- The names in lower case.
abbrev pub protocol_name : Protocol → List ℕ
protocol_name udp = codes "udp"
protocol_name tcp = codes "tcp"
protocol_name doh = codes "doh"

abbrev pub family_name : Family → List ℕ
family_name inet = codes "inet"
family_name inet6 = codes "inet6"

abbrev pub log_structure_name : LogStructure → List ℕ
log_structure_name json = codes "json"
log_structure_name pretty = codes "pretty"
log_structure_name debug = codes "debug"

-- A text is parsed as a protocol exactly if in lower case it is that protocol's name.
parse_protocol_iff :
    (s : List ℕ) (p : Protocol) → (parse_protocol s ≡ ok p) ↔ (map to_lower s ≡ protocol_name p)
unfolding parse_protocol
parse_protocol_iff s udp =
    (λ h. ground (arith, bytes_eq_iff (map to_lower s) (codes "udp")), λ h. rw h)
parse_protocol_iff s tcp =
    (λ h. ground (arith, bytes_eq_iff (map to_lower s) (codes "tcp")), λ h. rw h)
parse_protocol_iff s doh =
    (λ h. ground (arith, bytes_eq_iff (map to_lower s) (codes "doh")), λ h. rw h)

-- A text is parsed as a family of addresses exactly if in lower case it is that family's name.
parse_family_iff :
    (s : List ℕ) (f : Family) → (parse_family s ≡ ok f) ↔ (map to_lower s ≡ family_name f)
unfolding parse_family
parse_family_iff s inet =
    (λ h. ground (arith, bytes_eq_iff (map to_lower s) (codes "inet")), λ h. rw h)
parse_family_iff s inet6 =
    (λ h. ground (arith, bytes_eq_iff (map to_lower s) (codes "inet6")), λ h. rw h)

-- A text is parsed as a log format exactly if in lower case it is that format's name.
parse_log_structure_iff :
    (s : List ℕ) (o : LogStructure)
    → (parse_log_structure s ≡ ok o) ↔ (map to_lower s ≡ log_structure_name o)
unfolding parse_log_structure
parse_log_structure_iff s json =
    (λ h. ground (arith, bytes_eq_iff (map to_lower s) (codes "json")), λ h. rw h)
parse_log_structure_iff s pretty =
    (λ h. ground (arith, bytes_eq_iff (map to_lower s) (codes "pretty")), λ h. rw h)
parse_log_structure_iff s debug =
    (λ h. ground (arith, bytes_eq_iff (map to_lower s) (codes "debug")), λ h. rw h)

-- A text is parsed as a protocol, as a family of addresses or as a log format exactly if in lower
-- case it is the name of that protocol, family or format.
pub parse_names_iff :
    (s : List ℕ) (p : Protocol) (f : Family) (o : LogStructure)
    → ((parse_protocol s ≡ ok p) ↔ (map to_lower s ≡ protocol_name p))
      × ((parse_family s ≡ ok f) ↔ (map to_lower s ≡ family_name f))
      × ((parse_log_structure s ≡ ok o) ↔ (map to_lower s ≡ log_structure_name o))
parse_names_iff s p f o =
    (parse_protocol_iff s p, parse_family_iff s f, parse_log_structure_iff s o)
