-- ===== src/Gen/Build/Supply.antt =====
-- bin/src/query.rs with bin/src/gen.rs: how many messages each source of queries has.
use nailgun.Prelude.{ℕ, ◌<◌, ◌≡◌, none, some, ◌≤◌}
use nailgun.Query.{Dns, draw}
use nailgun.Gen.Build.{TaskGen, from_file, from_qname}

module _ {Name RecordType DnsClass : Type 0} (dns : Dns Name RecordType DnsClass) where
  -- What the parser of names does with a label of letters and digits: one of 1 to 63 bytes is a name, a
  -- longer one is none.
  abbrev pub TakesLabels : (ℕ → ℕ) → Type 0
  TakesLabels random =
      ((k size : ℕ)
        → 0 < size
        → size ≤ 63
        → (n : Name) × (dns.name_from_str (draw random k size) ≡ some n))
      × ((k size : ℕ) → 63 < size → dns.name_from_str (draw random k size) ≡ none)

  -- A generator that reads no file, and makes no labels that are no names.
  abbrev pub IsEndless : (ℕ → ℕ) → TaskGen Name RecordType DnsClass → Type 0
  IsEndless random (from_file g) = ⊥
  IsEndless random (from_qname g) = (g.random ≡ random) × (0 < g.len) × (g.len ≤ 63)
  IsEndless random _ = Unit {0}
