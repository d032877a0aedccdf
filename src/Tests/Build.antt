-- ===== src/Tests/Build.antt =====
-- How a generator is built, the client for DoH and the log at concrete inputs: bin/src/gen.rs,
-- bin/src/query.rs, bin/src/sender.rs, bin/src/logs.rs.
use nailgun.Prelude.{
  ltb, codes, ℕ, ◌*◌, ◌-◌, ◌==◌, if◌then◌else◌, ◌≤◌, ◌<◌, ◌≡◌, refl, ◌⊎◌, inr, true, false, Option,
  none, some, List, [], ◌∷◌, ◌++◌, arith, length, Fault, Result, ok, err, ◌↔◌,
}
use mathlib.Core.List.{Perm}
use nailgun.Config.{Config}
use nailgun.Sender.Wire.{stream}
use nailgun.Sender.Doh.{
  DohSender, DohEvent, given, pushes, takes, answers, doh_new, doh_run, doh_run-doh_new,
}
use nailgun.Query.{Source, Dns}
use nailgun.Args.{Args, IpAddr, v4, prepare, query_src, target_of, to_config, bind_for, json}
use nailgun.Gen.Build.{Network, set_up, task_queries, from_file}
use nailgun.Gen.Build.Ready.{reader_of, sender_of, set_up-to_config}
use nailgun.Gen.Build.Files.{IsRead}
use nailgun.Gen.Build.Sent.{send_batch-AreRead}
use nailgun.Sender.{all_written, Sending, tcp, sent, send_batch}
use nailgun.Msg.Framing.{drain}
use nailgun.Gen.Build.{TaskGen}
use nailgun.Logs.{Style, as_json, stdout, to_file, Paths, both, setup, setup_lem}
use nailgun.Tests.Args.{google, one_address}
use nailgun.Tests.Msg.{plain}

abbrev online : Network (IpAddr × ℕ) IpAddr (List ℕ)
online = record { connects = λ t. true; binds = λ i. true; handshakes = λ t n. true }

-- Twenty queries a second for sixteen generators.
abbrev quick : Args ℕ ℕ ℕ
quick = record google { qps = 20 }

set_up-to_config_example :
    (c : Config (IpAddr × ℕ) IpAddr (List ℕ) (Source ℕ (List ℕ) ℕ ℕ)) × (bucket : Option ℕ)
    × (to_config one_address (record quick { bind_ip = some (v4 0); port = 443 }) ≡ ok c)
    × (set_up online c
        ≡ ok (bucket, reader_of quick.protocol c.target, sender_of quick.protocol c.target))
    × (((quick.qps ≡ 0) × (bucket ≡ none))
        ⊎ ((quota : ℕ) × (bucket ≡ some quota) × (0 < quota) × (quota * (1 * 16) ≤ 20)))
unfolding prepare query_src target_of bind_for
set_up-to_config_example =
    set_up-to_config one_address online quick (record quick { bind_ip = some (v4 0); port = 443 })
      (Source.random_qname 1 62) (v4 8) (some (codes "dns.google")) (λ t. refl) (λ i. refl)
      (λ t n. refl) refl refl refl (omega arith) (omega arith) (inr (omega arith))

-- A file with one line, and two ids.
abbrev one_line : List (Result (List ℕ))
one_line = ok (97 ∷ 32 ∷ 65 ∷ []) ∷ []

abbrev file_source : Source ℕ (List ℕ) (List ℕ) ℕ
file_source = Source.file 7

abbrev open_all : ℕ → Option (List (Result (List ℕ)))
open_all path = some one_line

-- A parser of names that takes up to 63 bytes.
abbrev strict : Dns (List ℕ) (List ℕ) ℕ
strict = record plain { name_from_str = λ s. if ltb 63 (length s) then none else some s }

-- Three messages: the second one is answered first, and the first one fails.
abbrev left_over : DohSender ℕ
left_over = record {
  rx = (3 ∷ []) ∷ [];
  awaited = [];
  addr = 443;
  resp = (9 ∷ [], 443) ∷ [];
  is_read = true;
}

abbrev three_requests : List DohEvent
three_requests =
    pushes (1 ∷ [])
    ∷ pushes (2 ∷ [])
    ∷ takes
    ∷ pushes (3 ∷ [])
    ∷ takes
    ∷ answers 1 (some (9 ∷ []))
    ∷ answers 0 none
    ∷ []

doh_run-doh_new_example :
    (taken : List (List ℕ)) × (over : List (List ℕ)) × ((1 ∷ []) ∷ (2 ∷ []) ∷ (3 ∷ []) ∷ []
      ≡ taken ++ (3 ∷ []) ∷ [])
    × Perm taken (over ++ [])
    × (length over ≡ 2)
    × (left_over.resp ≡ given 443 true three_requests)
unfolding doh_run doh_new
doh_run-doh_new_example =
    doh_run-doh_new (λ (a n : ℕ). true) 443 0 three_requests
      (record { rx = []; awaited = []; addr = 443; resp = []; is_read = true }) left_over refl refl

-- A path is a number: 0 has no directory.
abbrev numbers : Paths ℕ
numbers = record { parent = λ p. if p == 0 then none else some (p - 1); file_name = λ p. some p }

abbrev logged : Args ℕ ℕ ℕ
logged = record google { log_file = some 5 }

setup_lem_example :
    ((style : Style) × (logged.log_file ≡ none)
      × (setup numbers logged ≡ ok (record { style = style; target = stdout } ∷ [], false))
      × ((style ≡ as_json) ↔ (logged.output ≡ json)))
    ⊎ ((file directory name : ℕ) × (style style' : Style) × (logged.log_file ≡ some file)
        × (numbers.parent file ≡ some directory)
        × (numbers.file_name file ≡ some name)
        × (setup numbers logged ≡ ok (both style style' (to_file directory name), true))
        × ((style ≡ as_json) ↔ (logged.output ≡ json))
        × ((style' ≡ as_json) ↔ (logged.output ≡ json)))
    ⊎ ((file : ℕ) × (logged.log_file ≡ some file)
        × ((numbers.parent file ≡ none) ⊎ (numbers.file_name file ≡ none))
        × (setup numbers logged ≡ err Fault.failed))
setup_lem_example = setup_lem numbers logged

-- " ab\tA B" and "c d", and a line that cannot be read.
ab_is_read : IsRead plain (32 ∷ 97 ∷ 98 ∷ 9 ∷ 65 ∷ 32 ∷ 66 ∷ []) (97 ∷ 98 ∷ []) (65 ∷ [])
ab_is_read = record {
  before = 32 ∷ [];
  c = 97;
  w = 98 ∷ [];
  b = 9;
  between = [];
  d = 65;
  v = [];
  rest = 32 ∷ 66 ∷ [];
  blank = (refl, tt);
  spaced = (refl, tt);
  first = (refl, (refl, tt));
  second = (refl, tt);
  ended = refl;
  named = refl;
  typed = refl;
  whole = refl;
}

cd_is_read : IsRead plain (99 ∷ 32 ∷ 100 ∷ []) (99 ∷ []) (100 ∷ [])
cd_is_read = record {
  before = [];
  c = 99;
  w = [];
  b = 32;
  between = [];
  d = 100;
  v = [];
  rest = [];
  blank = tt;
  spaced = (refl, tt);
  first = (refl, tt);
  second = (refl, tt);
  ended = tt;
  named = refl;
  typed = refl;
  whole = refl;
}

abbrev readable : List (Result (List ℕ))
readable = ok (32 ∷ 97 ∷ 98 ∷ 9 ∷ 65 ∷ 32 ∷ 66 ∷ []) ∷ ok (99 ∷ 32 ∷ 100 ∷ []) ∷ []

abbrev asking : Sending (TaskGen (List ℕ) (List ℕ) ℕ) ℕ
asking = record {
  store = record { ids = []; in_flight = [] };
  atomic_store = record { sent = 0; timed_out = 0 };
  query_gen = from_file (record { rdr = readable ++ err Fault.failed ∷ [] });
  wire = [];
}

send_batch-AreRead_example :
    let (progress, s') =
      send_batch
        (task_queries plain)
        tcp
        ((515, 10, all_written) ∷ (7, 11, all_written) ∷ [])
        asking in
    (progress ≡ sent)
    × (s'.query_gen ≡ from_file (record { rdr = err Fault.failed ∷ [] }))
    × (drain {Addr = ℕ} 9 3 (stream s'.wire)
        ≡ ((2 ∷ 3 ∷ 97 ∷ 98 ∷ 65 ∷ [], 9) ∷ (0 ∷ 7 ∷ 99 ∷ 100 ∷ [], 9) ∷ [], []))
send_batch-AreRead_example =
    send_batch-AreRead plain (λ m. (_, refl)) 9 readable (err Fault.failed ∷ [])
      ((97 ∷ 98 ∷ [], 65 ∷ []) ∷ (99 ∷ [], 100 ∷ []) ∷ [])
      ((515, 10, all_written) ∷ (7, 11, all_written) ∷ []) asking (ab_is_read, (cd_is_read, tt))
      refl (refl, (refl, tt)) refl refl (omega arith) (omega arith)
