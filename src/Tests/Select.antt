-- ===== src/Tests/Select.antt =====
-- What begins the shutdown, at one moment: bin/src/main.rs.
use nailgun.Prelude.{
  ℕ, ◌*◌, ◌≤◌, ◌<◌, ◌≡◌, refl, ◌↔◌, ◌⊎◌, true, false, List, [], ◌∷◌, nanos_per_sec,
}
use nailgun.Query.{RandomPkt}
use nailgun.Gen.Life.{Life, looping, detached}
use nailgun.Main.{AllOver}
use nailgun.Main.Select.{
  Moment, Cause, running, returned, panicked, run_over, limit_reached, is_ready, HasFirstPanic,
  is_ready_iff,
}
use nailgun.Tests.Main.{reporting}

-- The first generator has returned, the second has panicked, the third runs.
abbrev three : List (Life RandomPkt ℕ)
three =
    record reporting { stage = detached }
    ∷ record reporting { stage = detached }
    ∷ record reporting { stage = looping }
    ∷ []

abbrev moment : Moment
moment = record {
  is_configured = true;
  handles = returned ∷ panicked ∷ running ∷ [];
  caught = false;
  elapsed = 3 * nanos_per_sec;
  limit_secs = 5;
}

abbrev later : Moment
later = record moment { handles = running ∷ panicked ∷ running ∷ [] }

at_once : is_ready run_over moment ≡ true
unfolding is_ready
at_once = refl

not_noticed : is_ready run_over later ≡ false
unfolding is_ready
not_noticed = refl

not_yet : is_ready limit_reached moment ≡ false
unfolding is_ready
not_yet = refl

is_ready_iff_example : ((c : Cause) × (is_ready c moment ≡ true)) ↔ (
    (true ≡ false)
    ⊎ (AllOver three
        ⊎ (HasFirstPanic moment.handles
            ⊎ ((false ≡ true) ⊎ ((0 < 5) × (5 * nanos_per_sec ≤ 3 * nanos_per_sec))))))
is_ready_iff_example = is_ready_iff moment three (refl, (refl, (refl, tt)))
