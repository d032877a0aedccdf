-- ===== src/Main/Reached.antt =====
-- bin/src/main.rs with bin/src/gen.rs: what holds of every generator in every state of the program.
use nailgun.Prelude.{ℕ, ◌≡◌, List, [], ◌∷◌, count}
use nailgun.Shutdown.{Shutdown}
use nailgun.Gen.Life.{Life}
use nailgun.Gen.Fair.Moves.{IsFair}
use nailgun.Main.{Spawn}

abbrev pub AllFair : {G Addr : Type 0} → List (Life G Addr) → Type 0
AllFair [] = Unit {0}
AllFair (l ∷ ls) = IsFair l × AllFair ls

-- Every shuffle permutes.
abbrev pub AllPermute : {G : Type 0} → List (Spawn G) → Type 0
AllPermute [] = Unit {0}
AllPermute (p ∷ ps) = ((j : ℕ) (l : List ℕ) → count j (p.shuffle l) ≡ count j l) × AllPermute ps
