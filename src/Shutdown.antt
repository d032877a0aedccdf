-- ===== src/Shutdown.antt =====
-- bin/src/shutdown.rs: the flag of a generator, and the receiver that it listens to. The receiver of
-- the tokio crate is represented by what it knows: `main` only ever drops the sender, so a receiver
-- either waits or is told that its channel is closed, and `recv` ignores which answer it got.
use nailgun.Prelude.{Bool, true, false, Option, none, some}

-- What `broadcast::Receiver::recv` does when it is asked: it waits, or it returns a value or an
-- error.
pub data Notice : Type 0 where
  waits returns : Notice

pub record Shutdown : Type 0 where
  pub shutdown : Bool
  pub notify : Notice

-- `Shutdown::new`
abbrev pub listening : Notice → Shutdown
listening notify = record { shutdown = false; notify = notify }

abbrev pub is_shutdown : Shutdown → Bool
is_shutdown s = s.shutdown

-- `recv`, where `none` stands for waiting.
unfoldable pub recv : Shutdown → Option Shutdown
recv s = elim s.shutdown [
  | true ↦ some s
  | false ↦ elim s.notify [ waits ↦ none | returns ↦ some (record s { shutdown = true }) ]
]
