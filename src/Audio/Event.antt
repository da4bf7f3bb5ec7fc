-- ===== src/Audio/Event.antt =====
-- crates/woof-audio/src/session.rs: what a session tells the desktop app. A level is of any type L.
use woof.Prelude.Text.{Text}

pub data AudioEvent (L : Type 0) : Type 0 where
  start : AudioEvent L
  level : L → AudioEvent L
  processing : AudioEvent L
  delta : Text → Text → AudioEvent L
  done : Text → Text → AudioEvent L
  cancel : AudioEvent L
