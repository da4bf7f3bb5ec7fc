-- ===== src/Supervisor/PauseSync.antt =====
-- apps/woof/src-tauri/src/supervisor.rs: `CapturePauseSync`, which applies the stored pause
-- preference once for each generation of a healthy daemon.
use woof.Prelude.{ℕ, Bool, true, false, not, ◌||◌, Option, none, some, if◌then◌else◌, is_number}

pub record CapturePauseSync : Type 0 where
  pub applied_generation : Option ℕ
  pub in_flight_generation : Option ℕ

unfoldable pub default_sync : CapturePauseSync
default_sync = record { applied_generation = none; in_flight_generation = none }

unfoldable pub begin : CapturePauseSync → ℕ → Bool → CapturePauseSync × Bool
begin s generation healthy =
    if not healthy
      || is_number s.applied_generation generation
      || is_number s.in_flight_generation generation
    then (s, false)
    else (record s { in_flight_generation = some generation }, true)

unfoldable pub finish : CapturePauseSync → ℕ → Bool → CapturePauseSync
finish s generation succeeded =
    if not (is_number s.in_flight_generation generation) then s else record s {
      in_flight_generation = none;
      applied_generation = if succeeded then some generation else s.applied_generation;
    }
