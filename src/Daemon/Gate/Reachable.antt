-- ===== src/Daemon/Gate/Reachable.antt =====
-- apps/woof_d/src/memory.rs: the invariant holds in every reachable state.
use woof.Daemon.Gate.{System, Step, run, reset, Steps, here, later}
use woof.Daemon.Gate.Invariant.{Inv}
use woof.Daemon.Gate.Invariant.Runs.{run-Inv}
use woof.Daemon.Gate.Invariant.Resets.{reset-Inv}

Step-Inv : {s t : System} → Step s t → Inv s → Inv t
Step-Inv (run i mv) inv = run-Inv inv i mv
Step-Inv (reset j mv) inv = reset-Inv inv j mv

pub Steps-Inv : {s t : System} → Steps s t → Inv s → Inv t
Steps-Inv here inv = inv
Steps-Inv (later r st) inv = Step-Inv st (Steps-Inv r inv)
