-- ===== src/Realtime/Turn.antt =====
-- crates/woof-llm/src/realtime.rs: `TurnState`.
use woof.Prelude.{ℕ, ◌+◌, ◌-◌, Bool, true, false, not, ◌&&◌, ◌==◌, ltb, if◌then◌else◌, min}

-- The largest `usize`.
abbrev pub usize_max : ℕ
usize_max = 18446744073709551615

pub data FinishDisposition : Type 0 where
  commit_and_wait wait complete : FinishDisposition

pub record TurnState : Type 0 where
  pub has_uncommitted_audio : Bool
  pub pending_transcriptions : ℕ  -- usize
  pub finishing : Bool

unfoldable pub default_turn : TurnState
default_turn = record {
  has_uncommitted_audio = false;
  pending_transcriptions = 0;
  finishing = false;
}

unfoldable pub append : TurnState → TurnState
append t = record t { has_uncommitted_audio = true }

unfoldable pub clear : TurnState → TurnState
clear t = record t { has_uncommitted_audio = false }

unfoldable pub commit : TurnState → TurnState × Bool
commit t = if not t.has_uncommitted_audio then (t, false) else (
  record t {
    has_uncommitted_audio = false;
    pending_transcriptions = min usize_max (t.pending_transcriptions + 1);
  },
  true,
)

unfoldable pub finish : TurnState → TurnState × FinishDisposition
unfolding commit
finish t =
    let (t', committed) = commit (record t { finishing = true }) in
    (
      t',
      if committed
          then commit_and_wait
          else if ltb 0 t'.pending_transcriptions
          then wait
          else FinishDisposition.complete,
    )

unfoldable pub completed : TurnState → TurnState × Bool
completed t =
    let pending = t.pending_transcriptions - 1 in
    (record t { pending_transcriptions = pending }, t.finishing && pending == 0)
