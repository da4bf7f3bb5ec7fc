-- ===== src/Chat/Sse.antt =====
-- crates/woof-llm/src/chat.rs: `SseDecoder`, which cuts the bytes of a response into the data of
-- server-sent events.
pub mod Boundary
pub mod Delimiters
pub mod Draining
pub mod Chunking
use woof.Prelude.{
  ℕ, zero, suc, ◌+◌, ◌-◌, Bool, true, false, ◌&&◌, Option, none, some, List, [], ◌∷◌, ◌++◌, ltb,
  leb, ◌==◌, if◌then◌else◌, length, take, drop,
}
use woof.Prelude.Text.{Text, codes, is_empty, trim_start}
use woof.Chat.Utf8.{from_utf8}

abbrev pub max_sse_buffer_bytes : ℕ
max_sse_buffer_bytes = 2097152

unfoldable pub begins_with : List ℕ → List ℕ → Bool
begins_with [] s = true
begins_with (c ∷ m) [] = false
begins_with (c ∷ m) (d ∷ s) = if c == d then begins_with m s else false

abbrev pub next_position : Option ℕ → Option ℕ
next_position none = none
next_position (some n) = some (suc n)

-- `.windows(n).position(|window| window == pattern)`
unfoldable pub window_position : List ℕ → List ℕ → Option ℕ
window_position pattern_bytes [] = none
window_position pattern_bytes (c ∷ s) =
    let later = window_position pattern_bytes s in
    if begins_with pattern_bytes (c ∷ s) then some 0 else next_position later

abbrev pub earlier : Option ℕ → Option ℕ → Option (ℕ × ℕ)
earlier (some left) (some right) = if leb left right then some (left, 2) else some (right, 4)
earlier (some position) none = some (position, 2)
earlier none (some position) = some (position, 4)
earlier none none = none

abbrev pub unix_end : List ℕ
unix_end = 10 ∷ 10 ∷ []

abbrev pub windows_end : List ℕ
windows_end = 13 ∷ 10 ∷ 13 ∷ 10 ∷ []

unfoldable pub event_boundary : List ℕ → Option (ℕ × ℕ)
event_boundary buffer =
    earlier (window_position unix_end buffer) (window_position windows_end buffer)

-- `str::lines`, less the removal of a trailing `\r`, which `trim_end_matches` does again.
unfoldable pub lines_from : Text → Text → List Text
lines_from line [] = if is_empty line then [] else line ∷ []
lines_from line (c ∷ s) =
    let ended = lines_from [] s in
    let longer = lines_from (line ++ (c ∷ [])) s in if c == 10 then line ∷ ended else longer

-- `.trim_end_matches('\r')`
unfoldable pub trim_returns : Text → Text
trim_returns [] = []
trim_returns (c ∷ s) =
    let rest = trim_returns s in if is_empty rest && c == 13 then [] else c ∷ rest

-- `.strip_prefix`
unfoldable pub strip_prefix : Text → Text → Option Text
strip_prefix [] s = some s
strip_prefix (c ∷ m) [] = none
strip_prefix (c ∷ m) (d ∷ s) = if c == d then strip_prefix m s else none

abbrev pub keep_data : Option Text → List Text → List Text
keep_data none rest = rest
keep_data (some data_text) rest = trim_start data_text ∷ rest

unfoldable pub data_lines : List Text → List Text
data_lines [] = []
data_lines (line ∷ lines) =
    keep_data (strip_prefix (codes "data:") (trim_returns line)) (data_lines lines)

-- `.join("\n")`
unfoldable pub join_lines : List Text → Text
join_lines [] = []
join_lines (line ∷ []) = line
join_lines (line ∷ next ∷ lines) = line ++ (10 ∷ join_lines (next ∷ lines))

abbrev pub event_of : List Text → List Text
event_of [] = []
event_of (line ∷ lines) = join_lines (line ∷ lines) ∷ []

abbrev pub block_text : Option Text → Option (List Text)
block_text none = none
block_text (some text) = some (event_of (data_lines (lines_from [] text)))

-- The event of a block, if it has data; `none` where the block is no UTF-8.
unfoldable pub block_event : List ℕ → Option (List Text)
block_event block = block_text (from_utf8 block)

-- What `push` returns, and the buffer that it leaves: `none` is `ChatError::InvalidStream`.
pub record Pushed : Type 0 where
  pub events : Option (List Text)
  pub buffer : List ℕ

abbrev pub prepend : List Text → Option (List Text) → Option (List Text)
prepend first none = none
prepend first (some later) = some (first ++ later)

abbrev pub after_block : Option (List Text) → List ℕ → Pushed → Pushed
after_block none rest pushed = record { events = none; buffer = rest }
after_block (some first) rest pushed = record {
  events = prepend first pushed.events;
  buffer = pushed.buffer;
}

-- One round, with the rounds after it.
abbrev pub drain_round : List ℕ → (List ℕ → Pushed) → Option (ℕ × ℕ) → Pushed
drain_round buffer later none = record { events = some []; buffer = buffer }
drain_round buffer later (some (position, delimiter_length)) =
    let rest = drop (position + delimiter_length) buffer in
    after_block (block_event (take position buffer)) rest (later rest)

-- The loop, on fuel.
unfoldable pub drain_from : ℕ → List ℕ → Pushed
drain_from zero buffer = record { events = some []; buffer = buffer }
drain_from (suc fuel) buffer = drain_round buffer (drain_from fuel) (event_boundary buffer)

unfoldable pub drain : List ℕ → Pushed
drain buffer = drain_from (suc (length buffer)) buffer

unfoldable pub push : List ℕ → List ℕ → Pushed
push buffer chunk =
    if ltb (max_sse_buffer_bytes - length buffer) (length chunk)
    then record { events = none; buffer = buffer }
    else drain (buffer ++ chunk)
