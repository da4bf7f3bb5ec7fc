-- ===== src/Mcp/Lines.antt =====
-- apps/woof-mcp/src/lib.rs: `read_line_limited`. The input is what its buffers hold, one after the
-- other; a buffer is not empty, and the input ends after the last. Errors of the system are left out.
pub mod Chunks
use woof.Prelude.{
  ℕ, suc, ◌+◌, Bool, Option, none, some, List, [], ◌∷◌, ◌++◌, ltb, ◌==◌, if◌then◌else◌, length,
  take, drop,
}
use woof.Prelude.Text.{is_empty}

-- The first byte of a buffer and the others.
abbrev pub Buffers : Type 0
Buffers = List (ℕ × List ℕ)

pub data LineRead (S : Type 0) : Type 0 where
  line_read : List ℕ → S → LineRead S
  no_line : LineRead S
  line_too_large : LineRead S

abbrev pub next_position : Option ℕ → Option ℕ
next_position none = none
next_position (some p) = some (suc p)

-- `.position(|byte| *byte == b'\n')`
unfoldable pub newline_position : List ℕ → Option ℕ
newline_position [] = none
newline_position (c ∷ s) =
    let later = newline_position s in if c == 10 then some 0 else next_position later

-- What is left of a buffer, before the others.
abbrev pub unread : List ℕ → Buffers → Buffers
unread [] buffers = buffers
unread (c ∷ s) buffers = (c, s) ∷ buffers

abbrev pub at_end : List ℕ → LineRead Buffers
at_end line = if is_empty line then no_line else line_read line []

-- One round, with the rounds after it.
abbrev pub read_buffer :
    ℕ → List ℕ → List ℕ → Buffers → LineRead Buffers → Option ℕ → LineRead Buffers
read_buffer maximum line buffer buffers later none =
    if ltb maximum (length line + length buffer) then line_too_large else later
read_buffer maximum line buffer buffers later (some position) =
    if ltb maximum (length line + suc position)
    then line_too_large
    else line_read (line ++ take (suc position) buffer)
        (unread (drop (suc position) buffer) buffers)

unfoldable pub read_line_from : ℕ → List ℕ → Buffers → LineRead Buffers
read_line_from maximum line [] = at_end line
read_line_from maximum line ((c, s) ∷ buffers) =
    read_buffer maximum line (c ∷ s) buffers (read_line_from maximum (line ++ (c ∷ s)) buffers)
      (newline_position (c ∷ s))

unfoldable pub read_line_limited : ℕ → Buffers → LineRead Buffers
read_line_limited maximum buffers = read_line_from maximum [] buffers
