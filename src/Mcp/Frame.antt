-- ===== src/Mcp/Frame.antt =====
-- apps/woof-mcp/src/lib.rs: `read_frame` and `write_frame`, over any input of which lines and bytes
-- can be read. `body` stands for what `serde_json::to_vec` gives.
pub mod Reads
pub mod Header
pub mod RoundTrip
pub mod Bounds
use woof.Prelude.{
  ◌⊎◌, inl, inr, ℕ, zero, suc, ◌+◌, ◌-◌, Bool, true, false, ◌&&◌, ◌||◌, Option, none, some, List,
  [], ◌∷◌, ◌++◌, ltb, leb, ◌==◌, if◌then◌else◌, length, take, drop,
}
use woof.Prelude.Text.{Text, codes, is_empty, text_eq, trim}
use woof.Prelude.Decimal.{decimal, parse_usize}
use woof.Chat.Utf8.{from_utf8}
use woof.Mcp.Lines.{
  Buffers, LineRead, line_read, no_line, line_too_large, unread, read_line_limited,
}
use woof.Mcp.Lines.Chunks.{bytes_of}

abbrev pub max_frame_bytes : ℕ
max_frame_bytes = 1048576

abbrev pub max_first_line_bytes : ℕ
max_first_line_bytes = 1048578

abbrev pub max_header_line_bytes : ℕ
max_header_line_bytes = 8192

abbrev pub max_header_bytes : ℕ
max_header_bytes = 32768

abbrev pub max_header_lines : ℕ
max_header_lines = 64

abbrev pub max_leading_blank_lines : ℕ
max_leading_blank_lines = 8

pub data FrameMode : Type 0 where
  content_length_mode newline_mode : FrameMode

-- `Io` stands for the end of the input within a body.
pub data BridgeError : Type 0 where
  content_length frame_too_large io : BridgeError
  invalid_arguments : List ℕ → BridgeError

pub data FrameRead (S : Type 0) : Type 0 where
  frame : FrameMode → List ℕ → S → FrameRead S
  no_frame : FrameRead S
  frame_error : BridgeError → FrameRead S

-- `is_ascii_whitespace`
abbrev pub is_ascii_whitespace : ℕ → Bool
is_ascii_whitespace b = b == 32 || b == 9 || b == 10 || b == 12 || b == 13

unfoldable pub is_blank_line : List ℕ → Bool
is_blank_line [] = true
is_blank_line (b ∷ line) = is_ascii_whitespace b && is_blank_line line

abbrev pub to_ascii_lowercase : ℕ → ℕ
to_ascii_lowercase b = if leb 65 b && leb b 90 then b + 32 else b

unfoldable pub eq_ignore_ascii_case : List ℕ → List ℕ → Bool
eq_ignore_ascii_case [] [] = true
eq_ignore_ascii_case (a ∷ s) (b ∷ t) =
    to_ascii_lowercase a == to_ascii_lowercase b && eq_ignore_ascii_case s t
eq_ignore_ascii_case _ _ = false

unfoldable pub has_content_length_prefix : List ℕ → Bool
has_content_length_prefix line = eq_ignore_ascii_case (take 15 line) (codes "content-length:")

-- Without the last byte, where it is a carriage return.
unfoldable pub pop_return : List ℕ → List ℕ
pop_return [] = []
pop_return (b ∷ []) = if b == 13 then [] else b ∷ []
pop_return (b ∷ c ∷ line) = b ∷ pop_return (c ∷ line)

unfoldable pub pop_newline : List ℕ → Option (List ℕ)
pop_newline [] = none
pop_newline (b ∷ []) = if b == 10 then some [] else none
pop_newline (b ∷ c ∷ line) = elim (pop_newline (c ∷ line)) [
  | none ↦ none
  | some popped ↦ some (b ∷ popped)
]

unfoldable pub trim_line_ending : List ℕ → List ℕ
trim_line_ending line = elim (pop_newline line) [ none ↦ line | some popped ↦ pop_return popped ]

-- `split_once(':')`, the part after.
unfoldable pub after_colon : Text → Option Text
after_colon [] = none
after_colon (c ∷ s) = let later = after_colon s in if c == 58 then some s else later

abbrev pub parse_value : Option Text → Option ℕ
parse_value none = none
parse_value (some value) = parse_usize (trim value)

abbrev pub header_value : Option Text → Option Text
header_value none = none
header_value (some header) = after_colon header

abbrev pub within_limit : Option ℕ → BridgeError ⊎ ℕ
within_limit none = inl content_length
within_limit (some length_of_body) =
    if ltb max_frame_bytes length_of_body then inl frame_too_large else inr length_of_body

unfoldable pub parse_content_length : List ℕ → BridgeError ⊎ ℕ
parse_content_length header = within_limit (parse_value (header_value (from_utf8 header)))

module _ {S : Type 0} (read_line : ℕ → S → LineRead S)
    (read_exact : ℕ → S → Option (List ℕ × S)) where
  abbrev pub read_body : Option (List ℕ × S) → FrameRead S
  read_body none = frame_error io
  read_body (some (body, input)) = frame content_length_mode body input

  -- A header line after the first, with the lines after it.
  abbrev pub read_header : ℕ → ℕ → Bool → (ℕ → S → FrameRead S) → LineRead S → FrameRead S
  read_header length_of_body header_bytes is_over later no_line = frame_error content_length
  read_header length_of_body header_bytes is_over later line_too_large = frame_error frame_too_large
  read_header length_of_body header_bytes is_over later (line_read header input) =
      if ltb max_header_bytes (header_bytes + length header) || is_over
      then frame_error frame_too_large
      else if is_blank_line header
      then read_body (read_exact length_of_body input)
      else if has_content_length_prefix header
      then frame_error content_length
      else later (header_bytes + length header) input

  -- The inner loop, with the number of lines that may still come.
  unfoldable pub read_headers : ℕ → ℕ → ℕ → S → FrameRead S
  read_headers zero length_of_body header_bytes input =
      read_header length_of_body header_bytes true (λ n rest. frame_error frame_too_large)
        (read_line max_header_line_bytes input)
  read_headers (suc lines) length_of_body header_bytes input =
      read_header length_of_body header_bytes false (read_headers lines length_of_body)
        (read_line max_header_line_bytes input)

  abbrev pub read_content : List ℕ → S → BridgeError ⊎ ℕ → FrameRead S
  read_content first_line input (inl e) = frame_error e
  read_content first_line input (inr length_of_body) =
      read_headers (max_header_lines - 1) length_of_body (length first_line) input

  -- What follows a line that is not blank.
  unfoldable pub read_first : List ℕ → S → FrameRead S
  read_first first_line input =
      if has_content_length_prefix first_line
      then (if ltb max_header_line_bytes (length first_line)
          then frame_error frame_too_large
          else read_content first_line input (parse_content_length first_line))
      else if ltb max_frame_bytes (length (trim_line_ending first_line))
      then frame_error frame_too_large
      else frame newline_mode (trim_line_ending first_line) input

  abbrev pub read_lines : (S → FrameRead S) → LineRead S → FrameRead S
  read_lines after_blank no_line = no_frame
  read_lines after_blank line_too_large = frame_error frame_too_large
  read_lines after_blank (line_read line input) =
      if is_blank_line line then after_blank input else read_first line input

  -- The outer loop, with the number of blank lines that may still come.
  unfoldable pub read_frame_from : ℕ → S → FrameRead S
  read_frame_from zero input =
      read_lines (λ rest. frame_error frame_too_large) (read_line max_first_line_bytes input)
  read_frame_from (suc blanks) input =
      read_lines (read_frame_from blanks) (read_line max_first_line_bytes input)

-- `read_exact`, over buffers. What is left of them is put into one.
unfoldable pub read_exact : ℕ → Buffers → Option (List ℕ × Buffers)
read_exact count buffers =
    if ltb (length (bytes_of buffers)) count
    then none
    else some (take count (bytes_of buffers), unread (drop count (bytes_of buffers)) [])

unfoldable pub read_frame : Buffers → FrameRead Buffers
read_frame buffers = read_frame_from read_line_limited read_exact max_leading_blank_lines buffers

unfoldable pub write_frame : FrameMode → List ℕ → List ℕ
write_frame content_length_mode body =
    codes "Content-Length: " ++ (decimal (length body) ++ (13 ∷ 10 ∷ 13 ∷ 10 ∷ body))
write_frame newline_mode body = body ++ (10 ∷ [])
