-- ===== src/Mcp/Frame/Reads.antt =====
-- apps/woof-mcp/src/lib.rs: a frame depends on the bytes of the input, and its body is bounded.
use woof.Prelude.{
  ◌⊎◌, inl, inr, ℕ, zero, suc, ◌+◌, ◌-◌, ◌≡◌, refl, ap, ◌∙◌, Bool, true, false, ◌||◌, Option, none,
  some, List, [], append-nil, ltb, if◌then◌else◌, length, take, drop,
}
use woof.Mcp.Lines.{
  Buffers, LineRead, line_read, no_line, line_too_large, unread, read_line_limited,
}
use woof.Mcp.Lines.Chunks.{bytes_of, read_line, joined, unread-bytes, read_line_limited-bytes_of}
use woof.Mcp.Frame.{
  BridgeError, max_frame_bytes, max_header_bytes, max_header_line_bytes, max_header_lines,
  max_leading_blank_lines, max_first_line_bytes, FrameRead, content_length_mode, frame, no_frame,
  frame_error, frame_too_large, is_blank_line, has_content_length_prefix, trim_line_ending,
  parse_content_length, read_body, read_header, read_headers, read_content, read_first, read_lines,
  read_frame_from, read_exact, read_frame,
}

-- The frame that bytes in one piece begin with.
unfoldable pub read_exact_bytes : ℕ → List ℕ → Option (List ℕ × List ℕ)
read_exact_bytes count s = if ltb (length s) count then none else some (take count s, drop count s)

unfoldable pub read_frame_bytes : List ℕ → FrameRead (List ℕ)
read_frame_bytes s = read_frame_from read_line read_exact_bytes max_leading_blank_lines s

abbrev pub frame_bytes : FrameRead Buffers → FrameRead (List ℕ)
frame_bytes (frame mode body rest) = frame mode body (bytes_of rest)
frame_bytes no_frame = no_frame
frame_bytes (frame_error e) = frame_error e

-- A reader of buffers and one of bytes that agree.
abbrev IsSame : (Buffers → FrameRead Buffers) → (List ℕ → FrameRead (List ℕ)) → Type 0
IsSame f g = (buffers : Buffers) → frame_bytes (f buffers) ≡ g (bytes_of buffers)

if_frame :
    (b : Bool) (x y : FrameRead Buffers) (x' y' : FrameRead (List ℕ))
    → frame_bytes x ≡ x'
    → frame_bytes y ≡ y'
    → frame_bytes (if b then x else y) ≡ (if b then x' else y')
if_frame true x y x' y' h k = h
if_frame false x y x' y' h k = k

body-bytes :
    (count : ℕ)
    → IsSame
        (λ buffers. read_body read_line_limited read_exact (read_exact count buffers))
        (λ s. read_body read_line read_exact_bytes (read_exact_bytes count s))
unfolding read_exact read_exact_bytes bytes_of
body-bytes count buffers = choose (ltb (length (bytes_of buffers)) count)
  where
    choose :
        (b : Bool)
        → frame_bytes (
            read_body read_line_limited read_exact (
              if b
              then none
              else some (take count (bytes_of buffers), unread (drop count (bytes_of buffers)) [])))
          ≡ read_body read_line read_exact_bytes (
              if b
              then none
              else some (take count (bytes_of buffers), drop count (bytes_of buffers)))
    choose true = refl
    choose false =
        ap (frame content_length_mode (take count (bytes_of buffers)))
          (unread-bytes (drop count (bytes_of buffers)) [] ∙ append-nil _)

header-bytes :
    (count n : ℕ) (is_over : Bool) (later : ℕ → Buffers → FrameRead Buffers)
    (later' : ℕ → List ℕ → FrameRead (List ℕ)) (r : LineRead Buffers)
    → ((m : ℕ) → IsSame (later m) (later' m))
    → frame_bytes (read_header read_line_limited read_exact count n is_over later r)
      ≡ read_header read_line read_exact_bytes count n is_over later' (joined r)
header-bytes count n is_over later later' no_line same = refl
header-bytes count n is_over later later' line_too_large same = refl
header-bytes count n is_over later later' (line_read header input) same =
    if_frame (ltb max_header_bytes (n + length header) || is_over) _ _ _ _ refl (
      if_frame (is_blank_line header) _ _ _ _ (body-bytes count input)
        (if_frame (has_content_length_prefix header) _ _ _ _ refl (same (n + length header) input)))

headers-bytes :
    (lines count n : ℕ)
    → IsSame
        (read_headers read_line_limited read_exact lines count n)
        (read_headers read_line read_exact_bytes lines count n)
unfolding read_headers
headers-bytes zero count n buffers =
    header-bytes count n true (λ m rest. frame_error frame_too_large)
      (λ m rest. frame_error frame_too_large) (read_line_limited max_header_line_bytes buffers)
      (λ m rest. refl)
    ∙ ap
        (read_header read_line read_exact_bytes count n true
          (λ m rest. frame_error frame_too_large))
        (read_line_limited-bytes_of max_header_line_bytes buffers)
headers-bytes (suc lines) count n buffers =
    header-bytes count n false (read_headers read_line_limited read_exact lines count)
      (read_headers read_line read_exact_bytes lines count)
      (read_line_limited max_header_line_bytes buffers) (headers-bytes lines count)
    ∙ ap
        (read_header read_line read_exact_bytes count n false
          (read_headers read_line read_exact_bytes lines count))
        (read_line_limited-bytes_of max_header_line_bytes buffers)

content-bytes :
    (line : List ℕ) (buffers : Buffers) (o : BridgeError ⊎ ℕ)
    → frame_bytes (read_content read_line_limited read_exact line buffers o)
      ≡ read_content read_line read_exact_bytes line (bytes_of buffers) o
content-bytes line buffers (inl e) = refl
content-bytes line buffers (inr count) =
    headers-bytes (max_header_lines - 1) count (length line) buffers

first-bytes :
    (line : List ℕ)
    → IsSame
        (read_first read_line_limited read_exact line)
        (read_first read_line read_exact_bytes line)
unfolding read_first
first-bytes line buffers =
    if_frame (has_content_length_prefix line) _ _ _ _
      (if_frame (ltb max_header_line_bytes (length line)) _ _ _ _ refl
        (content-bytes line buffers (parse_content_length line)))
      (if_frame (ltb max_frame_bytes (length (trim_line_ending line))) _ _ _ _ refl refl)

lines-bytes :
    (after_blank : Buffers → FrameRead Buffers) (after_blank' : List ℕ → FrameRead (List ℕ))
    (r : LineRead Buffers)
    → IsSame after_blank after_blank'
    → frame_bytes (read_lines read_line_limited read_exact after_blank r)
      ≡ read_lines read_line read_exact_bytes after_blank' (joined r)
lines-bytes after_blank after_blank' no_line same = refl
lines-bytes after_blank after_blank' line_too_large same = refl
lines-bytes after_blank after_blank' (line_read line input) same =
    if_frame (is_blank_line line) _ _ _ _ (same input) (first-bytes line input)

frame_from-bytes :
    (blanks : ℕ)
    → IsSame
        (read_frame_from read_line_limited read_exact blanks)
        (read_frame_from read_line read_exact_bytes blanks)
unfolding read_frame_from
frame_from-bytes zero buffers =
    lines-bytes (λ rest. frame_error frame_too_large) (λ rest. frame_error frame_too_large)
      (read_line_limited max_first_line_bytes buffers) (λ rest. refl)
    ∙ ap (read_lines read_line read_exact_bytes (λ rest. frame_error frame_too_large))
        (read_line_limited-bytes_of max_first_line_bytes buffers)
frame_from-bytes (suc blanks) buffers =
    lines-bytes (read_frame_from read_line_limited read_exact blanks)
      (read_frame_from read_line read_exact_bytes blanks)
      (read_line_limited max_first_line_bytes buffers) (frame_from-bytes blanks)
    ∙ ap (read_lines read_line read_exact_bytes (read_frame_from read_line read_exact_bytes blanks))
        (read_line_limited-bytes_of max_first_line_bytes buffers)

-- How the input is cut into buffers has no part in its frames, nor in what is left after one.
pub read_frame-bytes :
    (buffers : Buffers) → frame_bytes (read_frame buffers) ≡ read_frame_bytes (bytes_of buffers)
unfolding read_frame read_frame_bytes
read_frame-bytes buffers = frame_from-bytes max_leading_blank_lines buffers
