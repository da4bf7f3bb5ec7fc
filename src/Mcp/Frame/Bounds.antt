-- ===== src/Mcp/Frame/Bounds.antt =====
-- apps/woof-mcp/src/lib.rs: the body of a frame is bounded.
use woof.Prelude.{
  inl, inr, Bool-cases, ℕ, zero, suc, ◌+◌, ◌-◌, ◌≤◌, ◌≡◌, refl, sym, Bool, true, false, ◌||◌,
  Option, none, some, List, ltb, if◌then◌else◌, length, length-take, take, drop, arith,
}
use mathlib.Core.Path.{subst}
use woof.Chat.Utf8.{from_utf8}
use woof.Mcp.Lines.{Buffers, LineRead, line_read, no_line, line_too_large}
use woof.Mcp.Lines.Chunks.{bytes_of, read_line}
use woof.Mcp.Frame.{
  max_frame_bytes, max_header_bytes, max_header_line_bytes, max_header_lines,
  max_leading_blank_lines, max_first_line_bytes, FrameRead, frame, no_frame, frame_error,
  frame_too_large, is_blank_line, has_content_length_prefix, trim_line_ending, parse_content_length,
  within_limit, parse_value, header_value, read_body, read_header, read_headers, read_content,
  read_first, read_lines, read_frame_from, read_frame,
}
use woof.Mcp.Frame.Reads.{read_exact_bytes, read_frame_bytes, frame_bytes, read_frame-bytes}

abbrev pub IsBounded : {S : Type 0} → FrameRead S → Type 0
IsBounded (frame mode body rest) = length body ≤ max_frame_bytes
IsBounded no_frame = Unit
IsBounded (frame_error e) = Unit

if_bounded :
    (b : Bool) (x y : FrameRead (List ℕ))
    → (b ≡ true → IsBounded x)
    → (b ≡ false → IsBounded y)
    → IsBounded (if b then x else y)
if_bounded true x y h k = h refl
if_bounded false x y h k = k refl

within : (top n : ℕ) → ltb top n ≡ false → n ≤ top
within top n h = ground (arith, h)

body_bounded :
    (count : ℕ) (s : List ℕ)
    → count ≤ max_frame_bytes
    → IsBounded (read_body read_line read_exact_bytes (read_exact_bytes count s))
unfolding read_exact_bytes
body_bounded count s h = choose (ltb (length s) count) refl
  where
    choose :
        (b : Bool)
        → ltb (length s) count ≡ b
        → IsBounded (
            read_body read_line read_exact_bytes
              (if b then none else some (take count s, drop count s)))
    choose true e = tt
    choose false e = omega (arith, h, length-take count s (within (length s) count e))

header_bounded :
    (count n : ℕ) (is_over : Bool) (later : ℕ → List ℕ → FrameRead (List ℕ)) (r : LineRead (List ℕ))
    → count ≤ max_frame_bytes
    → ((m : ℕ) (s : List ℕ) → IsBounded (later m s))
    → IsBounded (read_header read_line read_exact_bytes count n is_over later r)
header_bounded count n is_over later no_line h k = tt
header_bounded count n is_over later line_too_large h k = tt
header_bounded count n is_over later (line_read header input) h k =
    if_bounded (ltb max_header_bytes (n + length header) || is_over) _ _ (λ e. tt)
      (λ e.
        if_bounded (is_blank_line header) _ _ (λ e. body_bounded count input h)
          (λ e.
            if_bounded (has_content_length_prefix header) _ _ (λ e. tt)
              (λ e. k (n + length header) input)))

headers_bounded :
    (lines count n : ℕ) (s : List ℕ)
    → count ≤ max_frame_bytes
    → IsBounded (read_headers read_line read_exact_bytes lines count n s)
unfolding read_headers
headers_bounded zero count n s h =
    header_bounded count n true (λ m rest. frame_error frame_too_large)
      (read_line max_header_line_bytes s) h (λ m rest. tt)
headers_bounded (suc lines) count n s h =
    header_bounded count n false (read_headers read_line read_exact_bytes lines count)
      (read_line max_header_line_bytes s) h (λ m rest. headers_bounded lines count m rest h)

content_bounded :
    (line s : List ℕ) (o : Option ℕ)
    → IsBounded (read_content read_line read_exact_bytes line s (within_limit o))
content_bounded line s none = tt
content_bounded line s (some count) = elim (Bool-cases (ltb max_frame_bytes count)) [
  | inl e ↦ rw (e) tt
  | inr e ↦ rw (e) (
      headers_bounded (max_header_lines - 1) count (length line) s (within max_frame_bytes count e))
]

first_bounded : (line s : List ℕ) → IsBounded (read_first read_line read_exact_bytes line s)
unfolding read_first parse_content_length
first_bounded line s =
    if_bounded (has_content_length_prefix line) _ _
      (λ e.
        if_bounded (ltb max_header_line_bytes (length line)) _ _ (λ e. tt)
          (λ e. content_bounded line s (parse_value (header_value (from_utf8 line)))))
      (λ e.
        if_bounded (ltb max_frame_bytes (length (trim_line_ending line))) _ _ (λ e. tt)
          (λ e. within max_frame_bytes (length (trim_line_ending line)) e))

lines_bounded :
    (after_blank : List ℕ → FrameRead (List ℕ)) (r : LineRead (List ℕ))
    → ((s : List ℕ) → IsBounded (after_blank s))
    → IsBounded (read_lines read_line read_exact_bytes after_blank r)
lines_bounded after_blank no_line h = tt
lines_bounded after_blank line_too_large h = tt
lines_bounded after_blank (line_read line input) h =
    if_bounded (is_blank_line line) _ _ (λ e. h input) (λ e. first_bounded line input)

frame_from_bounded :
    (blanks : ℕ) (s : List ℕ) → IsBounded (read_frame_from read_line read_exact_bytes blanks s)
unfolding read_frame_from
frame_from_bounded zero s =
    lines_bounded (λ rest. frame_error frame_too_large) (read_line max_first_line_bytes s)
      (λ rest. tt)
frame_from_bounded (suc blanks) s =
    lines_bounded (read_frame_from read_line read_exact_bytes blanks)
      (read_line max_first_line_bytes s) (frame_from_bounded blanks)

-- Whatever the input, a frame that is read has a body of 1 MiB at most.
pub read_frame_bounded : (buffers : Buffers) → IsBounded (read_frame buffers)
unfolding read_frame_bytes
read_frame_bounded buffers = back (read_frame buffers) (
    subst IsBounded (sym (read_frame-bytes buffers))
      (frame_from_bounded max_leading_blank_lines (bytes_of buffers)))
  where
    back : (r : FrameRead Buffers) → IsBounded (frame_bytes r) → IsBounded r
    back (frame mode body rest) h = h
    back no_frame h = tt
    back (frame_error e) h = tt
