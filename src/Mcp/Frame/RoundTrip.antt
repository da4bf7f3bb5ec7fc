-- ===== src/Mcp/Frame/RoundTrip.antt =====
-- apps/woof-mcp/src/lib.rs: a frame that is written is read.
use woof.Prelude.{
  ℕ, suc, ◌+◌, ◌≤◌, ◌<◌, ◌≡◌, refl, sym, ap, ◌∙◌, false, none, some, List, [], ◌∷◌, ◌++◌,
  append_assoc, ltb, if◌then◌else◌, length, length-append, take-append, drop-append, All, arith,
}
use mathlib.Core.Path.{subst}
use woof.Prelude.Text.{codes, is_empty}
use woof.Prelude.Decimal.{decimal, decimal_digit, IsDigit, decimal-IsDigit, length-decimal_from}
use woof.Mcp.Lines.{Buffers, line_read, newline_position, next_position}
use woof.Mcp.Lines.Chunks.{bytes_of, split_line, split_none, read_line}
use woof.Mcp.Frame.{
  max_frame_bytes, max_first_line_bytes, max_header_bytes, max_header_line_bytes, FrameMode,
  content_length_mode, newline_mode, frame, is_blank_line, eq_ignore_ascii_case,
  has_content_length_prefix, pop_return, pop_newline, trim_line_ending, read_headers, read_first,
  read_lines, read_frame_from, write_frame, read_frame,
}
use woof.Mcp.Frame.Reads.{read_exact_bytes, read_frame_bytes, frame_bytes, read_frame-bytes}
use woof.Mcp.Frame.Header.{
  position-append, not_above, header_of, header_line, header_newline, header_parsed, header_first,
}

-- A JSON object on one line, as a frame of the second kind needs it.
abbrev pub IsObject : List ℕ → Type 0
IsObject body =
    (text : List ℕ) × (newline_position text ≡ none) × (body ≡ 123 ∷ (text ++ (125 ∷ [])))

-- What may be framed.
abbrev pub IsFramed : FrameMode → List ℕ → Type 0
IsFramed content_length_mode body = Unit
IsFramed newline_mode body = IsObject body

line_found :
    (maximum : ℕ) (s t : List ℕ)
    → newline_position s ≡ none
    → length s < maximum
    → read_line maximum (s ++ (10 ∷ t)) ≡ line_read (s ++ (10 ∷ [])) t
unfolding read_line split_line
line_found maximum s t e h =
    rw (split_none s (10 ∷ t) e, not_empty s, room (length (s ++ (10 ∷ []))) longer) refl
  where
    longer : length (s ++ (10 ∷ [])) ≤ maximum
    longer = omega (arith, h, length-append s (10 ∷ []))

    room : (n : ℕ) → n ≤ maximum → ltb maximum n ≡ false
    room n k = ground (arith, k)

    not_empty : (s : List ℕ) → is_empty (s ++ (10 ∷ t)) ≡ false
    not_empty [] = refl
    not_empty (c ∷ s) = refl

pop_newline-append : (s : List ℕ) → pop_newline (s ++ (10 ∷ [])) ≡ some s
unfolding pop_newline
pop_newline-append [] = refl
pop_newline-append (c ∷ []) = refl
pop_newline-append (c ∷ d ∷ s) = rw (pop_newline-append (d ∷ s)) refl

pop_return-append : (s : List ℕ) → pop_return (s ++ (125 ∷ [])) ≡ s ++ (125 ∷ [])
unfolding pop_return
pop_return-append [] = refl
pop_return-append (c ∷ []) = refl
pop_return-append (c ∷ d ∷ s) = ap (λ l. c ∷ l) (pop_return-append (d ∷ s))

frame_first :
    (line s input : List ℕ)
    → read_line max_first_line_bytes s ≡ line_read line input
    → is_blank_line line ≡ false
    → read_frame_bytes s ≡ read_first read_line read_exact_bytes line input
unfolding read_frame_bytes read_frame_from
frame_first line s input e blank =
    ap (read_lines read_line read_exact_bytes (read_frame_from read_line read_exact_bytes 7)) e
    ∙ ap
        (λ b.
          if b
          then read_frame_from read_line read_exact_bytes 7 input
          else read_first read_line read_exact_bytes line input)
        blank

abbrev object_of : List ℕ → List ℕ
object_of text = 123 ∷ (text ++ (125 ∷ []))

trim_object : (text : List ℕ) → trim_line_ending (object_of text ++ (10 ∷ [])) ≡ object_of text
unfolding trim_line_ending
trim_object text =
    ap (λ o. elim o [ none ↦ object_of text ++ (10 ∷ []) | some popped ↦ pop_return popped ])
      (pop_newline-append (object_of text))
    ∙ pop_return-append (123 ∷ text)

object_first :
    (text rest : List ℕ)
    → length (object_of text) ≤ max_frame_bytes
    → read_first read_line read_exact_bytes (object_of text ++ (10 ∷ [])) rest
      ≡ frame newline_mode (object_of text) rest
unfolding read_first has_content_length_prefix eq_ignore_ascii_case
object_first text rest h =
    rw (trim_object text, not_above max_frame_bytes (length (object_of text)) h) refl

object_read :
    (text rest : List ℕ)
    → newline_position text ≡ none
    → length (object_of text) ≤ max_frame_bytes
    → read_frame_bytes (object_of text ++ (10 ∷ rest)) ≡ frame newline_mode (object_of text) rest
unfolding newline_position is_blank_line
object_read text rest e h =
    frame_first (object_of text ++ (10 ∷ [])) (object_of text ++ (10 ∷ rest)) rest
      (line_found max_first_line_bytes (object_of text) rest
        (position-append (123 ∷ text) (125 ∷ []) (ap next_position e) refl) (omega (arith, h)))
      refl
    ∙ object_first text rest h

headers_read :
    (n bytes : ℕ) (body rest : List ℕ)
    → n ≡ length body
    → bytes ≤ max_header_line_bytes
    → read_headers read_line read_exact_bytes 63 n bytes (13 ∷ 10 ∷ (body ++ rest))
      ≡ frame content_length_mode body rest
unfolding read_headers read_line split_line is_blank_line read_exact_bytes
headers_read n bytes body rest e h =
    rw
      (
        not_above max_header_bytes (bytes + 2) (omega (arith, h)),
        e,
        long (length (body ++ rest)) (length body) (omega (arith, length-append body rest)),
        take-append body rest,
        drop-append body rest,
      )
      refl
  where
    long : (a b : ℕ) → b ≤ a → ltb a b ≡ false
    long a b k = ground (arith, k)

content_first :
    (n c : ℕ) (s body rest : List ℕ)
    → decimal n ≡ c ∷ s
    → n ≡ length body
    → n ≤ max_frame_bytes
    → length (header_line (c ∷ s)) ≤ max_header_line_bytes
    → read_first read_line read_exact_bytes (header_line (c ∷ s)) (13 ∷ 10 ∷ (body ++ rest))
      ≡ frame content_length_mode body rest
unfolding read_first
content_first n c s body rest e f h k =
    rw
      (
        header_first ((c ∷ s) ++ (13 ∷ 10 ∷ [])),
        not_above max_header_line_bytes (length (header_line (c ∷ s))) k,
        header_parsed n c s e h,
      )
      (headers_read n (length (header_line (c ∷ s))) body rest f k)

digits_short : (n c : ℕ) (s : List ℕ) → decimal n ≡ c ∷ s → n ≤ max_frame_bytes → length s ≤ 6
unfolding decimal
digits_short n c s e h =
    omega (arith, ap length e, length-decimal_from (suc n) n 6 (omega (arith, h)))

content_read :
    (n c : ℕ) (s body rest : List ℕ)
    → decimal n ≡ c ∷ s
    → n ≡ length body
    → n ≤ max_frame_bytes
    → read_frame_bytes
        (codes "Content-Length: " ++ ((c ∷ s) ++ (13 ∷ 10 ∷ 13 ∷ 10 ∷ (body ++ rest))))
      ≡ frame content_length_mode body rest
unfolding is_blank_line
content_read n c s body rest e f h =
    ap read_frame_bytes (
      ap (λ l. codes "Content-Length: " ++ l)
        (sym (append_assoc (c ∷ s) (13 ∷ []) (10 ∷ 13 ∷ 10 ∷ (body ++ rest)))))
    ∙ frame_first (header_line (c ∷ s)) (header_of (c ∷ s) ++ (10 ∷ 13 ∷ 10 ∷ (body ++ rest)))
        (13 ∷ 10 ∷ (body ++ rest))
        (line_found max_first_line_bytes (header_of (c ∷ s)) (13 ∷ 10 ∷ (body ++ rest))
            (header_newline (c ∷ s) digits)
            (omega (arith, length-append s (13 ∷ []), digits_short n c s e h))
          ∙ ap (λ l. line_read (codes "Content-Length: " ++ l) (13 ∷ 10 ∷ (body ++ rest)))
              (append_assoc (c ∷ s) (13 ∷ []) (10 ∷ [])))
        refl
    ∙ content_first n c s body rest e f h
        (omega (arith, length-append s (13 ∷ 10 ∷ []), digits_short n c s e h))
  where
    digits : All IsDigit (c ∷ s)
    digits = subst (All IsDigit) e (decimal-IsDigit n)

written_read :
    (mode : FrameMode) (body rest : List ℕ)
    → IsFramed mode body
    → length body ≤ max_frame_bytes
    → read_frame_bytes (write_frame mode body ++ rest) ≡ frame mode body rest
unfolding write_frame
written_read content_length_mode body rest framed h =
    let (c, s, e) = decimal_digit (length body) in
    ap (λ l. read_frame_bytes (codes "Content-Length: " ++ l))
      (append_assoc (decimal (length body)) (13 ∷ 10 ∷ 13 ∷ 10 ∷ body) rest
        ∙ ap (λ d. d ++ (13 ∷ 10 ∷ 13 ∷ 10 ∷ (body ++ rest))) e)
    ∙ content_read (length body) c s body rest e refl h
written_read newline_mode body rest (text, e, f) h =
    ap read_frame_bytes (append_assoc body (10 ∷ []) rest)
    ∙ subst (λ b. read_frame_bytes (b ++ (10 ∷ rest)) ≡ frame newline_mode b rest) (sym f)
        (object_read text rest e (subst (λ b. length b ≤ max_frame_bytes) f h))

-- A body of at most 1 MiB that is written as a frame is read as it was, with what follows it left,
-- however the input is cut into buffers; the body of a newline frame is a JSON object on one line.
pub read_frame-write_frame :
    (mode : FrameMode) (body rest : List ℕ) (buffers : Buffers)
    → IsFramed mode body
    → length body ≤ max_frame_bytes
    → bytes_of buffers ≡ write_frame mode body ++ rest
    → frame_bytes (read_frame buffers) ≡ frame mode body rest
read_frame-write_frame mode body rest buffers framed h e =
    read_frame-bytes buffers ∙ ap read_frame_bytes e ∙ written_read mode body rest framed h
