-- ===== src/Mcp/Lines/Chunks.antt =====
-- apps/woof-mcp/src/lib.rs: how the input is cut into buffers has no part in its lines.
use woof.Prelude.{
  ℕ, suc, ◌+◌, ◌≤◌, ◌<◌, ◌≡◌, refl, sym, ap, ◌∙◌, inl, inr, Bool, true, false, none, some, List, [],
  ◌∷◌, ◌++◌, append_assoc, append-nil, ltb, ◌==◌, if◌then◌else◌, length, length-append, length-take,
  take, drop, arith, Option-cases,
}
use woof.Prelude.Text.{is_empty}
use woof.Mcp.Lines.{
  Buffers, LineRead, line_read, no_line, line_too_large, newline_position, unread, at_end,
  read_buffer, read_line_from, read_line_limited,
}

unfoldable pub bytes_of : Buffers → List ℕ
bytes_of [] = []
bytes_of ((c, s) ∷ buffers) = (c ∷ s) ++ bytes_of buffers

-- A text up to its first newline, which is kept, and the rest.
unfoldable pub split_line : List ℕ → List ℕ × List ℕ
split_line [] = ([], [])
split_line (c ∷ s) =
    let later = split_line s in if c == 10 then (c ∷ [], s) else (c ∷ later.0, later.1)

-- The line that bytes in one piece begin with.
unfoldable pub read_line : ℕ → List ℕ → LineRead (List ℕ)
read_line maximum s =
    if is_empty s
    then no_line
    else if ltb maximum (length (split_line s).0)
    then line_too_large
    else line_read (split_line s).0 (split_line s).1

abbrev pub joined : LineRead Buffers → LineRead (List ℕ)
joined (line_read line buffers) = line_read line (bytes_of buffers)
joined no_line = no_line
joined line_too_large = line_too_large

-- The same where some of the line is read, and the rest of it is given.
abbrev read_parts : ℕ → List ℕ → List ℕ → List ℕ × List ℕ → LineRead (List ℕ)
read_parts maximum line s parts =
    if is_empty (line ++ s)
    then no_line
    else if ltb maximum (length line + length parts.0)
    then line_too_large
    else line_read (line ++ parts.0) parts.1

abbrev read_after : ℕ → List ℕ → List ℕ → LineRead (List ℕ)
read_after maximum line s = read_parts maximum line s (split_line s)

pub unread-bytes :
    (s : List ℕ) (buffers : Buffers) → bytes_of (unread s buffers) ≡ s ++ bytes_of buffers
unfolding bytes_of
unread-bytes [] buffers = refl
unread-bytes (c ∷ s) buffers = refl

position-length : (s : List ℕ) (p : ℕ) → newline_position s ≡ some p → suc p ≤ length s
unfolding newline_position
position-length [] p e = ground (arith, e)
position-length (c ∷ s) p e = elim (Option-cases (newline_position s)) [
  | inl none_later ↦ ground (arith, e, none_later)
  | inr (q, later) ↦ ground (arith, e, later, position-length s q later)
]

split_found :
    (s t : List ℕ) (p : ℕ)
    → newline_position s ≡ some p
    → split_line (s ++ t) ≡ (take (suc p) s, drop (suc p) s ++ t)
unfolding newline_position split_line
split_found [] t p e = ground (arith, e)
split_found (c ∷ s) t p e = elim (Option-cases (newline_position s)) [
  | inl none_later ↦ ground (arith, e, none_later)
  | inr (q, later) ↦ ground (arith, e, later, split_found s t q later)
]

pub split_none :
    (s t : List ℕ)
    → newline_position s ≡ none
    → split_line (s ++ t) ≡ (s ++ (split_line t).0, (split_line t).1)
unfolding newline_position split_line
split_none [] t e = refl
split_none (c ∷ s) t e = elim (Option-cases (newline_position s)) [
  | inl none_later ↦ ground (arith, e, split_none s t none_later)
  | inr (q, later) ↦ ground (arith, e, later)
]

is_empty_cons : (line s : List ℕ) (c : ℕ) → is_empty (line ++ (c ∷ s)) ≡ false
is_empty_cons [] s c = refl
is_empty_cons (d ∷ line) s c = refl

at_end-bytes :
    (maximum : ℕ) (line : List ℕ)
    → length line ≤ maximum
    → joined (at_end line) ≡ read_after maximum line []
unfolding bytes_of split_line
at_end-bytes maximum [] h = refl
at_end-bytes maximum (c ∷ line) h = ground (arith, h, append-nil line)

parts-append :
    (maximum : ℕ) (line t s : List ℕ) (parts : List ℕ × List ℕ)
    → read_parts maximum (line ++ t) s parts
      ≡ read_parts maximum line (t ++ s) (t ++ parts.0, parts.1)
parts-append maximum line t s parts i =
    if is_empty (append_assoc line t s i)
    then no_line
    else if ltb maximum (lengths i)
    then line_too_large
    else line_read (append_assoc line t parts.0 i) parts.1
  where
    lengths : length (line ++ t) + length parts.0 ≡ length line + length (t ++ parts.0)
    lengths = omega (arith, length-append line t, length-append t parts.0)

buffer_none :
    (maximum c : ℕ) (line s : List ℕ) (buffers : Buffers) (later : LineRead Buffers)
    → split_line ((c ∷ s) ++ bytes_of buffers)
      ≡ ((c ∷ s) ++ (split_line (bytes_of buffers)).0, (split_line (bytes_of buffers)).1)
    → (length (line ++ (c ∷ s)) ≤ maximum
        → joined later ≡ read_after maximum (line ++ (c ∷ s)) (bytes_of buffers))
    → joined (read_buffer maximum line (c ∷ s) buffers later none)
      ≡ read_after maximum line ((c ∷ s) ++ bytes_of buffers)
buffer_none maximum c line s buffers later e rest =
    choose (ltb maximum (length line + length (c ∷ s))) refl
    ∙ parts-append maximum line (c ∷ s) (bytes_of buffers) (split_line (bytes_of buffers))
    ∙ ap (read_parts maximum line ((c ∷ s) ++ bytes_of buffers)) (sym e)
  where
    fits : (n : ℕ) → ltb maximum n ≡ false → n ≤ maximum
    fits n small = ground (arith, small)

    too_large :
        (n m : ℕ) (line : List ℕ)
        → maximum < n
        → n ≤ m
        → line_too_large ≡ (
            if false
            then no_line
            else if ltb maximum m
            then line_too_large
            else line_read line (split_line (bytes_of buffers)).1)
    too_large n m line h k = ground (arith, h, k)

    choose :
        (b : Bool)
        → ltb maximum (length line + length (c ∷ s)) ≡ b
        → joined (if b then line_too_large else later)
          ≡ read_after maximum (line ++ (c ∷ s)) (bytes_of buffers)
    choose true big =
        rw
          (ap is_empty (append_assoc line (c ∷ s) (bytes_of buffers))
            ∙ is_empty_cons line (s ++ bytes_of buffers) c)
          (too_large (length line + length (c ∷ s)) _ _ (ground (arith, big))
            (omega (arith, length-append line (c ∷ s))))
    choose false small =
        rest (omega (arith, length-append line (c ∷ s), fits (length line + length (c ∷ s)) small))

buffer_some :
    (maximum c p : ℕ) (line s : List ℕ) (buffers : Buffers) (later : LineRead Buffers)
    → split_line ((c ∷ s) ++ bytes_of buffers)
      ≡ (take (suc p) (c ∷ s), drop (suc p) (c ∷ s) ++ bytes_of buffers)
    → length (take (suc p) (c ∷ s)) ≡ suc p
    → joined (read_buffer maximum line (c ∷ s) buffers later (some p))
      ≡ read_after maximum line ((c ∷ s) ++ bytes_of buffers)
buffer_some maximum c p line s buffers later e len =
    rw (e, len, is_empty_cons line (s ++ bytes_of buffers) c)
      (choose (ltb maximum (length line + suc p)))
  where
    choose :
        (b : Bool)
        → joined (
            if b
            then line_too_large
            else line_read (line ++ (c ∷ take p s)) (unread (drop p s) buffers))
          ≡ (if b
              then line_too_large
              else line_read (line ++ (c ∷ take p s)) (drop p s ++ bytes_of buffers))
    choose true = refl
    choose false = ap (line_read (line ++ (c ∷ take p s))) (unread-bytes (drop p s) buffers)

read_line_from-bytes_of :
    (maximum : ℕ) (line : List ℕ) (buffers : Buffers)
    → length line ≤ maximum
    → joined (read_line_from maximum line buffers) ≡ read_after maximum line (bytes_of buffers)
unfolding read_line_from bytes_of
read_line_from-bytes_of maximum line [] h = at_end-bytes maximum line h
read_line_from-bytes_of maximum line ((c, s) ∷ buffers) h =
    elim (Option-cases (newline_position (c ∷ s))) [
      | inl e ↦
          ap
            (λ o. joined (
              read_buffer maximum line (c ∷ s) buffers
                (read_line_from maximum (line ++ (c ∷ s)) buffers) o))
            e
          ∙ buffer_none maximum c line s buffers _ (split_none (c ∷ s) (bytes_of buffers) e)
              (read_line_from-bytes_of maximum (line ++ (c ∷ s)) buffers)
      | inr (p, e) ↦
          ap
            (λ o. joined (
              read_buffer maximum line (c ∷ s) buffers
                (read_line_from maximum (line ++ (c ∷ s)) buffers) o))
            e
          ∙ buffer_some maximum c p line s buffers
              (read_line_from maximum (line ++ (c ∷ s)) buffers)
              (split_found (c ∷ s) (bytes_of buffers) p e)
              (length-take (suc p) (c ∷ s) (position-length (c ∷ s) p e))
    ]

-- The bytes of the buffers alone decide what is read, and what is left.
pub read_line_limited-bytes_of :
    (maximum : ℕ) (buffers : Buffers)
    → joined (read_line_limited maximum buffers) ≡ read_line maximum (bytes_of buffers)
unfolding read_line_limited read_line
read_line_limited-bytes_of maximum buffers =
    read_line_from-bytes_of maximum [] buffers (omega arith)
    ∙ ap
        (λ n.
          if is_empty (bytes_of buffers)
          then no_line
          else if ltb maximum n
          then line_too_large
          else line_read (split_line (bytes_of buffers)).0 (split_line (bytes_of buffers)).1)
        zero_add
  where
    zero_add :
        0 + length (split_line (bytes_of buffers)).0 ≡ length (split_line (bytes_of buffers)).0
    zero_add = omega arith
