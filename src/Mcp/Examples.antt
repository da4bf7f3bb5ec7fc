-- ===== src/Mcp/Examples.antt =====
-- The tests of apps/woof-mcp/src/lib.rs.
use woof.Prelude.{ℕ, ◌≡◌, refl, List, [], ◌∷◌, ◌++◌, arith}
use woof.Prelude.Text.{codes}
use woof.Mcp.Lines.{Buffers, newline_position, line_too_large, read_line_from, read_line_limited}
use woof.Mcp.Lines.Chunks.{bytes_of}
use woof.Mcp.Frame.{newline_mode, frame, read_frame, write_frame}
use woof.Mcp.Frame.Reads.{frame_bytes, read_frame_bytes, read_frame-bytes}
use woof.Mcp.Frame.RoundTrip.{read_frame-write_frame}
use woof.Mcp.Frame.Bounds.{IsBounded, read_frame_bounded}

abbrev ping : List ℕ
ping = 123 ∷ (codes "1" ++ (125 ∷ []))

-- `{1}` with a newline, in two buffers, and the beginning of the next line.
abbrev two_buffers : Buffers
two_buffers = (123, 49 ∷ []) ∷ (125, 10 ∷ 91 ∷ []) ∷ []

too_long : read_line_limited 3 two_buffers ≡ line_too_large
unfolding read_line_limited read_line_from newline_position
too_long = refl

read_frame-write_frame_example :
    frame_bytes (read_frame two_buffers) ≡ frame newline_mode ping (91 ∷ [])
unfolding bytes_of write_frame newline_position
read_frame-write_frame_example =
    read_frame-write_frame newline_mode ping (91 ∷ []) two_buffers (codes "1", refl, refl)
      (omega arith) refl

read_frame-bytes_example :
    frame_bytes (read_frame two_buffers) ≡ read_frame_bytes (bytes_of two_buffers)
read_frame-bytes_example = read_frame-bytes two_buffers

read_frame_bounded_example : IsBounded (read_frame two_buffers)
read_frame_bounded_example = read_frame_bounded two_buffers
