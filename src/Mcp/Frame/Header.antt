-- ===== src/Mcp/Frame/Header.antt =====
-- apps/woof-mcp/src/lib.rs: the header that `write_frame` writes is parsed.
use woof.Prelude.{
  inl, inr, ℕ, ◌≤◌, ◌<◌, ◌≡◌, refl, sym, ap, ◌∙◌, true, false, Option-cases, none, some, List, [],
  ◌∷◌, ◌++◌, ltb, if◌then◌else◌, All, All-append, arith,
}
use mathlib.Core.Path.{subst}
use woof.Prelude.Text.{codes, is_whitespace, trim, trim_start, trim_end, trim_end-append_blank}
use woof.Prelude.Decimal.{decimal, IsDigit, decimal-IsDigit, parse_usize, parse_usize-decimal}
use woof.Chat.Utf8.{from_utf8}
use woof.Mcp.Lines.{newline_position}
use woof.Mcp.Frame.{
  max_frame_bytes, eq_ignore_ascii_case, has_content_length_prefix, after_colon, parse_value,
  header_value, parse_content_length, within_limit, frame_too_large,
}

pub position-append :
    (s t : List ℕ)
    → newline_position s ≡ none
    → newline_position t ≡ none
    → newline_position (s ++ t) ≡ none
unfolding newline_position
position-append [] t e f = f
position-append (c ∷ s) t e f = elim (Option-cases (newline_position s)) [
  | inl later ↦ ground (arith, e, position-append s t later f)
  | inr (p, later) ↦ ground (arith, e, later)
]

from_utf8-ascii : (s : List ℕ) → All (λ b. b < 128) s → from_utf8 s ≡ some s
unfolding from_utf8
from_utf8-ascii [] h = refl
from_utf8-ascii (b ∷ []) h = ground (arith, h.0)
from_utf8-ascii (b ∷ c ∷ []) h = ground (arith, h.0, from_utf8-ascii (c ∷ []) h.1)
from_utf8-ascii (b ∷ c ∷ d ∷ []) h = ground (arith, h.0, from_utf8-ascii (c ∷ d ∷ []) h.1)
from_utf8-ascii (b ∷ c ∷ d ∷ e ∷ s) h = ground (arith, h.0, from_utf8-ascii (c ∷ d ∷ e ∷ s) h.1)

IsDigit-map : (P : ℕ → Type 0) (s : List ℕ) → ((c : ℕ) → IsDigit c → P c) → All IsDigit s → All P s
IsDigit-map P [] f h = tt
IsDigit-map P (c ∷ s) f h = (f c h.0, IsDigit-map P s f h.1)

digit_white : (c : ℕ) → IsDigit c → is_whitespace c ≡ false
unfolding is_whitespace
digit_white c h = ground (arith, h.0, h.1)

digits-newline : (s : List ℕ) → All IsDigit s → newline_position s ≡ none
unfolding newline_position
digits-newline [] h = refl
digits-newline (c ∷ s) h = ground (arith, h.0.0, digits-newline s h.1)

trim_end-digits : (s : List ℕ) → All IsDigit s → trim_end s ≡ s
unfolding trim_end
trim_end-digits [] h = refl
trim_end-digits (c ∷ s) h = ground (arith, digit_white c h.0, trim_end-digits s h.1)

digit_started :
    (c : ℕ) (s : List ℕ)
    → is_whitespace c ≡ false
    → trim_start (32 ∷ ((c ∷ s) ++ (13 ∷ 10 ∷ []))) ≡ (c ∷ s) ++ (13 ∷ 10 ∷ [])
unfolding trim_start is_whitespace
digit_started c s e = ground (arith, e)

trim-digits :
    (c : ℕ) (s : List ℕ) → All IsDigit (c ∷ s) → trim (32 ∷ ((c ∷ s) ++ (13 ∷ 10 ∷ []))) ≡ c ∷ s
unfolding trim is_whitespace
trim-digits c s h =
    ap trim_end (digit_started c s (digit_white c h.0))
    ∙ trim_end-append_blank (c ∷ s) (13 ∷ 10 ∷ []) (refl, (refl, tt))
    ∙ trim_end-digits (c ∷ s) h

abbrev pub header_of : List ℕ → List ℕ
header_of digits = codes "Content-Length: " ++ (digits ++ (13 ∷ []))

abbrev pub header_line : List ℕ → List ℕ
header_line digits = codes "Content-Length: " ++ (digits ++ (13 ∷ 10 ∷ []))

pub header_newline :
    (digits : List ℕ) → All IsDigit digits → newline_position (header_of digits) ≡ none
unfolding newline_position
header_newline digits h =
    position-append (codes "Content-Length: ") (digits ++ (13 ∷ [])) refl
      (position-append digits (13 ∷ []) (digits-newline digits h) refl)

header_ascii : (digits : List ℕ) → All IsDigit digits → All (λ b. b < 128) (header_line digits)
header_ascii digits h =
    All-append (λ b. b < 128) (codes "Content-Length: ") (digits ++ (13 ∷ 10 ∷ [])) (ground arith)
      (All-append (λ b. b < 128) digits (13 ∷ 10 ∷ [])
        (IsDigit-map (λ b. b < 128) digits (λ c k. omega (arith, k.1)) h) (ground arith))

pub not_above : (top n : ℕ) → n ≤ top → ltb top n ≡ false
not_above top n h = ground (arith, h)

pub header_parsed :
    (n c : ℕ) (s : List ℕ)
    → decimal n ≡ c ∷ s
    → n ≤ max_frame_bytes
    → parse_content_length (header_line (c ∷ s)) ≡ inr n
unfolding parse_content_length after_colon
header_parsed n c s e h =
    ap within_limit (
      ap (λ o. parse_value (header_value o))
        (from_utf8-ascii (header_line (c ∷ s)) (header_ascii (c ∷ s) digits))
      ∙ ap parse_usize (trim-digits c s digits ∙ sym e)
      ∙ parse_usize-decimal n (omega (arith, h)))
    ∙ ap (λ b. if b then inl frame_too_large else inr n) (not_above max_frame_bytes n h)
  where
    digits : All IsDigit (c ∷ s)
    digits = subst (All IsDigit) e (decimal-IsDigit n)

pub header_first : (s : List ℕ) → has_content_length_prefix (codes "Content-Length: " ++ s) ≡ true
unfolding has_content_length_prefix eq_ignore_ascii_case
header_first s = refl
