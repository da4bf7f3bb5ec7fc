-- ===== src/Capture/Redact/Pieces.antt =====
-- crates/woof-capture/src/redact.rs: what a pass of `redact_restorable` does to an arranged text.
use woof.Prelude.{
  ℕ, suc, ◌≡◌, Bool, true, false, List, [], ◌∷◌, ◌++◌, append-nil, if◌then◌else◌, length, arith,
}
use woof.Prelude.Text.{Text}
use woof.Capture.Redact.{RedactionKind, RedactionSlot, card_security_code, push_slot}
use woof.Capture.Redact.Arranged.{Segment, placeholder, chars, render, render-append, render-chars}
use woof.Capture.Redact.Cut.{slot_of}
use woof.Capture.Redact.Passes.{
  Piece, between, matched, replace_restorable, replace_group_restorable, replace_security_code,
  Pass, whole_match, group_match, security_code, replacer_of,
}

-- A piece of an arranged text: what is between matches, or a match whose group has only characters.
pub data Cutting : Type 0 where
  kept : List Segment → Cutting
  cut : List Segment → Text → List Segment → Cutting

abbrev pub render_piece : Text → Cutting → Piece
render_piece nonce (kept segs) = between (render nonce segs)
render_piece nonce (cut b v a) =
    matched (record { before = render nonce b; value = v; after = render nonce a })

abbrev pub render_pieces : Text → List Cutting → List Piece
render_pieces nonce [] = []
render_pieces nonce (piece ∷ pieces) = render_piece nonce piece ∷ render_pieces nonce pieces

abbrev pub joined : List Cutting → List Segment
joined [] = []
joined (kept segs ∷ pieces) = segs ++ joined pieces
joined (cut b v a ∷ pieces) = (b ++ (chars v ++ a)) ++ joined pieces

abbrev pub kind_of : Pass → RedactionKind
kind_of (whole_match kind regex validate) = kind
kind_of (group_match kind regex validate) = kind
kind_of (security_code regex) = card_security_code

abbrev pub accepts : Pass → Text → Bool
accepts (whole_match kind regex validate) v = validate v
accepts (group_match kind regex validate) v = validate v
accepts (security_code regex) v = true

abbrev pub IsNil : List Segment → Type 0
IsNil [] = Unit
IsNil (x ∷ segs) = ⊥

-- What stands in a match beside the group: nothing where there is no group, and nothing after the
-- digits of a security code.
abbrev pub Fits : Pass → List Segment → List Segment → Type 0
Fits (whole_match kind regex validate) b a = IsNil b × IsNil a
Fits (group_match kind regex validate) b a = Unit
Fits (security_code regex) b a = IsNil a

abbrev pub AllFit : Pass → List Cutting → Type 0
AllFit pass [] = Unit
AllFit pass (kept segs ∷ pieces) = AllFit pass pieces
AllFit pass (cut b v a ∷ pieces) = Fits pass b a × AllFit pass pieces

-- The text after the pass, from the number of slots before it, and the number after it.
unfoldable pub redacted : Pass → ℕ → List Cutting → List Segment
redacted pass n [] = []
redacted pass n (kept segs ∷ pieces) = segs ++ redacted pass n pieces
redacted pass n (cut b v a ∷ pieces) =
    let accepted = redacted pass (suc n) pieces in
    let rejected = redacted pass n pieces in
    if accepts pass v
    then (b ++ (placeholder (kind_of pass) n v ∷ a)) ++ accepted
    else (b ++ (chars v ++ a)) ++ rejected

unfoldable pub next_number : Pass → ℕ → List Cutting → ℕ
next_number pass n [] = n
next_number pass n (kept segs ∷ pieces) = next_number pass n pieces
next_number pass n (cut b v a ∷ pieces) =
    let accepted = next_number pass (suc n) pieces in
    let rejected = next_number pass n pieces in if accepts pass v then accepted else rejected

module _ (nonce : Text) where
  pub accept_one :
      (pass : Pass) (b a : List Segment) (v : Text) (slots : List RedactionSlot)
      → Fits pass b a
      → accepts pass v ≡ true
      → replacer_of pass nonce
          (record { before = render nonce b; value = v; after = render nonce a })
          slots
        ≡ (
          render nonce (b ++ (placeholder (kind_of pass) (length slots) v ∷ a)),
          slots ++ (slot_of nonce (kind_of pass) (length slots) v ∷ []),
        )
  unfolding replacer_of replace_restorable replace_group_restorable replace_security_code push_slot
      render
  accept_one (whole_match kind regex validate) [] [] v slots fits e = simp (append-nil, e)
  accept_one (whole_match kind regex validate) [] (x ∷ a) v slots fits e = absurd (fits.1)
  accept_one (whole_match kind regex validate) (x ∷ b) a v slots fits e = absurd (fits.0)
  accept_one (group_match kind regex validate) b a v slots fits e = simp (render-append, e)
  accept_one (security_code regex) b [] v slots fits e = simp (render-append, append-nil)
  accept_one (security_code regex) b (x ∷ a) v slots fits e = absurd fits

  pub reject_one :
      (pass : Pass) (b a : List Segment) (v : Text) (slots : List RedactionSlot)
      → Fits pass b a
      → accepts pass v ≡ false
      → replacer_of pass nonce
          (record { before = render nonce b; value = v; after = render nonce a })
          slots
        ≡ (render nonce (b ++ (chars v ++ a)), slots)
  unfolding replacer_of replace_restorable replace_group_restorable replace_security_code push_slot
      render
  reject_one (whole_match kind regex validate) [] [] v slots fits e =
      simp (append-nil, e, render-chars)
  reject_one (whole_match kind regex validate) [] (x ∷ a) v slots fits e = absurd (fits.1)
  reject_one (whole_match kind regex validate) (x ∷ b) a v slots fits e = absurd (fits.0)
  reject_one (group_match kind regex validate) b a v slots fits e =
      simp (render-append, render-chars, e)
  reject_one (security_code regex) b a v slots fits e = absurd (grind (arith, e))
