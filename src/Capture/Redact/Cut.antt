-- ===== src/Capture/Redact/Cut.antt =====
-- crates/woof-capture/src/redact.rs: a value gives way to a new placeholder.
use woof.Prelude.{
  ℕ, suc, ◌+◌, ◌≡◌, refl, sym, ap, ◌∙◌, List, [], ◌∷◌, ◌++◌, ◌==◌, ltb, if◌then◌else◌, length,
  length-append, arith,
}
use mathlib.Core.Path.{subst}
use woof.Prelude.Text.{Text}
use woof.Capture.Redact.{RedactionKind, RedactionSlot, marker_text}
use woof.Capture.Redact.Arranged.{
  Segment, char, placeholder, chars, expand, occurrences, IsNumbered, expand-append, expand-chars,
  occurrences-append, occurrences-chars,
}
use woof.Capture.Redact.Restore.{AreSlots}

IsNumbered-chars :
    (i : ℕ) (k : RedactionKind) (v w : Text) (ys : List Segment)
    → IsNumbered i k v (chars w ++ ys)
    → IsNumbered i k v ys
unfolding IsNumbered
IsNumbered-chars i k v [] ys h = h
IsNumbered-chars i k v (c ∷ w) ys h = IsNumbered-chars i k v w ys h

-- A placeholder takes the place of characters.
IsNumbered-cut :
    (i n : ℕ) (k k' : RedactionKind) (v w : Text) (xs ys : List Segment)
    → ((i ≡ n) → (k ≡ k') × (v ≡ w))
    → IsNumbered i k v (xs ++ (chars w ++ ys))
    → IsNumbered i k v (xs ++ (placeholder k' n w ∷ ys))
unfolding IsNumbered
IsNumbered-cut i n k k' v w [] ys f h = (f, IsNumbered-chars i k v w ys h)
IsNumbered-cut i n k k' v w (char c ∷ xs) ys f h = IsNumbered-cut i n k k' v w xs ys f h
IsNumbered-cut i n k k' v w (placeholder k'' j u ∷ xs) ys f h =
    (h.0, IsNumbered-cut i n k k' v w xs ys f h.1)

IsNumbered-absent :
    (i : ℕ) (k : RedactionKind) (v : Text) (segs : List Segment)
    → occurrences i segs ≡ 0
    → IsNumbered i k v segs
unfolding IsNumbered occurrences
IsNumbered-absent i k v [] h = tt
IsNumbered-absent i k v (char c ∷ segs) h = IsNumbered-absent i k v segs h
IsNumbered-absent i k v (placeholder k' j w ∷ segs) h =
    ((λ e. absurd (ground (arith, h, e))), IsNumbered-absent i k v segs (ground (arith, h)))

abbrev pub slot_of : Text → RedactionKind → ℕ → Text → RedactionSlot
slot_of nonce k n w = record { marker = marker_text nonce k n; value = w }

AreSlots-cut :
    (nonce : Text) (m n : ℕ) (k : RedactionKind) (w : Text) (slots : List RedactionSlot)
    (xs ys : List Segment)
    → m + length slots ≡ n
    → occurrences n (xs ++ (chars w ++ ys)) ≡ 0
    → AreSlots nonce m slots (xs ++ (chars w ++ ys))
    → AreSlots nonce m (slots ++ (slot_of nonce k n w ∷ [])) (xs ++ (placeholder k n w ∷ ys))
unfolding AreSlots
AreSlots-cut nonce m n k w [] xs ys e absent h =
    let e' : n ≡ m = omega (arith, e) in
    (
      (
        k,
        ap (marker_text nonce k) e',
        IsNumbered-cut m n k k w w xs ys (λ p. (refl, refl))
            (IsNumbered-absent m k w (xs ++ (chars w ++ ys))
              (subst (λ i. occurrences i (xs ++ (chars w ++ ys)) ≡ 0) e' absent)),
      ),
      tt,
    )
AreSlots-cut nonce m n k w (slot ∷ slots) xs ys e absent ((k', f, h), rest) = (
  (k', f, IsNumbered-cut m n k' k slot.value w xs ys (λ p. absurd (omega (arith, p, e))) h),
  AreSlots-cut nonce (suc m) n k w slots xs ys (omega (arith, e)) absent rest,
)

-- The redaction so far: the text stands for the input, and holds each slot's placeholder once.
unfoldable pub IsRedaction : Text → Text → List RedactionSlot → List Segment → Type 0
IsRedaction nonce input slots segs =
    (expand segs ≡ input)
    × AreSlots nonce 0 slots segs
    × ((i : ℕ) → occurrences i segs ≡ (if ltb i (length slots) then 1 else 0))

occurrences-cut :
    (i n : ℕ) (k : RedactionKind) (w : Text) (xs ys : List Segment)
    → occurrences i (xs ++ (placeholder k n w ∷ ys))
      ≡ (if i == n then 1 else 0) + occurrences i (xs ++ (chars w ++ ys))
unfolding occurrences
occurrences-cut i n k w xs ys = ground (
  arith,
  occurrences-append i xs (placeholder k n w ∷ ys),
  occurrences-append i xs (chars w ++ ys),
  occurrences-append i (chars w) ys,
  occurrences-chars i w,
)

expand-cut :
    (n : ℕ) (k : RedactionKind) (w : Text) (xs ys : List Segment)
    → expand (xs ++ (placeholder k n w ∷ ys)) ≡ expand (xs ++ (chars w ++ ys))
unfolding expand
expand-cut n k w xs ys =
    expand-append xs (placeholder k n w ∷ ys)
    ∙ ap (λ t. expand xs ++ t)
        (sym (expand-append (chars w) ys ∙ ap (λ t. t ++ expand ys) (expand-chars w)))
    ∙ sym (expand-append xs (chars w ++ ys))

pub IsRedaction-cut :
    (nonce input : Text) (slots : List RedactionSlot) (k : RedactionKind) (w : Text)
    (xs ys : List Segment)
    → IsRedaction nonce input slots (xs ++ (chars w ++ ys))
    → IsRedaction nonce input
        (slots ++ (slot_of nonce k (length slots) w ∷ []))
        (xs ++ (placeholder k (length slots) w ∷ ys))
unfolding IsRedaction
IsRedaction-cut nonce input slots k w xs ys (same, are_slots, once) = (
  expand-cut (length slots) k w xs ys ∙ same,
  AreSlots-cut nonce 0 (length slots) k w slots xs ys (omega arith)
      (ground (arith, once (length slots))) are_slots,
  λ i. ground (
    arith,
    once i,
    occurrences-cut i (length slots) k w xs ys,
    length-append slots (slot_of nonce k (length slots) w ∷ []),
  ),
)
