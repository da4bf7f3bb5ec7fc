-- ===== src/Capture/Redact/Restore.antt =====
-- crates/woof-capture/src/redact.rs: what `restore` answers to any rewritten text.
use woof.Prelude.{
  Bool, true, leb, ◌||◌, ◌++◌, append_assoc, Bool-cases, ℕ, suc, ◌≤◌, ◌<◌, ◌≡◌, refl, ap, ◌∙◌, inl,
  inr, false, List, [], ◌∷◌, ◌==◌, if◌then◌else◌, arith,
}
use native.Mathlib.Decide.{ℕ_discrete, dec_lt}
use woof.Prelude.Decimal.{decimal}
use woof.Prelude.Text.{Text, codes}
use woof.Capture.Redact.{
  RedactionKind, RedactionSlot, RestorableRedaction, Restored, restored, refused,
  missing_placeholder, duplicated_placeholder, unexpected_placeholder, starts_with, contains_text,
  count_from, replace_first, marker_prefix, marker_name, marker_text, restore_slots, restore,
}
use woof.Capture.Redact.Marker.{IsNonce, prefix_tail}
use woof.Capture.Redact.Arranged.{
  Segment, char, placeholder, chars, render, expand, occurrences, fill, IsClean, IsClean-expand,
  IsClean-chars, IsNumbered, IsNumbered-fill, expand-fill, occurrences-fill,
}
use woof.Capture.Redact.Matching.{count-render, replace-render, starts_with-prefix}

-- The slots are those of the placeholders with the numbers from `n` on.
unfoldable pub AreSlots : Text → ℕ → List RedactionSlot → List Segment → Type 0
AreSlots nonce n [] segs = Unit
AreSlots nonce n (slot ∷ slots) segs =
    ((kind : RedactionKind) × (slot.marker ≡ marker_text nonce kind n)
      × IsNumbered n kind slot.value segs)
    × AreSlots nonce (suc n) slots segs

-- A placeholder with the number `n` or a later one stands in the text.
unfoldable pub has_from : ℕ → List Segment → Bool
has_from n [] = false
has_from n (char c ∷ segs) = has_from n segs
has_from n (placeholder kind i v ∷ segs) = leb n i || has_from n segs

-- The first slot whose placeholder does not stand in the text exactly once decides the error; a
-- placeholder whose number no slot has is an error too.
unfoldable pub outcome : ℕ → List RedactionSlot → List Segment → Restored
outcome n [] segs =
    if has_from n segs then refused unexpected_placeholder else restored (expand segs)
outcome n (slot ∷ slots) segs =
    let rest = outcome (suc n) slots segs in
    if occurrences n segs == 0
    then refused missing_placeholder
    else if occurrences n segs == 1
    then rest
    else refused duplicated_placeholder

AreSlots-fill :
    (nonce : Text) (n i : ℕ) (slots : List RedactionSlot) (segs : List Segment)
    → AreSlots nonce n slots segs
    → AreSlots nonce n slots (fill i segs)
unfolding AreSlots
AreSlots-fill nonce n i [] segs h = tt
AreSlots-fill nonce n i (slot ∷ slots) segs ((k, e, h), rest) =
    ((k, e, IsNumbered-fill n i k slot.value segs h), AreSlots-fill nonce (suc n) i slots segs rest)

has_from-append :
    (n : ℕ) (v : Text) (segs : List Segment) → has_from n (chars v ++ segs) ≡ has_from n segs
unfolding has_from
has_from-append n [] segs = refl
has_from-append n (c ∷ v) segs = has_from-append n v segs

has_from-fill : (i n : ℕ) (segs : List Segment) → i < n → has_from n (fill i segs) ≡ has_from n segs
unfolding has_from fill
has_from-fill i n [] h = refl
has_from-fill i n (char c ∷ segs) h = has_from-fill i n segs h
has_from-fill i n (placeholder k j v ∷ segs) h =
    ground (arith, has_from-fill i n segs h, has_from-append n v segs)

none_from :
    (n i : ℕ) (segs : List Segment) → has_from n segs ≡ false → n ≤ i → occurrences i segs ≡ 0
unfolding has_from occurrences
none_from n i [] h k = refl
none_from n i (char c ∷ segs) h k = none_from n i segs h k
none_from n i (placeholder kind j v ∷ segs) h k = ground (arith, h, none_from n i segs)

pub has_from_none :
    (n : ℕ) (segs : List Segment)
    → ((i : ℕ) → n ≤ i → occurrences i segs ≡ 0)
    → has_from n segs ≡ false
unfolding has_from occurrences
has_from_none n [] h = refl
has_from_none n (char c ∷ segs) h = has_from_none n segs h
has_from_none n (placeholder kind j v ∷ segs) h =
    ground (arith, h j, has_from_none n segs (λ i k. ground (arith, h i, k)))

starts_with-append : (p s : Text) → starts_with p (p ++ s) ≡ true
unfolding starts_with
starts_with-append [] s = refl
starts_with-append (c ∷ p) s = ground (arith, starts_with-append p s)

contains_text-found : (c : ℕ) (p s : Text) → contains_text (c ∷ p) ((c ∷ p) ++ s) ≡ true
unfolding contains_text
contains_text-found c p s = ground (arith, starts_with-append (c ∷ p) s)

contains_text-marker :
    (nonce : Text) (k : RedactionKind) (i : ℕ) (s : Text)
    → contains_text (marker_prefix nonce) (marker_text nonce k i ++ s) ≡ true
unfolding marker_text marker_prefix
contains_text-marker nonce k i s =
    ap (contains_text (marker_prefix nonce)) (
      append_assoc (marker_prefix nonce) (marker_name k ++ (codes "_" ++ (decimal i ++ codes "]")))
        s)
    ∙ contains_text-found 91 (prefix_tail nonce) _

contains_text-append : (p s t : Text) → contains_text p t ≡ true → contains_text p (s ++ t) ≡ true
unfolding contains_text
contains_text-append p [] t h = h
contains_text-append p (c ∷ s) t h = ground (arith, contains_text-append p s t h)

-- A filled placeholder of a lower number has no part in the outcome.
outcome-fill :
    (i n : ℕ) (slots : List RedactionSlot) (segs : List Segment)
    → i < n
    → outcome n slots (fill i segs) ≡ outcome n slots segs
unfolding outcome
outcome-fill i n [] segs h = ground (arith, expand-fill i segs, has_from-fill i n segs h)
outcome-fill i n (slot ∷ slots) segs h =
    ground (arith, occurrences-fill i n segs, outcome-fill i (suc n) slots segs (omega arith))

module _ (nonce : Text) (safe : IsNonce nonce) where
  -- Where no placeholder is left, the text is as it is put together.
  restored_text :
      (segs : List Segment)
      → ((i : ℕ) → occurrences i segs ≡ 0)
      → IsClean (marker_prefix nonce) segs
      → (render nonce segs ≡ expand segs)
        × (contains_text (marker_prefix nonce) (render nonce segs) ≡ false)
  unfolding render expand occurrences contains_text IsClean
  restored_text [] none_left h = (refl, refl)
  restored_text (char c ∷ segs) none_left h =
      let (same, clean) = restored_text segs none_left h.1 in
      (ap (λ t. c ∷ t) same, ground (arith, clean, h.0, starts_with-prefix nonce safe c segs))
  restored_text (placeholder k i v ∷ segs) none_left h = absurd (ground (arith, none_left i))

  clean :
      (segs : List Segment)
      → contains_text (marker_prefix nonce) (expand segs) ≡ false
      → IsClean (marker_prefix nonce) segs
  unfolding marker_prefix
  clean segs h =
      IsClean-expand 91 (prefix_tail nonce) segs
        (IsClean-chars (marker_prefix nonce) (expand segs) h)

  -- A placeholder that is left is seen, whatever its kind and number are.
  contains_text-render :
      (n : ℕ) (segs : List Segment)
      → has_from n segs ≡ true
      → contains_text (marker_prefix nonce) (render nonce segs) ≡ true
  unfolding has_from render
  contains_text-render n [] h = absurd (ground (arith, h))
  contains_text-render n (char c ∷ segs) h =
      contains_text-append (marker_prefix nonce) (c ∷ []) (render nonce segs)
        (contains_text-render n segs h)
  contains_text-render n (placeholder k i v ∷ segs) h =
      contains_text-marker nonce k i (render nonce segs)

  -- The placeholders of lower numbers are filled.
  abbrev AreFilled : ℕ → List Segment → Type 0
  AreFilled n segs = (i : ℕ) → i < n → occurrences i segs ≡ 0

  AreFilled-fill :
      (n : ℕ) (segs : List Segment)
      → AreFilled n segs
      → occurrences n segs ≡ 1
      → AreFilled (suc n) (fill n segs)
  AreFilled-fill n segs h once i k = ground (arith, once, h i, k, occurrences-fill n i segs)

  -- The end of `restore`.
  restore_slots-end :
      (n : ℕ) (segs : List Segment)
      → contains_text (marker_prefix nonce) (expand segs) ≡ false
      → AreFilled n segs
      → restore_slots (marker_prefix nonce) [] (render nonce segs) ≡ outcome n [] segs
  unfolding restore_slots outcome
  restore_slots-end n segs h filled = elim (Bool-cases (has_from n segs)) [
    | inl stray ↦ rw (stray, contains_text-render n segs stray) refl
    | inr no_stray ↦
        let (same, free) =
          restored_text segs
            (λ i. elim (dec_lt i n) [
              | yes small ↦ filled i small
              | no large ↦ none_from n i segs no_stray (omega arith)
            ])
            (clean segs h) in
        rw (no_stray, free, same) refl
  ]

  restore_slots-outcome :
      (n : ℕ) (slots : List RedactionSlot) (segs : List Segment)
      → contains_text (marker_prefix nonce) (expand segs) ≡ false
      → AreSlots nonce n slots segs
      → AreFilled n segs
      → restore_slots (marker_prefix nonce) slots (render nonce segs) ≡ outcome n slots segs
  unfolding restore_slots outcome AreSlots
  restore_slots-outcome n [] segs h slots numbers = restore_slots-end n segs h numbers
  restore_slots-outcome n (slot ∷ rest) segs h ((k, e, numbered), slots) numbers =
      elim (ℕ_discrete (occurrences n segs) 1) [
        | yes once ↦ ground (
          arith,
          counted,
          once,
          replaced,
          restore_slots-outcome (suc n) rest (fill n segs)
              (ap (contains_text (marker_prefix nonce)) (expand-fill n segs) ∙ h)
              (AreSlots-fill nonce (suc n) n rest segs slots) (AreFilled-fill n segs numbers once),
          outcome-fill n (suc n) rest segs (omega arith),
        )
        | no other ↦ ground (arith, counted, other)
      ]
    where
      counted : count_from 0 slot.marker (render nonce segs) ≡ occurrences n segs
      counted =
          ap (λ m. count_from 0 m (render nonce segs)) e
          ∙ count-render nonce safe k n slot.value segs (clean segs h) numbered

      replaced :
          replace_first slot.marker slot.value (render nonce segs) ≡ render nonce (fill n segs)
      replaced =
          ap (λ m. replace_first m slot.value (render nonce segs)) e
          ∙ replace-render nonce safe k n slot.value segs (clean segs h) numbered

-- What `restore` answers to a rewritten text in which placeholders with the nonce stand among other
-- characters, also placeholders that the redaction never made, where each that has the number of a
-- slot is the one of that slot, and where the text with the values of its placeholders does not read
-- like a placeholder anywhere. The first slot whose placeholder does not stand in the text exactly
-- once is reported, as missing or as duplicated; otherwise a placeholder with a number that no slot
-- has is reported as unexpected; otherwise the answer is the text with the values.
pub restore-outcome :
    (redaction : RestorableRedaction) (segs : List Segment)
    → IsNonce redaction.nonce
    → contains_text (marker_prefix redaction.nonce) (expand segs) ≡ false
    → AreSlots redaction.nonce 0 redaction.slots segs
    → restore redaction (render redaction.nonce segs) ≡ outcome 0 redaction.slots segs
unfolding restore
restore-outcome redaction segs safe h slots =
    restore_slots-outcome redaction.nonce safe 0 redaction.slots segs h slots
      (λ i k. absurd (omega (arith, k)))
