-- ===== src/Capture/Redact/RoundTrip.antt =====
-- crates/woof-capture/src/redact.rs: from `redact_restorable` to `restore`.
use woof.Prelude.{
  ℕ, suc, ◌+◌, ◌≤◌, ◌<◌, ◌≡◌, refl, sym, ap, ◌∙◌, inl, inr, false, Bool-cases, some, List, [], ◌∷◌,
  ◌++◌, append_assoc, length, length-append, arith,
}
use mathlib.Core.Path.{subst}
use woof.Prelude.Text.{Text}
use woof.Capture.Redact.{
  RedactionKind, RedactionSlot, RestorableRedaction, restored, contains_text, marker_prefix,
  restore, unique_nonce,
}
use woof.Capture.Redact.Marker.{IsNonce}
use woof.Capture.Redact.Arranged.{
  Segment, placeholder, chars, render, expand, occurrences, render-append, render-chars,
  expand-chars, occurrences-chars,
}
use woof.Capture.Redact.Restore.{AreSlots, has_from, has_from_none, outcome, restore-outcome}
use woof.Capture.Redact.Cut.{slot_of, IsRedaction, IsRedaction-cut}
use woof.Capture.Redact.Passes.{
  Captures, matched, replace_all, Pass, regex_of, replacer_of, run_passes, Patterns,
  restorable_passes, with_nonce, redact_restorable,
}
use woof.Capture.Redact.Pieces.{
  Cutting, kept, cut, render_pieces, joined, kind_of, accepts, AllFit, redacted, next_number,
  accept_one, reject_one,
}

module _ (nonce : Text) where
  -- What a pass returns: the text and the slots of the redaction after it.
  abbrev IsPassed : Text → List Segment → List Segment → ℕ → Text × List RedactionSlot → Type 0
  IsPassed input xs segs n (text, slots) =
      (text ≡ render nonce segs) × (length slots ≡ n) × IsRedaction nonce input slots (xs ++ segs)

  after_cut :
      (input : Text) (pass : Pass) (pieces : List Cutting) (xs y segs : List Segment) (n : ℕ)
      (captures : Captures) (slots pushed : List RedactionSlot)
      → replacer_of pass nonce captures slots ≡ (render nonce y, pushed)
      → IsPassed input
          (xs ++ y)
          segs
          n
          (replace_all (replacer_of pass nonce) (render_pieces nonce pieces) pushed)
      → IsPassed input xs (y ++ segs) n (
          replace_all
            (replacer_of pass nonce)
            (matched captures ∷ render_pieces nonce pieces)
            slots)
  unfolding replace_all
  after_cut input pass pieces xs y segs n captures slots pushed step (text, count, is_redaction) =
      subst
        (λ x.
          let rest = replace_all (replacer_of pass nonce) (render_pieces nonce pieces) x.1 in
          IsPassed input xs (y ++ segs) n (x.0 ++ rest.0, rest.1))
        (sym step)
        (
          ap (λ t. render nonce y ++ t) text ∙ sym (render-append nonce y segs),
          count,
          subst (IsRedaction nonce input _) (append_assoc xs y segs) is_redaction,
        )

  -- The placeholder takes the place of the value in the redaction so far.
  redaction_with :
      (input : Text) (kind : RedactionKind) (v : Text) (xs b a rest : List Segment)
      (slots : List RedactionSlot)
      → IsRedaction nonce input slots (xs ++ ((b ++ (chars v ++ a)) ++ rest))
      → IsRedaction nonce input
          (slots ++ (slot_of nonce kind (length slots) v ∷ []))
          ((xs ++ (b ++ (placeholder kind (length slots) v ∷ a))) ++ rest)
  redaction_with input kind v xs b a rest slots is = subst (IsRedaction nonce input _) back (
      IsRedaction-cut nonce input slots kind v (xs ++ b) (a ++ rest)
        (subst (IsRedaction nonce input slots) there is))
    where
      there : xs ++ ((b ++ (chars v ++ a)) ++ rest) ≡ (xs ++ b) ++ (chars v ++ (a ++ rest))
      there = simp append_assoc

      back :
          (xs ++ b) ++ (placeholder kind (length slots) v ∷ (a ++ rest))
          ≡ (xs ++ (b ++ (placeholder kind (length slots) v ∷ a))) ++ rest
      back = simp append_assoc

  replace_all-pieces :
      (input : Text) (pass : Pass) (pieces : List Cutting) (xs : List Segment)
      (slots : List RedactionSlot) (n : ℕ)
      → length slots ≡ n
      → AllFit pass pieces
      → IsRedaction nonce input slots (xs ++ joined pieces)
      → IsPassed input xs
          (redacted pass n pieces)
          (next_number pass n pieces)
          (replace_all (replacer_of pass nonce) (render_pieces nonce pieces) slots)
  unfolding replace_all redacted next_number render
  replace_all-pieces input pass [] xs slots n e fit is = (refl, e, is)
  replace_all-pieces input pass (kept segs ∷ pieces) xs slots n e fit is =
      let (text, count, done) =
        replace_all-pieces input pass pieces (xs ++ segs) slots n e fit
          (subst (IsRedaction nonce input slots) (sym (append_assoc xs segs (joined pieces))) is) in
      (
        ap (λ t. render nonce segs ++ t) text
            ∙ sym (render-append nonce segs (redacted pass n pieces)),
        count,
        subst (IsRedaction nonce input _) (append_assoc xs segs (redacted pass n pieces)) done,
      )
  replace_all-pieces input pass (cut b v a ∷ pieces) xs slots n e (fits, fit) is =
      elim (Bool-cases (accepts pass v)) [
        | inl accepted ↦ rw accepted (
            subst
              (λ m.
                IsPassed input xs
                  ((b ++ (placeholder (kind_of pass) m v ∷ a)) ++ redacted pass (suc m) pieces)
                  (next_number pass (suc m) pieces)
                  (replace_all (replacer_of pass nonce) (render_pieces nonce (cut b v a ∷ pieces))
                    slots))
              e
              (after_cut input pass pieces xs
                (b ++ (placeholder (kind_of pass) (length slots) v ∷ a)) _ _ _ slots
                (slots ++ (slot_of nonce (kind_of pass) (length slots) v ∷ []))
                (accept_one nonce pass b a v slots fits accepted)
                (replace_all-pieces input pass pieces
                  (xs ++ (b ++ (placeholder (kind_of pass) (length slots) v ∷ a)))
                  (slots ++ (slot_of nonce (kind_of pass) (length slots) v ∷ []))
                  (suc (length slots))
                  (omega (
                    arith,
                    length-append slots (slot_of nonce (kind_of pass) (length slots) v ∷ []),
                  ))
                  fit (redaction_with input (kind_of pass) v xs b a (joined pieces) slots is))))
        | inr rejected ↦ rw rejected (
            after_cut input pass pieces xs (b ++ (chars v ++ a)) _ _ _ slots slots
              (reject_one nonce pass b a v slots fits rejected)
              (replace_all-pieces input pass pieces (xs ++ (b ++ (chars v ++ a))) slots n e fit (
                subst (IsRedaction nonce input slots)
                  (sym (append_assoc xs (b ++ (chars v ++ a)) (joined pieces))) is)))
      ]

  -- Every pass finds its matches outside the placeholders that stand in the text already.
  unfoldable pub IsSpared : List Pass → List Segment → ℕ → Type 0
  unfolding redacted next_number
  IsSpared [] segs n = Unit
  IsSpared (pass ∷ passes) segs n =
      (pieces : List Cutting) × (joined pieces ≡ segs)
      × (regex_of pass (render nonce segs) ≡ render_pieces nonce pieces)
      × AllFit pass pieces
      × IsSpared passes (redacted pass n pieces) (next_number pass n pieces)

  abbrev IsRun : Text → Text × List RedactionSlot → Type 0
  IsRun input (text, slots) =
      (end : List Segment) × (text ≡ render nonce end) × IsRedaction nonce input slots end

  run_passes-redaction :
      (input : Text) (passes : List Pass) (segs : List Segment) (slots : List RedactionSlot) (n : ℕ)
      → length slots ≡ n
      → IsRedaction nonce input slots segs
      → IsSpared passes segs n
      → IsRun input (run_passes nonce passes (render nonce segs) slots)
  unfolding run_passes IsSpared
  run_passes-redaction input [] segs slots n e is spared = (segs, refl, is)
  run_passes-redaction input (pass ∷ passes) segs slots n e is (pieces, joins, finds, fit, later) =
      let done = replace_all (replacer_of pass nonce) (render_pieces nonce pieces) slots in
      let (text, count, is_redaction) =
        replace_all-pieces input pass pieces [] slots n e fit
          (subst (IsRedaction nonce input slots) (sym joins) is) in
      subst
        (λ found.
          let next = replace_all (replacer_of pass nonce) found slots in
          IsRun input (run_passes nonce passes next.0 next.1))
        (sym finds)
        (subst (λ t. IsRun input (run_passes nonce passes t done.1)) (sym text)
          (run_passes-redaction input passes (redacted pass n pieces) done.1
            (next_number pass n pieces) count is_redaction later))

outcome-once :
    (n : ℕ) (slots : List RedactionSlot) (segs : List Segment)
    → ((i : ℕ) → n ≤ i → i < n + length slots → occurrences i segs ≡ 1)
    → ((m : ℕ) → m ≡ n + length slots → has_from m segs ≡ false)
    → outcome n slots segs ≡ restored (expand segs)
unfolding outcome
outcome-once n [] segs once none_left = rw (none_left n (omega arith)) refl
outcome-once n (slot ∷ slots) segs once none_left = ground (
  arith,
  once n (omega arith) (omega arith),
  outcome-once (suc n) slots segs (λ i h k. once i (omega arith) (omega arith))
      (λ m e. none_left m (omega (arith, e))),
)

unique_nonce-free :
    (draws : List Text) (input nonce : Text)
    → unique_nonce draws input ≡ some nonce
    → contains_text (marker_prefix nonce) input ≡ false
unfolding unique_nonce
unique_nonce-free [] input nonce e = ground arith
unique_nonce-free (draw ∷ draws) input nonce e =
    elim (Bool-cases (contains_text (marker_prefix draw) input)) [
      | inl taken ↦ unique_nonce-free draws input nonce (ground (arith, taken, e))
      | inr free ↦
          subst (λ x. contains_text (marker_prefix x) input ≡ false) (ground (arith, free, e)) free
    ]

start : (nonce input : Text) → IsRedaction nonce input [] (chars input)
unfolding IsRedaction AreSlots
start nonce input = (expand-chars input, tt, λ i. ground (arith, occurrences-chars i input))

restored_whole :
    (nonce input text : Text) (slots : List RedactionSlot) (end : List Segment)
    → IsNonce nonce
    → contains_text (marker_prefix nonce) input ≡ false
    → IsRedaction nonce input slots end
    → restore (record { text = text; nonce = nonce; slots = slots }) (render nonce end)
      ≡ restored input
unfolding IsRedaction
restored_whole nonce input text slots end safe free (same, are_slots, once) =
    restore-outcome (record { text = text; nonce = nonce; slots = slots }) end safe
      (ap (contains_text (marker_prefix nonce)) same ∙ free) are_slots
    ∙ outcome-once 0 slots end (λ i h k. ground (arith, once i, k))
        (λ m e. has_from_none m end (λ i h. ground (arith, once i, h, e)))
    ∙ ap restored same

-- Where the rewrite service returns the redacted text as it is, restoring it gives the input back,
-- for an input in which no pattern takes a placeholder, or a part of one, for a private value.
pub restore-redact_restorable :
    (patterns : Patterns) (draws : List Text) (input nonce : Text)
    → unique_nonce draws input ≡ some nonce
    → IsNonce nonce
    → IsSpared nonce (restorable_passes patterns) (chars input) 0
    → (redaction : RestorableRedaction) × (redact_restorable patterns draws input ≡ some redaction)
      × (restore redaction redaction.text ≡ restored input)
unfolding redact_restorable
restore-redact_restorable patterns draws input nonce drawn safe spared =
    let passes = restorable_passes patterns in
    let run = run_passes nonce passes input [] in
    let (end, text, is) =
      subst (λ t. IsRun nonce input (run_passes nonce passes t [])) (render-chars nonce input)
        (run_passes-redaction nonce input passes (chars input) [] 0 refl (start nonce input)
          spared) in
    (
      record { text = run.0; nonce = nonce; slots = run.1 },
      ap (with_nonce patterns input) drawn,
      ap (restore (record { text = run.0; nonce = nonce; slots = run.1 })) text
          ∙ restored_whole nonce input run.0 run.1 end safe
              (unique_nonce-free draws input nonce drawn) is,
    )
