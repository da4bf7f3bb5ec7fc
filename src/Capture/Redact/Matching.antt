-- ===== src/Capture/Redact/Matching.antt =====
-- crates/woof-capture/src/redact.rs: what counting and replacing a placeholder does to an arranged
-- text.
use woof.Prelude.{
  ℕ, suc, ◌≡◌, refl, sym, ap, ◌∙◌, inl, inr, true, false, Bool-cases, List, [], ◌∷◌, ◌++◌, length,
  drop-append, arith,
}
use native.Mathlib.Decide.{ℕ_discrete}
use woof.Prelude.Text.{Text}
use woof.Capture.Redact.{
  RedactionKind, starts_with, count_from, replace_first, marker_prefix, marker_text,
}
use woof.Capture.Redact.Marker.{
  Lacks, IsNonce, marker_tail, marker_tail-Lacks, label, marker_text-head, marker_text-label,
  starts_with-marker, starts_with_self, starts_with-part, prefix_tail, prefix_tail-Lacks,
}
use woof.Capture.Redact.Arranged.{
  Segment, char, placeholder, chars, render, occurrences, fill, plain_starts, IsClean, IsNumbered,
  render-append, render-chars, fill-same, fill-other,
}

count-skip : (m t s : Text) → count_from (length t) m (t ++ s) ≡ count_from 0 m s
unfolding count_from
count-skip m [] s = refl
count-skip m (c ∷ t) s = count-skip m t s

count-pass : (m t s : Text) → Lacks 91 t → count_from 0 (91 ∷ m) (t ++ s) ≡ count_from 0 (91 ∷ m) s
unfolding count_from starts_with
count-pass m [] s h = refl
count-pass m (c ∷ t) s h = ground (arith, count-pass m t s)

replace-pass :
    (m v t s : Text)
    → Lacks 91 t
    → replace_first (91 ∷ m) v (t ++ s) ≡ t ++ replace_first (91 ∷ m) v s
unfolding replace_first starts_with
replace-pass m v [] s h = refl
replace-pass m v (c ∷ t) s h = ground (arith, replace-pass m v t s)

count-same : (m t s : Text) → m ≡ 91 ∷ t → count_from 0 m (m ++ s) ≡ suc (count_from 0 m s)
unfolding count_from
count-same m t s e = rw e (cut t s)
  where
    cut : (t s : Text) → count_from 0 (91 ∷ t) ((91 ∷ t) ++ s) ≡ suc (count_from 0 (91 ∷ t) s)
    cut t s = ground (arith, starts_with_self (91 ∷ t) s, count-skip (91 ∷ t) t s)

count-other :
    (m t m' t' s : Text)
    → m ≡ 91 ∷ t
    → m' ≡ 91 ∷ t'
    → Lacks 91 t'
    → starts_with m (m' ++ s) ≡ false
    → count_from 0 m (m' ++ s) ≡ count_from 0 m s
unfolding count_from
count-other m t m' t' s e e' h f =
    rw (e, e')
      (cut t t' s h (
        sym (ap (λ x. starts_with x (m' ++ s)) e ∙ ap (λ x. starts_with (91 ∷ t) (x ++ s)) e') ∙ f))
  where
    cut :
        (t t' s : Text)
        → Lacks 91 t'
        → starts_with (91 ∷ t) ((91 ∷ t') ++ s) ≡ false
        → count_from 0 (91 ∷ t) ((91 ∷ t') ++ s) ≡ count_from 0 (91 ∷ t) s
    cut t t' s h f = ground (arith, count-pass t t' s h)

replace-same : (m t v s : Text) → m ≡ 91 ∷ t → replace_first m v (m ++ s) ≡ v ++ s
unfolding replace_first
replace-same m t v s e = rw e (cut t v s)
  where
    cut : (t v s : Text) → replace_first (91 ∷ t) v ((91 ∷ t) ++ s) ≡ v ++ s
    cut t v s = ground (arith, starts_with_self (91 ∷ t) s, drop-append (91 ∷ t) s)

replace-other :
    (m t m' t' v s : Text)
    → m ≡ 91 ∷ t
    → m' ≡ 91 ∷ t'
    → Lacks 91 t'
    → starts_with m (m' ++ s) ≡ false
    → replace_first m v (m' ++ s) ≡ m' ++ replace_first m v s
unfolding replace_first
replace-other m t m' t' v s e e' h f =
    rw (e, e')
      (cut t t' v s h (
        sym (ap (λ x. starts_with x (m' ++ s)) e ∙ ap (λ x. starts_with (91 ∷ t) (x ++ s)) e') ∙ f))
  where
    cut :
        (t t' v s : Text)
        → Lacks 91 t'
        → starts_with (91 ∷ t) ((91 ∷ t') ++ s) ≡ false
        → replace_first (91 ∷ t) v ((91 ∷ t') ++ s) ≡ (91 ∷ t') ++ replace_first (91 ∷ t) v s
    cut t t' v s h f = ground (arith, replace-pass t v t' s h)

module _ (nonce : Text) (safe : IsNonce nonce) where
  plain-starts :
      (m : Text) (segs : List Segment)
      → Lacks 91 m
      → starts_with m (render nonce segs) ≡ true
      → plain_starts m segs ≡ true
  unfolding starts_with plain_starts render
  plain-starts [] segs h e = refl
  plain-starts (c ∷ m) [] h e = ground arith
  plain-starts (c ∷ m) (char d ∷ segs) h e = ground (arith, plain-starts m segs)
  plain-starts (c ∷ m) (placeholder k i v ∷ segs) h e =
      ground
        (arith, ap (λ t. starts_with (c ∷ m) (t ++ render nonce segs)) (marker_text-head nonce k i))

  -- The beginning of a placeholder is read only where one stands.
  pub starts_with-prefix :
      (c : ℕ) (segs : List Segment)
      → starts_with (marker_prefix nonce) (c ∷ render nonce segs) ≡ true
      → plain_starts (marker_prefix nonce) (char c ∷ segs) ≡ true
  unfolding starts_with plain_starts marker_prefix
  starts_with-prefix c segs e =
      ground (arith, plain-starts (prefix_tail nonce) segs (prefix_tail-Lacks nonce safe.0))

  -- No placeholder begins at a character that is outside of them.
  starts_with-char :
      (k : RedactionKind) (i c : ℕ) (segs : List Segment)
      → IsClean (marker_prefix nonce) (char c ∷ segs)
      → starts_with (marker_text nonce k i) (c ∷ render nonce segs) ≡ false
  unfolding IsClean
  starts_with-char k i c segs h =
      elim (Bool-cases (starts_with (marker_text nonce k i) (c ∷ render nonce segs))) [
        | inl e ↦ absurd (
            grind (
              arith,
              h.0,
              starts_with-prefix c segs (
                  starts_with-part (marker_prefix nonce) (label k i) _
                    (rw (← marker_text-label nonce k i) e)),
            ))
        | inr e ↦ e
      ]

  same_marker :
      (k k' : RedactionKind) (i j : ℕ)
      → k ≡ k'
      → i ≡ j
      → marker_text nonce k' j ≡ marker_text nonce k i
  same_marker k k' i j e f = sym (ap (λ x. marker_text nonce x i) e ∙ ap (marker_text nonce k') f)

  other_marker :
      (k k' : RedactionKind) (i j : ℕ) (s : Text)
      → ¬ i ≡ j
      → starts_with (marker_text nonce k i) (marker_text nonce k' j ++ s) ≡ false
  other_marker k k' i j s other =
      elim (Bool-cases (starts_with (marker_text nonce k i) (marker_text nonce k' j ++ s))) [
        | inl e ↦ absurd (other (starts_with-marker nonce k k' i j s safe e))
        | inr e ↦ e
      ]

  pub count-render :
      (k : RedactionKind) (i : ℕ) (v : Text) (segs : List Segment)
      → IsClean (marker_prefix nonce) segs
      → IsNumbered i k v segs
      → count_from 0 (marker_text nonce k i) (render nonce segs) ≡ occurrences i segs
  unfolding count_from render occurrences IsNumbered IsClean
  count-render k i v [] h n = refl
  count-render k i v (char c ∷ segs) h n =
      ground (arith, starts_with-char k i c segs h, count-render k i v segs h.1 n)
  count-render k i v (placeholder k' j v' ∷ segs) h n = elim (ℕ_discrete i j) [
    | yes same ↦ ground (
      arith,
      same,
      count-render k i v segs h.1 n.1,
      ap (λ x. count_from 0 (marker_text nonce k i) (x ++ render nonce segs))
            (same_marker k k' i j (n.0 same).0 same)
          ∙ count-same (marker_text nonce k i) (marker_tail nonce k i) (render nonce segs)
              (marker_text-head nonce k i),
    )
    | no other ↦ ground (
      arith,
      other,
      count-render k i v segs h.1 n.1,
      count-other (marker_text nonce k i) (marker_tail nonce k i) (marker_text nonce k' j)
          (marker_tail nonce k' j) (render nonce segs) (marker_text-head nonce k i)
          (marker_text-head nonce k' j) (marker_tail-Lacks nonce k' j safe)
          (other_marker k k' i j (render nonce segs) other),
    )
  ]

  pub replace-render :
      (k : RedactionKind) (i : ℕ) (v : Text) (segs : List Segment)
      → IsClean (marker_prefix nonce) segs
      → IsNumbered i k v segs
      → replace_first (marker_text nonce k i) v (render nonce segs) ≡ render nonce (fill i segs)
  unfolding replace_first render fill IsNumbered IsClean
  replace-render k i v [] h n = refl
  replace-render k i v (char c ∷ segs) h n =
      ground (arith, starts_with-char k i c segs h, replace-render k i v segs h.1 n)
  replace-render k i v (placeholder k' j v' ∷ segs) h n = elim (ℕ_discrete i j) [
    | yes same ↦
        ap (λ x. replace_first (marker_text nonce k i) v (x ++ render nonce segs))
          (same_marker k k' i j (n.0 same).0 same)
        ∙ replace-same (marker_text nonce k i) (marker_tail nonce k i) v (render nonce segs)
            (marker_text-head nonce k i)
        ∙ ap (λ x. x ++ render nonce segs) ((n.0 same).1 ∙ sym (render-chars nonce v'))
        ∙ sym (render-append nonce (chars v') segs)
        ∙ ap (render nonce) (sym (fill-same i j k' v' segs (ground (arith, same))))
    | no other ↦
        replace-other (marker_text nonce k i) (marker_tail nonce k i) (marker_text nonce k' j)
          (marker_tail nonce k' j) v (render nonce segs) (marker_text-head nonce k i)
          (marker_text-head nonce k' j) (marker_tail-Lacks nonce k' j safe)
          (other_marker k k' i j (render nonce segs) other)
        ∙ ap (λ x. marker_text nonce k' j ++ x) (replace-render k i v segs h.1 n.1)
        ∙ ap (render nonce) (sym (fill-other i j k' v' segs (ground (arith, other))))
  ]
