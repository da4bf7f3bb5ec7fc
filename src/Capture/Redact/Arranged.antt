-- ===== src/Capture/Redact/Arranged.antt =====
-- crates/woof-capture/src/redact.rs: texts in which placeholders stand among other characters.
use woof.Prelude.{
  ℕ, suc, ◌+◌, ◌-◌, ◌≡◌, refl, sym, ap, ◌∙◌, inl, inr, Bool, true, false, Bool-cases, List, [], ◌∷◌,
  ◌++◌, append_assoc, ◌==◌, if◌then◌else◌, arith,
}
use mathlib.Core.Path.{subst}
use woof.Prelude.Text.{Text}
use woof.Capture.Redact.{RedactionKind, starts_with, contains_text, marker_text}

-- A character of the rewritten text, or a placeholder with its kind, its number and its value.
pub data Segment : Type 0 where
  char : ℕ → Segment
  placeholder : RedactionKind → ℕ → Text → Segment

abbrev pub chars : Text → List Segment
chars [] = []
chars (c ∷ s) = char c ∷ chars s

-- The text with its placeholders.
unfoldable pub render : Text → List Segment → Text
render nonce [] = []
render nonce (char c ∷ segs) = c ∷ render nonce segs
render nonce (placeholder kind i v ∷ segs) = marker_text nonce kind i ++ render nonce segs

-- The text with the values in place of the placeholders.
unfoldable pub expand : List Segment → Text
expand [] = []
expand (char c ∷ segs) = c ∷ expand segs
expand (placeholder kind i v ∷ segs) = v ++ expand segs

unfoldable pub occurrences : ℕ → List Segment → ℕ
occurrences i [] = 0
occurrences i (char c ∷ segs) = occurrences i segs
occurrences i (placeholder kind j v ∷ segs) =
    if i == j then suc (occurrences i segs) else occurrences i segs

-- The first placeholder of a number gives way to its value.
unfoldable pub fill : ℕ → List Segment → List Segment
fill i [] = []
fill i (char c ∷ segs) = char c ∷ fill i segs
fill i (placeholder kind j v ∷ segs) =
    let later = fill i segs in if i == j then chars v ++ segs else placeholder kind j v ∷ later

-- The characters at the start of the text, up to the first placeholder, begin with `m`.
unfoldable pub plain_starts : Text → List Segment → Bool
plain_starts [] segs = true
plain_starts (c ∷ m) [] = false
plain_starts (c ∷ m) (char d ∷ segs) = if c == d then plain_starts m segs else false
plain_starts (c ∷ m) (placeholder kind i v ∷ segs) = false

-- No characters outside the placeholders read like the beginning of one.
unfoldable pub IsClean : Text → List Segment → Type 0
IsClean p [] = Unit
IsClean p (x ∷ segs) = (plain_starts p (x ∷ segs) ≡ false) × IsClean p segs

pub render-append :
    (nonce : Text) (xs ys : List Segment)
    → render nonce (xs ++ ys) ≡ render nonce xs ++ render nonce ys
unfolding render
render-append nonce [] ys = refl
render-append nonce (char c ∷ xs) ys = ap (λ t. c ∷ t) (render-append nonce xs ys)
render-append nonce (placeholder k i v ∷ xs) ys =
    ap (λ t. marker_text nonce k i ++ t) (render-append nonce xs ys)
    ∙ sym (append_assoc (marker_text nonce k i) (render nonce xs) (render nonce ys))

pub render-chars : (nonce s : Text) → render nonce (chars s) ≡ s
unfolding render
render-chars nonce [] = refl
render-chars nonce (c ∷ s) = ap (λ t. c ∷ t) (render-chars nonce s)

pub expand-append : (xs ys : List Segment) → expand (xs ++ ys) ≡ expand xs ++ expand ys
unfolding expand
expand-append [] ys = refl
expand-append (char c ∷ xs) ys = ap (λ t. c ∷ t) (expand-append xs ys)
expand-append (placeholder k i v ∷ xs) ys =
    ap (λ t. v ++ t) (expand-append xs ys) ∙ sym (append_assoc v (expand xs) (expand ys))

pub expand-chars : (s : Text) → expand (chars s) ≡ s
unfolding expand
expand-chars [] = refl
expand-chars (c ∷ s) = ap (λ t. c ∷ t) (expand-chars s)

pub occurrences-append :
    (i : ℕ) (xs ys : List Segment) → occurrences i (xs ++ ys) ≡ occurrences i xs + occurrences i ys
unfolding occurrences
occurrences-append i [] ys = omega arith
occurrences-append i (char c ∷ xs) ys = occurrences-append i xs ys
occurrences-append i (placeholder k j v ∷ xs) ys = ground (arith, occurrences-append i xs ys)

pub occurrences-chars : (i : ℕ) (s : Text) → occurrences i (chars s) ≡ 0
unfolding occurrences
occurrences-chars i [] = refl
occurrences-chars i (c ∷ s) = occurrences-chars i s

-- Filling keeps the text that the placeholders stand for.
pub expand-fill : (i : ℕ) (segs : List Segment) → expand (fill i segs) ≡ expand segs
unfolding expand fill
expand-fill i [] = refl
expand-fill i (char c ∷ segs) = ap (λ t. c ∷ t) (expand-fill i segs)
expand-fill i (placeholder k j v ∷ segs) = elim (Bool-cases (i == j)) [
  | inl same ↦ rw same (expand-append (chars v) segs ∙ ap (λ t. t ++ expand segs) (expand-chars v))
  | inr other ↦ rw other (ap (λ t. v ++ t) (expand-fill i segs))
]

pub occurrences-fill :
    (i j : ℕ) (segs : List Segment)
    → occurrences j (fill i segs) ≡ (if i == j then occurrences i segs - 1 else occurrences j segs)
unfolding occurrences fill
occurrences-fill i j [] = ground arith
occurrences-fill i j (char c ∷ segs) = occurrences-fill i j segs
occurrences-fill i j (placeholder k n v ∷ segs) =
    ground
      (arith, occurrences-fill i j segs, occurrences-append j (chars v) segs, occurrences-chars j v)

chars-append : (s t : Text) → chars (s ++ t) ≡ chars s ++ chars t
chars-append [] t = refl
chars-append (c ∷ s) t = ap (λ l. char c ∷ l) (chars-append s t)

plain_starts-expand :
    (m : Text) (segs : List Segment)
    → plain_starts m segs ≡ true
    → plain_starts m (chars (expand segs)) ≡ true
unfolding plain_starts expand
plain_starts-expand [] segs e = refl
plain_starts-expand (c ∷ m) [] e = ground arith
plain_starts-expand (c ∷ m) (char d ∷ segs) e = ground (arith, plain_starts-expand m segs)
plain_starts-expand (c ∷ m) (placeholder k j v ∷ segs) e = ground arith

IsClean-suffix : (p : Text) (xs ys : List Segment) → IsClean p (xs ++ ys) → IsClean p ys
unfolding IsClean
IsClean-suffix p [] ys h = h
IsClean-suffix p (x ∷ xs) ys h = IsClean-suffix p xs ys h.1

pub fill-same :
    (i j : ℕ) (k : RedactionKind) (v : Text) (segs : List Segment)
    → (i == j) ≡ true
    → fill i (placeholder k j v ∷ segs) ≡ chars v ++ segs
unfolding fill
fill-same i j k v segs e = rw e refl

pub fill-other :
    (i j : ℕ) (k : RedactionKind) (v : Text) (segs : List Segment)
    → (i == j) ≡ false
    → fill i (placeholder k j v ∷ segs) ≡ placeholder k j v ∷ fill i segs
unfolding fill
fill-other i j k v segs e = rw e refl

-- Where the text with the values is clean, so is the one with the placeholders.
pub IsClean-expand :
    (c : ℕ) (p : Text) (segs : List Segment)
    → IsClean (c ∷ p) (chars (expand segs))
    → IsClean (c ∷ p) segs
unfolding IsClean plain_starts expand
IsClean-expand c p [] h = tt
IsClean-expand c p (char d ∷ segs) h =
    (ground (arith, h.0, plain_starts-expand (c ∷ p) (char d ∷ segs)), IsClean-expand c p segs h.1)
IsClean-expand c p (placeholder k j v ∷ segs) h = (
  refl,
  IsClean-expand c p segs (
      IsClean-suffix (c ∷ p) (chars v) (chars (expand segs))
        (subst (IsClean (c ∷ p)) (chars-append v (expand segs)) h)),
)

plain_starts-chars : (m s : Text) → plain_starts m (chars s) ≡ starts_with m s
unfolding plain_starts starts_with
plain_starts-chars [] s = refl
plain_starts-chars (c ∷ m) [] = refl
plain_starts-chars (c ∷ m) (d ∷ s) = ground (arith, plain_starts-chars m s)

-- A text without the beginning of a placeholder is clean.
pub IsClean-chars : (p s : Text) → contains_text p s ≡ false → IsClean p (chars s)
unfolding IsClean contains_text
IsClean-chars p [] h = tt
IsClean-chars p (c ∷ s) h =
    (ground (arith, h, plain_starts-chars p (c ∷ s)), IsClean-chars p s (ground (arith, h)))

-- The placeholders of a number have the kind and the value of its slot.
unfoldable pub IsNumbered : ℕ → RedactionKind → Text → List Segment → Type 0
IsNumbered i k v [] = Unit
IsNumbered i k v (char c ∷ segs) = IsNumbered i k v segs
IsNumbered i k v (placeholder k' j v' ∷ segs) =
    ((i ≡ j) → (k ≡ k') × (v ≡ v')) × IsNumbered i k v segs

IsNumbered-append :
    (i : ℕ) (k : RedactionKind) (v s : Text) (segs : List Segment)
    → IsNumbered i k v segs
    → IsNumbered i k v (chars s ++ segs)
unfolding IsNumbered
IsNumbered-append i k v [] segs h = h
IsNumbered-append i k v (c ∷ s) segs h = IsNumbered-append i k v s segs h

pub IsNumbered-fill :
    (i n : ℕ) (k : RedactionKind) (v : Text) (segs : List Segment)
    → IsNumbered i k v segs
    → IsNumbered i k v (fill n segs)
unfolding IsNumbered fill
IsNumbered-fill i n k v [] h = h
IsNumbered-fill i n k v (char c ∷ segs) h = IsNumbered-fill i n k v segs h
IsNumbered-fill i n k v (placeholder k' j v' ∷ segs) h = elim (Bool-cases (n == j)) [
  | inl same ↦
      subst (IsNumbered i k v) (sym (fill-same n j k' v' segs same))
        (IsNumbered-append i k v v' segs h.1)
  | inr other ↦
      subst (IsNumbered i k v) (sym (fill-other n j k' v' segs other))
        (h.0, IsNumbered-fill i n k v segs h.1)
]
