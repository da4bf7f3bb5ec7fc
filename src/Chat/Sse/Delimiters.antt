-- ===== src/Chat/Sse/Delimiters.antt =====
-- crates/woof-llm/src/chat.rs: what `event_boundary` finds, in terms of the bytes.
use woof.Prelude.{
  ℕ, zero, suc, ◌+◌, ◌≤◌, ◌≡◌, ◌≢◌, refl, sym, ap, ◌∙◌, inl, inr, ◌⊎◌, true, Option, none, some,
  List, [], ◌∷◌, ◌++◌, length, take, drop, arith, leb, Bool-cases,
}
use woof.Chat.Sse.{
  begins_with, window_position, next_position, earlier, unix_end, windows_end, event_boundary,
}

-- An empty line, with either of the line ends.
abbrev pub IsDelimiter : List ℕ → Type 0
IsDelimiter d = (d ≡ unix_end) ⊎ (d ≡ windows_end)

-- No delimiter stands in the bytes.
abbrev pub IsFree : List ℕ → Type 0
IsFree s = (a d b : List ℕ) → IsDelimiter d → s ≢ a ++ (d ++ b)

-- The bytes have no delimiter that begins before `n` of them.
abbrev pub IsFreeBefore : ℕ → List ℕ → Type 0
IsFreeBefore n s = (a d b : List ℕ) → IsDelimiter d → s ≡ a ++ (d ++ b) → n ≤ length a

begins_with-drop : (p s : List ℕ) → begins_with p s ≡ true → s ≡ p ++ drop (length p) s
unfolding begins_with
begins_with-drop [] s h = refl
begins_with-drop (c ∷ p) [] h = ground (arith, h)
begins_with-drop (c ∷ p) (d ∷ s) h = ground (arith, h, begins_with-drop p s)

begins_with-append : (p s : List ℕ) → begins_with p (p ++ s) ≡ true
unfolding begins_with
begins_with-append [] s = refl
begins_with-append (c ∷ p) s = ground (arith, begins_with-append p s)

same_drop : (p s : List ℕ) (m : ℕ) → m ≡ length p → begins_with p s ≡ true → s ≡ p ++ drop m s
same_drop p s m e h = begins_with-drop p s h ∙ ap (λ n. p ++ drop n s) (sym e)

next-some : (o : Option ℕ) (k : ℕ) → next_position o ≡ some (suc k) → o ≡ some k
next-some none k e = ground (arith, e)
next-some (some n) k e = ground (arith, e)

next_zero : (o : Option ℕ) → next_position o ≢ some 0
next_zero none e = ground (arith, e)
next_zero (some n) e = ground (arith, e)

position-cut :
    (p s : List ℕ) (k m : ℕ)
    → m ≡ k + length p
    → window_position p s ≡ some k
    → s ≡ take k s ++ (p ++ drop m s)
unfolding window_position
position-cut p [] k m h e = ground (arith, e)
position-cut p (c ∷ s) zero m h e = elim (Bool-cases (begins_with p (c ∷ s))) [
  | inl here ↦ same_drop p (c ∷ s) m (omega (arith, h)) here
  | inr later ↦ absurd (next_zero (window_position p s) (ground (arith, later, e)))
]
position-cut p (c ∷ s) (suc k) zero h e = absurd (omega (arith, h))
position-cut p (c ∷ s) (suc k) (suc m) h e = elim (Bool-cases (begins_with p (c ∷ s))) [
  | inl here ↦ absurd (ground (arith, here, e))
  | inr later ↦
      ap (λ l. c ∷ l)
        (position-cut p s k m (omega (arith, h))
          (next-some (window_position p s) k (ground (arith, later, e))))
]

position-found :
    (c : ℕ) (p a b : List ℕ)
    → (k : ℕ) × (window_position (c ∷ p) (a ++ ((c ∷ p) ++ b)) ≡ some k) × (k ≤ length a)
unfolding window_position
position-found c p [] b = (0, ground (arith, begins_with-append (c ∷ p) b), omega arith)
position-found c p (x ∷ a) b = elim (Bool-cases (begins_with (c ∷ p) (x ∷ (a ++ ((c ∷ p) ++ b))))) [
  | inl here ↦ (0, ground (arith, here), omega arith)
  | inr later ↦
      let (k, found, below) = position-found c p a b in
      (suc k, ground (arith, later, found), omega (arith, below))
]

-- The end of a block: a delimiter stands there, and none begins before it.
pub boundary-cut :
    (s : List ℕ) (p d : ℕ)
    → event_boundary s ≡ some (p, d)
    → (delimiter : List ℕ) × IsDelimiter delimiter
      × (s ≡ take p s ++ (delimiter ++ drop (p + d) s))
      × IsFreeBefore p s
unfolding event_boundary
boundary-cut s p d e =
    choose (window_position unix_end s) (window_position windows_end s) refl refl e
  where
    before :
        (u w : Option ℕ)
        → window_position unix_end s ≡ u
        → window_position windows_end s ≡ w
        → ((k : ℕ) → u ≡ some k → p ≤ k)
        → ((k : ℕ) → w ≡ some k → p ≤ k)
        → IsFreeBefore p s
    before u w eu ew hu hw a d b (inl unix) split =
        let (k, found, below) = position-found 10 (10 ∷ []) a b in
        let at : u ≡ some k =
          sym eu ∙ ap (window_position unix_end) (split ∙ ap (λ l. a ++ (l ++ b)) unix) ∙ found in
        omega (arith, hu k at, below)
    before u w eu ew hu hw a d b (inr windows) split =
        let (k, found, below) = position-found 13 (10 ∷ 13 ∷ 10 ∷ []) a b in
        let at : w ≡ some k =
          sym ew
          ∙ ap (window_position windows_end) (split ∙ ap (λ l. a ++ (l ++ b)) windows)
          ∙ found in
        omega (arith, hw k at, below)

    choose :
        (u w : Option ℕ)
        → window_position unix_end s ≡ u
        → window_position windows_end s ≡ w
        → earlier u w ≡ some (p, d)
        → (delimiter : List ℕ) × IsDelimiter delimiter
          × (s ≡ take p s ++ (delimiter ++ drop (p + d) s))
          × IsFreeBefore p s
    choose none none eu ew f = ground (arith, f)
    choose (some k) none eu ew f = (
      unix_end,
      inl refl,
      position-cut unix_end s p (p + d) (ground (arith, f)) (ground (arith, eu, f)),
      before (some k) none eu ew (λ n g. ground (arith, g, f)) (λ n g. ground (arith, g)),
    )
    choose none (some k) eu ew f = (
      windows_end,
      inr refl,
      position-cut windows_end s p (p + d) (ground (arith, f)) (ground (arith, ew, f)),
      before none (some k) eu ew (λ n g. ground (arith, g)) (λ n g. ground (arith, g, f)),
    )
    choose (some k) (some l) eu ew f = elim (Bool-cases (leb k l)) [
      | inl first ↦ (
        unix_end,
        inl refl,
        position-cut unix_end s p (p + d) (ground (arith, f, first)) (ground (arith, eu, f, first)),
        before (some k) (some l) eu ew (λ n g. ground (arith, g, f, first))
            (λ n g. ground (arith, g, f, first)),
      )
      | inr second ↦ (
        windows_end,
        inr refl,
        position-cut windows_end s p (p + d) (ground (arith, f, second))
            (ground (arith, ew, f, second)),
        before (some k) (some l) eu ew (λ n g. ground (arith, g, f, second))
            (λ n g. ground (arith, g, f, second)),
      )
    ]

-- Where none is found, there is none.
pub boundary-IsFree : (s : List ℕ) → event_boundary s ≡ none → IsFree s
unfolding event_boundary
boundary-IsFree s e a d b (inl unix) split =
    let (k, found, below) = position-found 10 (10 ∷ []) a b in
    let at : window_position unix_end s ≡ some k =
      ap (window_position unix_end) (split ∙ ap (λ l. a ++ (l ++ b)) unix) ∙ found in
    some_earlier k (window_position windows_end s)
      (ap (λ o. earlier o (window_position windows_end s)) (sym at) ∙ e)
  where
    some_earlier : (k : ℕ) (w : Option ℕ) → earlier (some k) w ≢ none
    some_earlier k none f = ground (arith, f)
    some_earlier k (some l) f = ground (arith, f)
boundary-IsFree s e a d b (inr windows) split =
    let (k, found, below) = position-found 13 (10 ∷ 13 ∷ 10 ∷ []) a b in
    let at : window_position windows_end s ≡ some k =
      ap (window_position windows_end) (split ∙ ap (λ l. a ++ (l ++ b)) windows) ∙ found in
    earlier_some k (window_position unix_end s)
      (ap (earlier (window_position unix_end s)) (sym at) ∙ e)
  where
    earlier_some : (k : ℕ) (u : Option ℕ) → earlier u (some k) ≢ none
    earlier_some k none f = ground (arith, f)
    earlier_some k (some l) f = ground (arith, f)
