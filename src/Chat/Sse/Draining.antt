-- ===== src/Chat/Sse/Draining.antt =====
-- crates/woof-llm/src/chat.rs: the loop of `SseDecoder::push`.
use woof.Prelude.{
  length-take, length-drop, ℕ, zero, suc, ◌+◌, ◌-◌, ◌≤◌, ◌<◌, ◌≡◌, refl, sym, ap, ◌∙◌, inl, inr,
  ◌⊎◌, Bool, true, false, Option, none, some, List, [], ◌++◌, ltb, if◌then◌else◌, length,
  length-append, take, drop, arith, Option-cases,
}
use mathlib.Core.Path.{subst}
use woof.Prelude.Text.{Text}
use woof.Chat.Sse.{
  max_sse_buffer_bytes, event_boundary, block_event, Pushed, prepend, after_block, drain_round,
  drain_from, drain, push,
}
use woof.Chat.Utf8.{from_utf8}
use woof.Chat.Sse.Boundary.{boundary-bounds}
use woof.Chat.Sse.Delimiters.{IsDelimiter, IsFree, IsFreeBefore, boundary-cut, boundary-IsFree}

pub drain-none :
    (fuel : ℕ) (s : List ℕ)
    → event_boundary s ≡ none
    → drain_from (suc fuel) s ≡ record { events = some []; buffer = s }
unfolding drain_from
drain-none fuel s e = ap (drain_round s (drain_from fuel)) e

pub drain-some :
    (fuel : ℕ) (s : List ℕ) (p d : ℕ)
    → event_boundary s ≡ some (p, d)
    → drain_from (suc fuel) s
      ≡ after_block (block_event (take p s)) (drop (p + d) s) (drain_from fuel (drop (p + d) s))
unfolding drain_from
drain-some fuel s p d e = ap (drain_round s (drain_from fuel)) e

-- More fuel than the buffer has bytes makes no difference.
pub drain-fuel :
    (f g : ℕ) (s : List ℕ) → length s < f → length s < g → drain_from f s ≡ drain_from g s
drain-fuel zero g s h k = absurd (omega arith)
drain-fuel (suc f) zero s h k = absurd (omega arith)
drain-fuel (suc f) (suc g) s h k = elim (Option-cases (event_boundary s)) [
  | inl ended ↦ drain-none f s ended ∙ sym (drain-none g s ended)
  | inr ((p, d), found) ↦
      let (some_bytes, inside) = boundary-bounds s p d found in
      let shorter = length-drop (p + d) s inside in
      drain-some f s p d found
      ∙ ap (after_block (block_event (take p s)) (drop (p + d) s))
          (drain-fuel f g (drop (p + d) s) (omega arith) (omega arith))
      ∙ sym (drain-some g s p d found)
]

after_block-length :
    (block : Option (List Text)) (rest : List ℕ) (pushed : Pushed) (n : ℕ)
    → length rest ≤ n
    → length pushed.buffer ≤ n
    → length (after_block block rest pushed).buffer ≤ n
after_block-length none rest pushed n h k = h
after_block-length (some first) rest pushed n h k = k

drain_from-length : (fuel : ℕ) (s : List ℕ) → length (drain_from fuel s).buffer ≤ length s
unfolding drain_from
drain_from-length zero s = omega arith
drain_from-length (suc fuel) s = elim (Option-cases (event_boundary s)) [
  | inl ended ↦
      subst (λ pushed. length pushed.buffer ≤ length s) (sym (drain-none fuel s ended))
        (omega arith)
  | inr ((p, d), found) ↦
      let (some_bytes, inside) = boundary-bounds s p d found in
      let shorter = length-drop (p + d) s inside in
      subst (λ pushed. length pushed.buffer ≤ length s) (sym (drain-some fuel s p d found))
        (after_block-length (block_event (take p s)) (drop (p + d) s)
          (drain_from fuel (drop (p + d) s)) (length s) (omega arith)
          (omega (arith, drain_from-length fuel (drop (p + d) s))))
]

pub drain-length : (s : List ℕ) → length (drain s).buffer ≤ length s
unfolding drain
drain-length s = drain_from-length (suc (length s)) s

-- What the decoder makes of some bytes. They are cut at the first delimiter, again and again: a
-- block that is UTF-8 gives its event and the rest is read on, a block that is not ends the reading
-- with an error and leaves what follows it, and bytes with no delimiter are left.
pub data IsDecoded : List ℕ → Pushed → Type 0 where
  ends : {s : List ℕ} → IsFree s → IsDecoded s (record { events = some []; buffer = s })
  invalid :
      {s : List ℕ} (block delimiter rest : List ℕ)
      → IsDelimiter delimiter
      → s ≡ block ++ (delimiter ++ rest)
      → IsFreeBefore (length block) s
      → from_utf8 block ≡ none
      → IsDecoded s (record { events = none; buffer = rest })
  event :
      {s : List ℕ} (block delimiter rest : List ℕ) {first : List Text} {pushed : Pushed}
      → IsDelimiter delimiter
      → s ≡ block ++ (delimiter ++ rest)
      → IsFreeBefore (length block) s
      → block_event block ≡ some first
      → IsDecoded rest pushed
      → IsDecoded s (record { events = prepend first pushed.events; buffer = pushed.buffer })

block_event-none : (block : List ℕ) → block_event block ≡ none → from_utf8 block ≡ none
unfolding block_event
block_event-none block e = ground (arith, e)

drain_from-IsDecoded : (fuel : ℕ) (s : List ℕ) → length s < fuel → IsDecoded s (drain_from fuel s)
drain_from-IsDecoded zero s h = absurd (omega arith)
drain_from-IsDecoded (suc fuel) s h = elim (Option-cases (event_boundary s)) [
  | inl ended ↦ subst (IsDecoded s) (sym (drain-none fuel s ended)) (ends (boundary-IsFree s ended))
  | inr ((p, d), found) ↦
      let (some_bytes, inside) = boundary-bounds s p d found in
      let shorter = length-drop (p + d) s inside in
      let (delimiter, is, split, first) = boundary-cut s p d found in
      let short = length-take p s (omega (arith, inside)) in
      let free : IsFreeBefore (length (take p s)) s =
        λ a d' b k e. omega (arith, short, first a d' b k e) in
      subst (IsDecoded s) (sym (drain-some fuel s p d found))
        (elim (Option-cases (block_event (take p s))) [
          | inl bad ↦
              subst
                (λ o.
                  IsDecoded s (after_block o (drop (p + d) s) (drain_from fuel (drop (p + d) s))))
                (sym bad)
                (invalid (take p s) delimiter (drop (p + d) s) is split free
                  (block_event-none (take p s) bad))
          | inr (events, good) ↦
              subst
                (λ o.
                  IsDecoded s (after_block o (drop (p + d) s) (drain_from fuel (drop (p + d) s))))
                (sym good)
                (event (take p s) delimiter (drop (p + d) s) is split free good
                  (drain_from-IsDecoded fuel (drop (p + d) s) (omega arith)))
        ])
]

-- A chunk that does not fit into the buffer is refused, and the buffer is as it was; any other is
-- decoded to the end with the bytes before it, and what is left fits again.
abbrev pub IsTaken : List ℕ → List ℕ → Pushed → Type 0
IsTaken buffer chunk pushed =
    ((max_sse_buffer_bytes < length buffer + length chunk)
      × (pushed ≡ record { events = none; buffer = buffer }))
    ⊎ ((length buffer + length chunk ≤ max_sse_buffer_bytes)
        × IsDecoded (buffer ++ chunk) pushed
        × (length pushed.buffer ≤ max_sse_buffer_bytes))

-- From a buffer within its limit, `push` refuses a chunk exactly where it does not fit, and then
-- keeps the buffer; otherwise it cuts the bytes at every delimiter, the first one first, gives the
-- events of the blocks, and stops at the first block that is no UTF-8 with an error, or where no
-- delimiter is left; what it leaves is within the limit.
pub push-IsTaken :
    (buffer chunk : List ℕ)
    → length buffer ≤ max_sse_buffer_bytes
    → IsTaken buffer chunk (push buffer chunk)
unfolding push drain
push-IsTaken buffer chunk h =
    choose (ltb (max_sse_buffer_bytes - length buffer) (length chunk)) refl
  where
    choose :
        (b : Bool)
        → ltb (max_sse_buffer_bytes - length buffer) (length chunk) ≡ b
        → IsTaken buffer chunk
            (if b then record { events = none; buffer = buffer } else drain (buffer ++ chunk))
    choose true e = inl (ground (arith, e, h), refl)
    choose false e = inr (
      ground (arith, e, h),
      drain_from-IsDecoded (suc (length (buffer ++ chunk))) (buffer ++ chunk) (omega arith),
      ground (arith, e, h, length-append buffer chunk, drain-length (buffer ++ chunk)),
    )
