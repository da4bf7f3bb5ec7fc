-- ===== src/Chat/Sse/Chunking.antt =====
-- crates/woof-llm/src/chat.rs: how the bytes of a response are cut into chunks has no part in the
-- events.
use woof.Prelude.{
  length-drop, ℕ, zero, suc, ◌+◌, ◌≤◌, ◌<◌, ◌≡◌, refl, sym, ap, ◌∙◌, inl, inr, Option, none, some,
  List, [], ◌++◌, append_assoc, length, length-append, take, drop, arith, Option-cases,
}
use mathlib.Core.Path.{subst}
use woof.Prelude.Text.{Text}
use woof.Chat.Sse.{
  max_sse_buffer_bytes, event_boundary, block_event, Pushed, prepend, after_block, drain_from,
  drain, push,
}
use woof.Chat.Sse.Boundary.{take_found, drop_found, boundary-bounds, boundary-append}
use woof.Chat.Sse.Draining.{drain-none, drain-some, drain-fuel, drain-length}

-- The whole, from the events of a first part and what the decoder makes of the second after it.
abbrev IsResumedBy : Option (List Text) → Pushed → Pushed → Type 0
IsResumedBy none second whole = whole.events ≡ none
IsResumedBy (some events) second whole = whole ≡ after_block (some events) [] second

abbrev pub IsResumed : Pushed → Pushed → Pushed → Type 0
IsResumed first second whole = IsResumedBy first.events second whole

prepend-prepend :
    (a b : List Text) (later : Option (List Text))
    → prepend a (prepend b later) ≡ prepend (a ++ b) later
prepend-prepend a b none = refl
prepend-prepend a b (some later) = ap some (sym (append_assoc a b later))

prepend_nil : (later : Option (List Text)) → later ≡ prepend [] later
prepend_nil none = refl
prepend_nil (some later) = refl

resumed_none : (whole : Pushed) → whole ≡ after_block (some []) [] whole
resumed_none whole = λ i. record { events = prepend_nil whole.events i; buffer = whole.buffer }

-- A block before the first part comes before the whole.
extend_some :
    (first : List Text) (events : Option (List Text)) (second whole : Pushed)
    → IsResumedBy events second whole
    → IsResumedBy (prepend first events) second (after_block (some first) [] whole)
extend_some first none second whole h = ap (prepend first) h
extend_some first (some events) second whole h = ap (after_block (some first) []) h ∙ λ i. record {
  events = prepend-prepend first events second.events i;
  buffer = second.buffer;
}

extend :
    (block : Option (List Text)) (rest rest' : List ℕ) (next : List ℕ → Pushed)
    (first whole : Pushed)
    → IsResumed first (next first.buffer) whole
    → IsResumed
        (after_block block rest first)
        (next (after_block block rest first).buffer)
        (after_block block rest' whole)
extend none rest rest' next first whole h = refl
extend (some events) rest rest' next first whole h =
    extend_some events first.events (next first.buffer) whole h

module _ (more : List ℕ) where
  abbrev next : List ℕ → Pushed
  next buffer = drain (buffer ++ more)

  whole_round :
      (s : List ℕ) (p d : ℕ)
      → event_boundary s ≡ some (p, d)
      → drain (s ++ more)
        ≡ after_block
            (block_event (take p s))
            (drop (p + d) s ++ more)
            (drain (drop (p + d) s ++ more))
  unfolding drain
  whole_round s p d found =
      let (some_bytes, inside) = boundary-bounds s p d found in
      let rest = drop (p + d) s in
      let n = length (s ++ more) in
      drain-some n (s ++ more) p d (boundary-append s more p d found)
      ∙ ap (λ l. after_block (block_event (take p (s ++ more))) l (drain_from n l))
          (drop_found (p + d) s more inside)
      ∙ ap (λ t. after_block (block_event t) (rest ++ more) (drain_from n (rest ++ more)))
          (take_found p d s more inside)
      ∙ ap (after_block (block_event (take p s)) (rest ++ more)) (
          drain-fuel n (suc (length (rest ++ more))) (rest ++ more)
            (omega
              (arith, length-append rest more, length-append s more, length-drop (p + d) s inside))
            (omega arith))

  drained :
      (fuel : ℕ) (s : List ℕ)
      → length s < fuel
      → IsResumed (drain_from fuel s) (next (drain_from fuel s).buffer) (drain (s ++ more))
  drained zero s k = absurd (omega arith)
  drained (suc fuel) s k = elim (Option-cases (event_boundary s)) [
    | inl ended ↦
        subst (λ first. IsResumed first (next first.buffer) (drain (s ++ more)))
          (sym (drain-none fuel s ended)) (resumed_none (drain (s ++ more)))
    | inr ((p, d), found) ↦
        let (some_bytes, inside) = boundary-bounds s p d found in
        let rest = drop (p + d) s in
        subst (λ first. IsResumed first (next first.buffer) (drain (s ++ more)))
          (sym (drain-some fuel s p d found))
          (subst
            (IsResumed (after_block (block_event (take p s)) rest (drain_from fuel rest))
              (next (after_block (block_event (take p s)) rest (drain_from fuel rest)).buffer))
            (sym (whole_round s p d found))
            (extend (block_event (take p s)) rest (rest ++ more) next (drain_from fuel rest)
              (drain (rest ++ more))
              (drained fuel rest (omega (arith, length-drop (p + d) s inside)))))
  ]

drained-drain :
    (more s : List ℕ) → IsResumed (drain s) (drain ((drain s).buffer ++ more)) (drain (s ++ more))
unfolding drain
drained-drain more s = drained more (suc (length s)) s (omega arith)

push-drain :
    (buffer chunk : List ℕ)
    → length buffer + length chunk ≤ max_sse_buffer_bytes
    → push buffer chunk ≡ drain (buffer ++ chunk)
unfolding push
push-drain buffer chunk h = ground arith

-- Two chunks that fit give what one chunk of both gives: the events of the first and then those of
-- the second, with the same buffer left, and an error of the first is an error of both.
pub push-append :
    (buffer a b : List ℕ)
    → length buffer + (length a + length b) ≤ max_sse_buffer_bytes
    → IsResumed (push buffer a) (push (push buffer a).buffer b) (push buffer (a ++ b))
push-append buffer a b fits =
    subst (λ first. IsResumed first (push first.buffer b) (push buffer (a ++ b)))
      (sym (push-drain buffer a (omega arith)))
      (subst (IsResumed (drain (buffer ++ a)) (push (drain (buffer ++ a)).buffer b))
        (sym (
          push-drain buffer (a ++ b) (omega (arith, length-append a b))
          ∙ ap drain (sym (append_assoc buffer a b))))
        (subst (λ second. IsResumed (drain (buffer ++ a)) second (drain ((buffer ++ a) ++ b)))
          (sym (
            push-drain (drain (buffer ++ a)).buffer b
              (omega (arith, left_over, length-append buffer a))))
          (resumed (buffer ++ a))))
  where
    left_over : length (drain (buffer ++ a)).buffer ≤ length (buffer ++ a)
    left_over = drain-length (buffer ++ a)

    resumed : (s : List ℕ) → IsResumed (drain s) (drain ((drain s).buffer ++ b)) (drain (s ++ b))
    resumed s = drained-drain b s
