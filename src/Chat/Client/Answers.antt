-- ===== src/Chat/Client/Answers.antt =====
-- crates/woof-llm/src/chat.rs: what a caller of `stream_chat` is told and gets.
use woof.Prelude.{
  ℕ, zero, suc, ◌+◌, ◌≤◌, ◌≡◌, refl, sym, ◌∙◌, Bool, true, false, not, ◌&&◌, Option, none, List, [],
  ◌∷◌, ◌++◌, if◌then◌else◌, length, All, arith,
}
use mathlib.Core.Path.{subst}
use woof.Prelude.Text.{Text}
use woof.Chat.Sse.{push}
use woof.Chat.Assembly.{ChatStreamEvent, WireStreamChunk, Progress, default_progress}
use woof.Chat.Assembly.Heard.{is_completed_told, is_silent}
use woof.Chat.Assembly.Told.{IsTold, default-IsTold}
use woof.Chat.Assembly.Bounds.{default-IsBounded}
use woof.Chat.Client.{
  err, Item, bytes, failed, cancelled_here, Opening, opened, not_opened, cancelled_opening,
  unexpected_end, transport, Attempt, ChatClient, retry_delay, Answer, Reading, reading, stopped,
  Ending, ends, retries, read_pushed, read_items, attempt_ends, after_attempt, attempts_from,
  stream_chat, retryable, retry_after_of,
}
use woof.Chat.Client.Reads.{IsSound, IsAnswered, IsRead, silent-told, pushed-IsRead}

module _ (parse : Text → Option WireStreamChunk) (is_json : Text → Bool) where
  abbrev IsEnded : Ending → Type 0
  IsEnded (ends told result) = IsAnswered parse is_json told result
  IsEnded (retries told retry_after) = told ≡ []

  unemitted-told : (p : Progress) → IsTold p → p.emitted ≡ false → p.told ≡ []
  unfolding IsTold
  unemitted-told p h e = silent p.told (sym h.3 ∙ e)
    where
      silent : (told : List ChatStreamEvent) → not (is_silent told) ≡ false → told ≡ []
      silent [] k = refl
      silent (event ∷ told) k = ground (arith, k)

  if-IsEnded :
      (b : Bool) (x y : Ending) → (b ≡ true → IsEnded x) → IsEnded y → IsEnded (if b then x else y)
  if-IsEnded true x y h k = h refl
  if-IsEnded false x y h k = k

  read_items-IsEnded :
      (more : Bool) (items : List Item) (buffer : List ℕ) (p : Progress)
      → IsSound parse is_json p
      → IsEnded (read_items parse is_json more items buffer p)
  unfolding read_items
  read_items-IsEnded more [] buffer p h =
      if-IsEnded (not p.emitted && more) (retries p.told none) (ends p.told (err unexpected_end))
        (λ e. unemitted-told p h.0 (ground (arith, e))) (silent-told parse is_json p h.0)
  read_items-IsEnded more (cancelled_here ∷ items) buffer p h = silent-told parse is_json p h.0
  read_items-IsEnded more (failed error ∷ items) buffer p h =
      if-IsEnded (retryable error && not p.emitted && more) (retries p.told (retry_after_of error))
        (ends p.told (err (transport error))) (λ e. unemitted-told p h.0 (ground (arith, e)))
        (silent-told parse is_json p h.0)
  read_items-IsEnded more (bytes chunk ∷ items) buffer p h =
      choose (read_pushed parse is_json (push buffer chunk).events p)
        (pushed-IsRead parse is_json (push buffer chunk).events p h)
        (read_items-IsEnded more items (push buffer chunk).buffer)
    where
      choose :
          (r : Reading)
          → IsRead parse is_json r
          → ((q : Progress)
              → IsSound parse is_json q
              → IsEnded (read_items parse is_json more items (push buffer chunk).buffer q))
          → IsEnded (elim r [
            | reading q ↦ read_items parse is_json more items (push buffer chunk).buffer q
            | stopped told result ↦ ends told result
          ])
      choose (reading q) k next = next q k
      choose (stopped told result) k next = k

  attempt-IsEnded : (more : Bool) (o : Opening) → IsEnded (attempt_ends parse is_json more o)
  unfolding attempt_ends is_completed_told
  attempt-IsEnded more (opened items) =
      read_items-IsEnded more items [] default_progress (default-IsTold, default-IsBounded)
  attempt-IsEnded more (not_opened error) = if-IsEnded _ (retries [] _) (ends [] _) (λ e. refl) refl
  attempt-IsEnded more cancelled_opening = refl

  module _ (client : ChatClient) where
    -- An answer with at most so many requests, no wait without one, and no wait above the cap.
    abbrev pub IsServed : ℕ → Answer → Type 0
    IsServed attempts a =
        IsAnswered parse is_json a.told a.result
        × (a.opens ≤ attempts)
        × (length a.delays ≤ a.opens)
        × All (λ d. d ≤ client.retry_cap) a.delays

    retry_delay_le : (n : ℕ) (o : Option ℕ) → retry_delay client n o ≤ client.retry_cap
    unfolding retry_delay
    retry_delay_le n o = ground arith

    after-IsServed :
        (n left : ℕ) (c : Bool) (later : Answer) (x : Ending)
        → IsServed left later
        → IsEnded x
        → IsServed (suc left) (after_attempt parse is_json client n c later x)
    unfolding is_completed_told
    after-IsServed n left c later (ends told result) h k = (k, omega arith, omega arith, tt)
    after-IsServed n left true later (retries told retry_after) h k =
        (ground (arith, k), omega arith, omega arith, (retry_delay_le n retry_after, tt))
    after-IsServed n left false later (retries told retry_after) h k = (
      subst (λ t. IsAnswered parse is_json (t ++ later.told) later.result) (sym k) h.0,
      omega arith,
      omega arith,
      (retry_delay_le n retry_after, h.3),
    )

    if-IsServed :
        (n : ℕ) (b : Bool) (x y : Answer)
        → IsServed n x
        → IsServed n y
        → IsServed n (if b then x else y)
    if-IsServed n true x y h k = h
    if-IsServed n false x y h k = k

    attempts-IsServed :
        (left n : ℕ) (inputs : ℕ → Attempt)
        → IsServed left (attempts_from parse is_json client left n inputs)
    unfolding attempts_from is_completed_told
    attempts-IsServed zero n inputs = (refl, omega arith, omega arith, tt)
    attempts-IsServed (suc left) n inputs =
        if-IsServed (suc left) (inputs n).cancelled_before _ _ (refl, omega arith, omega arith, tt)
          (after-IsServed n left (inputs n).cancelled_waiting _ _
            (attempts-IsServed left (n + 1) inputs) (attempt-IsEnded _ (inputs n).opening))

    -- Whatever the transport, the decoding of JSON and the cancellation do: a completion that is
    -- returned is told last and once; its text, and the name and arguments of its calls, are what the
    -- parts told before add up to; its calls have an id, a name and JSON; and the limits on the text
    -- and the number of calls hold. Where an error is returned, no completion was told. There are at
    -- most `max_attempts` requests, no more waits than requests, and no wait above the cap.
    pub stream_chat-IsServed :
        (inputs : ℕ → Attempt)
        → IsServed client.max_attempts (stream_chat parse is_json client inputs)
    unfolding stream_chat
    stream_chat-IsServed inputs = attempts-IsServed client.max_attempts 0 inputs
