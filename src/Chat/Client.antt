-- ===== src/Chat/Client.antt =====
-- crates/woof-llm/src/chat.rs and error.rs: `ChatClient::stream_chat`. What the transport, the
-- cancellation and the waits do in an attempt is an input; JSON is a parameter.
pub mod Reads
pub mod Answers
use woof.Prelude.{
  ℕ, zero, suc, ◌+◌, ◌-◌, ◌*◌, ◌^◌, Bool, true, false, not, ◌&&◌, ◌||◌, Option, none, some, List,
  [], ◌∷◌, ◌++◌, min, ltb, leb, ◌==◌, if◌then◌else◌,
}
use woof.Prelude.Text.{Text, codes, text_eq, trim}
use woof.Chat.Sse.{Pushed, push}
use woof.Chat.Assembly.{
  WireStreamChunk, ChatCompletion, ChatStreamEvent, completed, Progress, default_progress, apply,
  finish,
}

pub data TransportError : Type 0 where
  transient_network permanent_network : TransportError
  http : (status : ℕ) (retry_after : Option ℕ) → TransportError

unfoldable pub retryable : TransportError → Bool
retryable transient_network = true
retryable permanent_network = false
retryable (http status retry_after) = status == 429 || leb 500 status && leb status 599

abbrev pub retry_after_of : TransportError → Option ℕ
retry_after_of transient_network = none
retry_after_of permanent_network = none
retry_after_of (http status retry_after) = retry_after

-- The errors that `stream_chat` returns once the request is encoded.
pub data ChatError : Type 0 where
  cancelled invalid_stream unexpected_end : ChatError
  transport : TransportError → ChatError

pub data ChatResult : Type 0 where
  ok : ChatCompletion → ChatResult
  err : ChatError → ChatResult

-- What `select!` gets next while a stream is open.
pub data Item : Type 0 where
  bytes : List ℕ → Item
  failed : TransportError → Item
  cancelled_here : Item

-- What `select!` gets of `open`: a stream with its items up to its end, or not.
pub data Opening : Type 0 where
  opened : List Item → Opening
  not_opened : TransportError → Opening
  cancelled_opening : Opening

-- What happens in one attempt, and whether the wait after it is cancelled.
pub record Attempt : Type 0 where
  pub cancelled_before : Bool
  pub opening : Opening
  pub cancelled_waiting : Bool

pub record ChatClient : Type 0 where
  pub max_attempts : ℕ
  pub retry_base : ℕ
  pub retry_cap : ℕ

abbrev pub duration_max : ℕ
duration_max = 18446744073709551615999999999

abbrev pub or_else : Option ℕ → ℕ → ℕ
or_else none d = d
or_else (some r) d = r

unfoldable pub retry_delay : ChatClient → ℕ → Option ℕ → ℕ
retry_delay client attempt retry_after =
    let calculated =
      min (min (client.retry_base * 2 ^ min attempt 31) duration_max) client.retry_cap in
    min (or_else retry_after calculated) client.retry_cap

-- What a caller sees: the events told, the requests opened, the waits, and the result.
pub record Answer : Type 0 where
  pub told : List ChatStreamEvent
  pub opens : ℕ
  pub delays : List ℕ
  pub result : ChatResult

abbrev pub answer : List ChatStreamEvent → ChatResult → Answer
answer told result = record { told = told; opens = 1; delays = []; result = result }

-- How a stream goes on after some data.
pub data Reading : Type 0 where
  reading : Progress → Reading
  stopped : List ChatStreamEvent → ChatResult → Reading

-- How an attempt ends, with what was told in it: with an answer, or with a wait for the next one.
pub data Ending : Type 0 where
  ends : List ChatStreamEvent → ChatResult → Ending
  retries : List ChatStreamEvent → Option ℕ → Ending

module _ (parse : Text → Option WireStreamChunk) (is_json : Text → Bool) where
  abbrev pub complete : Progress → Option ChatCompletion → Reading
  complete p none = stopped p.told (err invalid_stream)
  complete p (some completion) = stopped (p.told ++ (completed completion ∷ [])) (ok completion)

  abbrev pub applied : Progress × Bool → Reading
  applied (p, true) = reading p
  applied (p, false) = stopped p.told (err invalid_stream)

  abbrev pub read_chunk : Progress → Option WireStreamChunk → Reading
  read_chunk p none = stopped p.told (err invalid_stream)
  read_chunk p (some chunk) = applied (apply chunk p)

  unfoldable pub read_data : Text → Progress → Reading
  read_data data_text p =
      if text_eq (trim data_text) (codes "[DONE]")
      then complete p (finish is_json p.assembly)
      else read_chunk p (parse data_text)

  -- `for data in decoder.push(&bytes)?`
  unfoldable pub read_events : List Text → Progress → Reading
  read_events [] p = reading p
  read_events (data_text ∷ rest) p = elim (read_data data_text p) [
    | reading q ↦ read_events rest q
    | stopped told result ↦ stopped told result
  ]

  abbrev pub read_pushed : Option (List Text) → Progress → Reading
  read_pushed none p = stopped p.told (err invalid_stream)
  read_pushed (some events) p = read_events events p

  -- The inner loop. `more` tells whether another attempt is left.
  unfoldable pub read_items : Bool → List Item → List ℕ → Progress → Ending
  read_items more [] buffer p =
      if not p.emitted && more then retries p.told none else ends p.told (err unexpected_end)
  read_items more (cancelled_here ∷ items) buffer p = ends p.told (err cancelled)
  read_items more (failed error ∷ items) buffer p =
      if retryable error && not p.emitted && more
      then retries p.told (retry_after_of error)
      else ends p.told (err (transport error))
  read_items more (bytes chunk ∷ items) buffer p = elim (read_pushed (push buffer chunk).events p) [
    | reading q ↦ read_items more items (push buffer chunk).buffer q
    | stopped told result ↦ ends told result
  ]

  unfoldable pub attempt_ends : Bool → Opening → Ending
  attempt_ends more (opened items) = read_items more items [] default_progress
  attempt_ends more (not_opened error) =
      if retryable error && more
      then retries [] (retry_after_of error)
      else ends [] (err (transport error))
  attempt_ends more cancelled_opening = ends [] (err cancelled)

  module _ (client : ChatClient) where
    abbrev pub after_attempt : ℕ → Bool → Answer → Ending → Answer
    after_attempt attempt cancelled_waiting later (ends told result) = answer told result
    after_attempt attempt cancelled_waiting later (retries told retry_after) =
        let delay = retry_delay client attempt retry_after in
        if cancelled_waiting
        then record { told = told; opens = 1; delays = delay ∷ []; result = err cancelled }
        else record later {
          told = told ++ later.told;
          opens = suc later.opens;
          delays = delay ∷ later.delays;
        }

    -- The outer loop, with the attempts that are left.
    unfoldable pub attempts_from : ℕ → ℕ → (ℕ → Attempt) → Answer
    attempts_from zero attempt inputs = record {
      told = [];
      opens = 0;
      delays = [];
      result = err unexpected_end;
    }
    attempts_from (suc left) attempt inputs =
        let later = attempts_from left (attempt + 1) inputs in
        if (inputs attempt).cancelled_before
        then record { told = []; opens = 0; delays = []; result = err cancelled }
        else after_attempt attempt (inputs attempt).cancelled_waiting later
            (attempt_ends (ltb (attempt + 1) client.max_attempts) (inputs attempt).opening)

    unfoldable pub stream_chat : (ℕ → Attempt) → Answer
    stream_chat inputs = attempts_from client.max_attempts 0 inputs
