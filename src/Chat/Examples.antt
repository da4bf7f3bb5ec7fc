-- ===== src/Chat/Examples.antt =====
-- The tests of crates/woof-llm/src/chat.rs.
use woof.Prelude.{
  ℕ, if◌then◌else◌, ◌≡◌, refl, Bool, true, false, Option, none, some, List, [], ◌∷◌, ◌++◌, arith,
  ◌==◌,
}
use woof.Prelude.Text.{Text, codes, text_eq, byte_len, trim, trim_start, is_whitespace, len_utf8}
use woof.Chat.Utf8.{from_utf8}
use woof.Chat.Sse.{
  begins_with, window_position, event_boundary, lines_from, trim_returns, strip_prefix, data_lines,
  join_lines, block_event, drain_from, drain, push,
}
use woof.Chat.Sse.Draining.{IsTaken, push-IsTaken}
use woof.Chat.Sse.Chunking.{IsResumed, push-append}
use woof.Chat.Assembly.{
  content_delta, completed, ChatCompletion, WireStreamChunk, apply, apply_choices, apply_choice,
  apply_content, apply_tool_calls, checked_push_str, finish, finish_calls,
}
use woof.Chat.Client.{
  transient_network, ok, bytes, opened, not_opened, Attempt, ChatClient, read_data, read_events,
  read_items, attempt_ends, attempts_from, stream_chat, retryable, retry_delay,
}
use woof.Chat.Client.Answers.{IsServed, stream_chat-IsServed}

abbrev first_bytes : List ℕ
first_bytes = codes "data: h" ++ (0xC3 ∷ [])

abbrev second_bytes : List ℕ
second_bytes = 0xA9 ∷ 10 ∷ 10 ∷ codes "data: [DONE]" ++ (13 ∷ 10 ∷ 13 ∷ 10 ∷ [])

-- A character that is cut between two chunks, and both kinds of line ends.
decodes_chunks :
    push (push [] first_bytes).buffer second_bytes
    ≡ record { events = some ((104 ∷ 0xE9 ∷ []) ∷ codes "[DONE]" ∷ []); buffer = [] }
unfolding push drain drain_from event_boundary window_position begins_with block_event from_utf8
    lines_from trim_returns strip_prefix data_lines join_lines trim_start is_whitespace
decodes_chunks = refl

push-append_example :
    IsResumed
      (push [] first_bytes)
      (push (push [] first_bytes).buffer second_bytes)
      (push [] (first_bytes ++ second_bytes))
push-append_example = push-append [] first_bytes second_bytes (omega arith)

push-IsTaken_example : IsTaken first_bytes second_bytes (push first_bytes second_bytes)
push-IsTaken_example = push-IsTaken first_bytes second_bytes (omega arith)

-- The chunk that tells a text.
abbrev content_chunk : Text → WireStreamChunk
content_chunk text = record {
  choices =
      record {
        index = 0;
        delta = record { content = some text; tool_calls = [] };
        finish_reason = none;
      }
      ∷ [];
  usage = none;
}

abbrev plain_parse : Text → Option WireStreamChunk
plain_parse text = some (content_chunk text)

abbrev all_json : Text → Bool
all_json text = true

abbrev quick_client : ChatClient
quick_client = record { max_attempts = 4; retry_base = 250; retry_cap = 1000 }

abbrev lossy_attempt : ℕ → Attempt
lossy_attempt n = record {
  cancelled_before = false;
  opening =
      if n == 0
      then not_opened transient_network
      else opened (bytes first_bytes ∷ bytes second_bytes ∷ []);
  cancelled_waiting = false;
}

abbrev told_completion : ChatCompletion
told_completion = record {
  text = 104 ∷ 0xE9 ∷ [];
  tool_calls = [];
  finish_reason = none;
  usage = none;
}

-- The first request fails, and the second gives the completion.
answers_after_a_retry : stream_chat plain_parse all_json quick_client lossy_attempt ≡ record {
  told = content_delta (104 ∷ 0xE9 ∷ []) ∷ completed told_completion ∷ [];
  opens = 2;
  delays = 250 ∷ [];
  result = ok told_completion;
}
unfolding push drain drain_from event_boundary window_position begins_with block_event from_utf8
    lines_from trim_returns strip_prefix data_lines join_lines stream_chat attempts_from
    attempt_ends read_items read_events read_data apply apply_choices apply_choice apply_content
    apply_tool_calls checked_push_str finish finish_calls retryable retry_delay byte_len text_eq
    trim is_whitespace len_utf8
answers_after_a_retry = refl

stream_chat-IsServed_example :
    IsServed plain_parse all_json quick_client 4
      (stream_chat plain_parse all_json quick_client lossy_attempt)
stream_chat-IsServed_example = stream_chat-IsServed plain_parse all_json quick_client lossy_attempt
