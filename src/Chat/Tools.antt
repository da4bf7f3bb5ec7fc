-- ===== src/Chat/Tools.antt =====
-- crates/woof-llm/src/chat.rs: `ChatClient::stream_chat_with_tools`. JSON and the executor of the
-- tools are parameters, which may depend on all the messages so far. `content` is `none` for
-- `Value::Null` and a text for `Value::String`.
pub mod Conversation
mod Examples
use woof.Prelude.{
  ℕ, zero, suc, Bool, true, false, Option, none, some, List, [], ◌∷◌, ◌++◌, map, if◌then◌else◌,
}
use woof.Prelude.Text.{Text, is_empty}
use woof.Chat.Assembly.{FunctionToolCall, ChatCompletion, ChatStreamEvent, WireStreamChunk}
use woof.Chat.Client.{ChatError, ChatResult, ok, err, Attempt, ChatClient, Answer, stream_chat}

pub data ChatRole : Type 0 where
  developer system user assistant tool : ChatRole

pub record AssistantFunctionCall : Type 0 where
  pub name : Text
  pub arguments : Text

pub record AssistantToolCall : Type 0 where
  pub id : Text
  pub function : AssistantFunctionCall

pub record ChatMessage : Type 0 where
  pub role : ChatRole
  pub content : Option Text
  pub name : Option Text
  pub tool_call_id : Option Text
  pub tool_calls : Option (List AssistantToolCall)

unfoldable pub tool_result : Text → Text → ChatMessage
tool_result id text = record {
  role = tool;
  content = some text;
  name = none;
  tool_call_id = some id;
  tool_calls = none;
}

abbrev pub assistant_call : FunctionToolCall → AssistantToolCall
assistant_call call = record {
  id = call.id;
  function = record { name = call.name; arguments = call.arguments };
}

unfoldable pub assistant_tool_calls : Text → List FunctionToolCall → ChatMessage
assistant_tool_calls text calls = record {
  role = assistant;
  content = if is_empty text then none else some text;
  name = none;
  tool_call_id = none;
  tool_calls = some (map assistant_call calls);
}

-- What `select!` gets of a call, whose result is a JSON value or a message.
pub data Outcome (V : Type 0) : Type 0 where
  value : V → Outcome V
  message : Text → Outcome V
  cancelled_call : Outcome V

pub data ToolError : Type 0 where
  chat_error : ChatError → ToolError
  encode tool_rounds_exceeded cancelled_tools : ToolError

pub data ToolResult : Type 0 where
  ok_tools : ChatCompletion → ToolResult
  err_tools : ToolError → ToolResult

-- What a caller sees, and the messages of each request.
pub record ToolRun : Type 0 where
  pub told : List ChatStreamEvent
  pub requests : List (List ChatMessage)
  pub result : ToolResult

-- The calls of a round: the messages after them, or an error.
pub data Called : Type 0 where
  called : List ChatMessage → Called
  call_failed : ToolError → Called

module _ {V : Type 0} (error_value : Text → V) (to_string : V → Option Text)
    (execute : List ChatMessage → FunctionToolCall → Outcome V) where
  abbrev pub outcome_text : Outcome V → Option (Option Text)
  outcome_text (value v) = some (to_string v)
  outcome_text (message m) = some (to_string (error_value m))
  outcome_text cancelled_call = none

  -- `for call in completion.tool_calls`
  unfoldable pub run_calls : List FunctionToolCall → List ChatMessage → Called
  run_calls [] messages = called messages
  run_calls (call ∷ calls) messages = elim (outcome_text (execute messages call)) [
    | none ↦ call_failed cancelled_tools
    | some none ↦ call_failed encode
    | some (some text) ↦ run_calls calls (messages ++ (tool_result call.id text ∷ []))
  ]

  module _ (parse : Text → Option WireStreamChunk) (is_json : Text → Bool) (client : ChatClient)
      (inputs : List ChatMessage → Option (ℕ → Attempt)) where
    abbrev pub stop : List ChatMessage → List ChatStreamEvent → ToolResult → ToolRun
    stop messages told result = record { told = told; requests = messages ∷ []; result = result }

    -- The next round, where one is left.
    abbrev pub after_calls :
        List ChatMessage → List ChatStreamEvent → (List ChatMessage → ToolRun) → Called → ToolRun
    after_calls messages told later (call_failed error) = stop messages told (err_tools error)
    after_calls messages told later (called next) = record (later next) {
      told = told ++ (later next).told;
      requests = messages ∷ (later next).requests;
    }

    abbrev pub after_completion :
        List ChatMessage
        → List ChatStreamEvent
        → Option (List ChatMessage → ToolRun)
        → ChatCompletion
        → List FunctionToolCall
        → ToolRun
    after_completion messages told later completion [] = stop messages told (ok_tools completion)
    after_completion messages told none completion (call ∷ calls) =
        stop messages told (err_tools tool_rounds_exceeded)
    after_completion messages told (some later) completion (call ∷ calls) =
        after_calls messages told later (
          run_calls (call ∷ calls)
            (messages ++ (assistant_tool_calls completion.text (call ∷ calls) ∷ [])))

    abbrev pub after_chat :
        List ChatMessage
        → Option (List ChatMessage → ToolRun)
        → List ChatStreamEvent
        → ChatResult
        → ToolRun
    after_chat messages later told (err error) = stop messages told (err_tools (chat_error error))
    after_chat messages later told (ok completion) =
        after_completion messages told later completion completion.tool_calls

    -- One round. `none` of the inputs stands for a request that cannot be encoded.
    abbrev pub round :
        List ChatMessage → Option (List ChatMessage → ToolRun) → Option (ℕ → Attempt) → ToolRun
    round messages later none = stop messages [] (err_tools encode)
    round messages later (some attempts) =
        after_chat messages later (stream_chat parse is_json client attempts).told
          (stream_chat parse is_json client attempts).result

    -- The rounds, with the number of those after this one.
    unfoldable pub rounds_from : ℕ → List ChatMessage → ToolRun
    rounds_from zero messages = round messages none (inputs messages)
    rounds_from (suc left) messages = round messages (some (rounds_from left)) (inputs messages)

    unfoldable pub stream_chat_with_tools : List ChatMessage → ToolRun
    stream_chat_with_tools messages = rounds_from 4 messages
