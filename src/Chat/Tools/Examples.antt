-- ===== src/Chat/Tools/Examples.antt =====
-- The tests of the tool rounds of crates/woof-llm/src/chat.rs.
use woof.Prelude.{
  ℕ, ◌==◌, ◌≡◌, refl, Bool, true, false, Option, none, some, List, [], ◌∷◌, ◌++◌, if◌then◌else◌,
  length,
}
use woof.Prelude.Text.{Text, codes, text_eq}
use woof.Chat.Assembly.{FunctionToolCall, WireStreamChunk}
use woof.Chat.Client.{bytes, opened, Attempt, ChatClient}
use woof.Chat.Tools.{
  ChatMessage, user, tool_result, Outcome, value, message, called, run_calls,
  stream_chat_with_tools,
}
use woof.Chat.Tools.Conversation.{IsRun, stream_chat_with_tools-IsRun}

abbrev weather_call : FunctionToolCall
weather_call = record { id = codes "c1"; name = codes "weather"; arguments = codes "{}" }

-- A chunk that asks for a tool, and one that answers.
abbrev tool_parse : Text → Option WireStreamChunk
tool_parse text =
    if text_eq text (codes "call")
    then some (record {
      choices =
          record {
            index = 0;
            delta = record {
              content = none;
              tool_calls =
                  record {
                    index = 0;
                    id = some weather_call.id;
                    function = some (record {
                      name = some weather_call.name;
                      arguments = some weather_call.arguments;
                    });
                  }
                  ∷ [];
            };
            finish_reason = none;
          }
          ∷ [];
      usage = none;
    })
    else some (record {
      choices =
          record {
            index = 0;
            delta = record { content = some text; tool_calls = [] };
            finish_reason = none;
          }
          ∷ [];
      usage = none;
    })

abbrev any_json : Text → Bool
any_json text = true

abbrev one_attempt : ChatClient
one_attempt = record { max_attempts = 1; retry_base = 250; retry_cap = 1000 }

abbrev stream_of : List ℕ → ℕ → Attempt
stream_of data_bytes n = record {
  cancelled_before = false;
  opening = opened (
      bytes
        (codes "data: " ++ data_bytes ++ (10 ∷ 10 ∷ []) ++ codes "data: [DONE]" ++ (10 ∷ 10 ∷ []))
      ∷ []);
  cancelled_waiting = false;
}

abbrev tool_inputs : List ChatMessage → Option (ℕ → Attempt)
tool_inputs messages =
    if length messages == 1
    then some (stream_of (codes "call"))
    else some (stream_of (codes "sunny"))

abbrev weather_tool : List ChatMessage → FunctionToolCall → Outcome Text
weather_tool messages call = value (codes "21")

abbrev failing_tool : List ChatMessage → FunctionToolCall → Outcome Text
failing_tool messages call = message (codes "offline")

abbrev plain_text : Text → Option Text
plain_text text = some text

abbrev as_error : Text → Text
as_error text = codes "error: " ++ text

abbrev question : ChatMessage
question = record {
  role = user;
  content = some (codes "weather?");
  name = none;
  tool_call_id = none;
  tool_calls = none;
}

-- A tool that fails still gives a result.
reports_a_failure :
    run_calls as_error plain_text failing_tool (weather_call ∷ []) (question ∷ [])
    ≡ called (question ∷ tool_result (codes "c1") (codes "error: offline") ∷ [])
unfolding run_calls
reports_a_failure = refl

stream_chat_with_tools-IsRun_example :
    IsRun as_error plain_text weather_tool tool_parse any_json one_attempt tool_inputs
      (question ∷ [])
      5
      (stream_chat_with_tools as_error plain_text weather_tool tool_parse any_json one_attempt
        tool_inputs
        (question ∷ []))
stream_chat_with_tools-IsRun_example =
    stream_chat_with_tools-IsRun as_error plain_text weather_tool tool_parse any_json one_attempt
      tool_inputs (question ∷ [])
