-- ===== src/Chat/Tools/Conversation.antt =====
-- crates/woof-llm/src/chat.rs: the messages that `stream_chat_with_tools` sends, and what it gives.
use woof.Prelude.{
  ℕ, zero, suc, ◌≤◌, ◌<◌, ◌≡◌, refl, sym, ap, ◌∙◌, Bool, Option, none, some, List, [], ◌∷◌, ◌++◌,
  append_assoc, append-nil, length, All, arith,
}
use mathlib.Core.Path.{subst}
use woof.Prelude.Text.{Text}
use woof.Chat.Assembly.{FunctionToolCall, ChatCompletion, ChatStreamEvent, WireStreamChunk}
use woof.Chat.Client.{ChatResult, ok, err, Attempt, ChatClient}
use woof.Chat.Client.Reads.{IsComplete, IsAnswered}
use woof.Chat.Client.Answers.{stream_chat-IsServed}
use woof.Chat.Tools.{
  cancelled_tools, encode, ChatMessage, tool_result, assistant_tool_calls, Outcome, ToolResult,
  ok_tools, err_tools, ToolRun, Called, called, call_failed, outcome_text, run_calls, after_calls,
  after_completion, after_chat, round, rounds_from, stream_chat_with_tools,
}

-- One result for each call, in order and with its id.
pub data AreResults : List FunctionToolCall → List ChatMessage → Type 0 where
  no_results : AreResults [] []
  next_result :
      (call : FunctionToolCall) (text : Text) (calls : List FunctionToolCall)
      (messages : List ChatMessage)
      → AreResults calls messages
      → AreResults (call ∷ calls) (tool_result call.id text ∷ messages)

-- The first messages, and then turns of the assistant, each with the results of all its calls.
pub data IsConversation (first : List ChatMessage) : List ChatMessage → Type 0 where
  begins : IsConversation first first
  goes_on :
      (messages results : List ChatMessage) (text : Text) (calls : List FunctionToolCall)
      → IsConversation first messages
      → 0 < length calls
      → AreResults calls results
      → IsConversation first (messages ++ (assistant_tool_calls text calls ∷ results))

module _ {V : Type 0} (error_value : Text → V) (to_string : V → Option Text)
    (execute : List ChatMessage → FunctionToolCall → Outcome V) where
  abbrev AreCalled : List FunctionToolCall → List ChatMessage → Called → Type 0
  AreCalled calls messages (call_failed error) = Unit
  AreCalled calls messages (called next) =
      (results : List ChatMessage) × AreResults calls results × (next ≡ messages ++ results)

  run_calls-AreCalled :
      (calls : List FunctionToolCall) (messages : List ChatMessage)
      → AreCalled calls messages (run_calls error_value to_string execute calls messages)
  unfolding run_calls
  run_calls-AreCalled [] messages = ([], no_results, sym (append-nil messages))
  run_calls-AreCalled (call ∷ calls) messages =
      choose (outcome_text error_value to_string execute (execute messages call))
        (λ text. run_calls-AreCalled calls (messages ++ (tool_result call.id text ∷ [])))
    where
      extend :
          (text : Text) (x : Called)
          → AreCalled calls (messages ++ (tool_result call.id text ∷ [])) x
          → AreCalled (call ∷ calls) messages x
      extend text (call_failed error) h = tt
      extend text (called next) (results, h, e) = (
        tool_result call.id text ∷ results,
        next_result call text calls results h,
        e ∙ append_assoc messages (tool_result call.id text ∷ []) results,
      )

      choose :
          (o : Option (Option Text))
          → ((text : Text)
              → AreCalled calls (messages ++ (tool_result call.id text ∷ [])) (
                  run_calls error_value to_string execute calls
                    (messages ++ (tool_result call.id text ∷ []))))
          → AreCalled (call ∷ calls) messages (elim o [
            | none ↦ call_failed cancelled_tools
            | some none ↦ call_failed encode
            | some (some text) ↦
                run_calls error_value to_string execute calls
                  (messages ++ (tool_result call.id text ∷ []))
          ])
      choose none h = tt
      choose (some none) h = tt
      choose (some (some text)) h = extend text _ (h text)

  module _ (parse : Text → Option WireStreamChunk) (is_json : Text → Bool) (client : ChatClient)
      (inputs : List ChatMessage → Option (ℕ → Attempt)) where
    -- A completion that is given calls no tools, and is what the last events told add up to.
    abbrev pub IsFinal : List ChatStreamEvent → ToolResult → Type 0
    IsFinal told (err_tools error) = Unit
    IsFinal told (ok_tools completion) =
        (completion.tool_calls ≡ [])
        × ((earlier : List ChatStreamEvent) × (last : List ChatStreamEvent) × (told
              ≡ earlier ++ last)
            × IsComplete parse is_json last completion)

    -- All requests go on with the first messages, and there are at most so many.
    abbrev pub IsRun : List ChatMessage → ℕ → ToolRun → Type 0
    IsRun first rounds run =
        All (IsConversation first) run.requests
        × (length run.requests ≤ rounds)
        × IsFinal run.told run.result

    later-IsFinal :
        (told more : List ChatStreamEvent) (result : ToolResult)
        → IsFinal more result
        → IsFinal (told ++ more) result
    later-IsFinal told more (err_tools error) h = tt
    later-IsFinal told more (ok_tools completion) (none_left, (earlier, last, e, complete)) = (
      none_left,
      (
        told ++ earlier,
        last,
        ap (λ l. told ++ l) e ∙ sym (append_assoc told earlier last),
        complete,
      ),
    )

    IsLater : List ChatMessage → ℕ → Option (List ChatMessage → ToolRun) → Type 0
    IsLater first rounds none = Unit
    IsLater first rounds (some later) =
        (messages : List ChatMessage)
        → IsConversation first messages
        → IsRun first rounds (later messages)

    after_calls-IsRun :
        (first messages : List ChatMessage) (rounds : ℕ) (told : List ChatStreamEvent)
        (later : List ChatMessage → ToolRun) (text : Text) (call : FunctionToolCall)
        (calls : List FunctionToolCall) (x : Called)
        → IsConversation first messages
        → ((next : List ChatMessage) → IsConversation first next → IsRun first rounds (later next))
        → AreCalled (call ∷ calls) (messages ++ (assistant_tool_calls text (call ∷ calls) ∷ [])) x
        → IsRun first (suc rounds) (
            after_calls error_value to_string execute parse is_json client inputs messages told
              later x)
    after_calls-IsRun first messages rounds told later text call calls (call_failed error) h k c =
        ((h, tt), omega arith, tt)
    after_calls-IsRun first messages rounds told later text call calls (called next) h k
          (results, are, e) =
        let goes : IsConversation first next =
          subst (IsConversation first)
            (sym
              (e ∙ append_assoc messages (assistant_tool_calls text (call ∷ calls) ∷ []) results))
            (goes_on messages results text (call ∷ calls) h (omega arith) are) in
        let run = k next goes in
        (
          (h, run.0),
          omega (arith, run.1),
          later-IsFinal told (later next).told (later next).result run.2,
        )

    after_completion-IsRun :
        (first messages : List ChatMessage) (rounds : ℕ) (told : List ChatStreamEvent)
        (later : Option (List ChatMessage → ToolRun)) (completion : ChatCompletion)
        (calls : List FunctionToolCall)
        → IsConversation first messages
        → IsLater first rounds later
        → IsComplete parse is_json told completion
        → completion.tool_calls ≡ calls
        → IsRun first (suc rounds) (
            after_completion error_value to_string execute parse is_json client inputs messages told
              later completion calls)
    unfolding IsLater
    after_completion-IsRun first messages rounds told later completion [] h k c e =
        ((h, tt), omega arith, (e, ([], told, refl, c)))
    after_completion-IsRun first messages rounds told none completion (call ∷ calls) h k c e =
        ((h, tt), omega arith, tt)
    after_completion-IsRun first messages rounds told (some later) completion (call ∷ calls) h k c
          e =
        after_calls-IsRun first messages rounds told later completion.text call calls _ h k
          (run_calls-AreCalled (call ∷ calls) _)

    after_chat-IsRun :
        (first messages : List ChatMessage) (rounds : ℕ)
        (later : Option (List ChatMessage → ToolRun)) (told : List ChatStreamEvent)
        (result : ChatResult)
        → IsConversation first messages
        → IsLater first rounds later
        → IsAnswered parse is_json told result
        → IsRun first (suc rounds) (
            after_chat error_value to_string execute parse is_json client inputs messages later told
              result)
    after_chat-IsRun first messages rounds later told (err error) h k a = ((h, tt), omega arith, tt)
    after_chat-IsRun first messages rounds later told (ok completion) h k a =
        after_completion-IsRun first messages rounds told later completion completion.tool_calls h k
          a refl

    round-IsRun :
        (first messages : List ChatMessage) (rounds : ℕ)
        (later : Option (List ChatMessage → ToolRun)) (o : Option (ℕ → Attempt))
        → IsConversation first messages
        → IsLater first rounds later
        → IsRun first
            (suc rounds)
            (round error_value to_string execute parse is_json client inputs messages later o)
    round-IsRun first messages rounds later none h k = ((h, tt), omega arith, tt)
    round-IsRun first messages rounds later (some attempts) h k =
        after_chat-IsRun first messages rounds later _ _ h k
          (stream_chat-IsServed parse is_json client attempts).0

    rounds_from-IsRun :
        (left : ℕ) (first messages : List ChatMessage)
        → IsConversation first messages
        → IsRun first
            (suc left)
            (rounds_from error_value to_string execute parse is_json client inputs left messages)
    unfolding rounds_from IsLater
    rounds_from-IsRun zero first messages h =
        round-IsRun first messages 0 none (inputs messages) h tt
    rounds_from-IsRun (suc left) first messages h =
        round-IsRun first messages (suc left) (some _) (inputs messages) h
          (rounds_from-IsRun left first)

    -- Whatever the model, the tools and the transport do, there are at most five requests, each with
    -- the first messages followed by turns of the assistant with one result for each call, in order
    -- and with its id; a completion that is returned calls no tools, and is told last.
    pub stream_chat_with_tools-IsRun :
        (messages : List ChatMessage)
        → IsRun messages 5 (
            stream_chat_with_tools error_value to_string execute parse is_json client inputs
              messages)
    unfolding stream_chat_with_tools
    stream_chat_with_tools-IsRun messages = rounds_from-IsRun 4 messages messages begins
