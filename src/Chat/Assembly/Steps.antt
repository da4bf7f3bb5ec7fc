-- ===== src/Chat/Assembly/Steps.antt =====
-- crates/woof-llm/src/chat.rs: what every step of `CompletionAssembly::apply` keeps, a whole chunk
-- keeps.
use woof.Prelude.{Bool, true, false, Option, List, [], ◌∷◌, ◌==◌, if◌then◌else◌}
use woof.Prelude.Text.{Text}
use woof.Chat.Assembly.{
  Progress, TokenUsage, WireToolCallDelta, WireChoice, WireStreamChunk, ◌>>=◌, apply_tool_call,
  apply_tool_calls, apply_content, set_finish, set_usage, apply_choice, apply_choices, apply,
}

module _ (P : Progress → Type 0)
    (call : (delta : WireToolCallDelta) (p : Progress) → P p → P (apply_tool_call delta p).0)
    (content : (text : Option Text) (p : Progress) → P p → P (apply_content text p).0)
    (reason : (text : Option Text) (p : Progress) → P p → P (set_finish text p).0)
    (usage : (u : Option TokenUsage) (p : Progress) → P p → P (set_usage u p)) where
  then_keeps :
      (x : Progress × Bool) (next : Progress → Progress × Bool)
      → P x.0
      → ((q : Progress) → P q → P (next q).0)
      → P (x >>= next).0
  then_keeps (p, true) next h k = k p h
  then_keeps (p, false) next h k = h

  calls_keep :
      (deltas : List WireToolCallDelta) (p : Progress) → P p → P (apply_tool_calls deltas p).0
  unfolding apply_tool_calls
  calls_keep [] p h = h
  calls_keep (delta ∷ deltas) p h =
      then_keeps (apply_tool_call delta p) (apply_tool_calls deltas) (call delta p h)
        (calls_keep deltas)

  if_keeps : (b : Bool) (x y : Progress × Bool) → P x.0 → P y.0 → P (if b then x else y).0
  if_keeps true x y h k = h
  if_keeps false x y h k = k

  choice_keeps : (choice : WireChoice) (p : Progress) → P p → P (apply_choice choice p).0
  unfolding apply_choice
  choice_keeps choice p h =
      if_keeps (choice.index == 0) _ (p, true)
        (then_keeps
          (apply_content choice.delta.content p >>= apply_tool_calls choice.delta.tool_calls)
          (set_finish choice.finish_reason)
          (then_keeps (apply_content choice.delta.content p)
            (apply_tool_calls choice.delta.tool_calls) (content choice.delta.content p h)
            (calls_keep choice.delta.tool_calls))
          (reason choice.finish_reason))
        h

  choices_keep : (choices : List WireChoice) (p : Progress) → P p → P (apply_choices choices p).0
  unfolding apply_choices
  choices_keep [] p h = h
  choices_keep (choice ∷ choices) p h =
      then_keeps (apply_choice choice p) (apply_choices choices) (choice_keeps choice p h)
        (choices_keep choices)

  pub apply_keeps : (chunk : WireStreamChunk) (p : Progress) → P p → P (apply chunk p).0
  unfolding apply
  apply_keeps chunk p h =
      choices_keep chunk.choices (set_usage chunk.usage p) (usage chunk.usage p h)
