-- ===== src/Chat/Assembly.antt =====
-- crates/woof-llm/src/chat.rs: `CompletionAssembly`, which puts the parts of a streamed completion
-- together and tells them as events. A chunk comes decoded; the test whether a text is JSON is a
-- parameter.
pub mod Steps
pub mod Heard
pub mod Told
pub mod Bounds
use woof.Prelude.{
  ℕ, suc, ◌-◌, Bool, true, false, not, ◌&&◌, ◌||◌, Option, none, some, List, [], ◌∷◌, ◌++◌, ltb,
  leb, ◌==◌, if◌then◌else◌, length, is_some,
}
use woof.Prelude.Text.{Text, is_empty, text_eq, byte_len}

abbrev pub max_completion_text_bytes : ℕ
max_completion_text_bytes = 8388608

abbrev pub max_tool_calls : ℕ
max_tool_calls = 64

abbrev pub max_tool_call_id_bytes : ℕ
max_tool_call_id_bytes = 512

abbrev pub max_tool_name_bytes : ℕ
max_tool_name_bytes = 256

abbrev pub max_tool_argument_bytes : ℕ
max_tool_argument_bytes = 2097152

pub record TokenUsage : Type 0 where
  pub prompt_tokens : ℕ
  pub completion_tokens : ℕ
  pub total_tokens : ℕ

pub record FunctionToolCall : Type 0 where
  pub id : Text
  pub name : Text
  pub arguments : Text

pub record ChatCompletion : Type 0 where
  pub text : Text
  pub tool_calls : List FunctionToolCall
  pub finish_reason : Option Text
  pub usage : Option TokenUsage

pub data ChatStreamEvent : Type 0 where
  content_delta : Text → ChatStreamEvent
  tool_call_delta : (index : ℕ) (id name arguments : Option Text) → ChatStreamEvent
  completed : ChatCompletion → ChatStreamEvent

pub record WireFunctionDelta : Type 0 where
  pub name : Option Text
  pub arguments : Option Text

pub record WireToolCallDelta : Type 0 where
  pub index : ℕ
  pub id : Option Text
  pub function : Option WireFunctionDelta

pub record WireDelta : Type 0 where
  pub content : Option Text
  pub tool_calls : List WireToolCallDelta

pub record WireChoice : Type 0 where
  pub index : ℕ
  pub delta : WireDelta
  pub finish_reason : Option Text

pub record WireStreamChunk : Type 0 where
  pub choices : List WireChoice
  pub usage : Option TokenUsage

pub record ToolCallAssembly : Type 0 where
  pub id : Text
  pub name : Text
  pub arguments : Text

abbrev pub default_tool_call : ToolCallAssembly
default_tool_call = record { id = []; name = []; arguments = [] }

-- A `BTreeMap`, as the list of its entries by growing index.
pub record CompletionAssembly : Type 0 where
  pub text : Text
  pub tool_calls : List (ℕ × ToolCallAssembly)
  pub finish_reason : Option Text
  pub usage : Option TokenUsage

abbrev pub default_assembly : CompletionAssembly
default_assembly = record { text = []; tool_calls = []; finish_reason = none; usage = none }

unfoldable pub contains_index : ℕ → List (ℕ × ToolCallAssembly) → Bool
contains_index i [] = false
contains_index i ((j, call) ∷ calls) = j == i || contains_index i calls

-- `.entry(index).or_default()`
unfoldable pub entry : ℕ → List (ℕ × ToolCallAssembly) → ToolCallAssembly
entry i [] = default_tool_call
entry i ((j, call) ∷ calls) = if j == i then call else entry i calls

-- The map with what has become of an entry.
unfoldable pub put_entry :
    ℕ → ToolCallAssembly → List (ℕ × ToolCallAssembly) → List (ℕ × ToolCallAssembly)
put_entry i call [] = (i, call) ∷ []
put_entry i call ((j, other) ∷ calls) =
    let rest = put_entry i call calls in
    if j == i
    then (i, call) ∷ calls
    else if ltb i j
    then (i, call) ∷ (j, other) ∷ calls
    else (j, other) ∷ rest

unfoldable pub checked_push_str : Text → Text → ℕ → Option Text
checked_push_str target value limit =
    if ltb (limit - byte_len target) (byte_len value) then none else some (target ++ value)

-- `if let Some(value)`, with a push that may fail.
abbrev pub push_some : Text → Option Text → ℕ → Option Text
push_some target none limit = some target
push_some target (some value) limit = checked_push_str target value limit

-- The id is sent whole with the first delta, or again with later ones.
abbrev pub push_id : Text → Option Text → Option Text
push_id target none = some target
push_id target (some id) =
    if text_eq target id then some target else checked_push_str target id max_tool_call_id_bytes

-- The assembly, the flag `emitted`, and what the callback was told, oldest first.
pub record Progress : Type 0 where
  pub assembly : CompletionAssembly
  pub emitted : Bool
  pub told : List ChatStreamEvent

abbrev pub default_progress : Progress
default_progress = record { assembly = default_assembly; emitted = false; told = [] }

-- `?` in `apply`: what comes after a step that succeeded. A failed one gives `ChatError::InvalidStream`.
infixl 1 ◌>>=◌
abbrev pub ◌>>=◌ : Progress × Bool → (Progress → Progress × Bool) → Progress × Bool
(p, true) >>= next = next p
(p, false) >>= next = (p, false)

abbrev pub function_of : Option WireFunctionDelta → WireFunctionDelta
function_of none = record { name = none; arguments = none }
function_of (some function) = function

abbrev pub tell : Progress → CompletionAssembly → ChatStreamEvent → Progress × Bool
tell p assembly event =
    (record { assembly = assembly; emitted = true; told = p.told ++ (event ∷ []) }, true)

-- The end of the body for one delta, where the three pushes gave these texts. After a failure the
-- caller drops the assembly, so it stays as it was here.
abbrev pub store_call :
    Progress → WireToolCallDelta → Option Text → Option Text → Option Text → Progress × Bool
store_call p delta (some id) (some name) (some arguments) =
    let call : ToolCallAssembly = record { id = id; name = name; arguments = arguments } in
    tell p (record p.assembly { tool_calls = put_entry delta.index call p.assembly.tool_calls })
      (tool_call_delta delta.index delta.id (function_of delta.function).name
        (function_of delta.function).arguments)
store_call p delta _ _ _ = (p, false)

unfoldable pub apply_tool_call : WireToolCallDelta → Progress → Progress × Bool
apply_tool_call delta p =
    let call = entry delta.index p.assembly.tool_calls in
    let function = function_of delta.function in
    if not (contains_index delta.index p.assembly.tool_calls)
      && leb max_tool_calls (length p.assembly.tool_calls)
    then (p, false)
    else store_call p delta (push_id call.id delta.id)
        (push_some call.name function.name max_tool_name_bytes)
        (push_some call.arguments function.arguments max_tool_argument_bytes)

unfoldable pub apply_tool_calls : List WireToolCallDelta → Progress → Progress × Bool
apply_tool_calls [] p = (p, true)
apply_tool_calls (delta ∷ deltas) p = apply_tool_call delta p >>= apply_tool_calls deltas

abbrev pub store_text : Progress → Text → Option Text → Progress × Bool
store_text p content none = (p, false)
store_text p content (some text) =
    tell p (record p.assembly { text = text }) (content_delta content)

unfoldable pub apply_content : Option Text → Progress → Progress × Bool
apply_content none p = (p, true)
apply_content (some content) p =
    if is_empty content
    then (p, true)
    else store_text p content (checked_push_str p.assembly.text content max_completion_text_bytes)

abbrev pub set_finish : Option Text → Progress → Progress × Bool
set_finish none p = (p, true)
set_finish (some reason) p =
    (record p { assembly = record p.assembly { finish_reason = some reason } }, true)

unfoldable pub apply_choice : WireChoice → Progress → Progress × Bool
apply_choice choice p =
    if choice.index == 0
    then apply_content choice.delta.content p
      >>= apply_tool_calls choice.delta.tool_calls
      >>= set_finish choice.finish_reason
    else (p, true)

unfoldable pub apply_choices : List WireChoice → Progress → Progress × Bool
apply_choices [] p = (p, true)
apply_choices (choice ∷ choices) p = apply_choice choice p >>= apply_choices choices

abbrev pub set_usage : Option TokenUsage → Progress → Progress
set_usage none p = p
set_usage (some usage) p = record p { assembly = record p.assembly { usage = some usage } }

unfoldable pub apply : WireStreamChunk → Progress → Progress × Bool
apply chunk p = apply_choices chunk.choices (set_usage chunk.usage p)

module _ (is_json : Text → Bool) where
  -- The calls in the order of their indices; `none` is `ChatError::InvalidStream`.
  unfoldable pub finish_calls : List (ℕ × ToolCallAssembly) → Option (List FunctionToolCall)
  finish_calls [] = some []
  finish_calls ((i, call) ∷ calls) =
      if is_empty call.id || is_empty call.name
      then none
      else if not (is_json call.arguments)
      then none
      else elim (finish_calls calls) [
        | none ↦ none
        | some rest ↦
            some (record { id = call.id; name = call.name; arguments = call.arguments } ∷ rest)
      ]

  abbrev pub finished : CompletionAssembly → Option (List FunctionToolCall) → Option ChatCompletion
  finished a none = none
  finished a (some calls) = some (record {
    text = a.text;
    tool_calls = calls;
    finish_reason = a.finish_reason;
    usage = a.usage;
  })

  unfoldable pub finish : CompletionAssembly → Option ChatCompletion
  finish a = finished a (finish_calls a.tool_calls)
