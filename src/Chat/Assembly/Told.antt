-- ===== src/Chat/Assembly/Told.antt =====
-- crates/woof-llm/src/chat.rs: what the callback is told is what is put together.
use woof.Prelude.{
  ℕ, ◌≡◌, refl, sym, ap, ◌∙◌, Bool, true, false, not, Option, none, some, List, [], ◌∷◌, ◌++◌,
  append-nil, ◌==◌, if◌then◌else◌, arith,
}
use native.Mathlib.Decide.{ℕ_discrete}
use woof.Prelude.Text.{Text, is_empty}
use woof.Chat.Assembly.{
  ChatStreamEvent, content_delta, tool_call_delta, ToolCallAssembly, WireToolCallDelta,
  WireStreamChunk, Progress, default_progress, entry, put_entry, checked_push_str, push_some,
  function_of, store_call, store_text, apply_tool_call, apply_content, set_finish, set_usage, apply,
  TokenUsage, max_completion_text_bytes, max_tool_name_bytes, max_tool_argument_bytes,
}
use woof.Chat.Assembly.Steps.{apply_keeps}
use woof.Chat.Assembly.Heard.{
  part_of, heard_text, heard_name, heard_arguments, is_completed_told, is_silent, heard_text-append,
  heard_name-append, heard_arguments-append, is_completed_told-append, is_silent-append,
}

-- A listener who puts the parts together has what the assembly has, and no completion was told.
unfoldable pub IsTold : Progress → Type 0
IsTold p =
    (p.assembly.text ≡ heard_text p.told)
    × ((i : ℕ) → (entry i p.assembly.tool_calls).name ≡ heard_name i p.told)
    × ((i : ℕ) → (entry i p.assembly.tool_calls).arguments ≡ heard_arguments i p.told)
    × (p.emitted ≡ not (is_silent p.told))
    × (is_completed_told p.told ≡ false)

entry-put_entry :
    (i j : ℕ) (call : ToolCallAssembly) (calls : List (ℕ × ToolCallAssembly))
    → entry j (put_entry i call calls) ≡ (if i == j then call else entry j calls)
unfolding entry put_entry
entry-put_entry i j call [] = ground arith
entry-put_entry i j call ((k, other) ∷ calls) = ground (arith, entry-put_entry i j call calls)

checked_push_str-some :
    (target value pushed : Text) (limit : ℕ)
    → checked_push_str target value limit ≡ some pushed
    → pushed ≡ target ++ value
unfolding checked_push_str
checked_push_str-some target value pushed limit h = ground (arith, h)

push_some-some :
    (target pushed : Text) (value : Option Text) (limit : ℕ)
    → push_some target value limit ≡ some pushed
    → pushed ≡ target ++ part_of value
push_some-some target pushed none limit h = ground (arith, h, append-nil target)
push_some-some target pushed (some value) limit h =
    checked_push_str-some target value pushed limit h

text-IsTold :
    (p : Progress) (content text : Text)
    → IsTold p
    → text ≡ p.assembly.text ++ content
    → IsTold (store_text p content (some text)).0
unfolding IsTold heard_text heard_name heard_arguments is_completed_told
text-IsTold p content text (same, names, arguments, emitted, open_end) e = (
  e
      ∙ ap (λ t. t ++ content) same
      ∙ ap (λ t. heard_text p.told ++ t) (sym (append-nil content))
      ∙ sym (heard_text-append p.told (content_delta content ∷ [])),
  λ i. names i ∙ sym (heard_name-append i p.told (content_delta content ∷ []) ∙ append-nil _),
  λ i.
      arguments i
      ∙ sym (heard_arguments-append i p.told (content_delta content ∷ []) ∙ append-nil _),
  ap not (sym (is_silent-append p.told (content_delta content))),
  is_completed_told-append p.told (content_delta content ∷ []) open_end,
)

call-IsTold :
    (p : Progress) (delta : WireToolCallDelta) (id name arguments : Text)
    → IsTold p
    → name
      ≡ (entry delta.index p.assembly.tool_calls).name ++ part_of (function_of delta.function).name
    → arguments
      ≡ (entry delta.index p.assembly.tool_calls).arguments
        ++ part_of (function_of delta.function).arguments
    → IsTold (store_call p delta (some id) (some name) (some arguments)).0
unfolding IsTold heard_text heard_name heard_arguments is_completed_told
call-IsTold p delta id name arguments (same, names, args, emitted, open_end) e f = (
  same ∙ sym (heard_text-append p.told (event ∷ []) ∙ append-nil _),
  λ i. elim (ℕ_discrete delta.index i) [
    | yes here ↦ ground (
      arith,
      here,
      e,
      names i,
      heard_name-append i p.told (event ∷ []),
      entry-put_entry delta.index i call p.assembly.tool_calls,
      append-nil (part_of (function_of delta.function).name),
    )
    | no other ↦ ground (
      arith,
      other,
      names i,
      heard_name-append i p.told (event ∷ []),
      entry-put_entry delta.index i call p.assembly.tool_calls,
      append-nil (heard_name i p.told),
    )
  ],
  λ i. elim (ℕ_discrete delta.index i) [
    | yes here ↦ ground (
      arith,
      here,
      f,
      args i,
      heard_arguments-append i p.told (event ∷ []),
      entry-put_entry delta.index i call p.assembly.tool_calls,
      append-nil (part_of (function_of delta.function).arguments),
    )
    | no other ↦ ground (
      arith,
      other,
      args i,
      heard_arguments-append i p.told (event ∷ []),
      entry-put_entry delta.index i call p.assembly.tool_calls,
      append-nil (heard_arguments i p.told),
    )
  ],
  ap not (sym (is_silent-append p.told event)),
  is_completed_told-append p.told (event ∷ []) open_end,
)
  where
    event : ChatStreamEvent
    event =
        tool_call_delta delta.index delta.id (function_of delta.function).name
          (function_of delta.function).arguments

    call : ToolCallAssembly
    call = record { id = id; name = name; arguments = arguments }

if-IsTold :
    (b : Bool) (x y : Progress × Bool) → IsTold x.0 → IsTold y.0 → IsTold (if b then x else y).0
if-IsTold true x y h k = h
if-IsTold false x y h k = k

store_text-IsTold :
    (p : Progress) (content : Text) (o : Option Text)
    → IsTold p
    → ((text : Text) → o ≡ some text → text ≡ p.assembly.text ++ content)
    → IsTold (store_text p content o).0
store_text-IsTold p content none h e = h
store_text-IsTold p content (some text) h e = text-IsTold p content text h (e text refl)

store_call-IsTold :
    (p : Progress) (delta : WireToolCallDelta) (id name arguments : Option Text)
    → IsTold p
    → ((t : Text)
        → name ≡ some t
        → t
          ≡ (entry delta.index p.assembly.tool_calls).name
            ++ part_of (function_of delta.function).name)
    → ((t : Text)
        → arguments ≡ some t
        → t
          ≡ (entry delta.index p.assembly.tool_calls).arguments
            ++ part_of (function_of delta.function).arguments)
    → IsTold (store_call p delta id name arguments).0
store_call-IsTold p delta none name arguments h e f = h
store_call-IsTold p delta (some id) none arguments h e f = h
store_call-IsTold p delta (some id) (some name) none h e f = h
store_call-IsTold p delta (some id) (some name) (some arguments) h e f =
    call-IsTold p delta id name arguments h (e name refl) (f arguments refl)

content-IsTold : (text : Option Text) (p : Progress) → IsTold p → IsTold (apply_content text p).0
unfolding apply_content
content-IsTold none p h = h
content-IsTold (some content) p h =
    if-IsTold (is_empty content) (p, true) _ h
      (store_text-IsTold p content _ h
        (λ text. checked_push_str-some p.assembly.text content text max_completion_text_bytes))

tool_call-IsTold :
    (delta : WireToolCallDelta) (p : Progress) → IsTold p → IsTold (apply_tool_call delta p).0
unfolding apply_tool_call
tool_call-IsTold delta p h =
    if-IsTold _ (p, false) _ h
      (store_call-IsTold p delta _ _ _ h
        (λ t.
          push_some-some (entry delta.index p.assembly.tool_calls).name t
            (function_of delta.function).name max_tool_name_bytes)
        (λ t.
          push_some-some (entry delta.index p.assembly.tool_calls).arguments t
            (function_of delta.function).arguments max_tool_argument_bytes))

set_finish-IsTold : (text : Option Text) (p : Progress) → IsTold p → IsTold (set_finish text p).0
unfolding IsTold
set_finish-IsTold none p h = h
set_finish-IsTold (some text) p h = h

set_usage-IsTold : (u : Option TokenUsage) (p : Progress) → IsTold p → IsTold (set_usage u p)
unfolding IsTold
set_usage-IsTold none p h = h
set_usage-IsTold (some u) p h = h

pub apply-IsTold : (chunk : WireStreamChunk) (p : Progress) → IsTold p → IsTold (apply chunk p).0
apply-IsTold = apply_keeps IsTold tool_call-IsTold content-IsTold set_finish-IsTold set_usage-IsTold

pub default-IsTold : IsTold default_progress
unfolding IsTold entry heard_text heard_name heard_arguments is_completed_told
default-IsTold = (refl, λ i. refl, λ i. refl, refl, refl)
