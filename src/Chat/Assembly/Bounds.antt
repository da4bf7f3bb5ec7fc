-- ===== src/Chat/Assembly/Bounds.antt =====
-- crates/woof-llm/src/chat.rs: the limits on what is put together.
use woof.Prelude.{
  ℕ, suc, ◌≤◌, ◌<◌, ◌≡◌, refl, Bool, true, false, Option, none, some, List, [], ◌∷◌, ltb, ◌==◌,
  if◌then◌else◌, length, All, arith,
}
use woof.Prelude.Text.{Text, byte_len, byte_len-append, is_empty}
use woof.Chat.Assembly.{
  max_completion_text_bytes, max_tool_calls, max_tool_call_id_bytes, max_tool_name_bytes,
  max_tool_argument_bytes, ToolCallAssembly, WireToolCallDelta, WireStreamChunk, Progress,
  default_progress, contains_index, entry, put_entry, checked_push_str, push_some, push_id,
  function_of, store_call, store_text, apply_tool_call, apply_content, set_finish, set_usage, apply,
  TokenUsage,
}
use woof.Chat.Assembly.Steps.{apply_keeps}

abbrev pub IsWithin : ToolCallAssembly → Type 0
IsWithin call =
    (byte_len call.id ≤ max_tool_call_id_bytes)
    × (byte_len call.name ≤ max_tool_name_bytes)
    × (byte_len call.arguments ≤ max_tool_argument_bytes)

abbrev AllAbove : ℕ → List (ℕ × ToolCallAssembly) → Type 0
AllAbove k = All (λ e. k < e.0)

-- The indices grow.
abbrev pub IsSorted : List (ℕ × ToolCallAssembly) → Type 0
IsSorted [] = Unit
IsSorted ((i, call) ∷ calls) = AllAbove i calls × IsSorted calls

unfoldable pub IsBounded : Progress → Type 0
IsBounded p =
    (byte_len p.assembly.text ≤ max_completion_text_bytes)
    × (length p.assembly.tool_calls ≤ max_tool_calls)
    × IsSorted p.assembly.tool_calls
    × All (λ e. IsWithin e.1) p.assembly.tool_calls

pushed_le :
    (target value text : Text) (limit : ℕ)
    → byte_len target ≤ limit
    → checked_push_str target value limit ≡ some text
    → byte_len text ≤ limit
unfolding checked_push_str
pushed_le target value text limit h e = ground (arith, e, byte_len-append target value)

push_some_le :
    (target text : Text) (value : Option Text) (limit : ℕ)
    → byte_len target ≤ limit
    → push_some target value limit ≡ some text
    → byte_len text ≤ limit
push_some_le target text none limit h e = ground (arith, e)
push_some_le target text (some value) limit h e = pushed_le target value text limit h e

push_id_le :
    (target text : Text) (value : Option Text)
    → byte_len target ≤ max_tool_call_id_bytes
    → push_id target value ≡ some text
    → byte_len text ≤ max_tool_call_id_bytes
push_id_le target text none h e = ground (arith, e)
push_id_le target text (some id) h e =
    ground (arith, e, pushed_le target id text max_tool_call_id_bytes h)

entry-IsWithin :
    (i : ℕ) (calls : List (ℕ × ToolCallAssembly))
    → All (λ e. IsWithin e.1) calls
    → IsWithin (entry i calls)
unfolding entry byte_len
entry-IsWithin i [] h = (omega arith, omega arith, omega arith)
entry-IsWithin i ((j, call) ∷ calls) h = choose (j == i) h.0 (entry-IsWithin i calls h.1)
  where
    choose :
        (b : Bool)
        → IsWithin call
        → IsWithin (entry i calls)
        → IsWithin (if b then call else entry i calls)
    choose true h k = h
    choose false h k = k

put_entry-All :
    (P : ℕ × ToolCallAssembly → Type 0) (i : ℕ) (call : ToolCallAssembly)
    (calls : List (ℕ × ToolCallAssembly))
    → P (i, call)
    → All P calls
    → All P (put_entry i call calls)
unfolding put_entry
put_entry-All P i call [] h k = (h, tt)
put_entry-All P i call ((j, other) ∷ calls) h k =
    choose (j == i) (ltb i j) (put_entry-All P i call calls h k.1)
  where
    choose :
        (b c : Bool)
        → All P (put_entry i call calls)
        → All P (
            if b
            then (i, call) ∷ calls
            else if c
            then (i, call) ∷ (j, other) ∷ calls
            else (j, other) ∷ put_entry i call calls)
    choose true c rest = (h, k.1)
    choose false true rest = (h, k)
    choose false false rest = (k.0, rest)

AllAbove-trans :
    (i j : ℕ) (calls : List (ℕ × ToolCallAssembly)) → i ≤ j → AllAbove j calls → AllAbove i calls
AllAbove-trans i j [] h k = tt
AllAbove-trans i j (e ∷ calls) h k = (omega arith, AllAbove-trans i j calls h k.1)

above_absent :
    (i j : ℕ) (calls : List (ℕ × ToolCallAssembly))
    → i ≤ j
    → AllAbove j calls
    → contains_index i calls ≡ false
unfolding contains_index
above_absent i j [] h k = refl
above_absent i j ((n, call) ∷ calls) h k = ground (arith, above_absent i j calls h k.1, k.0)

put_entry-IsSorted :
    (i : ℕ) (call : ToolCallAssembly) (calls : List (ℕ × ToolCallAssembly))
    → IsSorted calls
    → IsSorted (put_entry i call calls)
unfolding put_entry
put_entry-IsSorted i call [] h = (tt, tt)
put_entry-IsSorted i call ((j, other) ∷ calls) h =
    choose (j == i) (ltb i j) refl refl (put_entry-IsSorted i call calls h.1)
  where
    choose :
        (b c : Bool)
        → (j == i) ≡ b
        → ltb i j ≡ c
        → IsSorted (put_entry i call calls)
        → IsSorted (
            if b
            then (i, call) ∷ calls
            else if c
            then (i, call) ∷ (j, other) ∷ calls
            else (j, other) ∷ put_entry i call calls)
    choose true c e f rest = (AllAbove-trans i j calls (ground (arith, e)) h.0, h.1)
    choose false true e f rest =
        ((ground (arith, f), AllAbove-trans i j calls (ground (arith, f)) h.0), h)
    choose false false e f rest =
        (put_entry-All (λ x. j < x.0) i call calls (ground (arith, e, f)) h.0, rest)

length-put_entry :
    (i : ℕ) (call : ToolCallAssembly) (calls : List (ℕ × ToolCallAssembly))
    → IsSorted calls
    → length (put_entry i call calls)
      ≡ (if contains_index i calls then length calls else suc (length calls))
unfolding put_entry contains_index
length-put_entry i call [] h = refl
length-put_entry i call ((j, other) ∷ calls) h =
    ground (arith, length-put_entry i call calls h.1, above_absent i j calls)

if-IsBounded :
    (b : Bool) (x y : Progress × Bool)
    → (b ≡ true → IsBounded x.0)
    → (b ≡ false → IsBounded y.0)
    → IsBounded (if b then x else y).0
if-IsBounded true x y h k = h refl
if-IsBounded false x y h k = k refl

store_text-IsBounded :
    (p : Progress) (content : Text) (o : Option Text)
    → IsBounded p
    → ((text : Text) → o ≡ some text → byte_len text ≤ max_completion_text_bytes)
    → IsBounded (store_text p content o).0
unfolding IsBounded
store_text-IsBounded p content none h e = h
store_text-IsBounded p content (some text) (long, few, sorted, small) e =
    (e text refl, few, sorted, small)

store_call-IsBounded :
    (p : Progress) (delta : WireToolCallDelta) (id name arguments : Option Text)
    → IsBounded p
    → (contains_index delta.index p.assembly.tool_calls ≡ false
        → length p.assembly.tool_calls < max_tool_calls)
    → ((t : Text) → id ≡ some t → byte_len t ≤ max_tool_call_id_bytes)
    → ((t : Text) → name ≡ some t → byte_len t ≤ max_tool_name_bytes)
    → ((t : Text) → arguments ≡ some t → byte_len t ≤ max_tool_argument_bytes)
    → IsBounded (store_call p delta id name arguments).0
unfolding IsBounded
store_call-IsBounded p delta none name arguments h room e f g = h
store_call-IsBounded p delta (some id) none arguments h room e f g = h
store_call-IsBounded p delta (some id) (some name) none h room e f g = h
store_call-IsBounded p delta (some id) (some name) (some arguments) (text, few, sorted, small) room
      e f g =
    (
      text,
      ground (arith, few, room, length-put_entry delta.index call p.assembly.tool_calls sorted),
      put_entry-IsSorted delta.index call p.assembly.tool_calls sorted,
      put_entry-All (λ x. IsWithin x.1) delta.index call p.assembly.tool_calls
          (e id refl, f name refl, g arguments refl) small,
    )
  where
    call : ToolCallAssembly
    call = record { id = id; name = name; arguments = arguments }

content-IsBounded :
    (text : Option Text) (p : Progress) → IsBounded p → IsBounded (apply_content text p).0
unfolding apply_content IsBounded
content-IsBounded none p h = h
content-IsBounded (some content) p h =
    if-IsBounded (is_empty content) (p, true) _ (λ _. h)
      (λ _.
        store_text-IsBounded p content _ h
          (λ text. pushed_le p.assembly.text content text max_completion_text_bytes h.0))

tool_call-IsBounded :
    (delta : WireToolCallDelta) (p : Progress) → IsBounded p → IsBounded (apply_tool_call delta p).0
unfolding apply_tool_call IsBounded
tool_call-IsBounded delta p h =
    let (id, name, arguments) = entry-IsWithin delta.index p.assembly.tool_calls h.3 in
    if-IsBounded _ (p, false) _ (λ _. h)
      (λ open_room.
        store_call-IsBounded p delta _ _ _ h (λ absent. ground (arith, open_room, absent))
          (λ t. push_id_le (entry delta.index p.assembly.tool_calls).id t delta.id id)
          (λ t.
            push_some_le (entry delta.index p.assembly.tool_calls).name t
              (function_of delta.function).name max_tool_name_bytes name)
          (λ t.
            push_some_le (entry delta.index p.assembly.tool_calls).arguments t
              (function_of delta.function).arguments max_tool_argument_bytes arguments))

set_finish-IsBounded :
    (text : Option Text) (p : Progress) → IsBounded p → IsBounded (set_finish text p).0
unfolding IsBounded
set_finish-IsBounded none p h = h
set_finish-IsBounded (some text) p h = h

set_usage-IsBounded :
    (u : Option TokenUsage) (p : Progress) → IsBounded p → IsBounded (set_usage u p)
unfolding IsBounded
set_usage-IsBounded none p h = h
set_usage-IsBounded (some u) p h = h

pub apply-IsBounded :
    (chunk : WireStreamChunk) (p : Progress) → IsBounded p → IsBounded (apply chunk p).0
apply-IsBounded =
    apply_keeps IsBounded tool_call-IsBounded content-IsBounded set_finish-IsBounded
      set_usage-IsBounded

pub default-IsBounded : IsBounded default_progress
unfolding IsBounded byte_len
default-IsBounded = (omega arith, omega arith, tt, tt)
