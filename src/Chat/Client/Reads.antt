-- ===== src/Chat/Client/Reads.antt =====
-- crates/woof-llm/src/chat.rs: what reading the data of a stream keeps, and what `finish` gives.
use woof.Prelude.{
  ℕ, suc, ◌≤◌, ◌<◌, ◌≡◌, refl, sym, ap, ◌∙◌, Bool, true, false, not, ◌||◌, Option, none, some, List,
  [], ◌∷◌, ◌++◌, if◌then◌else◌, length, All, arith,
}
use woof.Prelude.Text.{Text, byte_len, is_empty, text_eq, trim, codes}
use woof.Chat.Assembly.{
  max_completion_text_bytes, max_tool_calls, ToolCallAssembly, FunctionToolCall, ChatCompletion,
  ChatStreamEvent, completed, WireStreamChunk, Progress, entry, apply, finish_calls, finished,
  finish,
}
use woof.Chat.Assembly.Heard.{heard_text, heard_name, heard_arguments, is_completed_told}
use woof.Chat.Assembly.Told.{IsTold, apply-IsTold}
use woof.Chat.Assembly.Bounds.{IsSorted, IsBounded, apply-IsBounded}
use woof.Chat.Client.{
  ChatResult, ok, err, Reading, reading, stopped, complete, applied, read_chunk, read_data,
  read_events, read_pushed,
}

entries_agree :
    (calls : List (ℕ × ToolCallAssembly)) → IsSorted calls → All (λ e. entry e.0 calls ≡ e.1) calls
unfolding entry
entries_agree [] h = tt
entries_agree ((i, call) ∷ calls) h = (ground arith, behind calls h.0 (entries_agree calls h.1))
  where
    behind :
        (rest : List (ℕ × ToolCallAssembly))
        → All (λ e. i < e.0) rest
        → All (λ e. entry e.0 calls ≡ e.1) rest
        → All (λ e. entry e.0 ((i, call) ∷ calls) ≡ e.1) rest
    behind [] above same = tt
    behind (e ∷ rest) above same = (ground (arith, above.0, same.0), behind rest above.1 same.1)

module _ (parse : Text → Option WireStreamChunk) (is_json : Text → Bool) where
  -- A call of the completion is what a listener has of some index, with an id, a name and JSON.
  abbrev pub IsHeard : List ChatStreamEvent → FunctionToolCall → Type 0
  IsHeard told call =
      ((i : ℕ) × (call.name ≡ heard_name i told) × (call.arguments ≡ heard_arguments i told))
      × (is_empty call.id ≡ false)
      × (is_empty call.name ≡ false)
      × (is_json call.arguments ≡ true)

  -- The completion is what a listener puts together of the parts, and is told last and once.
  abbrev pub IsComplete : List ChatStreamEvent → ChatCompletion → Type 0
  IsComplete told completion =
      (parts : List ChatStreamEvent) × (told ≡ parts ++ (completed completion ∷ []))
      × (is_completed_told parts ≡ false)
      × (completion.text ≡ heard_text parts)
      × All (IsHeard parts) completion.tool_calls
      × (byte_len completion.text ≤ max_completion_text_bytes)
      × (length completion.tool_calls ≤ max_tool_calls)

  abbrev pub IsAnswered : List ChatStreamEvent → ChatResult → Type 0
  IsAnswered told (ok completion) = IsComplete told completion
  IsAnswered told (err e) = is_completed_told told ≡ false

  abbrev pub IsSound : Progress → Type 0
  IsSound p = IsTold p × IsBounded p

  abbrev AreHeard : List ChatStreamEvent → ℕ → Option (List FunctionToolCall) → Type 0
  AreHeard told n none = Unit
  AreHeard told n (some done) = All (IsHeard told) done × (length done ≡ n)

  finish_calls-heard :
      (told : List ChatStreamEvent) (whole calls : List (ℕ × ToolCallAssembly))
      → ((i : ℕ) → (entry i whole).name ≡ heard_name i told)
      → ((i : ℕ) → (entry i whole).arguments ≡ heard_arguments i told)
      → All (λ e. entry e.0 whole ≡ e.1) calls
      → AreHeard told (length calls) (finish_calls is_json calls)
  unfolding finish_calls
  finish_calls-heard told whole [] names args same = (tt, refl)
  finish_calls-heard told whole ((i, call) ∷ calls) names args same =
      choose (is_empty call.id) (is_empty call.name) (is_json call.arguments) refl refl refl
        (finish_calls is_json calls) (finish_calls-heard told whole calls names args same.1)
    where
      choose :
          (b c d : Bool)
          → is_empty call.id ≡ b
          → is_empty call.name ≡ c
          → is_json call.arguments ≡ d
          → (o : Option (List FunctionToolCall)) → AreHeard told (length calls) o
          → AreHeard told (suc (length calls)) (
              if b || c then none else if not d then none else elim o [
                | none ↦ none
                | some rest ↦
                    some
                      (record { id = call.id; name = call.name; arguments = call.arguments } ∷ rest)
              ])
      choose true c d e f g o h = tt
      choose false true d e f g o h = tt
      choose false false false e f g o h = tt
      choose false false true e f g none h = tt
      choose false false true e f g (some rest) h = (
        (
          (
            (
              i,
              sym (ap (λ t. t.name) same.0) ∙ names i,
              sym (ap (λ t. t.arguments) same.0) ∙ args i,
            ),
            e,
            f,
            g,
          ),
          h.0,
        ),
        ap suc h.1,
      )

  -- What data gives.
  abbrev pub IsRead : Reading → Type 0
  IsRead (reading p) = IsSound p
  IsRead (stopped told result) = IsAnswered told result

  finish-IsRead :
      (p : Progress) → IsSound p → IsRead (complete parse is_json p (finish is_json p.assembly))
  unfolding finish IsTold IsBounded
  finish-IsRead p ((same, names, args, emitted, open_end), bounded) =
      choose (finish_calls is_json p.assembly.tool_calls) (
        finish_calls-heard p.told p.assembly.tool_calls p.assembly.tool_calls names args
          (entries_agree p.assembly.tool_calls bounded.2))
    where
      choose :
          (o : Option (List FunctionToolCall))
          → AreHeard p.told (length p.assembly.tool_calls) o
          → IsRead (complete parse is_json p (finished is_json p.assembly o))
      choose none h = open_end
      choose (some calls) h =
          (p.told, refl, open_end, same, h.0, bounded.0, ground (arith, h.1, bounded.1))

  pub silent-told : (p : Progress) → IsTold p → is_completed_told p.told ≡ false
  unfolding IsTold
  silent-told p h = h.4

  applied-IsRead : (x : Progress × Bool) → IsSound x.0 → IsRead (applied parse is_json x)
  applied-IsRead (p, true) h = h
  applied-IsRead (p, false) h = silent-told p h.0

  chunk-IsRead :
      (p : Progress) (o : Option WireStreamChunk)
      → IsSound p
      → IsRead (read_chunk parse is_json p o)
  chunk-IsRead p none h = silent-told p h.0
  chunk-IsRead p (some chunk) h =
      applied-IsRead (apply chunk p) (apply-IsTold chunk p h.0, apply-IsBounded chunk p h.1)

  if-IsRead : (b : Bool) (x y : Reading) → IsRead x → IsRead y → IsRead (if b then x else y)
  if-IsRead true x y h k = h
  if-IsRead false x y h k = k

  read_data-IsRead :
      (data_text : Text) (p : Progress) → IsSound p → IsRead (read_data parse is_json data_text p)
  unfolding read_data
  read_data-IsRead data_text p h =
      if-IsRead (text_eq (trim data_text) (codes "[DONE]")) _ _ (finish-IsRead p h)
        (chunk-IsRead p (parse data_text) h)

  read_events-IsRead :
      (events : List Text) (p : Progress) → IsSound p → IsRead (read_events parse is_json events p)
  unfolding read_events
  read_events-IsRead [] p h = h
  read_events-IsRead (data_text ∷ rest) p h =
      choose (read_data parse is_json data_text p) (read_data-IsRead data_text p h)
        (read_events-IsRead rest)
    where
      choose :
          (r : Reading)
          → IsRead r
          → ((q : Progress) → IsSound q → IsRead (read_events parse is_json rest q))
          → IsRead (elim r [
            | reading q ↦ read_events parse is_json rest q
            | stopped told result ↦ stopped told result
          ])
      choose (reading q) k next = next q k
      choose (stopped told result) k next = k

  pub pushed-IsRead :
      (o : Option (List Text)) (p : Progress) → IsSound p → IsRead (read_pushed parse is_json o p)
  pushed-IsRead none p h = silent-told p h.0
  pushed-IsRead (some events) p h = read_events-IsRead events p h
