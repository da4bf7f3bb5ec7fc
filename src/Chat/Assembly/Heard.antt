-- ===== src/Chat/Assembly/Heard.antt =====
-- crates/woof-llm/src/chat.rs: what a listener puts together of the events that it is told.
use woof.Prelude.{
  ℕ, ◌≡◌, refl, Bool, true, false, Option, none, some, List, [], ◌∷◌, ◌++◌, append_assoc, ◌==◌,
  if◌then◌else◌, arith,
}
use woof.Prelude.Text.{Text}
use woof.Chat.Assembly.{ChatStreamEvent, content_delta, tool_call_delta, completed}

abbrev pub part_of : Option Text → Text
part_of none = []
part_of (some text) = text

-- The text that a listener puts together.
unfoldable pub heard_text : List ChatStreamEvent → Text
heard_text [] = []
heard_text (content_delta text ∷ events) = text ++ heard_text events
heard_text (tool_call_delta i id name arguments ∷ events) = heard_text events
heard_text (completed completion ∷ events) = heard_text events

-- The name and the arguments of the call with an index, by a listener.
unfoldable pub heard_name : ℕ → List ChatStreamEvent → Text
heard_name i [] = []
heard_name i (content_delta text ∷ events) = heard_name i events
heard_name i (tool_call_delta j id name arguments ∷ events) =
    if j == i then part_of name ++ heard_name i events else heard_name i events
heard_name i (completed completion ∷ events) = heard_name i events

unfoldable pub heard_arguments : ℕ → List ChatStreamEvent → Text
heard_arguments i [] = []
heard_arguments i (content_delta text ∷ events) = heard_arguments i events
heard_arguments i (tool_call_delta j id name arguments ∷ events) =
    if j == i then part_of arguments ++ heard_arguments i events else heard_arguments i events
heard_arguments i (completed completion ∷ events) = heard_arguments i events

unfoldable pub is_completed_told : List ChatStreamEvent → Bool
is_completed_told [] = false
is_completed_told (content_delta text ∷ events) = is_completed_told events
is_completed_told (tool_call_delta i id name arguments ∷ events) = is_completed_told events
is_completed_told (completed completion ∷ events) = true

abbrev pub is_silent : List ChatStreamEvent → Bool
is_silent [] = true
is_silent (event ∷ events) = false

pub heard_text-append :
    (xs ys : List ChatStreamEvent) → heard_text (xs ++ ys) ≡ heard_text xs ++ heard_text ys
unfolding heard_text
heard_text-append [] ys = refl
heard_text-append (content_delta text ∷ xs) ys = simp (heard_text-append xs ys, append_assoc)
heard_text-append (tool_call_delta i id name arguments ∷ xs) ys = heard_text-append xs ys
heard_text-append (completed completion ∷ xs) ys = heard_text-append xs ys

pub heard_name-append :
    (i : ℕ) (xs ys : List ChatStreamEvent)
    → heard_name i (xs ++ ys) ≡ heard_name i xs ++ heard_name i ys
unfolding heard_name
heard_name-append i [] ys = refl
heard_name-append i (content_delta text ∷ xs) ys = heard_name-append i xs ys
heard_name-append i (tool_call_delta j id name arguments ∷ xs) ys = ground (
  arith,
  heard_name-append i xs ys,
  append_assoc (part_of name) (heard_name i xs) (heard_name i ys),
)
heard_name-append i (completed completion ∷ xs) ys = heard_name-append i xs ys

pub heard_arguments-append :
    (i : ℕ) (xs ys : List ChatStreamEvent)
    → heard_arguments i (xs ++ ys) ≡ heard_arguments i xs ++ heard_arguments i ys
unfolding heard_arguments
heard_arguments-append i [] ys = refl
heard_arguments-append i (content_delta text ∷ xs) ys = heard_arguments-append i xs ys
heard_arguments-append i (tool_call_delta j id name arguments ∷ xs) ys = ground (
  arith,
  heard_arguments-append i xs ys,
  append_assoc (part_of arguments) (heard_arguments i xs) (heard_arguments i ys),
)
heard_arguments-append i (completed completion ∷ xs) ys = heard_arguments-append i xs ys

pub is_completed_told-append :
    (xs ys : List ChatStreamEvent)
    → is_completed_told xs ≡ false
    → is_completed_told (xs ++ ys) ≡ is_completed_told ys
unfolding is_completed_told
is_completed_told-append [] ys h = refl
is_completed_told-append (content_delta text ∷ xs) ys h = is_completed_told-append xs ys h
is_completed_told-append (tool_call_delta i id name arguments ∷ xs) ys h =
    is_completed_told-append xs ys h
is_completed_told-append (completed completion ∷ xs) ys h = ground (arith, h)

pub is_silent-append :
    (xs : List ChatStreamEvent) (e : ChatStreamEvent) → is_silent (xs ++ (e ∷ [])) ≡ false
is_silent-append [] e = refl
is_silent-append (x ∷ xs) e = refl
