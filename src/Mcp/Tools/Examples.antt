-- ===== src/Mcp/Tools/Examples.antt =====
-- The tests of `tool_request`, apps/woof-mcp/src/lib.rs.
use woof.Prelude.{◌≡◌, refl, inl, inr, Option, none, some, List, [], ◌∷◌, map}
use woof.Prelude.Int.{ℤ, pos}
use woof.Prelude.Text.{
  Text, codes, text_eq, trim, trim_start, trim_end, is_whitespace, is_control, byte_len, len_utf8,
}
use woof.Prelude.Table.{contains, get}
use woof.Prelude.Decimal.{decimal, decimal_from}
use woof.Mcp.Frame.{invalid_arguments}
use woof.Mcp.Tools.{
  has_control, valid_string_argument, allowed_argument_names, any_unknown, required_string,
  bounded_integer, search, path_and_query, tool_request,
}
use woof.Mcp.Tools.Checked.{Holds}
use woof.Mcp.Tools.Safety.{IsServed, tool_request_checked}

data Value : Type 0 where
  string : Text → Value
  number : ℤ → Value
  texts : List Text → Value

abbrev as_text : Value → Option Text
as_text (string s) = some s
as_text _ = none

abbrev number_of : Value → Option ℤ
number_of (number n) = some n
number_of _ = none

abbrev values_of : Value → Option (List Value)
values_of (texts l) = some (map string l)
values_of _ = none

abbrev dogs : List (Text × Value)
dogs = (codes "query", string (codes "dogs")) ∷ (codes "limit", number (pos 5)) ∷ []

finds_dogs :
    tool_request as_text number_of values_of dogs (codes "search_memory")
    ≡ inr (codes "/search", (codes "q", codes "dogs") ∷ (codes "limit", codes "5") ∷ [])
unfolding tool_request path_and_query search required_string bounded_integer any_unknown
    allowed_argument_names valid_string_argument has_control contains get text_eq trim trim_start
    trim_end is_whitespace is_control byte_len len_utf8 decimal decimal_from
finds_dogs = refl

refuses_an_unknown_argument :
    tool_request as_text number_of values_of dogs (codes "get_wiki_page")
    ≡ inl (invalid_arguments (codes "unknown tool argument"))
unfolding tool_request any_unknown allowed_argument_names contains text_eq
refuses_an_unknown_argument = refl

tool_request_checked_example :
    Holds
      (IsServed dogs (codes "search_memory"))
      (tool_request as_text number_of values_of dogs (codes "search_memory"))
tool_request_checked_example =
    tool_request_checked as_text number_of values_of dogs (codes "search_memory")
