-- ===== src/Mcp/Tools.antt =====
-- apps/woof-mcp/src/lib.rs: `tool_request`, the check of a tool call and the request to the daemon
-- that it becomes. A JSON value is of any type, with the readings of serde_json as parameters, and
-- the arguments are an association list. The query is in the order of the insertions.
pub mod Checked
pub mod Snapshots
pub mod Safety
mod Examples
use woof.Prelude.{
  ℕ, ◌+◌, Bool, true, false, not, ◌&&◌, ◌||◌, ◌⊎◌, inl, inr, Option, none, some, List, [], ◌∷◌,
  ◌++◌, ltb, leb, ◌==◌, if◌then◌else◌, length,
}
use woof.Prelude.Int.{ℤ, pos, negsuc}
use woof.Prelude.Text.{Text, codes, is_empty, text_eq, trim, byte_len, is_control}
use woof.Prelude.Table.{contains, get}
use woof.Prelude.Decimal.{decimal}
use woof.Mcp.Frame.{BridgeError, invalid_arguments}

abbrev pub max_query_bytes : ℕ
max_query_bytes = 1024

abbrev pub max_period_bytes : ℕ
max_period_bytes = 64

abbrev pub max_slug_bytes : ℕ
max_slug_bytes = 256

abbrev pub max_date_bytes : ℕ
max_date_bytes = 32

abbrev pub max_enum_bytes : ℕ
max_enum_bytes = 32

abbrev pub max_snapshot_id_bytes : ℕ
max_snapshot_id_bytes = 128

abbrev pub max_snapshot_ids : ℕ
max_snapshot_ids = 100

abbrev pub max_snapshot_ids_query_bytes : ℕ
max_snapshot_ids_query_bytes = 8192

abbrev pub BridgeResult : Type 0 → Type 0
BridgeResult A = BridgeError ⊎ A

-- A path of the daemon, and the parameters.
abbrev pub Request : Type 0
Request = Text × List (Text × Text)

infixl 10 ◌>>=◌
abbrev pub ◌>>=◌ : {A B : Type 0} → BridgeResult A → (A → BridgeResult B) → BridgeResult B
inl e >>= f = inl e
inr a >>= f = f a

unfoldable pub has_control : Text → Bool
has_control [] = false
has_control (c ∷ s) = is_control c || has_control s

unfoldable pub valid_string_argument : Text → ℕ → Bool
valid_string_argument value maximum_bytes =
    not (is_empty (trim value)) && leb (byte_len value) maximum_bytes && not (has_control value)

-- `filter` and `ok_or`.
abbrev pub valid_or_refused : Text → ℕ → Option Text → BridgeResult Text
valid_or_refused key maximum_bytes none = inl (invalid_arguments key)
valid_or_refused key maximum_bytes (some value) =
    if valid_string_argument value maximum_bytes then inr value else inl (invalid_arguments key)

abbrev pub accepted_or_refused : Text → List Text → Text → BridgeResult Text
accepted_or_refused key accepted value =
    if contains value accepted then inr value else inl (invalid_arguments key)

abbrev pub optional_accepted : Text → List Text → Option Text → BridgeResult (Option Text)
optional_accepted key accepted none = inr none
optional_accepted key accepted (some value) =
    accepted_or_refused key accepted value >>= (λ s. inr (some s))

-- `as_i64().filter(..).ok_or(..)`
abbrev pub in_range : Text → ℕ → Option ℤ → BridgeResult ℕ
in_range key maximum none = inl (invalid_arguments key)
in_range key maximum (some (negsuc n)) = inl (invalid_arguments key)
in_range key maximum (some (pos n)) =
    if leb 1 n && leb n maximum then inr n else inl (invalid_arguments key)

abbrev pub optional_parameter : Text → Option Text → List (Text × Text)
optional_parameter key none = []
optional_parameter key (some value) = (key, value) ∷ []

-- `id.contains(',')`
unfoldable pub has_comma : Text → Bool
has_comma [] = false
has_comma (c ∷ s) = c == 44 || has_comma s

-- `usize::from(!ids.is_empty())`
abbrev pub separator : List Text → ℕ
separator [] = 0
separator (id ∷ ids) = 1

-- `ids.join(",")`
unfoldable pub join : List Text → Text
join [] = []
join (id ∷ []) = id
join (id ∷ next ∷ ids) = id ++ (44 ∷ join (next ∷ ids))

-- One round of the loop over the ids, with the rounds after it.
abbrev pub push_snapshot_id :
    (ℕ → List Text → BridgeResult (List Text))
    → ℕ
    → List Text
    → Option Text
    → BridgeResult (List Text)
push_snapshot_id later joined_length ids none =
    inl (invalid_arguments (codes "snapshot IDs must be strings"))
push_snapshot_id later joined_length ids (some id) =
    if not (valid_string_argument id max_snapshot_id_bytes) || has_comma id
    then inl (invalid_arguments (codes "invalid snapshot ID"))
    else if ltb max_snapshot_ids_query_bytes (joined_length + byte_len id + separator ids)
    then inl (invalid_arguments (codes "snapshot IDs are too large"))
    else later (joined_length + byte_len id + separator ids) (ids ++ (id ∷ []))

unfoldable pub allowed_argument_names : Text → Option (List Text)
allowed_argument_names name =
    if text_eq name (codes "search_memory")
    then some (codes "query" ∷ codes "limit" ∷ [])
    else if text_eq name (codes "get_chronicle")
    then some (codes "level" ∷ codes "period" ∷ [])
    else if text_eq name (codes "get_working_memory")
    then some (codes "limit" ∷ [])
    else if text_eq name (codes "get_recent_activity")
    then some (codes "minutes" ∷ codes "limit" ∷ [])
    else if text_eq name (codes "get_snapshots")
    then some (codes "ids" ∷ [])
    else if text_eq name (codes "search_wiki")
    then some (codes "query" ∷ codes "limit" ∷ [])
    else if text_eq name (codes "get_wiki_page")
    then some (codes "slug" ∷ [])
    else if text_eq name (codes "list_wiki")
    then some (codes "type" ∷ codes "limit" ∷ [])
    else if text_eq name (codes "get_time_report")
    then some (codes "period" ∷ codes "from" ∷ codes "to" ∷ [])
    else if text_eq name (codes "list_time_rules")
    then some []
    else none

module _ {V : Type 0} where
  unfoldable pub any_unknown : List (Text × V) → List Text → Bool
  any_unknown [] allowed = false
  any_unknown ((argument, v) ∷ arguments) allowed =
      not (contains argument allowed) || any_unknown arguments allowed

  abbrev pub reject_unknown_arguments : List (Text × V) → List Text → BridgeResult (Unit {0})
  reject_unknown_arguments arguments allowed =
      if any_unknown arguments allowed
      then inl (invalid_arguments (codes "unknown tool argument"))
      else inr tt

  abbrev pub read_as : {A : Type 0} → (V → Option A) → Option V → Option A
  read_as f none = none
  read_as f (some v) = f v

abbrev pub ok_or : {A : Type 0} → Text → Option A → BridgeResult A
ok_or message none = inl (invalid_arguments message)
ok_or message (some a) = inr a

module _ {V : Type 0} (as_str : V → Option Text) (arguments : List (Text × V)) where
  unfoldable pub required_string : Text → ℕ → BridgeResult Text
  required_string key maximum_bytes =
      valid_or_refused key maximum_bytes (read_as as_str (get key arguments))

  abbrev pub optional_value : Text → ℕ → Option V → BridgeResult (Option Text)
  optional_value key maximum_bytes none = inr none
  optional_value key maximum_bytes (some v) =
      valid_or_refused key maximum_bytes (as_str v) >>= (λ s. inr (some s))

  unfoldable pub optional_string : Text → ℕ → BridgeResult (Option Text)
  optional_string key maximum_bytes = optional_value key maximum_bytes (get key arguments)

  unfoldable pub required_enum : Text → List Text → BridgeResult Text
  required_enum key accepted =
      required_string key max_enum_bytes >>= accepted_or_refused key accepted

  unfoldable pub optional_enum : Text → List Text → BridgeResult (Option Text)
  optional_enum key accepted = optional_string key max_enum_bytes >>= optional_accepted key accepted

module _ {V : Type 0} (as_i64 : V → Option ℤ) (arguments : List (Text × V)) where
  -- The numbers that pass are positive, as the defaults are.
  abbrev pub integer_value : Text → ℕ → ℕ → Option V → BridgeResult ℕ
  integer_value key default maximum none = inr default
  integer_value key default maximum (some v) = in_range key maximum (as_i64 v)

  unfoldable pub bounded_integer : Text → ℕ → ℕ → BridgeResult ℕ
  bounded_integer key default maximum = integer_value key default maximum (get key arguments)

module _ {V : Type 0} (as_str : V → Option Text) where
  -- The loop over the values, with the joined length and the ids so far.
  unfoldable pub push_ids : List V → ℕ → List Text → BridgeResult (List Text)
  push_ids [] joined_length ids = inr ids
  push_ids (v ∷ values) joined_length ids =
      push_snapshot_id (push_ids values) joined_length ids (as_str v)

  abbrev pub snapshot_ids : List V → BridgeResult (List Text)
  snapshot_ids values =
      if ltb max_snapshot_ids (length values)
      then inl (invalid_arguments (codes "too many snapshot IDs"))
      else push_ids values 0 []

-- The arms of the `match`.
module _ {V : Type 0} (as_str : V → Option Text) (as_i64 : V → Option ℤ)
    (as_array : V → Option (List V)) (arguments : List (Text × V)) where
  -- `search_memory` and `search_wiki` differ in their bounds and paths.
  unfoldable pub search : ℕ → ℕ → Text → BridgeResult Request
  search default maximum path = do
    query ← required_string as_str arguments (codes "query") max_query_bytes
    limit ← bounded_integer as_i64 arguments (codes "limit") default maximum
    inr (path, (codes "q", query) ∷ (codes "limit", decimal limit) ∷ [])

  unfoldable pub get_chronicle : BridgeResult Request
  get_chronicle = do
    level ←
        required_enum as_str arguments (codes "level")
          (codes "hour" ∷ codes "day" ∷ codes "week" ∷ codes "month" ∷ codes "year" ∷ [])
    period ← required_string as_str arguments (codes "period") max_period_bytes
    inr (codes "/chronicle", (codes "level", level) ∷ (codes "period", period) ∷ [])

  unfoldable pub get_working_memory : BridgeResult Request
  get_working_memory = do
    limit ← bounded_integer as_i64 arguments (codes "limit") 40 200
    inr (codes "/working-memory", (codes "limit", decimal limit) ∷ [])

  unfoldable pub get_recent_activity : BridgeResult Request
  get_recent_activity = do
    minutes ← bounded_integer as_i64 arguments (codes "minutes") 30 360
    limit ← bounded_integer as_i64 arguments (codes "limit") 12 20
    inr (
      codes "/recent-activity",
      (codes "minutes", decimal minutes) ∷ (codes "limit", decimal limit) ∷ [],
    )

  unfoldable pub get_snapshots : BridgeResult Request
  get_snapshots = do
    values ← ok_or (codes "ids must be an array") (read_as as_array (get (codes "ids") arguments))
    ids ← snapshot_ids as_str values
    inr (codes "/snapshots", (codes "ids", join ids) ∷ [])

  unfoldable pub get_wiki_page : BridgeResult Request
  get_wiki_page = do
    slug ← required_string as_str arguments (codes "slug") max_slug_bytes
    inr (codes "/wiki/page", (codes "slug", slug) ∷ [])

  unfoldable pub list_wiki : BridgeResult Request
  list_wiki = do
    page_type ←
        optional_enum as_str arguments (codes "type")
          (codes "person" ∷ codes "project" ∷ codes "topic" ∷ codes "tool" ∷ codes "org" ∷ [])
    limit ← bounded_integer as_i64 arguments (codes "limit") 50 200
    inr (
      codes "/wiki/list",
      optional_parameter (codes "type") page_type ++ ((codes "limit", decimal limit) ∷ []),
    )

  unfoldable pub get_time_report : BridgeResult Request
  get_time_report = do
    period ← optional_enum as_str arguments (codes "period") (
        codes "today"
        ∷ codes "yesterday"
        ∷ codes "this_week"
        ∷ codes "last_week"
        ∷ codes "this_month"
        ∷ codes "last_7_days"
        ∷ codes "last_30_days"
        ∷ [])
    from ← optional_string as_str arguments (codes "from") max_date_bytes
    to ← optional_string as_str arguments (codes "to") max_date_bytes
    inr (
      codes "/time/report",
      optional_parameter (codes "period") period
          ++ (optional_parameter (codes "from") from ++ optional_parameter (codes "to") to),
    )

  unfoldable pub path_and_query : Text → BridgeResult Request
  path_and_query name =
      if text_eq name (codes "search_memory")
      then search 20 30 (codes "/search")
      else if text_eq name (codes "get_chronicle")
      then get_chronicle
      else if text_eq name (codes "get_working_memory")
      then get_working_memory
      else if text_eq name (codes "get_recent_activity")
      then get_recent_activity
      else if text_eq name (codes "get_snapshots")
      then get_snapshots
      else if text_eq name (codes "search_wiki")
      then search 10 100 (codes "/wiki/search")
      else if text_eq name (codes "get_wiki_page")
      then get_wiki_page
      else if text_eq name (codes "list_wiki")
      then list_wiki
      else if text_eq name (codes "get_time_report")
      then get_time_report
      else if text_eq name (codes "list_time_rules")
      then inr (codes "/time/rules", [])
      else inl (invalid_arguments (codes "unknown tool name"))

  unfoldable pub tool_request : Text → BridgeResult Request
  tool_request name = do
    allowed ← ok_or (codes "unknown tool name") (allowed_argument_names name)
    _ ← reject_unknown_arguments arguments allowed
    path_and_query name
