-- ===== src/Mcp/Tools/Safety.antt =====
-- apps/woof-mcp/src/lib.rs: which requests reach the daemon.
use woof.Prelude.{
  ℕ, ◌≤◌, ◌≡◌, refl, Bool, true, false, inl, inr, Option, none, some, List, [], ◌∷◌, ◌++◌,
  if◌then◌else◌, All, All-append, arith,
}
use woof.Prelude.Int.{ℤ}
use woof.Prelude.Text.{Text, codes}
use woof.Prelude.Table.{contains, get}
use woof.Mcp.Tools.{
  BridgeResult, ◌>>=◌, Request, max_query_bytes, max_period_bytes, max_slug_bytes, max_date_bytes,
  allowed_argument_names, any_unknown, read_as, ok_or, required_string, optional_string,
  optional_enum, bounded_integer, join, search, get_chronicle, get_working_memory,
  get_recent_activity, get_snapshots, get_wiki_page, list_wiki, get_time_report, path_and_query,
  tool_request, optional_parameter,
}
use woof.Mcp.Frame.{invalid_arguments}
use woof.Mcp.Tools.Checked.{
  IsParameter, Holds, bind-Holds, IsOptional, AreParameters, optional_parameter-AreParameters,
  decimal-IsParameter, required_string-Holds, optional_string-Holds, required_enum-Holds,
  optional_enum-Holds, bounded_integer-Holds,
}
use woof.Mcp.Tools.Snapshots.{snapshot_ids-Holds}

ok_or-Holds :
    {A : Type 0} (P : A → Type 0) (message : Text) (o : Option A)
    → ((a : A) → o ≡ some a → P a)
    → Holds P (ok_or message o)
ok_or-Holds P message none h = tt
ok_or-Holds P message (some a) h = h a refl

append-AreParameters :
    (l m : List (Text × Text)) → AreParameters l → AreParameters m → AreParameters (l ++ m)
append-AreParameters l m h k = All-append (λ p. IsParameter p.1) l m h k

abbrev IsRequest : Request → Type 0
IsRequest r = AreParameters r.1

module _ {V : Type 0} (arguments : List (Text × V)) where
  -- The names of the arguments are among those of the tool, and the values of the query are
  -- parameters.
  abbrev pub IsServed : Text → Request → Type 0
  IsServed name r =
      ((allowed : List Text) × (allowed_argument_names name ≡ some allowed)
        × All (λ a. contains a.0 allowed ≡ true) arguments)
      × AreParameters r.1

known :
    {V : Type 0} (arguments : List (Text × V)) (allowed : List Text)
    → any_unknown arguments allowed ≡ false
    → All (λ a. contains a.0 allowed ≡ true) arguments
unfolding any_unknown
known [] allowed h = tt
known ((key, v) ∷ arguments) allowed h =
    (ground (arith, h), known arguments allowed (ground (arith, h)))

module _ {V : Type 0} (as_str : V → Option Text) (as_i64 : V → Option ℤ)
    (as_array : V → Option (List V)) (arguments : List (Text × V)) where
  string :
      (key : Text) (maximum : ℕ) (f : Text → BridgeResult Request)
      → maximum ≤ 8192
      → ((s : Text) → IsParameter s → Holds IsRequest (f s))
      → Holds IsRequest (required_string as_str arguments key maximum >>= f)
  string key maximum f h k =
      bind-Holds IsParameter IsRequest _ f (required_string-Holds as_str arguments key maximum h) k

  date :
      (key : Text) (maximum : ℕ) (f : Option Text → BridgeResult Request)
      → maximum ≤ 8192
      → ((o : Option Text) → IsOptional o → Holds IsRequest (f o))
      → Holds IsRequest (optional_string as_str arguments key maximum >>= f)
  date key maximum f h k =
      bind-Holds IsOptional IsRequest _ f (optional_string-Holds as_str arguments key maximum h) k

  choice :
      (key : Text) (accepted : List Text) (f : Option Text → BridgeResult Request)
      → ((o : Option Text) → IsOptional o → Holds IsRequest (f o))
      → Holds IsRequest (optional_enum as_str arguments key accepted >>= f)
  choice key accepted f k =
      bind-Holds IsOptional IsRequest _ f (optional_enum-Holds as_str arguments key accepted) k

  integer :
      (key : Text) (default maximum : ℕ) (f : ℕ → BridgeResult Request)
      → default ≤ maximum
      → maximum ≤ 999
      → ((n : ℕ) → n ≤ 999 → Holds IsRequest (f n))
      → Holds IsRequest (bounded_integer as_i64 arguments key default maximum >>= f)
  integer key default maximum f h l k =
      bind-Holds (λ n. n ≤ 999) IsRequest _ f
        (bounded_integer-Holds as_i64 arguments key default maximum h l) k

  search-Holds :
      (default maximum : ℕ) (path : Text)
      → default ≤ maximum
      → maximum ≤ 999
      → Holds IsRequest (search as_str as_i64 as_array arguments default maximum path)
  unfolding search
  search-Holds default maximum path h l =
      string (codes "query") max_query_bytes _ (omega arith) (λ q p.
        integer (codes "limit") default maximum _ h l (λ n k. (p, (decimal-IsParameter n k, tt))))

  get_chronicle-Holds : Holds IsRequest (get_chronicle as_str as_i64 as_array arguments)
  unfolding get_chronicle
  get_chronicle-Holds =
      bind-Holds IsParameter IsRequest _ _ (required_enum-Holds as_str arguments (codes "level") _)
        (λ level p.
          string (codes "period") max_period_bytes _ (omega arith) (λ period q. (p, (q, tt))))

  get_working_memory-Holds : Holds IsRequest (get_working_memory as_str as_i64 as_array arguments)
  unfolding get_working_memory
  get_working_memory-Holds =
      integer (codes "limit") 40 200 _ (omega arith) (omega arith)
        (λ n k. (decimal-IsParameter n k, tt))

  get_recent_activity-Holds : Holds IsRequest (get_recent_activity as_str as_i64 as_array arguments)
  unfolding get_recent_activity
  get_recent_activity-Holds = integer (codes "minutes") 30 360 _ (omega arith) (omega arith) (λ m h.
      integer (codes "limit") 12 20 _ (omega arith) (omega arith)
        (λ n k. (decimal-IsParameter m h, (decimal-IsParameter n k, tt))))

  get_snapshots-Holds : Holds IsRequest (get_snapshots as_str as_i64 as_array arguments)
  unfolding get_snapshots
  get_snapshots-Holds =
      bind-Holds (λ values. Unit) IsRequest _ _
        (ok_or-Holds (λ values. Unit) (codes "ids must be an array")
          (read_as as_array (get (codes "ids") arguments)) (λ a e. tt))
        (λ values h.
          bind-Holds (λ l. IsParameter (join l)) IsRequest _ _ (snapshot_ids-Holds as_str values)
            (λ ids p. (p, tt)))

  get_wiki_page-Holds : Holds IsRequest (get_wiki_page as_str as_i64 as_array arguments)
  unfolding get_wiki_page
  get_wiki_page-Holds = string (codes "slug") max_slug_bytes _ (omega arith) (λ slug p. (p, tt))

  list_wiki-Holds : Holds IsRequest (list_wiki as_str as_i64 as_array arguments)
  unfolding list_wiki
  list_wiki-Holds = choice (codes "type") _ _ (λ page_type p.
      integer (codes "limit") 50 200 _ (omega arith) (omega arith) (λ n k.
        append-AreParameters (optional_parameter (codes "type") page_type) _
          (optional_parameter-AreParameters (codes "type") page_type p)
          (decimal-IsParameter n k, tt)))

  get_time_report-Holds : Holds IsRequest (get_time_report as_str as_i64 as_array arguments)
  unfolding get_time_report
  get_time_report-Holds = choice (codes "period") _ _ (λ period p.
      date (codes "from") max_date_bytes _ (omega arith) (λ from q.
        date (codes "to") max_date_bytes _ (omega arith) (λ to r.
          append-AreParameters (optional_parameter (codes "period") period) _
            (optional_parameter-AreParameters (codes "period") period p)
            (append-AreParameters (optional_parameter (codes "from") from) _
              (optional_parameter-AreParameters (codes "from") from q)
              (optional_parameter-AreParameters (codes "to") to r)))))

  path_and_query-Holds :
      (name : Text) → Holds IsRequest (path_and_query as_str as_i64 as_array arguments name)
  unfolding path_and_query
  path_and_query-Holds name = ground (
    arith,
    search-Holds 20 30 (codes "/search") (omega arith) (omega arith),
    get_chronicle-Holds,
    get_working_memory-Holds,
    get_recent_activity-Holds,
    get_snapshots-Holds,
    search-Holds 10 100 (codes "/wiki/search") (omega arith) (omega arith),
    get_wiki_page-Holds,
    list_wiki-Holds,
    get_time_report-Holds,
  )

  -- Whatever is called with whatever arguments, a request that comes of it is that of a known tool
  -- whose list has the names of all arguments, and each value of its query takes 8 KiB at most and
  -- has no control character.
  pub tool_request_checked :
      (name : Text)
      → Holds (IsServed arguments name) (tool_request as_str as_i64 as_array arguments name)
  unfolding tool_request
  tool_request_checked name =
      bind-Holds (λ allowed. allowed_argument_names name ≡ some allowed) (IsServed arguments name) _
        _
        (ok_or-Holds (λ allowed. allowed_argument_names name ≡ some allowed)
          (codes "unknown tool name") (allowed_argument_names name) (λ allowed e. e))
        (λ allowed e. served allowed e (any_unknown arguments allowed) refl)
    where
      join_known :
          (allowed : List Text)
          → allowed_argument_names name ≡ some allowed
          → any_unknown arguments allowed ≡ false
          → (r : BridgeResult Request) → Holds IsRequest r
          → Holds (IsServed arguments name) r
      join_known allowed e h (inl f) k = tt
      join_known allowed e h (inr r) k = ((allowed, e, known arguments allowed h), k)

      served :
          (allowed : List Text)
          → allowed_argument_names name ≡ some allowed
          → (b : Bool) → any_unknown arguments allowed ≡ b
          → Holds (IsServed arguments name) (
              (if b then inl (invalid_arguments (codes "unknown tool argument")) else inr tt)
              >>= (λ u. path_and_query as_str as_i64 as_array arguments name))
      served allowed e true h = tt
      served allowed e false h = join_known allowed e h _ (path_and_query-Holds name)
