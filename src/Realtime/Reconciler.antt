-- ===== src/Realtime/Reconciler.antt =====
-- crates/woof-llm/src/realtime.rs: `TranscriptReconciler`. A result is `none` for the error
-- `InvalidEvent`, the only one here.
use woof.Prelude.{
  ℕ, ◌+◌, ◌-◌, Bool, false, not, ◌&&◌, ◌||◌, Option, none, some, List, [], ◌∷◌, ◌++◌, ◌==◌, ltb,
  leb, if◌then◌else◌, length,
}
use woof.Prelude.Text.{Text, codes, byte_len, is_empty, is_control, trim}
use woof.Prelude.Table.{contains, contains_key, get, insert, remove}

abbrev pub max_transcript_items : ℕ
max_transcript_items = 128

abbrev pub max_item_id_bytes : ℕ
max_item_id_bytes = 512

abbrev pub max_transcript_item_bytes : ℕ
max_transcript_item_bytes = 1048576

abbrev pub max_transcript_total_bytes : ℕ
max_transcript_total_bytes = 4194304

pub record TranscriptReconciler : Type 0 where
  pub order : List Text
  pub partials : List (Text × Text)
  pub finals : List (Text × Text)

unfoldable pub default_reconciler : TranscriptReconciler
default_reconciler = record { order = []; partials = []; finals = [] }

unfoldable pub has_forbidden_control : Text → Bool
has_forbidden_control [] = false
has_forbidden_control (c ∷ s) =
    is_control c && not (c == 10 || c == 13 || c == 9) || has_forbidden_control s

abbrev pub text_len : Option Text → ℕ
text_len none = 0
text_len (some s) = byte_len s

unfoldable pub total_bytes : List (Text × Text) → ℕ
total_bytes [] = 0
total_bytes ((k, s) ∷ m) = byte_len s + total_bytes m

unfoldable pub stored_bytes : TranscriptReconciler → ℕ
unfolding total_bytes
stored_bytes r = total_bytes r.partials + total_bytes r.finals

unfoldable pub register : TranscriptReconciler → Text → TranscriptReconciler × Option (Unit {0})
unfolding has_forbidden_control
register r item_id =
    if is_empty item_id || ltb max_item_id_bytes (byte_len item_id) || has_forbidden_control item_id
    then (r, none)
    else if contains item_id r.order
    then (r, some tt)
    else if leb max_transcript_items (length r.order)
    then (r, none)
    else (record r { order = r.order ++ (item_id ∷ []) }, some tt)

abbrev pub or_default : Option Text → Text
or_default none = []
or_default (some s) = s

-- `apply_delta` after the registration.
unfoldable pub extend : TranscriptReconciler → Text → Text → TranscriptReconciler × Option Text
unfolding stored_bytes
extend r item_id delta =
    let partial = or_default (get item_id r.partials) ++ delta in
    if contains_key item_id r.finals
      || ltb (max_transcript_item_bytes - text_len (get item_id r.partials)) (byte_len delta)
      || ltb (max_transcript_total_bytes - stored_bytes r) (byte_len delta)
    then (r, none)
    else (record r { partials = insert item_id partial r.partials }, some partial)

unfoldable pub apply_delta : TranscriptReconciler → Text → Text → TranscriptReconciler × Option Text
unfolding register extend
apply_delta r item_id delta =
    let (r', registered) = register r item_id in
    elim registered [ none ↦ (r', none) | some _ ↦ extend r' item_id delta ]

-- `complete` after the registration.
unfoldable pub finalize : TranscriptReconciler → Text → Text → TranscriptReconciler × Option Text
unfolding stored_bytes
finalize r item_id transcript =
    let replaced_bytes = text_len (get item_id r.partials) + text_len (get item_id r.finals) in
    let retained_bytes = stored_bytes r - replaced_bytes in
    if ltb max_transcript_item_bytes (byte_len transcript)
      || ltb (max_transcript_total_bytes - retained_bytes) (byte_len transcript)
    then (r, none)
    else (
      record r {
        partials = remove item_id r.partials;
        finals = insert item_id transcript r.finals;
      },
      some transcript,
    )

unfoldable pub complete : TranscriptReconciler → Text → Text → TranscriptReconciler × Option Text
unfolding register finalize
complete r item_id transcript =
    let (r', registered) = register r item_id in
    elim registered [ none ↦ (r', none) | some _ ↦ finalize r' item_id transcript ]

abbrev or_else : Option Text → Option Text → Option Text
or_else none o = o
or_else (some s) o = some s

unfoldable pub text_for : TranscriptReconciler → Text → Option Text
text_for r item_id = or_else (get item_id r.finals) (get item_id r.partials)

-- The finals of the items in their order, without the blank ones.
unfoldable pub spoken : List Text → List (Text × Text) → List Text
spoken [] finals = []
spoken (i ∷ order) finals =
    let rest = spoken order finals in
    elim (get i finals) [ none ↦ rest | some s ↦ if is_empty (trim s) then rest else s ∷ rest ]

-- `join(" ")`.
unfoldable pub join : List Text → Text
join [] = []
join (s ∷ []) = s
join (s ∷ (t ∷ l)) = s ++ (codes " " ++ join (t ∷ l))

unfoldable pub final_transcript : TranscriptReconciler → Text
unfolding spoken join
final_transcript r = join (spoken r.order r.finals)
