-- ===== src/Mcp/Tools/Snapshots.antt =====
-- apps/woof-mcp/src/lib.rs: the ids of `get_snapshots`.
use woof.Prelude.{
  ℕ, ◌+◌, ◌≤◌, ◌≡◌, refl, false, not, ◌||◌, Option, none, some, List, [], ◌∷◌, ◌++◌, ltb, length,
  arith,
}
use woof.Prelude.Text.{Text, byte_len, byte_len-append, len_utf8, is_control}
use woof.Mcp.Tools.{
  max_snapshot_ids, max_snapshot_id_bytes, max_snapshot_ids_query_bytes, has_control,
  valid_string_argument, has_comma, separator, join, push_snapshot_id, push_ids, snapshot_ids,
  BridgeResult,
}
use woof.Mcp.Tools.Checked.{IsParameter, Holds, if-Holds}

has_control-append : (s t : Text) → has_control (s ++ t) ≡ (has_control s || has_control t)
unfolding has_control
has_control-append [] t = refl
has_control-append (c ∷ s) t = ground (arith, has_control-append s t)

-- One more id.
byte_len-join :
    (ids : List Text) (id : Text)
    → byte_len (join (ids ++ (id ∷ []))) ≡ byte_len (join ids) + byte_len id + separator ids
unfolding join byte_len len_utf8
byte_len-join [] id = omega arith
byte_len-join (s ∷ []) id = omega (arith, byte_len-append s (44 ∷ id))
byte_len-join (s ∷ t ∷ ids) id = omega (
  arith,
  byte_len-append s (44 ∷ join ((t ∷ ids) ++ (id ∷ []))),
  byte_len-append s (44 ∷ join (t ∷ ids)),
  byte_len-join (t ∷ ids) id,
)

has_control-join :
    (ids : List Text) (id : Text)
    → has_control (join ids) ≡ false
    → has_control id ≡ false
    → has_control (join (ids ++ (id ∷ []))) ≡ false
unfolding join has_control is_control
has_control-join [] id h k = k
has_control-join (s ∷ []) id h k = ground (arith, h, k, has_control-append s (44 ∷ id))
has_control-join (s ∷ t ∷ ids) id h k = ground (
  arith,
  h,
  has_control-append s (44 ∷ join ((t ∷ ids) ++ (id ∷ []))),
  has_control-append s (44 ∷ join (t ∷ ids)),
  has_control-join (t ∷ ids) id,
  k,
)

-- The joined length is that of the ids so far.
abbrev IsJoined : ℕ → List Text → Type 0
IsJoined n ids = (n ≡ byte_len (join ids)) × IsParameter (join ids)

valid-control :
    (id : Text)
    → (not (valid_string_argument id max_snapshot_id_bytes) || has_comma id) ≡ false
    → has_control id ≡ false
unfolding valid_string_argument
valid-control id h = ground (arith, h)

within : (n : ℕ) → ltb max_snapshot_ids_query_bytes n ≡ false → n ≤ max_snapshot_ids_query_bytes
within n h = ground (arith, h)

push_snapshot_id-Holds :
    (later : ℕ → List Text → BridgeResult (List Text)) (n : ℕ) (ids : List Text) (o : Option Text)
    → IsJoined n ids
    → ((m : ℕ) (l : List Text) → IsJoined m l → Holds (λ l. IsParameter (join l)) (later m l))
    → Holds (λ l. IsParameter (join l)) (push_snapshot_id later n ids o)
push_snapshot_id-Holds later n ids none h k = tt
push_snapshot_id-Holds later n ids (some id) (e, (p, q)) k =
    if-Holds (λ l. IsParameter (join l)) _ _ _ (λ f. tt)
      (λ valid.
        if-Holds (λ l. IsParameter (join l))
          (ltb max_snapshot_ids_query_bytes (n + byte_len id + separator ids)) _ _ (λ f. tt)
          (λ fits. k (n + byte_len id + separator ids) (ids ++ (id ∷ [])) (
            omega (arith, e, byte_len-join ids id),
            (
              omega (arith, e, byte_len-join ids id, within (n + byte_len id + separator ids) fits),
              has_control-join ids id q (valid-control id valid),
            ),
          )))

module _ {V : Type 0} (as_str : V → Option Text) where
  push_ids-Holds :
      (values : List V) (n : ℕ) (ids : List Text)
      → IsJoined n ids
      → Holds (λ l. IsParameter (join l)) (push_ids as_str values n ids)
  unfolding push_ids
  push_ids-Holds [] n ids h = h.1
  push_ids-Holds (v ∷ values) n ids h =
      push_snapshot_id-Holds (push_ids as_str values) n ids (as_str v) h (push_ids-Holds values)

  pub snapshot_ids-Holds :
      (values : List V) → Holds (λ l. IsParameter (join l)) (snapshot_ids as_str values)
  unfolding join byte_len has_control
  snapshot_ids-Holds values =
      if-Holds (λ l. IsParameter (join l)) (ltb max_snapshot_ids (length values)) _ _ (λ e. tt)
        (λ e. push_ids-Holds values 0 [] (refl, (omega arith, refl)))
