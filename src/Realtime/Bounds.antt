-- ===== src/Realtime/Bounds.antt =====
-- crates/woof-llm/src/realtime.rs: the bounds of the reconciler, and what its items come to.
use woof.Prelude.{
  ◌+◌, ◌≤◌, Bool, true, not, ◌&&◌, ◌||◌, Option, none, some, List, [], ◌∷◌, ◌++◌, ◌≡◌, refl, arith,
  leb, length, length-append, is_some,
}
use woof.Prelude.Text.{Text, byte_len, byte_len-append, text_eq_iff, text_eq_refl}
use woof.Prelude.Table.{
  contains, contains-append, contains_key, get, insert, get-insert, get-remove, remove,
}
use woof.Realtime.Reconciler.{
  TranscriptReconciler, default_reconciler, max_transcript_items, max_transcript_item_bytes,
  max_transcript_total_bytes, text_len, or_default, total_bytes, stored_bytes, register, extend,
  apply_delta, finalize, complete,
}

total_bytes-insert :
    (k s : Text) (m : List (Text × Text))
    → total_bytes (insert k s m) + text_len (get k m) ≡ total_bytes m + byte_len s
unfolding total_bytes insert get
total_bytes-insert k s [] = omega arith
total_bytes-insert k s ((j, t) ∷ m) = ground (arith, total_bytes-insert k s m)

total_bytes-remove :
    (k : Text) (m : List (Text × Text))
    → total_bytes (remove k m) + text_len (get k m) ≤ total_bytes m
unfolding total_bytes remove get
total_bytes-remove k [] = omega arith
total_bytes-remove k ((j, t) ∷ m) = ground (arith, total_bytes-remove k m)

pub data Change : Type 0 where
  registers : Text → Change
  extends completes : Text → Text → Change

unfoldable pub change : TranscriptReconciler → Change → TranscriptReconciler
change r (registers i) = (register r i).0
change r (extends i d) = (apply_delta r i d).0
change r (completes i t) = (complete r i t).0

unfoldable pub changes : TranscriptReconciler → List Change → TranscriptReconciler
changes r [] = r
changes r (c ∷ cs) = changes (change r c) cs

abbrev bounded : TranscriptReconciler → Bool
bounded r =
    leb (stored_bytes r) max_transcript_total_bytes && leb (length r.order) max_transcript_items

register-bounded :
    (r : TranscriptReconciler) (i : Text) → bounded r ≡ true → bounded (register r i).0 ≡ true
unfolding register stored_bytes
register-bounded r i h = ground (arith, length-append r.order (i ∷ []))

byte_len-or_default :
    (o : Option Text) (d : Text) → byte_len (or_default o ++ d) ≡ text_len o + byte_len d
unfolding byte_len
byte_len-or_default none d = omega arith
byte_len-or_default (some s) d = byte_len-append s d

extend-bounded :
    (r : TranscriptReconciler) (i d : Text) → bounded r ≡ true → bounded (extend r i d).0 ≡ true
unfolding extend stored_bytes
extend-bounded r i d h = ground (
  arith,
  byte_len-or_default (get i r.partials) d,
  total_bytes-insert i (or_default (get i r.partials) ++ d) r.partials,
)

finalize-bounded :
    (r : TranscriptReconciler) (i t : Text) → bounded r ≡ true → bounded (finalize r i t).0 ≡ true
unfolding finalize stored_bytes
finalize-bounded r i t h =
    ground (arith, total_bytes-remove i r.partials, total_bytes-insert i t r.finals)

change-bounded :
    (r : TranscriptReconciler) (c : Change) → bounded r ≡ true → bounded (change r c) ≡ true
unfolding change apply_delta complete
change-bounded r (registers i) h = register-bounded r i h
change-bounded r (extends i d) h =
    ground (arith, register-bounded r i h, extend-bounded (register r i).0 i d)
change-bounded r (completes i t) h =
    ground (arith, register-bounded r i h, finalize-bounded (register r i).0 i t)

-- One item: it has at most the allowed bytes, and it is registered.
abbrev item_good : Text → TranscriptReconciler → Bool
item_good j r =
    leb (text_len (get j r.partials)) max_transcript_item_bytes
    && leb (text_len (get j r.finals)) max_transcript_item_bytes
    && (contains j r.order || not (contains_key j r.partials) && not (contains_key j r.finals))

register-item :
    (r : TranscriptReconciler) (i j : Text)
    → item_good j r ≡ true
    → (item_good j (register r i).0 ≡ true)
      × (is_some (register r i).1 ≡ true → contains i (register r i).0.order ≡ true)
unfolding register
register-item r i j h =
    ground (arith, contains-append j i r.order, contains-append i i r.order, text_eq_refl i)

extend-item :
    (r : TranscriptReconciler) (i j d : Text)
    → contains i r.order ≡ true
    → item_good j r ≡ true
    → item_good j (extend r i d).0 ≡ true
unfolding extend
extend-item r i j d c h = ground (
  arith,
  byte_len-or_default (get i r.partials) d,
  get-insert i j (or_default (get i r.partials) ++ d) r.partials,
  text_eq_iff i j,
)

finalize-item :
    (r : TranscriptReconciler) (i j t : Text)
    → contains i r.order ≡ true
    → item_good j r ≡ true
    → item_good j (finalize r i t).0 ≡ true
unfolding finalize
finalize-item r i j t c h =
    ground (arith, get-remove i j r.partials, get-insert i j t r.finals, text_eq_iff i j)

change-item :
    (r : TranscriptReconciler) (c : Change) (j : Text)
    → item_good j r ≡ true
    → item_good j (change r c) ≡ true
unfolding change apply_delta complete
change-item r (registers i) j h = (register-item r i j h).0
change-item r (extends i d) j h =
    ground (arith, register-item r i j h, extend-item (register r i).0 i j d)
change-item r (completes i t) j h =
    ground (arith, register-item r i j h, finalize-item (register r i).0 i j t)

changes-good :
    (r : TranscriptReconciler) (cs : List Change) (j : Text)
    → bounded r ≡ true
    → item_good j r ≡ true
    → (bounded (changes r cs) ≡ true) × (item_good j (changes r cs) ≡ true)
unfolding changes
changes-good r [] j b h = (b, h)
changes-good r (c ∷ cs) j b h =
    changes-good (change r c) cs j (change-bounded r c b) (change-item r c j h)

-- After any registrations, revisions and completions, accepted or refused, the texts take at most
-- 4 MiB together, there are at most 128 items, and each item has at most 1 MiB of each kind and is
-- in the order if it has a text.
pub changes_bounded :
    (cs : List Change) (j : Text)
    → let r = changes default_reconciler cs in
      (stored_bytes r ≤ max_transcript_total_bytes)
      × (length r.order ≤ max_transcript_items)
      × (text_len (get j r.partials) ≤ max_transcript_item_bytes)
      × (text_len (get j r.finals) ≤ max_transcript_item_bytes)
      × (contains j r.order || not (contains_key j r.partials) && not (contains_key j r.finals)
          ≡ true)
changes_bounded cs j =
    let good =
      changes-good default_reconciler cs j (unfold default_reconciler stored_bytes in refl)
        (unfold default_reconciler get contains in refl) in
    ground arith
