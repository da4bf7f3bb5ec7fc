-- ===== src/Inline/Clipboard.antt =====
-- crates/woof-inline/src/clipboard.rs: temporary text on the clipboard. The system's clipboard is
-- the trait `Clipboard`, on a world of any type W; an action that panics is not modelled.
pub mod Restoration
use woof.Prelude.{
  ℕ, ◌+◌, Bool, true, false, not, ◌&&◌, ◌||◌, Option, none, some, List, [], ◌∷◌, ltb, if◌then◌else◌,
  length,
}
use woof.Prelude.Text.{Text, byte_len}

pub data InlineError : Type 0 where
  unsupported_platform permission_denied secure_input protected_content : InlineError
  no_focused_element released text_unavailable target_focus_changed : InlineError
  target_content_changed not_writable accessibility invalid_range : InlineError
  clipboard_snapshot clipboard_limit clipboard_changed clipboard_write : InlineError
  clipboard_restore input_injection delivery_unconfirmed event_monitor : InlineError
  recording_timeout unsupported_recording_key : InlineError

pub data Result (A : Type 0) : Type 0 where
  ok : A → Result A
  err : InlineError → Result A

abbrev pub max_clipboard_items : ℕ
max_clipboard_items = 64

abbrev pub max_clipboard_types_per_item : ℕ
max_clipboard_types_per_item = 128

abbrev pub max_clipboard_type_bytes : ℕ
max_clipboard_type_bytes = 1024

abbrev pub max_clipboard_total_bytes : ℕ
max_clipboard_total_bytes = 33554432

pub record ClipboardRepresentation : Type 0 where
  pub type_identifier : Text
  pub bytes : List ℕ

pub record ClipboardItem : Type 0 where
  pub representations : List ClipboardRepresentation

pub record ClipboardSnapshot : Type 0 where
  pub items : List ClipboardItem

-- The loop over one item's representations: the new total, or `none` past a limit. An addition that
-- would overflow a `usize` is past the limit already.
unfoldable pub count_representations : List ClipboardRepresentation → ℕ → Option ℕ
count_representations [] total = some total
count_representations (r ∷ rs) total =
    let next = total + byte_len r.type_identifier + length r.bytes in
    let rest = count_representations rs next in
    if ltb max_clipboard_type_bytes (byte_len r.type_identifier)
      || ltb max_clipboard_total_bytes next
    then none
    else rest

unfoldable pub count_items : List ClipboardItem → ℕ → Option ℕ
unfolding count_representations
count_items [] total = some total
count_items (item ∷ items) total =
    if ltb max_clipboard_types_per_item (length item.representations)
    then none
    else elim (count_representations item.representations total) [
      | none ↦ none
      | some next ↦ count_items items next
    ]

unfoldable pub within_limits : ClipboardSnapshot → Bool
unfolding count_items
within_limits s =
    if ltb max_clipboard_items (length s.items)
    then false
    else elim (count_items s.items 0) [ none ↦ false | some total ↦ true ]

-- The trait. A revision is passed by reference: a call gives the new one back.
pub record Clipboard (W : Type 0) : Type 0 where
  pub snapshot : W → W × Result (ClipboardSnapshot × ℕ)
  pub set_plain_text : Text → ℕ → W → W × ℕ × Result (Unit {0})
  pub ensure_revision : ℕ → W → W × Result (Unit {0})
  pub restore : ClipboardSnapshot → ℕ → W → W × ℕ × Result (Unit {0})

-- `ClipboardRestoration`, with the world that its clipboard is a part of.
pub record ClipboardRestoration (W : Type 0) : Type 0 where
  pub world : W
  pub snapshot : Option ClipboardSnapshot
  pub revision : ℕ

abbrev pub guarding : {W : Type 0} → ClipboardSnapshot → ℕ → W → ClipboardRestoration W
guarding s revision w = record { world = w; snapshot = some s; revision = revision }

abbrev pub after_write_error : InlineError → Result (Unit {0}) → InlineError
after_write_error write_error (ok _) = write_error
after_write_error write_error (err clipboard_changed) = clipboard_changed
after_write_error write_error (err _) = clipboard_restore

abbrev pub after_action : {T : Type 0} → Result T → Result (Unit {0}) → Result T
after_action result (err clipboard_changed) = err clipboard_changed
after_action result (err _) = err clipboard_restore
after_action result (ok _) = result

module _ {W : Type 0} (c : Clipboard W) where
  unfoldable pub restore : ClipboardRestoration W → ClipboardRestoration W × Result (Unit {0})
  restore g = elim g.snapshot [
    | none ↦ (g, ok tt)
    | some s ↦
        let (w, revision, result) = c.restore s g.revision g.world in
        (
          record {
            world = w;
            snapshot = elim result [ ok _ ↦ none | err e ↦ some s ];
            revision = revision;
          },
          result,
        )
  ]

  -- `drop`, after which the world is left.
  unfoldable pub dropped : ClipboardRestoration W → W
  unfolding restore
  dropped g = (restore g).0.world

  -- `with_temporary_text` from the write on, with a restoration that holds the snapshot.
  unfoldable pub with_guard :
      {T : Type 0} → Text → (W → W × Result T) → ClipboardSnapshot → ℕ → W → W × Result T
  unfolding restore dropped
  with_guard value action s revision w =
      let (w', revision', written) = c.set_plain_text value revision w in
      let guard = guarding s revision' in
      elim written [
        | err e ↦
            let (g, restored) = restore (guard w') in
            (dropped g, err (after_write_error e restored))
        | ok _ ↦
            let (w'', same) = c.ensure_revision revision' w' in
            elim same [
              | err e ↦ (dropped (guard w''), err e)
              | ok _ ↦
                  let (w3, result) = action w'' in
                  let (g, restored) = restore (guard w3) in
                  (dropped g, after_action result restored)
            ]
      ]

  unfoldable pub with_temporary_text : {T : Type 0} → Text → (W → W × Result T) → W → W × Result T
  unfolding with_guard within_limits
  with_temporary_text value action w =
      let (w', taken) = c.snapshot w in
      elim taken [
        | err e ↦ (w', err e)
        | ok (s, revision) ↦
            if not (within_limits s)
            then (w', err clipboard_limit)
            else with_guard value action s revision w'
      ]
