-- ===== src/Capture/Redact.antt =====
-- crates/woof-capture/src/redact.rs: `Redactor`, the placeholders that can be restored, and
-- `RestorableRedaction::restore`. The regex crate is a parameter: a `Regex` cuts a text into the
-- pieces that `replace_all` sees. The draws of `Uuid::new_v4` are a parameter too.
pub mod Validate
pub mod Luhn
pub mod Iban
pub mod Marker
pub mod Arranged
pub mod Matching
pub mod Restore
pub mod Passes
pub mod Cut
pub mod Pieces
pub mod RoundTrip
mod Examples
use woof.Prelude.{
  ℕ, zero, suc, ◌+◌, ◌-◌, ◌/◌, ◌%◌, Bool, true, false, ◌||◌, Option, none, some, List, [], ◌∷◌,
  ◌++◌, ltb, ◌==◌, if◌then◌else◌, length, drop,
}
use woof.Prelude.Decimal.{decimal}
use woof.Prelude.Text.{Text, codes}

pub data RedactionKind : Type 0 where
  credential email iban social_security_number : RedactionKind
  payment_card card_security_code phone : RedactionKind

unfoldable pub marker_name : RedactionKind → Text
marker_name credential = codes "CREDENTIAL"
marker_name email = codes "EMAIL"
marker_name iban = codes "IBAN"
marker_name social_security_number = codes "SSN"
marker_name payment_card = codes "CARD"
marker_name card_security_code = codes "CVV"
marker_name phone = codes "PHONE"

pub record RedactionSlot : Type 0 where
  pub marker : Text
  pub value : Text

pub record RestorableRedaction : Type 0 where
  pub text : Text
  pub nonce : Text
  pub slots : List RedactionSlot

pub data RedactionRestoreError : Type 0 where
  missing_placeholder duplicated_placeholder unexpected_placeholder : RedactionRestoreError

-- The result of `restore`.
pub data Restored : Type 0 where
  restored : Text → Restored
  refused : RedactionRestoreError → Restored

-- `str::starts_with`.
unfoldable pub starts_with : Text → Text → Bool
starts_with [] s = true
starts_with (c ∷ m) [] = false
starts_with (c ∷ m) (d ∷ s) = if c == d then starts_with m s else false

-- `str::contains`, for a pattern that is not empty.
unfoldable pub contains_text : Text → Text → Bool
contains_text p [] = false
contains_text p (c ∷ s) = starts_with p (c ∷ s) || contains_text p s

-- `match_indices(m).count()`: matches do not overlap, so `skip` characters of the last one are left.
unfoldable pub count_from : ℕ → Text → Text → ℕ
count_from skip m [] = 0
count_from (suc skip) m (c ∷ s) = count_from skip m s
count_from zero m (c ∷ s) =
    let here = count_from (length m - 1) m s in
    let later = count_from zero m s in if starts_with m (c ∷ s) then suc here else later

-- `replacen(m, v, 1)`.
unfoldable pub replace_first : Text → Text → Text → Text
replace_first m v [] = []
replace_first m v (c ∷ s) =
    let later = replace_first m v s in
    if starts_with m (c ∷ s) then v ++ drop (length m) (c ∷ s) else c ∷ later

-- `[WOOF_REDACTED_{nonce}_`
unfoldable pub marker_prefix : Text → Text
marker_prefix nonce = codes "[WOOF_REDACTED_" ++ (nonce ++ codes "_")

-- `[WOOF_REDACTED_{nonce}_{name}_{number}]`
unfoldable pub marker_text : Text → RedactionKind → ℕ → Text
marker_text nonce kind number =
    marker_prefix nonce ++ (marker_name kind ++ (codes "_" ++ (decimal number ++ codes "]")))

-- The loop of `restore`, and its end.
unfoldable pub restore_slots : Text → List RedactionSlot → Text → Restored
restore_slots prefix [] text =
    if contains_text prefix text then refused unexpected_placeholder else restored text
restore_slots prefix (slot ∷ slots) text =
    let rest = restore_slots prefix slots (replace_first slot.marker slot.value text) in
    if count_from 0 slot.marker text == 0
    then refused missing_placeholder
    else if count_from 0 slot.marker text == 1
    then rest
    else refused duplicated_placeholder

unfoldable pub restore : RestorableRedaction → Text → Restored
restore redaction output = restore_slots (marker_prefix redaction.nonce) redaction.slots output

-- `unique_nonce`, on what the calls of `Uuid::new_v4` draw; `none` where the loop still runs.
unfoldable pub unique_nonce : List Text → Text → Option Text
unique_nonce [] input = none
unique_nonce (nonce ∷ draws) input =
    let later = unique_nonce draws input in
    if contains_text (marker_prefix nonce) input then later else some nonce

unfoldable pub push_slot :
    List RedactionSlot → Text → RedactionKind → Text → Text × List RedactionSlot
push_slot slots nonce kind value =
    let marker = marker_text nonce kind (length slots) in
    (marker, slots ++ (record { marker = marker; value = value } ∷ []))
