-- ===== src/Capture/Redact/Passes.antt =====
-- crates/woof-capture/src/redact.rs: `Redactor::redact_restorable`. A regular expression cuts a text
-- into what is between its matches and the matches, with what stands in a match before the capture
-- group, in it and after it; a match without a group has its text in `value`.
use woof.Prelude.{Bool, true, Option, none, some, List, [], ◌∷◌, ◌++◌, if◌then◌else◌}
use woof.Prelude.Text.{Text}
use woof.Capture.Redact.{
  RedactionKind, credential, email, iban, social_security_number, payment_card, card_security_code,
  phone, RedactionSlot, RestorableRedaction, unique_nonce, push_slot,
}
use woof.Capture.Redact.Validate.{
  is_plausible_labeled_secret, is_valid_iban, is_valid_ssn, is_valid_card_number,
}

pub record Captures : Type 0 where
  pub before : Text
  pub value : Text
  pub after : Text

pub data Piece : Type 0 where
  between : Text → Piece
  matched : Captures → Piece

abbrev pub Regex : Type 0
Regex = Text → List Piece

-- Capture group 0.
abbrev pub whole : Captures → Text
whole captures = captures.before ++ (captures.value ++ captures.after)

-- `Regex::replace_all` with a closure that changes a state.
unfoldable pub replace_all {ℓ} :
    {S : Type ℓ} → (Captures → S → Text × S) → List Piece → S → Text × S
replace_all replacer [] state = ([], state)
replace_all replacer (between text ∷ pieces) state =
    let (rest, end) = replace_all replacer pieces state in (text ++ rest, end)
replace_all replacer (matched captures ∷ pieces) state =
    let (replacement, next) = replacer captures state in
    let (rest, end) = replace_all replacer pieces next in (replacement ++ rest, end)

-- The closure of `replace_restorable`.
unfoldable pub replace_restorable :
    RedactionKind → (Text → Bool) → Text → Captures → List RedactionSlot → Text × List RedactionSlot
replace_restorable kind validate nonce captures slots =
    let candidate = whole captures in
    if validate candidate then push_slot slots nonce kind candidate else (candidate, slots)

-- The closure of `replace_group_restorable`.
unfoldable pub replace_group_restorable :
    RedactionKind → (Text → Bool) → Text → Captures → List RedactionSlot → Text × List RedactionSlot
replace_group_restorable kind validate nonce captures slots =
    let (marker, pushed) = push_slot slots nonce kind captures.value in
    if validate captures.value
    then (captures.before ++ (marker ++ captures.after), pushed)
    else (whole captures, slots)

-- The closure for security codes, which writes groups 1 and 2 and the placeholder.
unfoldable pub replace_security_code :
    Text → Captures → List RedactionSlot → Text × List RedactionSlot
replace_security_code nonce captures slots =
    let (marker, pushed) = push_slot slots nonce card_security_code captures.value in
    (captures.before ++ marker, pushed)

-- One call that goes over the text.
pub data Pass : Type 0 where
  whole_match group_match : RedactionKind → Regex → (Text → Bool) → Pass
  security_code : Regex → Pass

abbrev pub regex_of : Pass → Regex
regex_of (whole_match kind regex validate) = regex
regex_of (group_match kind regex validate) = regex
regex_of (security_code regex) = regex

unfoldable pub replacer_of : Pass → Text → Captures → List RedactionSlot → Text × List RedactionSlot
replacer_of (whole_match kind regex validate) = replace_restorable kind validate
replacer_of (group_match kind regex validate) = replace_group_restorable kind validate
replacer_of (security_code regex) = replace_security_code

unfoldable pub run_passes : Text → List Pass → Text → List RedactionSlot → Text × List RedactionSlot
run_passes nonce [] text slots = (text, slots)
run_passes nonce (pass ∷ passes) text slots =
    let (next, pushed) = replace_all (replacer_of pass nonce) (regex_of pass text) slots in
    run_passes nonce passes next pushed

-- The regular expressions of the file.
pub record Patterns : Type 0 where
  pub pem_private_key : Regex
  pub authorization_bearer : Regex
  pub labeled_secret_double_quoted : Regex
  pub labeled_secret_single_quoted : Regex
  pub labeled_secret_unquoted : Regex
  pub provider_token : Regex
  pub jwt : Regex
  pub email_address : Regex
  pub iban_number : Regex
  pub ssn : Regex
  pub card : Regex
  pub cvv : Regex
  pub phone_number : Regex

abbrev pub always : Text → Bool
always candidate = true

-- `redact_credentials_restorable`.
abbrev pub credential_passes : Patterns → List Pass
credential_passes patterns =
    whole_match credential patterns.pem_private_key always
    ∷ group_match credential patterns.authorization_bearer always
    ∷ group_match credential patterns.labeled_secret_double_quoted is_plausible_labeled_secret
    ∷ group_match credential patterns.labeled_secret_single_quoted is_plausible_labeled_secret
    ∷ group_match credential patterns.labeled_secret_unquoted is_plausible_labeled_secret
    ∷ whole_match credential patterns.provider_token always
    ∷ whole_match credential patterns.jwt always
    ∷ []

abbrev pub restorable_passes : Patterns → List Pass
restorable_passes patterns =
    credential_passes patterns
    ++ (whole_match email patterns.email_address always
        ∷ whole_match iban patterns.iban_number is_valid_iban
        ∷ whole_match social_security_number patterns.ssn is_valid_ssn
        ∷ whole_match payment_card patterns.card is_valid_card_number
        ∷ security_code patterns.cvv
        ∷ whole_match phone patterns.phone_number always
        ∷ [])

abbrev pub with_nonce : Patterns → Text → Option Text → Option RestorableRedaction
with_nonce patterns input none = none
with_nonce patterns input (some nonce) =
    let (text, slots) = run_passes nonce (restorable_passes patterns) input [] in
    some (record { text = text; nonce = nonce; slots = slots })

unfoldable pub redact_restorable : Patterns → List Text → Text → Option RestorableRedaction
redact_restorable patterns draws input = with_nonce patterns input (unique_nonce draws input)
