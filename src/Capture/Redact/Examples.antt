-- ===== src/Capture/Redact/Examples.antt =====
-- Runs of crates/woof-capture/src/redact.rs, with patterns that find one thing each.
use woof.Prelude.{
  List, ◌≡◌, refl, ◌↔◌, ◌⊎◌, ◌&&◌, true, false, some, [], ◌∷◌, ◌++◌, if◌then◌else◌, length, drop,
  arith,
}
use woof.Prelude.Text.{
  Text, codes, text_eq, byte_len, len_utf8, trim, trim_start, trim_end, is_whitespace,
}
use woof.Prelude.Decimal.{decimal_from, decimal}
use woof.Capture.Redact.{
  replace_first, refused, unexpected_placeholder, email, RestorableRedaction, restored, refused,
  missing_placeholder, starts_with, contains_text, count_from, marker_prefix, marker_text,
  marker_name, restore_slots, restore, unique_nonce, push_slot,
}
use woof.Capture.Redact.Arranged.{
  Segment, placeholder, chars, render, expand, occurrences, IsNumbered,
}
use woof.Capture.Redact.Restore.{AreSlots, outcome, restore-outcome}
use woof.Capture.Redact.Passes.{
  between, matched, Regex, replace_all, replace_restorable, replace_group_restorable,
  replace_security_code, replacer_of, run_passes, Patterns, restorable_passes, redact_restorable,
}
use woof.Capture.Redact.Pieces.{Cutting, kept, cut, redacted, next_number}
use woof.Capture.Redact.RoundTrip.{IsSpared, restore-redact_restorable}
use woof.Capture.Redact.Validate.{
  digits_of, luhn_sum, is_valid_card_number, compacted, iban_remainder, is_valid_iban, only_digits,
  is_valid_ssn, is_plausible_labeled_secret,
}
use woof.Capture.Redact.Luhn.{IsZeroAndNine, card_detects}
use woof.Capture.Redact.Iban.{IsIbanShape, LeavesOne, is_valid_iban_iff}

abbrev nothing : Regex
nothing text = between text ∷ []

-- The label, and all that follows it.
find_after : Text → Regex
find_after label [] = []
find_after label (c ∷ s) =
    let rest = find_after label s in
    if starts_with label (c ∷ s)
    then matched (record { before = label; value = drop (length label) (c ∷ s); after = [] }) ∷ []
    else between (c ∷ []) ∷ rest

find_address : Regex
find_address text =
    if text_eq text (codes "jane@example.com")
    then matched (record { before = []; value = text; after = [] }) ∷ []
    else between text ∷ []

abbrev patterns : Regex → Regex → Regex → Patterns
patterns bearer unquoted address = record {
  pem_private_key = nothing;
  authorization_bearer = bearer;
  labeled_secret_double_quoted = nothing;
  labeled_secret_single_quoted = nothing;
  labeled_secret_unquoted = unquoted;
  provider_token = nothing;
  jwt = nothing;
  email_address = address;
  iban_number = nothing;
  ssn = nothing;
  card = nothing;
  cvv = nothing;
  phone_number = nothing;
}

abbrev address : Text
address = codes "jane@example.com"

abbrev nonce : Text
nonce = codes "0f"

abbrev one_slot : RestorableRedaction
one_slot = record {
  text = codes "[WOOF_REDACTED_0f_EMAIL_0]";
  nonce = nonce;
  slots = record { marker = codes "[WOOF_REDACTED_0f_EMAIL_0]"; value = address } ∷ [];
}

redacts :
    redact_restorable (patterns nothing nothing find_address) (nonce ∷ []) address ≡ some one_slot
unfolding redact_restorable unique_nonce contains_text starts_with marker_prefix run_passes
    replace_all replacer_of replace_restorable push_slot marker_text marker_name decimal
    decimal_from find_address text_eq replace_group_restorable replace_security_code
redacts = refl

-- A secret takes the rest of its line, and with it the placeholder of a token that was found before:
-- the text that comes back unchanged is refused.
abbrev line : Text
line = codes "password=hunter2, Authorization: Bearer abcdefghijklmnop"

abbrev nested : RestorableRedaction
nested = record {
  text = codes "password=[WOOF_REDACTED_0f_CREDENTIAL_1]";
  nonce = nonce;
  slots =
      record { marker = codes "[WOOF_REDACTED_0f_CREDENTIAL_0]"; value = codes "abcdefghijklmnop" }
      ∷ record {
        marker = codes "[WOOF_REDACTED_0f_CREDENTIAL_1]";
        value = codes "hunter2, Authorization: Bearer [WOOF_REDACTED_0f_CREDENTIAL_0]";
      }
      ∷ [];
}

nests :
    redact_restorable
      (patterns
        (find_after (codes "Authorization: Bearer "))
        (find_after (codes "password="))
        nothing)
      (nonce ∷ [])
      line
    ≡ some nested
unfolding redact_restorable unique_nonce contains_text starts_with marker_prefix run_passes
    replace_all replacer_of replace_restorable push_slot marker_text marker_name decimal
    decimal_from replace_group_restorable replace_security_code find_after
    is_plausible_labeled_secret trim trim_start trim_end is_whitespace text_eq
nests = refl

nested_is_refused : restore nested nested.text ≡ refused missing_placeholder
unfolding restore restore_slots count_from starts_with
nested_is_refused = refl

restore-redact_restorable_example :
    (redaction : RestorableRedaction) × (redact_restorable
        (patterns nothing nothing find_address)
        (nonce ∷ [])
        address
      ≡ some redaction)
    × (restore redaction redaction.text ≡ restored address)
unfolding unique_nonce contains_text starts_with marker_prefix IsSpared redacted next_number render
    find_address text_eq marker_text marker_name decimal decimal_from
restore-redact_restorable_example =
    restore-redact_restorable (patterns nothing nothing find_address) (nonce ∷ []) address nonce
      refl (ground arith, ground arith) spared
  where
    one : Cutting
    one = kept (placeholder email 0 address ∷ [])

    all : Cutting
    all = kept (chars address)

    found : Cutting
    found = cut [] address []

    spared :
        IsSpared nonce (restorable_passes (patterns nothing nothing find_address)) (chars address) 0
    spared = (
      all ∷ [],
      refl,
      refl,
      tt,
      (
        all ∷ [],
        refl,
        refl,
        tt,
        (
          all ∷ [],
          refl,
          refl,
          tt,
          (
            all ∷ [],
            refl,
            refl,
            tt,
            (
              all ∷ [],
              refl,
              refl,
              tt,
              (
                all ∷ [],
                refl,
                refl,
                tt,
                (
                  all ∷ [],
                  refl,
                  refl,
                  tt,
                  (
                    found ∷ [],
                    refl,
                    refl,
                    ((tt, tt), tt),
                    (
                      one ∷ [],
                      refl,
                      refl,
                      tt,
                      (
                        one ∷ [],
                        refl,
                        refl,
                        tt,
                        (
                          one ∷ [],
                          refl,
                          refl,
                          tt,
                          (one ∷ [], refl, refl, tt, (one ∷ [], refl, refl, tt, tt)),
                        ),
                      ),
                    ),
                  ),
                ),
              ),
            ),
          ),
        ),
      ),
    )

-- The service moved the placeholder into another sentence, and made one up.
abbrev made_up : List Segment
made_up =
    chars (codes "Ask ")
    ++ (placeholder email 0 address ∷ placeholder email 7 [] ∷ chars (codes "!"))

reports_made_up : restore one_slot (render nonce made_up) ≡ refused unexpected_placeholder
unfolding restore render restore_slots contains_text count_from replace_first starts_with
    marker_prefix marker_text marker_name decimal decimal_from
reports_made_up = refl

restore-outcome_example : restore one_slot (render nonce made_up) ≡ outcome 0 one_slot.slots made_up
unfolding contains_text starts_with marker_prefix marker_text marker_name decimal decimal_from
    AreSlots IsNumbered expand occurrences
restore-outcome_example =
    restore-outcome one_slot made_up (ground arith, ground arith) refl
      ((email, refl, ((λ e. (refl, refl)), (λ e. absurd (ground (arith, e)), tt))), tt)

-- The number of the tests, and one with another digit.
card_detects_example :
    ((is_valid_card_number (codes "411111111111111" ++ (b'1' ∷ []))
        && is_valid_card_number (codes "411111111111111" ++ (b'2' ∷ [])))
      ≡ false)
    × (IsZeroAndNine b'1' b'2'
        ⊎ ((is_valid_card_number (codes "411111111111111" ++ (b'1' ∷ b'2' ∷ []))
              && is_valid_card_number (codes "411111111111111" ++ (b'2' ∷ b'1' ∷ [])))
            ≡ false))
card_detects_example =
    card_detects (codes "411111111111111") [] b'1' b'2' refl refl (λ e. absurd (omega (arith, e)))

accepts_card : is_valid_card_number (codes "4111 1111 1111 1111") ≡ true
unfolding is_valid_card_number digits_of luhn_sum
accepts_card = refl

abbrev account : Text
account = codes "DE89 3704 0044 0532 0130 00"

accepts_iban : is_valid_iban account ≡ true
unfolding is_valid_iban compacted iban_remainder byte_len len_utf8
accepts_iban = refl

is_valid_iban_iff_example :
    (is_valid_iban account ≡ true)
    ↔ (IsIbanShape (compacted account) × LeavesOne (compacted account))
is_valid_iban_iff_example = is_valid_iban_iff account

refuses_ssn : is_valid_ssn (codes "666-45-6789") ≡ false
unfolding is_valid_ssn only_digits text_eq
refuses_ssn = refl
