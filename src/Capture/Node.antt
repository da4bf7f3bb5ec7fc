-- ===== src/Capture/Node.antt =====
-- crates/woof-capture/src/model.rs: the Accessibility tree, and what is read from it for a snapshot.
-- The frame of an element is left out; nothing here reads it.
pub mod VisibleText
use woof.Prelude.{
  ℕ, ◌+◌, ◌-◌, Bool, true, false, not, ◌&&◌, ◌||◌, Option, none, some, List, [], ◌∷◌, ◌++◌, leb,
  ltb, ◌==◌, if◌then◌else◌,
}
use woof.Prelude.Text.{Text, codes, byte_len, is_empty, is_whitespace, text_eq, trim}

-- The fields of one element, without its children.
pub record Element : Type 0 where
  pub role : Text
  pub subrole : Option Text
  pub title : Option Text
  pub value : Option Text
  pub description : Option Text
  pub placeholder : Option Text
  pub identifier : Option Text
  pub url : Option Text
  pub focused : Bool
  pub protected : Bool

mutual
  pub data AccessibilityNode : Type 0 where
    node : Element → Children → AccessibilityNode

  pub data Children : Type 0 where
    nil : Children
    child : AccessibilityNode → Children → Children

-- `char::to_ascii_lowercase`, on each character.
unfoldable pub to_ascii_lowercase : Text → Text
to_ascii_lowercase [] = []
to_ascii_lowercase (c ∷ s) = (if leb b'A' c && leb c b'Z' then c + 32 else c) ∷ to_ascii_lowercase s

unfoldable pub starts_with : Text → Text → Bool
starts_with s [] = true
starts_with [] (p ∷ pattern) = false
starts_with (c ∷ s) (p ∷ pattern) = c == p && starts_with s pattern

-- `str::contains`.
unfoldable pub contains_text : Text → Text → Bool
unfolding starts_with
contains_text [] pattern = starts_with [] pattern
contains_text (c ∷ s) pattern = starts_with (c ∷ s) pattern || contains_text s pattern

abbrev pub or_empty : Option Text → Text
or_empty none = []
or_empty (some s) = s

unfoldable pub is_password_role : Text → Option Text → Bool
unfolding to_ascii_lowercase contains_text
is_password_role role subrole =
    let combined = to_ascii_lowercase (role ++ (codes " " ++ or_empty subrole)) in
    contains_text combined (codes "securetextfield")
    || contains_text combined (codes "password")
    || contains_text combined (codes "secure text")

-- `node.protected || is_password_role(...)`.
abbrev pub is_hidden : Element → Bool
is_hidden e = e.protected || is_password_role e.role e.subrole

unfoldable mutual
  pub has_protected_content : AccessibilityNode → Bool
  has_protected_content (node e cs) = is_hidden e || any_protected cs

  pub any_protected : Children → Bool
  any_protected nil = false
  any_protected (child n cs) = has_protected_content n || any_protected cs

abbrev label : Element → Text
label e = elim e.title [
  | none ↦ e.role
  | some title ↦ if not (is_empty (trim title)) then title else e.role
]

-- The first of the two that is there.
abbrev or_else {ℓ} : {A : Type ℓ} → Option A → Option A → Option A
or_else none o = o
or_else (some a) o = some a

mutual
  find_focused : AccessibilityNode → List Text → Option (List Text)
  find_focused (node e cs) path =
      let here = path ++ (label e ∷ []) in
      let below = find_focused_among cs here in if e.focused then some here else below

  find_focused_among : Children → List Text → Option (List Text)
  find_focused_among nil path = none
  find_focused_among (child n cs) path = or_else (find_focused n path) (find_focused_among cs path)

unfoldable pub focused_breadcrumbs : AccessibilityNode → List Text
unfolding find_focused find_focused_among
focused_breadcrumbs n = elim (find_focused n []) [ none ↦ [] | some path ↦ path ]

unfoldable mutual
  pub focused_role : AccessibilityNode → Option Text
  focused_role (node e cs) =
      let below = focused_role_among cs in
      if e.focused then if not (is_empty (trim e.role)) then some (trim e.role) else none else below

  pub focused_role_among : Children → Option Text
  focused_role_among nil = none
  focused_role_among (child n cs) = or_else (focused_role n) (focused_role_among cs)

-- `str::split_whitespace`; `current` is the word that is being read.
split_from : Text → Text → List Text
split_from [] current = if is_empty current then [] else current ∷ []
split_from (c ∷ s) current =
    let next = split_from s [] in
    let same = split_from s (current ++ (c ∷ [])) in
    if is_whitespace c then if is_empty current then next else current ∷ next else same

abbrev split_whitespace : Text → List Text
split_whitespace s = split_from s []

abbrev separator_bytes : Text → ℕ
separator_bytes s = if is_empty s then 0 else 1

-- The words joined by single spaces, or `none` if that takes more bytes than allowed.
join_bounded : Text → List Text → ℕ → Option Text
join_bounded normalized [] maximum_bytes = some normalized
join_bounded normalized (word ∷ words) maximum_bytes =
    let joined =
      join_bounded (if is_empty normalized then word else normalized ++ (codes " " ++ word)) words
        maximum_bytes in
    if ltb maximum_bytes (byte_len word + separator_bytes normalized + byte_len normalized)
    then none
    else joined

unfoldable pub normalize_bounded : Text → ℕ → Option Text
unfolding split_from join_bounded
normalize_bounded value maximum_bytes = join_bounded [] (split_whitespace value) maximum_bytes

-- The text collected so far, and the field that was added last.
pub record Output : Type 0 where
  pub text : Text
  pub previous : Option Text

abbrev is_previous : Option Text → Text → Bool
is_previous none s = false
is_previous (some t) s = text_eq t s

-- Adds a normalised field: `none` if it does not fit, where the visit of the element ends.
add_field : Output → Text → ℕ → Option Output
add_field out normalized maximum_bytes =
    let available = maximum_bytes - byte_len out.text in
    if is_empty normalized || is_previous out.previous normalized
    then some out
    else if ltb available (byte_len normalized + separator_bytes out.text)
    then none
    else some (record {
      text = if is_empty out.text then normalized else out.text ++ (codes "\n" ++ normalized);
      previous = some normalized;
    })

-- The loop over an element's fields; the flag says that the visit goes on to the children.
visit_fields : Output → List (Option Text) → ℕ → Output × Bool
unfolding add_field
visit_fields out [] maximum_bytes = (out, true)
visit_fields out (none ∷ fields) maximum_bytes = visit_fields out fields maximum_bytes
visit_fields out (some value ∷ fields) maximum_bytes =
    elim (normalize_bounded value maximum_bytes) [
      | none ↦ visit_fields out fields maximum_bytes
      | some normalized ↦ elim (add_field out normalized maximum_bytes) [
        | none ↦ (out, false)
        | some out' ↦ visit_fields out' fields maximum_bytes
      ]
    ]

abbrev fields_of : Element → List (Option Text)
fields_of e = e.title ∷ e.value ∷ e.description ∷ []

mutual
  visit : AccessibilityNode → ℕ → Output → Output
  visit (node e cs) maximum_bytes out =
      if leb maximum_bytes (byte_len out.text) || is_hidden e
      then out
      else visit_children cs maximum_bytes (visit_fields out (fields_of e) maximum_bytes)

  -- The flag says whether the loop over the children is reached.
  visit_children : Children → ℕ → Output × Bool → Output
  visit_children nil maximum_bytes (out, goes_on) = out
  visit_children (child n cs) maximum_bytes (out, goes_on) =
      let out' = visit n maximum_bytes out in
      let rest = visit_children cs maximum_bytes (out', true) in
      if not goes_on then out else if leb maximum_bytes (byte_len out'.text) then out' else rest

unfoldable pub visible_text_bounded : AccessibilityNode → ℕ → Text
unfolding visit visit_children visit_fields
visible_text_bounded n maximum_bytes =
    (visit n maximum_bytes (record { text = []; previous = none })).text
