-- ===== src/Inline/Modifier/Keys.antt =====
-- crates/woof-inline/src/modifier.rs: the keys that can be bound, and their equality.
use woof.Prelude.{
  ℕ, Bool, true, false, Option, none, some, ◌==◌, if◌then◌else◌, ==_iff, ◌≡◌, ◌↔◌, refl, sym, ap,
  ◌∙◌, arith, ◌++◌,
}
use woof.Prelude.Text.{
  Text, codes, text_eq, text_eq_iff, trim, trim_end, is_whitespace, IsBlank, trim_start-blank,
  trim_end-blank,
}

pub data ModifierKey : Type 0 where
  fn left_option right_option left_command right_command left_shift right_shift : ModifierKey
  left_control right_control : ModifierKey

-- The position of a key in the enumeration, by which the derived equality compares.
index : ModifierKey → ℕ
index fn = 0
index left_option = 1
index right_option = 2
index left_command = 3
index right_command = 4
index left_shift = 5
index right_shift = 6
index left_control = 7
index right_control = 8

unfoldable pub key_eq : ModifierKey → ModifierKey → Bool
unfolding index
key_eq a b = index a == index b

key_at : ℕ → ModifierKey
key_at n =
    if n == 0
    then fn
    else if n == 1
    then left_option
    else if n == 2
    then right_option
    else if n == 3
    then left_command
    else if n == 4
    then right_command
    else if n == 5
    then left_shift
    else if n == 6
    then right_shift
    else if n == 7
    then left_control
    else right_control

key_at-index : (a : ModifierKey) → key_at (index a) ≡ a
unfolding index key_at
key_at-index fn = refl
key_at-index _ = refl

pub key_eq_iff : (a b : ModifierKey) → (key_eq a b ≡ true) ↔ (a ≡ b)
unfolding key_eq
key_eq_iff a b = (
  λ h. sym (key_at-index a) ∙ ap key_at ((==_iff (index a) (index b)).0 h) ∙ key_at-index b,
  λ e. (==_iff (index a) (index b)).1 (ap index e),
)

pub key_eq_refl : (a : ModifierKey) → key_eq a a ≡ true
key_eq_refl a = (key_eq_iff a a).1 refl

-- `key == Some(k)`.
abbrev pub is_key : Option ModifierKey → ModifierKey → Bool
is_key none k = false
is_key (some j) k = key_eq j k

unfoldable pub as_str : ModifierKey → Text
as_str fn = codes "fn"
as_str left_option = codes "left_option"
as_str right_option = codes "right_option"
as_str left_command = codes "left_command"
as_str right_command = codes "right_command"
as_str left_shift = codes "left_shift"
as_str right_shift = codes "right_shift"
as_str left_control = codes "left_control"
as_str right_control = codes "right_control"

-- The `match` of `from_str` on the trimmed value.
parse : Text → Option ModifierKey
parse v =
    if text_eq v (codes "fn")
    then some fn
    else if text_eq v (codes "left_option")
    then some left_option
    else if text_eq v (codes "right_option")
    then some right_option
    else if text_eq v (codes "left_command")
    then some left_command
    else if text_eq v (codes "right_command")
    then some right_command
    else if text_eq v (codes "left_shift")
    then some left_shift
    else if text_eq v (codes "right_shift")
    then some right_shift
    else if text_eq v (codes "left_control")
    then some left_control
    else if text_eq v (codes "right_control")
    then some right_control
    else none

-- `Err(())` is `none`.
unfoldable pub from_str : Text → Option ModifierKey
unfolding parse
from_str value = parse (trim value)

parse-as_str : (k : ModifierKey) → parse (as_str k) ≡ some k
unfolding parse as_str text_eq
parse-as_str fn = refl
parse-as_str _ = refl

as_str-trimmed : (k : ModifierKey) (w : Text) → IsBlank w → trim (as_str k ++ w) ≡ as_str k
unfolding as_str trim is_whitespace
as_str-trimmed fn w h = ground (arith, trim_end-blank w h)
as_str-trimmed _ w h = ground (arith, trim_end-blank w h)

trim-blank : (w s : Text) → IsBlank w → trim (w ++ s) ≡ trim s
unfolding trim
trim-blank w s h = ap trim_end (trim_start-blank w s h)

-- A key's spelling is read back as the key, with any white space before and after it.
pub from_str-as_str :
    (k : ModifierKey) (before after : Text)
    → IsBlank before
    → IsBlank after
    → from_str (before ++ (as_str k ++ after)) ≡ some k
unfolding from_str
from_str-as_str k before after b a =
    rw (trim-blank before (as_str k ++ after) b, as_str-trimmed k after a) (parse-as_str k)

parse_sound : (v : Text) (k : ModifierKey) → parse v ≡ some k → v ≡ as_str k
unfolding parse as_str
parse_sound v k h = ground (
  arith,
  text_eq_iff v (codes "fn"),
  text_eq_iff v (codes "left_option"),
  text_eq_iff v (codes "right_option"),
  text_eq_iff v (codes "left_command"),
  text_eq_iff v (codes "right_command"),
  text_eq_iff v (codes "left_shift"),
  text_eq_iff v (codes "right_shift"),
  text_eq_iff v (codes "left_control"),
  text_eq_iff v (codes "right_control"),
)

-- Only a key's spelling is read as that key: anything else is refused or is another key.
pub from_str_sound : (v : Text) (k : ModifierKey) → from_str v ≡ some k → trim v ≡ as_str k
unfolding from_str
from_str_sound v k h = parse_sound (trim v) k h
