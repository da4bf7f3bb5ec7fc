-- ===== src/Mcp/Tools/Checked.antt =====
-- apps/woof-mcp/src/lib.rs: what the checks on single arguments let through.
use woof.Prelude.{
  ℕ, suc, ◌≤◌, ◌≡◌, refl, Bool, true, false, ◌&&◌, inl, inr, Option, none, some, List, [], ◌∷◌, leb,
  if◌then◌else◌, length, All, arith,
}
use woof.Prelude.Int.{ℤ, pos, negsuc}
use woof.Prelude.Text.{Text, byte_len, len_utf8, is_control}
use woof.Prelude.Table.{contains, get}
use woof.Prelude.Decimal.{decimal, IsDigit, decimal-IsDigit, length-decimal_from}
use woof.Mcp.Tools.{
  BridgeResult, ◌>>=◌, max_snapshot_ids_query_bytes, max_enum_bytes, has_control,
  valid_string_argument, valid_or_refused, accepted_or_refused, optional_accepted, in_range,
  required_string, optional_value, optional_string, required_enum, optional_enum, integer_value,
  bounded_integer, optional_parameter,
}

-- A value that goes into a query: 8 KiB at most, with no control character.
abbrev pub IsParameter : Text → Type 0
IsParameter value = (byte_len value ≤ max_snapshot_ids_query_bytes) × (has_control value ≡ false)

abbrev pub Holds : {A : Type 0} → (A → Type 0) → BridgeResult A → Type 0
Holds P (inl e) = Unit
Holds P (inr a) = P a

pub bind-Holds :
    {A B : Type 0} (P : A → Type 0) (Q : B → Type 0) (r : BridgeResult A) (f : A → BridgeResult B)
    → Holds P r
    → ((a : A) → P a → Holds Q (f a))
    → Holds Q (r >>= f)
bind-Holds P Q (inl e) f h k = tt
bind-Holds P Q (inr a) f h k = k a h

pub if-Holds :
    {A : Type 0} (P : A → Type 0) (b : Bool) (x y : BridgeResult A)
    → (b ≡ true → Holds P x)
    → (b ≡ false → Holds P y)
    → Holds P (if b then x else y)
if-Holds P true x y h k = h refl
if-Holds P false x y h k = k refl

abbrev pub IsOptional : Option Text → Type 0
IsOptional none = Unit
IsOptional (some value) = IsParameter value

abbrev pub AreParameters : List (Text × Text) → Type 0
AreParameters = All (λ p. IsParameter p.1)

pub optional_parameter-AreParameters :
    (key : Text) (o : Option Text) → IsOptional o → AreParameters (optional_parameter key o)
optional_parameter-AreParameters key none h = tt
optional_parameter-AreParameters key (some value) h = (h, tt)

valid-IsParameter :
    (value : Text) (maximum : ℕ)
    → valid_string_argument value maximum ≡ true
    → maximum ≤ max_snapshot_ids_query_bytes
    → IsParameter value
unfolding valid_string_argument
valid-IsParameter value maximum h k = (ground (arith, h, k), ground (arith, h))

valid_or_refused-Holds :
    (key : Text) (maximum : ℕ) (o : Option Text)
    → maximum ≤ max_snapshot_ids_query_bytes
    → Holds IsParameter (valid_or_refused key maximum o)
valid_or_refused-Holds key maximum none h = tt
valid_or_refused-Holds key maximum (some value) h =
    if-Holds IsParameter (valid_string_argument value maximum) _ _
      (λ valid. valid-IsParameter value maximum valid h) (λ e. tt)

accepted_or_refused-Holds :
    (key : Text) (accepted : List Text) (value : Text)
    → IsParameter value
    → Holds IsParameter (accepted_or_refused key accepted value)
accepted_or_refused-Holds key accepted value h =
    if-Holds IsParameter (contains value accepted) _ _ (λ e. h) (λ e. tt)

in_range-Holds :
    (key : Text) (maximum : ℕ) (o : Option ℤ) → Holds (λ n. n ≤ maximum) (in_range key maximum o)
in_range-Holds key maximum none = tt
in_range-Holds key maximum (some (negsuc n)) = tt
in_range-Holds key maximum (some (pos n)) =
    if-Holds (λ m. m ≤ maximum) (leb 1 n && leb n maximum) _ _ (λ e. ground (arith, e)) (λ e. tt)

digits-byte_len : (s : Text) → All IsDigit s → byte_len s ≡ length s
unfolding byte_len len_utf8
digits-byte_len [] h = refl
digits-byte_len (c ∷ s) h = ground (arith, h.0.0, h.0.1, digits-byte_len s h.1)

digits-has_control : (s : Text) → All IsDigit s → has_control s ≡ false
unfolding has_control is_control
digits-has_control [] h = refl
digits-has_control (c ∷ s) h = ground (arith, h.0.0, h.0.1, digits-has_control s h.1)

pub decimal-IsParameter : (n : ℕ) → n ≤ 999 → IsParameter (decimal n)
unfolding decimal
decimal-IsParameter n h = (
  omega (
    arith,
    digits-byte_len (decimal n) (decimal-IsDigit n),
    length-decimal_from (suc n) n 2 (omega (arith, h)),
  ),
  digits-has_control (decimal n) (decimal-IsDigit n),
)

module _ {V : Type 0} (as_str : V → Option Text) (arguments : List (Text × V)) where
  pub required_string-Holds :
      (key : Text) (maximum : ℕ)
      → maximum ≤ max_snapshot_ids_query_bytes
      → Holds IsParameter (required_string as_str arguments key maximum)
  unfolding required_string
  required_string-Holds key maximum h = valid_or_refused-Holds key maximum _ h

  pub optional_string-Holds :
      (key : Text) (maximum : ℕ)
      → maximum ≤ max_snapshot_ids_query_bytes
      → Holds IsOptional (optional_string as_str arguments key maximum)
  unfolding optional_string
  optional_string-Holds key maximum h = value (get key arguments)
    where
      value : (o : Option V) → Holds IsOptional (optional_value as_str arguments key maximum o)
      value none = tt
      value (some v) =
          bind-Holds IsParameter IsOptional (valid_or_refused key maximum (as_str v)) _
            (valid_or_refused-Holds key maximum (as_str v) h) (λ s k. k)

  pub required_enum-Holds :
      (key : Text) (accepted : List Text)
      → Holds IsParameter (required_enum as_str arguments key accepted)
  unfolding required_enum
  required_enum-Holds key accepted =
      bind-Holds IsParameter IsParameter (required_string as_str arguments key max_enum_bytes) _
        (required_string-Holds key max_enum_bytes (omega arith))
        (accepted_or_refused-Holds key accepted)

  pub optional_enum-Holds :
      (key : Text) (accepted : List Text)
      → Holds IsOptional (optional_enum as_str arguments key accepted)
  unfolding optional_enum
  optional_enum-Holds key accepted =
      bind-Holds IsOptional IsOptional (optional_string as_str arguments key max_enum_bytes) _
        (optional_string-Holds key max_enum_bytes (omega arith)) value
    where
      value : (o : Option Text) → IsOptional o → Holds IsOptional (optional_accepted key accepted o)
      value none h = tt
      value (some s) h =
          bind-Holds IsParameter IsOptional (accepted_or_refused key accepted s) _
            (accepted_or_refused-Holds key accepted s h) (λ t k. k)

module _ {V : Type 0} (as_i64 : V → Option ℤ) (arguments : List (Text × V)) where
  pub bounded_integer-Holds :
      (key : Text) (default maximum : ℕ)
      → default ≤ maximum
      → maximum ≤ 999
      → Holds (λ n. n ≤ 999) (bounded_integer as_i64 arguments key default maximum)
  unfolding bounded_integer
  bounded_integer-Holds key default maximum h k = value (get key arguments)
    where
      value :
          (o : Option V)
          → Holds (λ n. n ≤ 999) (integer_value as_i64 arguments key default maximum o)
      value none = omega (arith, h, k)
      value (some v) =
          widen (in_range key maximum (as_i64 v)) (in_range-Holds key maximum (as_i64 v))
        where
          widen : (r : BridgeResult ℕ) → Holds (λ n. n ≤ maximum) r → Holds (λ n. n ≤ 999) r
          widen (inl e) l = tt
          widen (inr n) l = omega (arith, l, k)
