-- ===== src/Prelude/Word.antt =====
-- Unsigned machine words as numbers, with the saturating and the wrapping operations.
use Prim.Native.Nat.{ℕ, ◌+◌, ◌%◌, min}

abbrev pub u8_max : ℕ
u8_max = 255

abbrev pub u32_max : ℕ
u32_max = 4294967295

abbrev pub u64_max : ℕ
u64_max = 18446744073709551615

abbrev pub u64_mod : ℕ
u64_mod = 18446744073709551616

-- `saturating_add` at a width, given by the largest word.
abbrev pub saturating_add : ℕ → ℕ → ℕ → ℕ
saturating_add top a b = min top (a + b)

-- `u64::wrapping_add`.
abbrev pub wrapping_add64 : ℕ → ℕ → ℕ
wrapping_add64 a b = (a + b) % u64_mod
