-- ===== src/Chat/Utf8.antt =====
-- `str::from_utf8` of the standard library: the text of some bytes, where they are well-formed UTF-8.
use woof.Prelude.{
  ℕ, ◌+◌, ◌-◌, ◌*◌, Bool, ◌&&◌, Option, none, some, List, [], ◌∷◌, ltb, leb, ◌==◌, if◌then◌else◌,
}
use woof.Prelude.Text.{Text}

abbrev within : ℕ → ℕ → ℕ → Bool
within low high b = leb low b && leb b high

abbrev is_continuation : ℕ → Bool
is_continuation b = within 0x80 0xBF b

abbrev then_char : ℕ → Option Text → Option Text
then_char c none = none
then_char c (some s) = some (c ∷ s)

-- The second byte of three, and of four, rules out overlong forms, surrogates and too large values.
abbrev second_of_three : ℕ → ℕ → Bool
second_of_three b c =
    if b == 0xE0
    then within 0xA0 0xBF c
    else if b == 0xED
    then within 0x80 0x9F c
    else is_continuation c

abbrev second_of_four : ℕ → ℕ → Bool
second_of_four b c =
    if b == 0xF0
    then within 0x90 0xBF c
    else if b == 0xF4
    then within 0x80 0x8F c
    else is_continuation c

abbrev two : ℕ → List ℕ → Option Text → Option Text
two b (c ∷ s) rest =
    if within 0xC2 0xDF b && is_continuation c
    then then_char ((b - 0xC0) * 64 + (c - 0x80)) rest
    else none
two b [] rest = none

abbrev three : ℕ → List ℕ → Option Text → Option Text
three b (c ∷ d ∷ s) rest =
    if within 0xE0 0xEF b && second_of_three b c && is_continuation d
    then then_char ((b - 0xE0) * 4096 + (c - 0x80) * 64 + (d - 0x80)) rest
    else none
three b _ rest = none

abbrev four : ℕ → List ℕ → Option Text → Option Text
four b (c ∷ d ∷ e ∷ s) rest =
    if within 0xF0 0xF4 b && second_of_four b c && is_continuation d && is_continuation e
    then then_char ((b - 0xF0) * 262144 + (c - 0x80) * 4096 + (d - 0x80) * 64 + (e - 0x80)) rest
    else none
four b _ rest = none

unfoldable pub from_utf8 : List ℕ → Option Text
from_utf8 [] = some []
from_utf8 (b ∷ []) = if ltb b 0x80 then some (b ∷ []) else none
from_utf8 (b ∷ c ∷ []) =
    let one = from_utf8 (c ∷ []) in if ltb b 0x80 then then_char b one else two b (c ∷ []) (some [])
from_utf8 (b ∷ c ∷ d ∷ []) =
    let one = from_utf8 (c ∷ d ∷ []) in
    let after_two = from_utf8 (d ∷ []) in
    if ltb b 0x80
    then then_char b one
    else if ltb b 0xE0
    then two b (c ∷ d ∷ []) after_two
    else three b (c ∷ d ∷ []) (some [])
from_utf8 (b ∷ c ∷ d ∷ e ∷ s) =
    let one = from_utf8 (c ∷ d ∷ e ∷ s) in
    let after_two = from_utf8 (d ∷ e ∷ s) in
    let after_three = from_utf8 (e ∷ s) in
    let after_four = from_utf8 s in
    if ltb b 0x80
    then then_char b one
    else if ltb b 0xE0
    then two b (c ∷ d ∷ e ∷ s) after_two
    else if ltb b 0xF0
    then three b (c ∷ d ∷ e ∷ s) after_three
    else four b (c ∷ d ∷ e ∷ s) after_four
