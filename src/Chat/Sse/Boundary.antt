-- ===== src/Chat/Sse/Boundary.antt =====
-- crates/woof-llm/src/chat.rs: where `event_boundary` finds the end of a block.
use woof.Prelude.{
  ℕ, zero, suc, ◌+◌, ◌≤◌, ◌<◌, ◌≡◌, refl, sym, ap, ◌∙◌, inl, inr, Bool, true, false, Option, none,
  some, List, [], ◌∷◌, ◌++◌, if◌then◌else◌, length, take, drop, arith, Bool-cases,
}
use woof.Chat.Sse.{
  begins_with, window_position, next_position, earlier, unix_end, windows_end, event_boundary,
}

shift : Option (ℕ × ℕ) → Option (ℕ × ℕ)
shift none = none
shift (some (p, d)) = some (suc p, d)

-- The first place at which either delimiter begins.
first_boundary : List ℕ → Option (ℕ × ℕ)
unfolding shift
first_boundary [] = none
first_boundary (c ∷ s) =
    let later = shift (first_boundary s) in
    if begins_with unix_end (c ∷ s)
    then some (0, 2)
    else if begins_with windows_end (c ∷ s)
    then some (0, 4)
    else later

earlier-next : (u w : Option ℕ) → earlier (next_position u) (next_position w) ≡ shift (earlier u w)
unfolding shift
earlier-next none none = refl
earlier-next none (some w) = refl
earlier-next (some u) none = refl
earlier-next (some u) (some w) = ground arith

earlier_at_start : (w : Option ℕ) → earlier (some 0) w ≡ some (0, 2)
earlier_at_start none = refl
earlier_at_start (some w) = ground arith

earlier_windows : (u : Option ℕ) → earlier (next_position u) (some 0) ≡ some (0, 4)
earlier_windows none = refl
earlier_windows (some u) = ground arith

event_boundary-first : (s : List ℕ) → event_boundary s ≡ first_boundary s
unfolding event_boundary first_boundary window_position
event_boundary-first [] = refl
event_boundary-first (c ∷ s) = elim (Bool-cases (begins_with unix_end (c ∷ s))) [
  | inl unix ↦ ground (arith, unix, earlier_at_start (window_position windows_end (c ∷ s)))
  | inr other ↦ ground (
    arith,
    other,
    event_boundary-first s,
    earlier-next (window_position unix_end s) (window_position windows_end s),
    earlier_windows (window_position unix_end s),
  )
]

select : Bool → Bool → Option (ℕ × ℕ) → Option (ℕ × ℕ)
select unix windows later =
    if unix then some (0, 2) else if windows then some (0, 4) else shift later

select-keeps :
    (unix windows : Bool) (r r' : Option (ℕ × ℕ))
    → ((q d : ℕ) → r ≡ some (q, d) → r' ≡ some (q, d))
    → (p d : ℕ) → select unix windows r ≡ some (p, d)
    → select unix windows r' ≡ some (p, d)
unfolding select shift
select-keeps true windows r r' h p d e = e
select-keeps false true r r' h p d e = e
select-keeps false false none r' h p d e = ground arith
select-keeps false false (some (q, d')) r' h p d e = ap shift (h q d' refl) ∙ e

-- A delimiter that is found stays the first one when more bytes come.
first_boundary-append :
    (s more : List ℕ) (p d : ℕ)
    → first_boundary s ≡ some (p, d)
    → first_boundary (s ++ more) ≡ some (p, d)
unfolding first_boundary begins_with shift select
first_boundary-append [] more p d e = ground arith
first_boundary-append (a ∷ []) more p d e = ground (arith, e)
first_boundary-append (a ∷ b ∷ []) more p d e = ground (arith, e)
first_boundary-append (a ∷ b ∷ c ∷ []) more p d e = ground (arith, e)
first_boundary-append (a ∷ b ∷ c ∷ e ∷ s) more p d h =
    select-keeps (begins_with unix_end (a ∷ b ∷ c ∷ e ∷ s))
      (begins_with windows_end (a ∷ b ∷ c ∷ e ∷ s)) (first_boundary (b ∷ c ∷ e ∷ s))
      (first_boundary (b ∷ c ∷ e ∷ s ++ more)) (first_boundary-append (b ∷ c ∷ e ∷ s) more) p d h

select_bounds :
    (unix windows : Bool) (r : Option (ℕ × ℕ)) (n : ℕ)
    → 3 ≤ n
    → ((q d : ℕ) → r ≡ some (q, d) → (0 < d) × (q + d ≤ n))
    → (p d : ℕ) → select unix windows r ≡ some (p, d)
    → (0 < d) × (p + d ≤ suc n)
unfolding select shift
select_bounds true windows r n k h p d e = ground (arith, e)
select_bounds false true r n k h p d e = ground (arith, e)
select_bounds false false none n k h p d e = ground arith
select_bounds false false (some (q, d')) n k h p d e = ground (arith, e, h q d' refl)

-- The delimiter lies within the buffer.
first_boundary_bounds :
    (s : List ℕ) (p d : ℕ) → first_boundary s ≡ some (p, d) → (0 < d) × (p + d ≤ length s)
unfolding first_boundary begins_with shift select
first_boundary_bounds [] p d e = ground arith
first_boundary_bounds (a ∷ []) p d e = ground (arith, e)
first_boundary_bounds (a ∷ b ∷ []) p d e = ground (arith, e)
first_boundary_bounds (a ∷ b ∷ c ∷ []) p d e = ground (arith, e)
first_boundary_bounds (a ∷ b ∷ c ∷ f ∷ s) p d e =
    select_bounds (begins_with unix_end (a ∷ b ∷ c ∷ f ∷ s))
      (begins_with windows_end (a ∷ b ∷ c ∷ f ∷ s)) (first_boundary (b ∷ c ∷ f ∷ s))
      (suc (suc (suc (length s)))) (omega arith) (first_boundary_bounds (b ∷ c ∷ f ∷ s)) p d e

pub take_found : (p d : ℕ) (s more : List ℕ) → p + d ≤ length s → take p (s ++ more) ≡ take p s
take_found zero d s more h = refl
take_found (suc p) d [] more h = absurd (omega arith)
take_found (suc p) d (c ∷ s) more h = ap (λ l. c ∷ l) (take_found p d s more (omega arith))

pub drop_found : (n : ℕ) (s more : List ℕ) → n ≤ length s → drop n (s ++ more) ≡ drop n s ++ more
drop_found zero s more h = refl
drop_found (suc n) [] more h = absurd (omega arith)
drop_found (suc n) (c ∷ s) more h = drop_found n s more (omega arith)

pub boundary-bounds :
    (s : List ℕ) (p d : ℕ) → event_boundary s ≡ some (p, d) → (0 < d) × (p + d ≤ length s)
boundary-bounds s p d e = first_boundary_bounds s p d (sym (event_boundary-first s) ∙ e)

pub boundary-append :
    (s more : List ℕ) (p d : ℕ)
    → event_boundary s ≡ some (p, d)
    → event_boundary (s ++ more) ≡ some (p, d)
boundary-append s more p d e =
    event_boundary-first (s ++ more)
    ∙ first_boundary-append s more p d (sym (event_boundary-first s) ∙ e)
