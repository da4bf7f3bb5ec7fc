-- ===== src/Capture/Node/VisibleText.antt =====
-- crates/woof-capture/src/model.rs: the bound on the visible text, and what of the tree it depends
-- on.
use woof.Prelude.{
  ℕ, ◌+◌, ◌≤◌, Bool, true, Option, none, some, List, [], ◌∷◌, ◌++◌, if◌then◌else◌, ◌≡◌, refl, arith,
  Bool-cases, Option-cases, inl, inr, ap,
}
use woof.Prelude.Text.{Text, codes, byte_len, byte_len-append, len_utf8, is_empty}
use woof.Capture.Node.{
  Element, AccessibilityNode, node, Children, nil, child, is_hidden, normalize_bounded, Output,
  add_field, visit_fields, fields_of, visit, visit_children, visible_text_bounded,
}

newline-byte_len : (s : Text) → byte_len (codes "\n" ++ s) ≡ 1 + byte_len s
unfolding byte_len len_utf8
newline-byte_len s = omega arith

byte_len-empty : (t : Text) → is_empty t ≡ true → byte_len t ≡ 0
unfolding byte_len
byte_len-empty [] p = refl
byte_len-empty (c ∷ t) p = cc

add_field-le :
    (out out' : Output) (s : Text) (b : ℕ)
    → byte_len out.text ≤ b
    → add_field out s b ≡ some out'
    → byte_len out'.text ≤ b
unfolding add_field
add_field-le out out' s b h e =
    ground (
      arith,
      byte_len-append out.text (codes "\n" ++ s),
      newline-byte_len s,
      byte_len-empty out.text,
    )

visit_fields-le :
    (out : Output) (fields : List (Option Text)) (b : ℕ)
    → byte_len out.text ≤ b
    → byte_len (visit_fields out fields b).0.text ≤ b
unfolding visit_fields
visit_fields-le out [] b h = h
visit_fields-le out (none ∷ fields) b h = visit_fields-le out fields b h
visit_fields-le out (some value ∷ fields) b h = elim (Option-cases (normalize_bounded value b)) [
  | inl long ↦ rw (long, visit_fields) (visit_fields-le out fields b h)
  | inr (s, normalized) ↦ elim (Option-cases (add_field out s b)) [
    | inl full ↦ rw (normalized, full, visit_fields) h
    | inr (out', added) ↦
        rw (normalized, added, visit_fields)
          (visit_fields-le out' fields b (add_field-le out out' s b h added))
  ]
]

mutual
  unfolding visit visit_children

  visit-le :
      (n : AccessibilityNode) (b : ℕ) (out : Output)
      → byte_len out.text ≤ b
      → byte_len (visit n b out).text ≤ b
  visit-le (node e cs) b out h = ground (
    arith,
    visit_children-le cs b (visit_fields out (fields_of e) b)
        (visit_fields-le out (fields_of e) b h),
  )

  visit_children-le :
      (cs : Children) (b : ℕ) (o : Output × Bool)
      → byte_len o.0.text ≤ b
      → byte_len (visit_children cs b o).text ≤ b
  visit_children-le nil b (out, goes_on) h = h
  visit_children-le (child n cs) b (out, goes_on) h =
      ground (
        arith,
        visit-le n b out h,
        visit_children-le cs b (visit n b out, true) (visit-le n b out h),
      )

-- The visible text never takes more bytes than allowed.
pub visible_text_le : (n : AccessibilityNode) (b : ℕ) → byte_len (visible_text_bounded n b) ≤ b
unfolding visible_text_bounded byte_len
visible_text_le n b = visit-le n b (record { text = []; previous = none }) (omega arith)

-- The same element with nothing to read but its role.
blank : Element → Element
blank e = record e {
  title = none;
  value = none;
  description = none;
  placeholder = none;
  identifier = none;
  url = none;
}

-- Every protected or password element made blank, and everything below it cut off.
mutual
  pub mask : AccessibilityNode → AccessibilityNode
  mask (node e cs) = if is_hidden e then node (blank e) nil else node e (mask_all cs)

  mask_all : Children → Children
  mask_all nil = nil
  mask_all (child n cs) = child (mask n) (mask_all cs)

mutual
  unfolding visit visit_children mask mask_all blank

  visit-mask : (n : AccessibilityNode) (b : ℕ) (out : Output) → visit (mask n) b out ≡ visit n b out
  visit-mask (node e cs) b out = elim (Bool-cases (is_hidden e)) [
    | inl hidden ↦ ground arith
    | inr shown ↦ ground (arith, visit_children-mask cs b (visit_fields out (fields_of e) b))
  ]

  visit_children-mask :
      (cs : Children) (b : ℕ) (o : Output × Bool)
      → visit_children (mask_all cs) b o ≡ visit_children cs b o
  visit_children-mask nil b (out, goes_on) = refl
  visit_children-mask (child n cs) b (out, goes_on) =
      ground (arith, visit-mask n b out, visit_children-mask cs b (visit n b out, true))

-- The visible text does not depend on what is inside a protected or password element: it is that
-- of the tree with these elements blank and their children cut off.
pub visible_text-mask :
    (n : AccessibilityNode) (b : ℕ) → visible_text_bounded (mask n) b ≡ visible_text_bounded n b
unfolding visible_text_bounded
visible_text-mask n b =
    ap (λ (o : Output). o.text) (visit-mask n b (record { text = []; previous = none }))
