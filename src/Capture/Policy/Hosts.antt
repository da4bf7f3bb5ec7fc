-- ===== src/Capture/Policy/Hosts.antt =====
-- crates/woof-capture/src/policy.rs: which hosts a rule for a host covers, and the app itself.
use woof.Prelude.{
  ℕ, true, false, some, [], ◌∷◌, ◌++◌, ◌≡◌, ◌↔◌, ◌⊎◌, inl, inr, refl, ap, ◌∙◌, sym, arith,
  Bool-cases, Option-cases, length, length-append, append_assoc,
}
use woof.Prelude.Text.{Text, text_eq, text_eq_iff, text_eq_refl}
use woof.Capture.Policy.{domain, ends_with, strip_suffix, hosts_match}

strip_suffix-append : (s p t : Text) → strip_suffix s p ≡ some t → t ++ p ≡ s
unfolding strip_suffix
strip_suffix-append [] p t h = ground (arith, text_eq_iff [] p)
strip_suffix-append (c ∷ s) p t h = elim (Option-cases (strip_suffix s p)) [
  | inl nothing ↦ ground (arith, text_eq_iff (c ∷ s) p)
  | inr (before, e) ↦ ground (arith, text_eq_iff (c ∷ s) p, strip_suffix-append s p before e)
]

longer : (c : ℕ) (t p : Text) → text_eq (c ∷ (t ++ p)) p ≡ false
longer c t p = elim (Bool-cases (text_eq (c ∷ (t ++ p)) p)) [
  | inl same ↦
      let e = (text_eq_iff (c ∷ (t ++ p)) p).0 same in
      let l : length (c ∷ (t ++ p)) ≡ length p = ap (λ (x : Text). length x) e in
      absurd (omega (arith, l, length-append t p))
  | inr other ↦ other
]

append-strip_suffix : (t p : Text) → strip_suffix (t ++ p) p ≡ some t
unfolding strip_suffix
append-strip_suffix [] [] = unfold text_eq in refl
append-strip_suffix [] (c ∷ p) = ground (arith, text_eq_refl (c ∷ p))
append-strip_suffix (c ∷ t) p = ground (arith, longer c t p, append-strip_suffix t p)

ends_with-last : (t : Text) (c : ℕ) → ends_with t c ≡ true → (u : Text) × (u ++ (c ∷ []) ≡ t)
unfolding ends_with
ends_with-last [] c h = absurd (ground arith)
ends_with-last (d ∷ []) c h = ([], ground arith)
ends_with-last (d ∷ (e ∷ t)) c h = let (u, q) = ends_with-last (e ∷ t) c h in (d ∷ u, ap (◌∷◌ d) q)

last-ends_with : (u : Text) (c : ℕ) → ends_with (u ++ (c ∷ [])) c ≡ true
unfolding ends_with
last-ends_with [] c = ground arith
last-ends_with (d ∷ []) c = ground arith
last-ends_with (d ∷ (e ∷ u)) c = last-ends_with (e ∷ u) c

-- A rule for a domain covers the domain itself and the domains below it, and no other.
pub hosts_match_iff :
    (host pattern : Text)
    → (hosts_match (domain host) (domain pattern) ≡ true)
      ↔ ((host ≡ pattern) ⊎ ((sub : Text) × (host ≡ sub ++ (b'.' ∷ pattern))))
unfolding hosts_match
hosts_match_iff host pattern = (
  λ h. elim (Bool-cases (text_eq host pattern)) [
    | inl same ↦ inl ((text_eq_iff host pattern).0 same)
    | inr other ↦ elim (Option-cases (strip_suffix host pattern)) [
      | inl nothing ↦ absurd (ground arith)
      | inr (before, e) ↦
          let (sub, q) = ends_with-last before b'.' (ground arith) in
          inr (
            sub,
            sym (strip_suffix-append host pattern before e)
                ∙ ap (λ (x : Text). x ++ pattern) (sym q)
                ∙ append_assoc sub (b'.' ∷ []) pattern,
          )
    ]
  ],
  λ h. elim h [
    | inl same ↦ ground (arith, text_eq_iff host pattern)
    | inr (sub, below) ↦
        let before = sub ++ (b'.' ∷ []) in
        let split : host ≡ before ++ pattern = below ∙ sym (append_assoc sub (b'.' ∷ []) pattern) in
        let e : strip_suffix host pattern ≡ some before =
          rw split (append-strip_suffix before pattern) in
        ground (arith, e, last-ends_with sub b'.')
  ],
)
