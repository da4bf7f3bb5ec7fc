-- ===== src/Capture/Pipeline/Sequence.antt =====
-- crates/woof-capture/src/engine.rs: which captures one snapshot covers, over any history.
use woof.Prelude.{
  Bool, true, false, Option, none, some, List, [], ◌∷◌, ◌++◌, ◌≡◌, refl, sym, ap, ◌∙◌, inl, inr,
  arith, All, Bool-cases,
}
use mathlib.Core.Path.{subst}
use woof.Prelude.Text.{Text, text_eq_iff}
use woof.Prelude.Int.{ℤ, pos, negsuc, ◌≤ℤ◌, saturating_sub}
use woof.Capture.Pipeline.{
  RawCapture, SnapshotCandidate, PipelineOutcome, stored, deduplicated, coalesced, skipped,
  CaptureController, CapturePipeline, settle, same_context, same_int, same_text, elapsed, process,
}
use woof.Capture.Pipeline.Continuity.{
  accepted, continues, Continuation, pending-process, process-continues, process_starts,
}

-- The captures of a history with their outcomes, the latest first.
abbrev pub Trace : Type 0
Trace = List (RawCapture × PipelineOutcome)

-- The same process, bundle, title and address.
pub record SameWindow (a b : SnapshotCandidate) : Type 0 where
  pub pid : a.pid ≡ b.pid
  pub bundle_id : a.bundle_id ≡ b.bundle_id
  pub window_title : a.window_title ≡ b.window_title
  pub browser_url : a.browser_url ≡ b.browser_url

-- A capture that was accepted as a part of the snapshot `s`.
abbrev pub IsPart : SnapshotCandidate → RawCapture × PipelineOutcome → Type 0
IsPart s x =
    (n : SnapshotCandidate) × (accepted x.1 ≡ some n)
    × SameWindow n s
    × (n.started_at_ms ≡ s.started_at_ms)

-- Each capture comes within the window after the one before it.
unfoldable pub AreClose : ℤ → Trace → Type 0
AreClose window [] = Unit
AreClose window (x ∷ []) = Unit
AreClose window (x ∷ y ∷ t) =
    (saturating_sub x.0.captured_at_ms y.0.captured_at_ms ≤ℤ window) × AreClose window (y ∷ t)

-- The latest captures, which are those of the snapshot: they begin with one that is stored, at the
-- time at which the snapshot starts, and end with one at the time at which it is last seen.
pub record IsCovered (window : ℤ) (s : SnapshotCandidate) (t : Trace) : Type 0 where
  pub last : RawCapture × PipelineOutcome
  pub middle : Trace
  pub older : Trace
  pub split : t ≡ (last ∷ middle) ++ older
  pub parts : All (IsPart s) (last ∷ middle)
  pub close : AreClose window (last ∷ middle)
  pub seen_last : s.last_seen_at_ms ≡ last.0.captured_at_ms
  pub started :
      (first : RawCapture) × (n : SnapshotCandidate) × (before : Trace) × (last ∷ middle
        ≡ before ++ ((first, stored n) ∷ []))
      × (s.started_at_ms ≡ first.captured_at_ms)

same_int-eq : (a b : ℤ) → same_int a b ≡ true → a ≡ b
same_int-eq (pos a) (pos b) h = ground (arith, h)
same_int-eq (pos a) (negsuc b) h = ground (arith, h)
same_int-eq (negsuc a) (pos b) h = ground (arith, h)
same_int-eq (negsuc a) (negsuc b) h = ground (arith, h)

same_text-eq : (a b : Option Text) → same_text a b ≡ true → a ≡ b
same_text-eq none none h = refl
same_text-eq none (some t) h = ground (arith, h)
same_text-eq (some s) none h = ground (arith, h)
same_text-eq (some s) (some t) h = ap some ((text_eq_iff s t).0 h)

same_context-SameWindow : (a b : SnapshotCandidate) → same_context a b ≡ true → SameWindow a b
same_context-SameWindow a b h = record {
  pid = same_int-eq a.pid b.pid (ground (arith, h));
  bundle_id = same_text-eq a.bundle_id b.bundle_id (ground (arith, h));
  window_title = same_text-eq a.window_title b.window_title (ground (arith, h));
  browser_url = same_text-eq a.browser_url b.browser_url (ground (arith, h));
}

SameWindow-trans : {a b c : SnapshotCandidate} → SameWindow a b → SameWindow b c → SameWindow a c
SameWindow-trans h k = record {
  pid = h.pid ∙ k.pid;
  bundle_id = h.bundle_id ∙ k.bundle_id;
  window_title = h.window_title ∙ k.window_title;
  browser_url = h.browser_url ∙ k.browser_url;
}

parts-next :
    (s next : SnapshotCandidate) (t : Trace)
    → SameWindow s next
    → s.started_at_ms ≡ next.started_at_ms
    → All (IsPart s) t
    → All (IsPart next) t
parts-next s next [] h e k = tt
parts-next s next (x ∷ t) h e ((n, is, same, start), k) =
    ((n, is, SameWindow-trans same h, start ∙ e), parts-next s next t h e k)

not_below :
    (a b : SnapshotCandidate) (window : ℤ)
    → elapsed a b ≤ℤ window
    → saturating_sub b.last_seen_at_ms a.last_seen_at_ms ≤ℤ window
not_below a b window h = ground (arith, h)

-- A capture that is stored starts a snapshot of its own.
starts :
    (window : ℤ) (next : SnapshotCandidate) (capture : RawCapture) (t : Trace)
    → next.started_at_ms ≡ capture.captured_at_ms
    → next.last_seen_at_ms ≡ capture.captured_at_ms
    → IsCovered window next ((capture, stored next) ∷ t)
unfolding AreClose
starts window next capture t e f = record {
  last = (capture, stored next);
  middle = [];
  older = t;
  split = refl;
  parts = (
    (
      next,
      refl,
      record { pid = refl; bundle_id = refl; window_title = refl; browser_url = refl },
      refl,
    ),
    tt,
  );
  close = tt;
  seen_last = f;
  started = (capture, next, [], refl, e);
}

-- One that continues the snapshot before it is added to those of that snapshot.
goes_on :
    {P : Type 0} (p : CapturePipeline P) (previous next : SnapshotCandidate) (capture : RawCapture)
    (outcome : PipelineOutcome) (t : Trace)
    → accepted outcome ≡ some next
    → Continuation p capture previous next outcome
    → IsCovered p.config.coalesce_window_ms previous t
    → IsCovered p.config.coalesce_window_ms next ((capture, outcome) ∷ t)
unfolding AreClose
goes_on p previous next capture outcome t a go is =
    let same = same_context-SameWindow previous next go.context in
    let near = not_below previous next p.config.coalesce_window_ms go.in_window in
    let (first, n, before, split, start) = is.started in
    record {
      last = (capture, outcome);
      middle = is.last ∷ is.middle;
      older = is.older;
      split = ap (λ l. (capture, outcome) ∷ l) is.split;
      parts = (
        (
          next,
          a,
          record { pid = refl; bundle_id = refl; window_title = refl; browser_url = refl },
          refl,
        ),
        parts-next previous next (is.last ∷ is.middle) same (sym go.same_start) is.parts,
      );
      close = (
        subst (λ x. saturating_sub capture.captured_at_ms x ≤ℤ p.config.coalesce_window_ms)
            is.seen_last
            (subst (λ x. saturating_sub x previous.last_seen_at_ms ≤ℤ p.config.coalesce_window_ms)
              go.seen_last near),
        is.close,
      );
      seen_last = go.seen_last;
      started = (
        first,
        n,
        (capture, outcome) ∷ before,
        ap (λ l. (capture, outcome) ∷ l) split,
        go.same_start ∙ start,
      );
    }

module _ {P : Type 0} (is_blacklisted : P → RawCapture → Bool) (redact digest : Text → Text) where
  -- The pipeline and the trace after a history, whose latest capture comes first. The controller is
  -- as the user left it at each capture.
  unfoldable pub run :
      CapturePipeline P → List (CaptureController × RawCapture) → CapturePipeline P × Trace
  run p [] = (p, [])
  run p ((c, capture) ∷ history) =
      let (p', t) = run p history in
      let (p'', outcome) = process is_blacklisted redact digest c p' capture in
      (p'', (capture, outcome) ∷ t)

  process-config :
      (c : CaptureController) (p : CapturePipeline P) (capture : RawCapture)
      → (process is_blacklisted redact digest c p capture).0.config ≡ p.config
  unfolding process settle
  process-config c p capture = ground arith

  run-config :
      (p : CapturePipeline P) (history : List (CaptureController × RawCapture))
      → (run p history).0.config ≡ p.config
  unfolding run
  run-config p [] = refl
  run-config p ((c, capture) ∷ history) =
      process-config c (run p history).0 capture ∙ run-config p history

  stored_one :
      (outcome : PipelineOutcome) (s : SnapshotCandidate)
      → accepted outcome ≡ some s
      → continues outcome ≡ false
      → outcome ≡ stored s
  stored_one (stored n) s a k = ground (arith, a)
  stored_one (deduplicated n) s a k = ground (arith, k)
  stored_one (coalesced n) s a k = ground (arith, k)
  stored_one (skipped r) s a k = ground (arith, a)

  step-IsCovered :
      (c : CaptureController) (p : CapturePipeline P) (capture : RawCapture) (t : Trace)
      (s : SnapshotCandidate)
      → ((previous : SnapshotCandidate)
          → p.pending ≡ some previous
          → IsCovered p.config.coalesce_window_ms previous t)
      → (process is_blacklisted redact digest c p capture).0.pending ≡ some s
      → IsCovered p.config.coalesce_window_ms s
          ((capture, (process is_blacklisted redact digest c p capture).1) ∷ t)
  step-IsCovered c p capture t s is h =
      let outcome = (process is_blacklisted redact digest c p capture).1 in
      let a = sym (pending-process is_blacklisted redact digest c p capture) ∙ h in
      elim (Bool-cases (continues outcome)) [
        | inl on ↦
            let (previous, held, go) =
              process-continues is_blacklisted redact digest c p capture s a on in
            goes_on p previous s capture outcome t a go (is previous held)
        | inr new_one ↦
            let new_stored = stored_one outcome s a new_one in
            let (e, f, d) = process_starts is_blacklisted redact digest c p capture s new_stored in
            subst (λ o. IsCovered p.config.coalesce_window_ms s ((capture, o) ∷ t)) (sym new_stored)
              (starts p.config.coalesce_window_ms s capture t e f)
      ]

  -- After any history from a pipeline with nothing pending, with pauses wherever they come, the
  -- pending snapshot covers captures at the end of the history: each was accepted with a candidate of
  -- the same process, bundle, title and address and the same start, and came within the window after
  -- the one before; the first was stored and came when the snapshot starts, and the last came when it
  -- was last seen.
  pub run-IsCovered :
      (p : CapturePipeline P) (history : List (CaptureController × RawCapture))
      (s : SnapshotCandidate)
      → p.pending ≡ none
      → (run p history).0.pending ≡ some s
      → IsCovered p.config.coalesce_window_ms s (run p history).1
  unfolding run
  run-IsCovered p [] s none_yet h = absurd (ground (arith, none_yet, h))
  run-IsCovered p ((c, capture) ∷ history) s none_yet h =
      let config = run-config p history in
      subst (λ k. IsCovered k.coalesce_window_ms s (run p ((c, capture) ∷ history)).1) config
        (step-IsCovered c (run p history).0 capture (run p history).1 s
          (λ previous held.
            subst (λ k. IsCovered k.coalesce_window_ms previous (run p history).1) (sym config)
              (run-IsCovered p history previous none_yet held))
          h)
