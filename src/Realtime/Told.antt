-- ===== src/Realtime/Told.antt =====
-- crates/woof-llm/src/realtime.rs: the items whose finals a client tells.
use woof.Prelude.{
  suc, ◌≤◌, Bool, true, not, ◌&&◌, ◌||◌, Option, none, some, List, [], ◌∷◌, ◌++◌, ◌≡◌, refl, sym,
  ap, ◌∙◌, arith, length, inl, inr, ◌⊎◌,
}
use mathlib.Core.Path.{subst}
use woof.Prelude.Text.{Text}
use woof.Prelude.Table.{contains}
use woof.Prelude.Int.{ℤ}
use woof.Audio.Queue.{started, level, processing, partial, done}
use woof.Audio.Session.{RealtimeError, ok, err, AudioCommand, append_pcm16, commit, clear, finish}
use woof.Realtime.Turn
use woof.Realtime.Turn.{usize_max}
use woof.Realtime.Client.{
  Client, begin, item_created, transcription_delta, transcription_completed, failed, other, Input,
  cancels, deadline_passes, command_comes, message_comes, Output, tells, appended, committed,
  cleared, closed, hear, obey, select, step, run,
}
use woof.Realtime.Turns.{commits, dones, is_ok, has_closed, run_turns}

-- The item that a message completes.
abbrev pub completed_id : Input → List Text
completed_id (message_comes (some (ok (some (transcription_completed (some i) (some t)))))) = i ∷ []
completed_id _ = []

abbrev pub completed_ids : List Input → List Text
completed_ids [] = []
completed_ids (i ∷ is) = completed_id i ++ completed_ids is

unfoldable pub are_distinct : List Text → Bool
are_distinct [] = true
are_distinct (s ∷ l) = not (contains s l) && are_distinct l

contains-append_or :
    (s : Text) (l m : List Text) → contains s (l ++ m) ≡ (contains s l || contains s m)
unfolding contains
contains-append_or s [] m = refl
contains-append_or s (t ∷ l) m = ground (arith, contains-append_or s l m)

module _ {L : Type 0} where
  -- The items whose finals were told.
  abbrev pub done_ids : List (Output L) → List Text
  done_ids [] = []
  done_ids (tells (done i t) ∷ es) = i ∷ done_ids es
  done_ids (e ∷ es) = done_ids es

  done_ids-append : (es fs : List (Output L)) → done_ids (es ++ fs) ≡ done_ids es ++ done_ids fs
  done_ids-append [] fs = refl
  done_ids-append (tells started ∷ es) fs = done_ids-append es fs
  done_ids-append (tells (level n) ∷ es) fs = done_ids-append es fs
  done_ids-append (tells processing ∷ es) fs = done_ids-append es fs
  done_ids-append (tells (partial i t) ∷ es) fs = done_ids-append es fs
  done_ids-append (tells (done i t) ∷ es) fs = ap (λ l. i ∷ l) (done_ids-append es fs)
  done_ids-append (appended ∷ es) fs = done_ids-append es fs
  done_ids-append (committed ∷ es) fs = done_ids-append es fs
  done_ids-append (cleared ∷ es) fs = done_ids-append es fs
  done_ids-append (closed ∷ es) fs = done_ids-append es fs

  length-done_ids : (es : List (Output L)) → length (done_ids es) ≡ dones es
  length-done_ids [] = refl
  length-done_ids (tells started ∷ es) = length-done_ids es
  length-done_ids (tells (level n) ∷ es) = length-done_ids es
  length-done_ids (tells processing ∷ es) = length-done_ids es
  length-done_ids (tells (partial i t) ∷ es) = length-done_ids es
  length-done_ids (tells (done i t) ∷ es) = ap suc (length-done_ids es)
  length-done_ids (appended ∷ es) = length-done_ids es
  length-done_ids (committed ∷ es) = length-done_ids es
  length-done_ids (cleared ∷ es) = length-done_ids es
  length-done_ids (closed ∷ es) = length-done_ids es

  -- The finals that one message tells.
  abbrev IsTold : List Text → List (Output L) → Type 0
  IsTold ids es = (done_ids es ≡ []) ⊎ (done_ids es ≡ ids)

are_distinct-tail : (l m : List Text) → are_distinct (l ++ m) ≡ true → are_distinct m ≡ true
unfolding are_distinct
are_distinct-tail [] m h = h
are_distinct-tail (s ∷ l) m h = are_distinct-tail l m (ground (arith, h))

at_most_one :
    {L : Type 0} (i : Input) (is : List Input) (rest : List (Output L))
    → are_distinct (completed_id i ++ completed_ids is) ≡ true
    → are_distinct (done_ids rest) ≡ true
    → ((s : Text) → contains s (done_ids rest) ≡ true → contains s (completed_ids is) ≡ true)
    → are_distinct (completed_id i ++ done_ids rest) ≡ true
unfolding are_distinct
at_most_one (message_comes (some (ok (some (transcription_completed (some i) (some t)))))) is rest h
      k f =
    ground (arith, h, k, f i)
at_most_one i is rest h k f = k

module _ {L : Type 0} (normalized_level : List ℤ → L) where
  obey-silent :
      (c : Client) (command : AudioCommand) (failure : Option RealtimeError)
      → done_ids (obey normalized_level c command failure).1 ≡ []
  unfolding obey Turn.append Turn.clear Turn.commit Turn.finish
  obey-silent c (append_pcm16 []) failure = refl
  obey-silent c (append_pcm16 (x ∷ xs)) failure = ground arith
  obey-silent c commit failure = ground arith
  obey-silent c clear failure = ground arith
  obey-silent c finish failure = ground arith

  select-IsTold : (c : Client) (i : Input) → IsTold (completed_id i) (select normalized_level c i).1
  unfolding select hear Turn.completed
  select-IsTold c cancels = inl refl
  select-IsTold c deadline_passes = inl (ground arith)
  select-IsTold c (command_comes none f) = inl refl
  select-IsTold c (command_comes (some command) f) = inl (obey-silent c command f)
  select-IsTold c (message_comes none) = inl refl
  select-IsTold c (message_comes (some (err e))) = inl refl
  select-IsTold c (message_comes (some (ok none))) = inl refl
  select-IsTold c (message_comes (some (ok (some (item_created none))))) = inl refl
  select-IsTold c (message_comes (some (ok (some (item_created (some i)))))) = inl (ground arith)
  select-IsTold c (message_comes (some (ok (some (transcription_delta none none))))) = inl refl
  select-IsTold c (message_comes (some (ok (some (transcription_delta none (some t)))))) = inl refl
  select-IsTold c (message_comes (some (ok (some (transcription_delta (some i) none))))) = inl refl
  select-IsTold c (message_comes (some (ok (some (transcription_delta (some i) (some t)))))) =
      inl (ground arith)
  select-IsTold c (message_comes (some (ok (some (transcription_completed none none))))) = inl refl
  select-IsTold c (message_comes (some (ok (some (transcription_completed none (some t)))))) =
      inl refl
  select-IsTold c (message_comes (some (ok (some (transcription_completed (some i) none))))) =
      inl refl
  select-IsTold c (message_comes (some (ok (some (transcription_completed (some i) (some t)))))) =
      ground arith
  select-IsTold c (message_comes (some (ok (some (failed e))))) = inl refl
  select-IsTold c (message_comes (some (ok (some other)))) = inl refl

  step-IsTold : (c : Client) (i : Input) → IsTold (completed_id i) (step normalized_level c i).1
  unfolding step
  step-IsTold c i = ground (arith, select-IsTold c i)

  told_in :
      (c : Client) (is : List Input) (s : Text)
      → contains s (done_ids (run normalized_level c is).1) ≡ true
      → contains s (completed_ids is) ≡ true
  unfolding run contains
  told_in c [] s h = h
  told_in c (i ∷ is) s h =
      let (c', out) = step normalized_level c i in
      let rest = (run normalized_level c' is).1 in
      let both : (contains s (done_ids out) || contains s (done_ids rest)) ≡ true =
        sym (
          ap (contains s) (done_ids-append out rest)
          ∙ contains-append_or s (done_ids out) (done_ids rest))
        ∙ h in
      let later = told_in c' is s in
      let split = contains-append_or s (completed_id i) (completed_ids is) in
      elim (step-IsTold c i) [
        | inl silent ↦ ground (arith, both, later, split, ap (contains s) silent)
        | inr told ↦ ground (arith, both, later, split, ap (contains s) told)
      ]

  run-distinct :
      (c : Client) (is : List Input)
      → are_distinct (completed_ids is) ≡ true
      → are_distinct (done_ids (run normalized_level c is).1) ≡ true
  unfolding run are_distinct
  run-distinct c [] h = refl
  run-distinct c (i ∷ is) h =
      let (c', out) = step normalized_level c i in
      let rest = (run normalized_level c' is).1 in
      let later = run-distinct c' is (are_distinct-tail (completed_id i) (completed_ids is) h) in
      subst (λ l. are_distinct l ≡ true) (sym (done_ids-append out rest))
        (elim (step-IsTold c i) [
          | inl silent ↦ subst (λ l. are_distinct (l ++ done_ids rest) ≡ true) (sym silent) later
          | inr told ↦
              subst (λ l. are_distinct (l ++ done_ids rest) ≡ true) (sym told)
                (at_most_one i is rest h later (told_in c' is))
        ])

  -- A client that ends with a transcript and closes the socket itself, where the service completes
  -- no item twice and the steps fit a machine word, has told at least as many finals as it made
  -- commits, and they are of different items.
  pub run_finals :
      (is : List Input)
      → length is ≤ usize_max
      → are_distinct (completed_ids is) ≡ true
      → is_ok (run normalized_level begin is).0.result ≡ true
      → has_closed (run normalized_level begin is).1 ≡ true
      → let out = (run normalized_level begin is).1 in
        (commits out ≤ length (done_ids out)) × (are_distinct (done_ids out) ≡ true)
  run_finals is b d o z = (
    omega (
      arith,
      run_turns normalized_level is b o z,
      length-done_ids (run normalized_level begin is).1,
    ),
    run-distinct begin is d,
  )
