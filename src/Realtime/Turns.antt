-- ===== src/Realtime/Turns.antt =====
-- crates/woof-llm/src/realtime.rs: turns of audio, from the first sample to the transcript.
use woof.Prelude.{
  ℕ, suc, ◌+◌, ◌≤◌, Bool, true, false, not, ◌&&◌, ◌||◌, Option, none, some, List, [], ◌∷◌, ◌++◌,
  ◌≡◌, refl, arith, leb, if◌then◌else◌, length, is_some, inl, inr, Option-cases,
}
use woof.Prelude.Text.{Text}
use woof.Prelude.Int.{ℤ}
use woof.Audio.Queue.{started, level, processing, partial, done}
use woof.Audio.Session.{
  RealtimeError, Result, ok, err, AudioCommand, append_pcm16, commit, clear, finish,
}
use woof.Realtime.Turn
use woof.Realtime.Turn.{
  TurnState, default_turn, FinishDisposition, commit_and_wait, wait, usize_max,
}
use woof.Realtime.Client.{
  Client, begin, ServerEvent, item_created, transcription_delta, transcription_completed, failed,
  other, Input, cancels, deadline_passes, command_comes, message_comes, Output, tells, appended,
  committed, cleared, closed, hear, obey, select, step, run,
}

abbrev pub is_ok : Option (Result Text RealtimeError) → Bool
is_ok (some (ok t)) = true
is_ok _ = false

module _ {L : Type 0} where
  abbrev pub commits : List (Output L) → ℕ
  commits [] = 0
  commits (committed ∷ es) = suc (commits es)
  commits (e ∷ es) = commits es

  -- The finals that were told.
  abbrev pub dones : List (Output L) → ℕ
  dones [] = 0
  dones (tells (done i t) ∷ es) = suc (dones es)
  dones (e ∷ es) = dones es

  abbrev pub has_closed : List (Output L) → Bool
  has_closed [] = false
  has_closed (closed ∷ es) = true
  has_closed (e ∷ es) = has_closed es

  counts-append :
      (es fs : List (Output L))
      → (commits (es ++ fs) ≡ commits es + commits fs)
        × (dones (es ++ fs) ≡ dones es + dones fs)
        × (has_closed (es ++ fs) ≡ (has_closed es || has_closed fs))
  counts-append [] fs = ground arith
  counts-append (tells started ∷ es) fs = counts-append es fs
  counts-append (tells (level n) ∷ es) fs = counts-append es fs
  counts-append (tells processing ∷ es) fs = counts-append es fs
  counts-append (tells (partial i t) ∷ es) fs = counts-append es fs
  counts-append (tells (done i t) ∷ es) fs = ground (arith, counts-append es fs)
  counts-append (appended ∷ es) fs = counts-append es fs
  counts-append (committed ∷ es) fs = ground (arith, counts-append es fs)
  counts-append (cleared ∷ es) fs = counts-append es fs
  counts-append (closed ∷ es) fs = ground (arith, counts-append es fs)

-- After `n` steps with `k` commits, `d` finals told, and the socket closed or not.
abbrev counted : Client → ℕ → ℕ → ℕ → Bool → Bool
counted c n k d z =
    leb c.turn_state.pending_transcriptions n
    && (if is_some c.result
        then not (is_ok c.result && z) || leb k d
        else not z && leb k (c.turn_state.pending_transcriptions + d))

counted-hear :
    (L : Type 0) (c : Client) (e : ServerEvent) (n k d : ℕ) (z : Bool)
    → c.result ≡ none
    → counted c n k d z ≡ true
    → let (c', out) = hear {L = L} c e in
      counted c' (suc n) (k + commits out) (d + dones out) (z || has_closed out) ≡ true
unfolding hear Turn.completed
counted-hear L c (item_created none) n k d z r h = ground arith
counted-hear L c (item_created (some i)) n k d z r h = ground arith
counted-hear L c (transcription_delta none none) n k d z r h = ground arith
counted-hear L c (transcription_delta none (some t)) n k d z r h = ground arith
counted-hear L c (transcription_delta (some i) none) n k d z r h = ground arith
counted-hear L c (transcription_delta (some i) (some t)) n k d z r h = ground arith
counted-hear L c (transcription_completed none none) n k d z r h = ground arith
counted-hear L c (transcription_completed none (some t)) n k d z r h = ground arith
counted-hear L c (transcription_completed (some i) none) n k d z r h = ground arith
counted-hear L c (transcription_completed (some i) (some t)) n k d z r h = ground arith
counted-hear L c (failed e) n k d z r h = ground arith
counted-hear L c other n k d z r h = ground arith

module _ {L : Type 0} (normalized_level : List ℤ → L) where
  counted-obey :
      (c : Client) (command : AudioCommand) (failure : Option RealtimeError) (n k d : ℕ) (z : Bool)
      → suc n ≤ usize_max
      → c.result ≡ none
      → counted c n k d z ≡ true
      → let (c', out) = obey normalized_level c command failure in
        counted c' (suc n) (k + commits out) (d + dones out) (z || has_closed out) ≡ true
  unfolding obey Turn.append Turn.clear Turn.commit Turn.finish
  counted-obey c (append_pcm16 []) failure n k d z b r h = ground arith
  counted-obey c (append_pcm16 (x ∷ xs)) failure n k d z b r h = ground arith
  counted-obey c commit failure n k d z b r h = ground arith
  counted-obey c clear failure n k d z b r h = ground arith
  counted-obey c finish failure n k d z b r h = ground arith

  counted-select :
      (c : Client) (i : Input) (n k d : ℕ) (z : Bool)
      → suc n ≤ usize_max
      → c.result ≡ none
      → counted c n k d z ≡ true
      → let (c', out) = select normalized_level c i in
        counted c' (suc n) (k + commits out) (d + dones out) (z || has_closed out) ≡ true
  unfolding select
  counted-select c cancels n k d z b r h = ground arith
  counted-select c deadline_passes n k d z b r h = ground arith
  counted-select c (command_comes none f) n k d z b r h = ground arith
  counted-select c (command_comes (some command) f) n k d z b r h =
      counted-obey c command f n k d z b r h
  counted-select c (message_comes none) n k d z b r h = ground arith
  counted-select c (message_comes (some (err e))) n k d z b r h = ground arith
  counted-select c (message_comes (some (ok none))) n k d z b r h = ground arith
  counted-select c (message_comes (some (ok (some e)))) n k d z b r h =
      counted-hear L c e n k d z r h

  -- A client that has ended only counts the steps.
  counted-ended :
      (c : Client) (n k d : ℕ) (z : Bool)
      → counted c n k d z ≡ true
      → counted c (suc n) (k + 0) (d + 0) (z || false) ≡ true
  counted-ended c n k d z h = ground arith

  counted-step :
      (c : Client) (i : Input) (n k d : ℕ) (z : Bool)
      → suc n ≤ usize_max
      → counted c n k d z ≡ true
      → let (c', out) = step normalized_level c i in
        counted c' (suc n) (k + commits out) (d + dones out) (z || has_closed out) ≡ true
  unfolding step
  counted-step c i n k d z b h = elim (Option-cases c.result) [
    | inl running ↦
        let e : is_some c.result ≡ false = rw running refl in
        simp e (counted-select c i n k d z b running h)
    | inr (r, ended) ↦
        let e : is_some c.result ≡ true = rw ended refl in
        let idle : step normalized_level c i ≡ (c, []) = simp e refl in
        rw idle (counted-ended c n k d z h)
  ]

  counted-run :
      (c : Client) (is : List Input) (n k d : ℕ) (z : Bool)
      → n + length is ≤ usize_max
      → counted c n k d z ≡ true
      → let (c', out) = run normalized_level c is in
        counted c' (n + length is) (k + commits out) (d + dones out) (z || has_closed out) ≡ true
  unfolding run
  counted-run c [] n k d z b h = ground arith
  counted-run c (i ∷ is) n k d z b h =
      let (c', out) = step normalized_level c i in
      let (c'', rest) = run normalized_level c' is in
      let next =
        counted-run c' is (suc n) (k + commits out) (d + dones out) (z || has_closed out)
          (omega arith) (counted-step c i n k d z (omega arith) h) in
      let (ks, ds, zs) = counts-append out rest in ground (arith, next, ks, ds, zs)

  -- A client that ends with a transcript and closes the socket itself has told at least as many finals
  -- as it made commits, where the steps fit a machine word.
  pub run_turns :
      (is : List Input)
      → length is ≤ usize_max
      → is_ok (run normalized_level begin is).0.result ≡ true
      → has_closed (run normalized_level begin is).1 ≡ true
      → commits (run normalized_level begin is).1 ≤ dones (run normalized_level begin is).1
  run_turns is b o z =
      let good =
        counted-run begin is 0 0 0 false (omega arith) (unfold begin default_turn in refl) in
      ground (arith, good)
