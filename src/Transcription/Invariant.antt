-- ===== src/Transcription/Invariant.antt =====
-- apps/woof/src-tauri/src/transcription.rs: what holds of the active session between two calls.
use woof.Prelude.{
  ℕ, ◌≤◌, ◌<◌, Bool, true, false, not, ◌&&◌, ◌||◌, Option, none, some, List, [], ◌∷◌, ◌==◌, ◌≡◌,
  refl, arith, length, length-append, leb, ltb, is_some,
}
use woof.Prelude.Text.{Text, text_eq_iff}
use woof.Prelude.Table.{contains, contains-append, get, contains_key, get-insert}
use woof.Audio.Event.{AudioEvent}
use woof.Transcription.Session.{
  max_transcription_items, is_listening, is_cancelling, ItemState, ActiveSession,
  TranscriptionCoordinator,
}
use woof.Transcription.Coordinator.{default_coordinator}
use woof.Transcription.Trace.{
  Call, reserves, attaches, finalizes, cancels, limits, hears, completes, fails, call, run,
}

abbrev same : Bool → Bool → Bool
same true b = b
same false b = not b

-- Of a session: its end has been told exactly when it is being cancelled, it has an id other than
-- 0 and a token of that name, it holds at most the allowed number of items, and it listens only
-- with the microphone attached.
abbrev pub is_good : ActiveSession → Bool
is_good a =
    same a.terminal_emitted (is_cancelling a.phase)
    && ltb 0 a.id
    && a.cancellation == a.id
    && leb (length a.item_order) max_transcription_items
    && (not (is_listening a.phase) || is_some a.capture_stop)

abbrev pub all_good : Option ActiveSession → Bool
all_good none = true
all_good (some a) = is_good a

abbrev order : Option ActiveSession → List Text
order none = []
order (some a) = a.item_order

module _ {L : Type 0} (clamp_unit : L → L) where
  hears-good :
      (c : TranscriptionCoordinator) (id now : ℕ) (event : AudioEvent L)
      → all_good c.active ≡ true
      → all_good (call clamp_unit c (hears id event now)).0.active ≡ true
  unfolding call
  hears-good c id now AudioEvent.start g = ground arith
  hears-good c id now (AudioEvent.level normalized) g = ground arith
  hears-good c id now AudioEvent.processing g = ground arith
  hears-good c id now (AudioEvent.delta item_id text) g =
      ground (arith, length-append (order c.active) (item_id ∷ []))
  hears-good c id now (AudioEvent.done item_id text) g =
      ground (arith, length-append (order c.active) (item_id ∷ []))
  hears-good c id now AudioEvent.cancel g = ground arith

  pub call-good :
      (c : TranscriptionCoordinator) (k : Call L)
      → all_good c.active ≡ true
      → all_good (call clamp_unit c k).0.active ≡ true
  unfolding call
  call-good c (reserves trigger) g = ground arith
  call-good c (attaches id stop) g = ground arith
  call-good c finalizes g = ground arith
  call-good c cancels g = ground arith
  call-good c (limits id) g = ground arith
  call-good c (hears id event now) g = hears-good c id now event g
  call-good c (completes id transcript) g = ground arith
  call-good c (fails id failed) g = ground arith

  pub run-good :
      (c : TranscriptionCoordinator) (ks : List (Call L))
      → all_good c.active ≡ true
      → all_good (run clamp_unit c ks).0.active ≡ true
  unfolding run
  run-good c [] g = g
  run-good c (k ∷ ks) g = run-good (call clamp_unit c k).0 ks (call-good c k g)

  -- After any history of calls from the start, the active session, if there is one, has told its
  -- end exactly when it is being cancelled, has an id other than 0, holds at most the allowed
  -- number of items, and listens only with a microphone attached.
  pub run_session :
      (ks : List (Call L)) (a : ActiveSession)
      → (run clamp_unit default_coordinator ks).0.active ≡ some a
      → (a.terminal_emitted ≡ is_cancelling a.phase)
        × (0 < a.id)
        × (length a.item_order ≤ max_transcription_items)
        × (is_listening a.phase ≡ true → is_some a.capture_stop ≡ true)
  unfolding default_coordinator
  run_session ks a h = ground (arith, run-good default_coordinator ks refl)

  -- Whether a key of the items is in their order, and the other way round.
  abbrev listed : Text → Option ActiveSession → Bool
  listed k none = true
  listed k (some a) = same (contains_key k a.items) (contains k a.item_order)

  abbrev items : Option ActiveSession → List (Text × ItemState)
  items none = []
  items (some a) = a.items

  hears-listed :
      (k : Text) (c : TranscriptionCoordinator) (id now : ℕ) (event : AudioEvent L)
      → listed k c.active ≡ true
      → listed k (call clamp_unit c (hears id event now)).0.active ≡ true
  unfolding call
  hears-listed k c id now AudioEvent.start g = ground arith
  hears-listed k c id now (AudioEvent.level normalized) g = ground arith
  hears-listed k c id now AudioEvent.processing g = ground arith
  hears-listed k c id now (AudioEvent.delta item_id text) g = ground (
    arith,
    contains-append k item_id (order c.active),
    get-insert item_id k (record { text = text; completed = false }) (items c.active),
    text_eq_iff item_id k,
  )
  hears-listed k c id now (AudioEvent.done item_id text) g = ground (
    arith,
    contains-append k item_id (order c.active),
    get-insert item_id k (record { text = text; completed = true }) (items c.active),
    text_eq_iff item_id k,
  )
  hears-listed k c id now AudioEvent.cancel g = ground arith

  call-listed :
      (k : Text) (c : TranscriptionCoordinator) (e : Call L)
      → listed k c.active ≡ true
      → listed k (call clamp_unit c e).0.active ≡ true
  unfolding call contains get
  call-listed k c (reserves trigger) g = ground arith
  call-listed k c (attaches id stop) g = ground arith
  call-listed k c finalizes g = ground arith
  call-listed k c cancels g = ground arith
  call-listed k c (limits id) g = ground arith
  call-listed k c (hears id event now) g = hears-listed k c id now event g
  call-listed k c (completes id transcript) g = ground arith
  call-listed k c (fails id failed) g = ground arith

  run-listed :
      (k : Text) (c : TranscriptionCoordinator) (es : List (Call L))
      → listed k c.active ≡ true
      → listed k (run clamp_unit c es).0.active ≡ true
  unfolding run
  run-listed k c [] g = g
  run-listed k c (e ∷ es) g = run-listed k (call clamp_unit c e).0 es (call-listed k c e g)

  -- After any history of calls from the start, the order of the active session's items lists
  -- exactly the ids that have an item.
  pub run_order :
      (k : Text) (es : List (Call L)) (a : ActiveSession)
      → (run clamp_unit default_coordinator es).0.active ≡ some a
      → contains_key k a.items ≡ contains k a.item_order
  unfolding default_coordinator
  run_order k es a h = ground (arith, run-listed k default_coordinator es refl)
