-- ===== src/Lib.antt =====
-- A verification library for woof, a desktop assistant: a menu-bar app (Tauri) that supervises a
-- capture daemon, takes dictation, and is called by taps and holds of a modifier key.
--
-- The program's parts, and the files that model them.
--
-- * The daemon supervisor, apps/woof/src-tauri/src/supervisor.rs: Supervisor. The app owns one
--   `DaemonSupervisor`, whose state `SupervisorInner` stands behind a mutex. Each locked section of
--   a method is one function of Supervisor/Inner (`begin_attempt` is the first of `ensure_running`,
--   `finish_attempt` its last, and so on) or of Supervisor/Publish, for what the windows are told;
--   the machine and the delays are Supervisor/Machine and Supervisor/Backoff. Supervisor/System lets the tasks that the methods start (a spawn, the watch
--   of a child, a restart timer) take their locked sections in any order, each with the generation
--   that it remembers.
-- * The modifier keys, crates/woof-inline/src/modifier.rs: Inline/Modifier. `Keys` is the vocabulary
--   with its parsing, `Machine` the state machine. The time of an input is a number of nanoseconds.
-- * Inline delivery, crates/woof-inline/src/session.rs and clipboard.rs: Inline/Delivery and
--   Inline/Clipboard. The focused element, the keyboard and the system's clipboard are the traits of
--   the code, as records of functions on a world of any type; what the clipboard promises is
--   `IsClipboard`. Inline/Delivery/Log adds a log of the calls to any such world. A panic in an
--   action is not modelled.
-- * The transcription session, crates/woof-audio/src/session.rs: Audio. `Queue` is the bounded queue
--   of the events of the service, `Session` the loop of `TranscriptionSession::run`. Its inputs (the
--   microphone, the service, the cancellation) come in any order, which allows more orders than the
--   biased `select!` of the code. The service is a future of the session's own task, so it makes no
--   step while `send_command` waits.
-- * The transcription client, crates/woof-llm/src/realtime.rs: Realtime. `Reconciler` keeps the
--   items, `Turn` counts the turns of audio, and `Client` is the loop of
--   `RealtimeTranscriptionClient::run` from the open socket on, where the event `Started` has been
--   told. Messages come decoded: JSON and the socket are inputs. Connecting is not modelled.
-- * The chat client, crates/woof-llm/src/chat.rs and error.rs: Chat. `Sse` is the decoder of
--   server-sent events, `Assembly` puts a completion together and tells its parts, `Client` is
--   `stream_chat` with its retries, and `Tools` is `stream_chat_with_tools`. The bytes of each
--   attempt, the failures of the transport and the cancellation are inputs; the decoding of JSON
--   is a parameter. `Utf8` is the test of the standard library.
-- * The transcription coordinator, apps/woof/src-tauri/src/transcription.rs: Transcription. It hears
--   the session's events (Audio/Event) and tells the windows. `Coordinator` has the calls of the
--   commands, `Audio` the handler of audio events. A cancellation token and a stop handle are the
--   numbers of these objects; a cancelled token is recorded in the coordinator's state.
-- * The capture pipeline, crates/woof-capture/src/engine.rs, model.rs and policy.rs: Capture.
--   `Node` is the Accessibility tree and what is read from it, `Truncate` the cut at a byte limit,
--   `Pipeline` the controller, the pipeline and its bounds, `Policy` the blacklist. The pipeline
--   takes the test of a policy, the redaction and the SHA-256 digest as parameters, with no law
--   assumed of them; `Policy` takes regular expressions and the url crate as parameters. The frame
--   of an element is left out, since nothing that is modelled reads it.
-- * Redaction, crates/woof-capture/src/redact.rs: Capture/Redact. `Passes` is
--   `redact_restorable` as the list of its calls, `Validate` the tests on what the patterns find. A
--   regular expression is a parameter that cuts a text into its matches and what is between them;
--   what the thirteen patterns of the file match is not modelled. `Arranged` is the view on which the
--   proofs work: a text in which placeholders stand among other characters.
-- * UTF-16 ranges, crates/woof-inline/src/utf16.rs: Inline/Utf16, with a model of the standard
--   library's encoding.
-- * The search index, crates/woof-search/src/index.rs: Search/Container, the encoding of the file in
--   which the index is saved. SHA-256 is a parameter, of which the encoding needs that a digest has 32
--   bytes; `usize` has 64 bits.
-- * The daemon, apps/woof_d/src/memory.rs: Daemon/Gate, the gate between the runs that generate
--   memories and the resets that delete them. Every run and every reset is a task that makes its
--   steps in any order with the others, one access of the shared state each. A lock is free when no
--   task holds it, which allows more orders than the fair locks of tokio.
-- * The MCP server, apps/woof-mcp/src/lib.rs: Mcp, the framing of its standard input and output.
--   `Lines` is `read_line_limited`, over the buffers that `fill_buf` gives, and `Frame` has
--   `read_frame` and `write_frame`. Errors of the system are left out, and the JSON text of a
--   message is given. What is left after a body is put into one buffer.
--   `Tools` is `tool_request`, where a JSON value is of any type and its readings by serde_json are
--   parameters.
--
-- Conventions. A text is the list of its Unicode scalar values (Prelude/Text), and its length in
-- bytes is that of its UTF-8 encoding. A word of w bits is a number, with its wrapping or saturating
-- written out (Prelude/Word); `i64` is Prelude/Int. A `Duration` and an `Instant` are numbers of
-- nanoseconds. A `HashMap` is an association list (Prelude/Table), and no law depends on its order.
-- A sound level is of any type, and its computation a parameter. Wiping strings from memory, the
-- Debug and Display texts and logging have no counterpart.
--
-- Bounds and fuel. The generation of the supervisor and the session ids wrap at 2 ^ 64: theorems on
-- whole histories of the supervisor, and the one on turns of audio, ask for fewer steps than that;
-- in Daemon/Gate fewer than 2 ^ 64 - 1 runs begin. Four functions are on fuel: `drain`, the loop that
-- empties the queue, which has one more round than the queue has events; `chunks_from`, the loop of
-- `utf16_chunks`, which has one more round than the text has units; `drain_from`, the loop of the
-- decoder's `push`, which has one more round than the buffer has bytes; and `decimal`
-- (Prelude/Decimal), which has more rounds than the number has digits. The proofs show that this is
-- enough. All other loops are structural: those of `read_frame` on the lines that its limits still
-- allow, the loop of `unique_nonce` on the draws that it makes.
--
-- Not modelled: HTTP, the process and window APIs and the readings of the daemon's JSON; the
-- redaction of captures that cannot be undone, and the macOS reader of woof-capture; the previews
-- of woof-inline and its macOS side; request encoding, keychain and connection handling of woof-llm;
-- the store (woof-storage) and the operations on the search index, which call the usearch library;
-- configuration (woof-core); the daemon less its gate; the session of the MCP server;
-- the commands of the desktop app and its user interface.
pub mod Prelude
pub mod Inline
pub mod Supervisor
pub mod Audio
pub mod Realtime
pub mod Transcription
pub mod Capture
pub mod Chat
pub mod Search
pub mod Daemon
pub mod Mcp
