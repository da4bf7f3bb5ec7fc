-- ===== src/Transcription.antt =====
-- apps/woof/src-tauri/src/transcription.rs: the coordinator of transcription sessions, which turns
-- audio events and user commands into events for the windows.
mod Session
mod Coordinator
mod Audio
mod Trace
mod Invariant
mod Listener
mod Control
mod Examples
