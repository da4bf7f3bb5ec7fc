-- ===== src/Realtime.antt =====
-- crates/woof-llm/src/realtime.rs: the client of the transcription service.
pub mod Reconciler
pub mod Bounds
pub mod Turn
pub mod Client
pub mod Turns
pub mod Told
mod Examples
