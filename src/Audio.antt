-- ===== src/Audio.antt =====
-- crates/woof-audio: from the microphone and the transcription service to the desktop app.
pub mod Event
pub mod Queue
pub mod Session
mod Examples
