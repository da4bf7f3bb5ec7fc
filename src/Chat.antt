-- ===== src/Chat.antt =====
-- crates/woof-llm/src/chat.rs: the streamed completions of the chat client.
pub mod Sse
pub mod Utf8
pub mod Assembly
pub mod Client
pub mod Tools
mod Examples
