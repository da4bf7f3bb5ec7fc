-- ===== src/Supervisor.antt =====
-- apps/woof/src-tauri/src/supervisor.rs: the desktop app's supervision of the local daemon.
mod Backoff
mod Machine
mod PauseSync
mod Recovery
mod Inner
mod Publish
mod System
mod Invariant
mod Reachable
mod Lifecycle
mod Windows
mod Examples
unfoldable pub use Backoff.{delay}
pub use Backoff.{BackoffPolicy}
