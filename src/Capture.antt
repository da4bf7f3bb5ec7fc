-- ===== src/Capture.antt =====
-- crates/woof-capture: from the Accessibility tree of the foreground window to stored snapshots.
mod Truncate
mod Node
mod Pipeline
mod Policy
mod Redact
mod Examples
