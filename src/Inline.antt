-- ===== src/Inline.antt =====
-- crates/woof-inline: the modifier keys, and the delivery of text to the focused element.
pub mod Modifier
pub mod Clipboard
pub mod Delivery
pub mod Utf16
mod Examples
