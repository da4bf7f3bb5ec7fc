-- ===== src/Search.antt =====
-- crates/woof-search: the file of the search index.
pub mod Container
mod Examples
