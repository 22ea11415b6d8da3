-- ===== src/Rules.antt =====
-- pkg/rules: rules, their matching and their store.
pub mod Types
pub mod PathMatch
pub mod Matcher
pub mod Config
pub mod Store
pub mod Watcher
