-- ===== src/Util.antt =====
-- internal/util/sanitize.go: the cleaning of names, rooms, devices, colours and audio texts.
pub mod Runes
pub mod Pieces
pub mod Trim
pub mod Sanitize
pub mod Bounds
pub mod DataUrl
pub mod Redact
pub mod Cleaners
