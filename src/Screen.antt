-- ===== src/Screen.antt =====
-- internal/realtime/screen.go: screen sharing, its signals between two sessions of a room, and the
-- cleaning of what they carry. HandleEvent does not reach these handlers.
pub mod Sdp
pub mod Clean
pub mod Fine
pub mod Handlers
pub mod Signals
pub mod Lines
pub mod Stale
