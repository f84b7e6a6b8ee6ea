-- ===== src/Server.antt =====
-- cmd/server/main.go: the pings that keep the server awake, and the program that main puts together.
pub mod KeepAlive
pub mod Pinged
pub mod Program
pub mod Calls
pub mod Limited
pub mod Refined
