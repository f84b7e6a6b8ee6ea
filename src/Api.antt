-- ===== src/Api.antt =====
-- internal/api/server.go: the calls of Supabase, the handlers, and the server that they make up.
pub mod Supabase
pub mod Retry
pub mod Access
pub mod Guards
pub mod ZoneValues
pub mod Zones
pub mod ZoneValid
pub mod ZoneChecks
pub mod ZoneReads
pub mod Ready
pub mod ReadyCache
pub mod Public
pub mod Serve
pub mod Served
pub mod Origins
