-- ===== src/Tests.antt =====
-- Examples: the functions on inputs that can be followed in the Go code, and the theorems at inputs
-- that meet their conditions.
pub mod Samples
mod Settings
mod Util
mod Store
mod Hub
mod Joining
mod Listing
mod Api
mod Config
mod Screen
mod Pumps
mod Zones
mod Ready
mod Chat
mod Program
mod Race
