-- ===== src/Realtime.antt =====
-- internal/realtime: the hub with its users, rooms, channels and client queues.
pub mod State
pub mod Send
pub mod Secrets
pub mod Channels
pub mod Admission
pub mod Join
pub mod Invariant
pub mod LeaveRoom
pub mod Leave
pub mod Prepare
pub mod Enter
pub mod Upkeep
pub mod Interleaving
pub mod Threads
pub mod Runs
pub mod Refined
pub mod Joined
pub mod Delivery
pub mod Quality
pub mod QualityBounds
pub mod QualityLoop
pub mod Events
pub mod Relay
pub mod Spoken
pub mod Lifecycle
pub mod Removed
pub mod Departed
pub mod Expiry
pub mod Race
pub mod Keyed
pub mod Listing
pub mod Configured
pub mod Pumps
pub mod Fifo
pub mod Writes
pub mod Only
pub mod Order
pub mod Ordered
pub mod Posted
pub mod Status
pub mod Arrival
