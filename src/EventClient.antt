-- ===== src/EventClient.antt =====
-- EventClient.h and EventClient.cpp: the event client of one thread.
pub mod Defs
pub mod Pairs
pub mod Walk
pub mod Delivery
pub mod Locally
pub mod Registry
pub mod Filters
pub mod Released
pub mod Reentry
pub mod Grown
pub mod Growth
pub mod Refines
pub mod Path
pub mod Gate
pub mod Kept
pub mod Bus
pub mod Lifecycle
pub mod Shut
