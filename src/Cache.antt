-- ===== src/Cache.antt =====
-- crates/bridge-cache: the byte cache with pins, reservations and eviction. A call is one or two
-- critical sections of the mutex; each is a function from the state to the state and a result.
pub mod Types
pub mod Accounts
pub mod Reserve
pub mod Leases
pub mod Clear
pub mod Heat
pub mod System
