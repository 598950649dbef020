-- ===== src/Node/Service.antt =====
-- node/src/service.rs: the parts of a client (`new_partial`), and the whole node (`new_full`).
pub mod Partial
pub mod Full
pub mod Sequence
pub mod Spawning
pub mod Progress
pub mod Calls
pub mod FailFast
pub mod Failing
pub mod Inherents
pub mod Timing
pub mod Tests
