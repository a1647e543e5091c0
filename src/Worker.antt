-- ===== src/Worker.antt =====
-- internal/infrastructure/worker: goroutines and channels, as steps on what they share.
pub mod Dispatcher
pub mod Tally
pub mod Accounts
pub mod Moves
pub mod Measure
pub mod Manned
pub mod Ends
pub mod Pool
pub mod Crew
pub mod Accepted
pub mod Joining
