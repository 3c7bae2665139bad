-- ===== src/Tests.antt =====
-- Tests of the definitions on small inputs, and the theorems at concrete inputs.
pub mod Fixtures
pub mod Fetching
pub mod Tracks
pub mod Histories
pub mod Sockets
pub mod Requests
pub mod Urls
pub mod Minting
pub mod Emitters
pub mod Sessions
pub mod Moves
pub mod Rooms
pub mod Screens
pub mod Lines
pub mod Twins
pub mod Answers
pub mod Storages
pub mod Starts
