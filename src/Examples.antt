-- ===== src/Examples.antt =====
-- Concrete runs: a document of two lines, a server with three clients and two accounts, and bytes,
-- texts and letters.
pub mod Documents
pub mod Edits
pub mod Positions
pub mod Accounts
pub mod Rooms
pub mod Packets
pub mod Runs
pub mod Session
pub mod Connections
pub mod Deletions
pub mod Forms
pub mod Streams
pub mod Letters
pub mod Relay
pub mod Texts
