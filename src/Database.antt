-- ===== src/Database.antt =====
-- database/db.c: the binary tree of names and values behind the server.
pub mod Tree
pub mod Search
pub mod Update
pub mod Print
pub mod Sorted
pub mod Finds
pub mod Valid
pub mod AtPlace
pub mod Correct
pub mod Remove
pub mod Overflow
pub mod Locks
pub mod Releases
pub mod Command
pub mod Words
pub mod Executes
pub mod CommandSafe
mod Tests
