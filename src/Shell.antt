-- ===== src/Shell.antt =====
-- shell_2: the second shell. Its jobs are in Jobs.
pub mod Parse
pub mod Total
pub mod Symbols
mod Tests
