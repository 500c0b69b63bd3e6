-- ===== src/Shell.antt =====
-- The shell under bin/sbush/.
pub mod Parser
pub mod Pipes
pub mod Process
pub mod Execute
pub mod Commands
pub mod Listing
pub mod Session
pub mod Script
pub mod Release
