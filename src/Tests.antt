-- ===== src/Tests.antt =====
-- A small world in which the hypotheses of the theorems hold, and the theorems applied in it.
pub mod Sandbox
pub mod Codes
pub mod Links
pub mod Creation
pub mod Events
pub mod Answers
pub mod Migrations
pub mod Replays
pub mod Races
pub mod Rounds
pub mod Startup
pub mod Server
