-- ===== src/Matching.antt =====
-- The matches of the update file with the services of the stacks
-- (src/wudup/updater_matching.py): repeated matches, the status of lines, the services that share
-- a network, and what the plan and the report pick.
pub mod Unique
pub mod Lines
pub mod Network
pub mod Select
mod Tests
