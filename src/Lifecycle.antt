-- ===== src/Lifecycle.antt =====
-- The update of one stack (src/wudup/updater_lifecycle.py and its parts): the rewrites of the
-- Compose file, the pull, the recreation with its health gate, and the way back after a failure.
pub mod Run
pub mod Rules
pub mod Persistence
pub mod Rollback
pub mod Rewrite
pub mod Pull
pub mod Recreate
pub mod Update
pub mod Health
pub mod ContainerImages
pub mod Safety
mod Tests
