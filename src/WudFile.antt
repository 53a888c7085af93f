-- ===== src/WudFile.antt =====
-- The update file of What's Up Docker (src/wudup/wud_file.py): its lines, its targets, and the
-- removal and the return of lines.
pub mod Lines
pub mod Target
pub mod Parse
pub mod Rewrite
mod Tests
