-- ===== src/Jobs.antt =====
-- The jobs of the web interface and the gate that admits one mutation at a time
-- (src/wudup/web_job_registry.py, the submission of src/wudup/web_jobs.py, and the scan jobs of
-- src/wudup/web_security.py).
pub mod Status
pub mod Model
pub mod Gate
mod Tests
