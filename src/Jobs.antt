-- ===== src/Jobs.antt =====
-- jobs/landing: the jobs that prepare the landing of files and that land them.
pub mod Runs
pub mod Checklists
pub mod Landing
pub mod Prepare
