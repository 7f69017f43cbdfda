-- ===== src/Build.antt =====
-- The build manager, src/gz_build_manager.cpp, in part.
pub mod Sources
pub mod Queue
pub mod Identity
pub mod Cache
pub mod Dependencies
pub mod Plan
pub mod Scheduler
mod Tests
