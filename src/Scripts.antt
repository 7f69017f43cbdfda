-- ===== src/Scripts.antt =====
-- Scripts and their instances, src/gz_script.cpp, in part.
pub mod Instances
pub mod Refresh
mod Tests
