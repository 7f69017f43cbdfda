-- ===== src/Diagnostics.antt =====
-- src/diagnostics: the diagnostic model, the paths that identify documents, the store and the
-- conversion for Godot.
pub mod Model
pub mod Path
pub mod Store
pub mod Adapter
mod Tests
