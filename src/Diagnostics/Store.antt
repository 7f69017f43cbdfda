-- ===== src/Diagnostics/Store.antt =====
-- src/diagnostics/gz_diagnostic_store.hpp and gz_diagnostic_store.cpp: the state of the store, its
-- operations and its snapshots. A method takes the store and returns it with its result; the
-- mutex makes each method one step, so threads are sequences of these steps. `documents_` and
-- `changed_set_` are kept in the order of insertion; counters and generations wrap at 2 ^ 64.
-- `Store/Batch` has `normalize_batch`, over the `std::sort` in use.
pub mod State
pub mod Batch
pub mod Defs
pub mod Invariant
pub mod Keeps
pub mod Clears
pub mod ClearAll
pub mod Reach
pub mod Spec
pub mod Refine
pub mod Contract
pub mod Generations
pub mod Snapshots
