-- ===== src/Pool/Consistency.antt =====
-- The invariant of the pool, and that every method keeps it.
mod Defs
mod Moves
mod Additions
mod Methods
mod Release
pub use Defs.*
pub use Moves.{candidate-lem, SameBlocks-IsConsistent}
pub use Methods.{allocate-IsConsistent, reserve_lem, reserved_block, reserved_pool}
pub use Release.{free-IsConsistent, assign_uid-IsConsistent, mark_published-IsConsistent}
