-- ===== src/Commitment.antt =====
-- pipelines/calculations/commitment_resolver.py: which commitment rule holds for a board.
pub mod Rules
pub mod Queries
pub mod Sorted
pub mod Best
pub mod Equivalence
mod Tests
