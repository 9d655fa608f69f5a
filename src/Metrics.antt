-- ===== src/Metrics.antt =====
-- backend/app/database.py: raw metrics, their summaries, and what may be deleted.
pub mod Tables
pub mod Advance
pub mod Cleanup
pub mod Downsample
pub mod Minimum
pub mod Progress
pub mod Scan
pub mod Floor
pub mod Order
pub mod Cursor
pub mod Generation
pub mod Publication
pub mod Exact
pub mod Ids
pub mod Retention
pub mod Sealing
pub mod Sealed
pub mod Tests
