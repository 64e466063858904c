-- ===== src/Wal.antt =====
-- queryx/wal
pub mod Log
pub mod Recovery
