-- ===== src/Index.antt =====
-- The indexes of queryx/index.
pub mod HashIndex
pub mod BTree
