-- ===== src/Storage.antt =====
-- queryx/storage
pub mod Page
pub mod Row
pub mod File
pub mod Pager
pub mod OrderedDict
pub mod BufferPool
pub mod HeapFile
