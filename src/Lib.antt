-- ===== src/Lib.antt =====
-- QueryX: a small relational database in Python, modelled from its storage up.
--
-- The program. A table is a heap file of slotted 4KB pages. Pages are cached by a buffer pool and
-- kept in a file by a pager, which appends every page to a write-ahead log before it writes it and
-- replays the log when it opens. Indexes keep their own pages in the same way. A catalog holds the
-- schemas. SQL text goes through a lexer and a parser to an AST, which the executor evaluates.
--
-- The files, and what they model:
--   Common, Common/*       shared: Boolean tests, lists, integers, Python's exceptions as a result
--                          type, methods that change an object (Exec), byte strings, the codes of
--                          `struct`, a stable sort, and dictionaries with string keys.
--   Storage/Page, Page/*   the class Page of queryx/storage/page.py: a page is its 4096 bytes. Its
--                          abstract view is the list of its cells (Page/Layout.contents).
--   Storage/Row, Row/*     serialize_row and deserialize_row of the same file.
--   Storage/File           a file as its bytes, and reads and writes in it.
--   Storage/Pager, Pager/* the class Pager of queryx/storage/pager.py: the state is the file, the
--                          log, the free list and whether the object is closed.
--   Wal/Log, Wal/Recovery  queryx/wal/log.py and queryx/wal/recovery.py.
--   Storage/OrderedDict    Python's OrderedDict with page numbers for keys.
--   Storage/BufferPool     the class BufferPool of queryx/storage/buffer_pool.py; what a client
--                          reads is BufferPool/Valid.view. Admit, Pages, Grow, Change and Flush
--                          are about its methods.
--   Storage/HeapFile       the class HeapFile of queryx/storage/heap_file.py; its rows are
--                          HeapFile/Valid.cells, the cells of each page of the view.
--   Index/HashIndex        the class HashIndex of queryx/index/hash_index.py.
--   Index/BTree            the class BPlusTree of queryx/index/btree.py over the loads and stores
--                          of nodes (NodeStore), which BTree/Pages defines on pages. Codes,
--                          RoundTrip and Stored are about the page of a node, Search about the walk
--                          along the leaves, Split and Insert about a leaf that takes an entry,
--                          OneLeaf about `insert` and `search` where the root is a leaf.
--   Catalog, Catalog/*     the class Catalog of queryx/catalog.py.
--   Sql/Tokens, Sql/Ast    queryx/sql/tokens.py and queryx/sql/ast.py.
--   Sql/Lexer, Sql/Parser  queryx/sql/lexer.py and queryx/sql/parser.py.
--   Execution/*            queryx/execution/operators.py: an operator is its `next` on a state, and
--                          Operators.Yields says which rows it gives until it ends. A float of AVG
--                          is exact: a multiple of 2 ^ -1074, as every finite float is.
--   Planner/*              queryx/planner/*.py: Sargable and Optimizer for optimizer.py, then
--                          Statistics, Advisor and Explain.
--   Database, Database/*   the class Database of queryx/database.py: Rows checks names and values,
--                          Dml changes rows, Reads plans and builds indexes, Lifetime closes. Plan
--                          is the operators as trees, with their `open` and `next`; Select builds
--                          them for a SELECT, and Execute is EXPLAIN and `execute`. Given,
--                          Refused, Stored and Writes are about INSERT and UPDATE: the checks, a row
--                          that is stored, and what an error leaves.
--   Tests/*                the theorems applied at concrete inputs.
-- A definition has the name of the method it models, without a leading underscore. A method that
-- may raise returns a Result, or an Exec with the state it leaves, also where it raises.
--
-- Parameters. CRC-32 is any function from bytes to numbers. The UTF-8 codec, `int(s)`, `str(n)` and
-- the character classes of `str` are records of functions (Row.Builtins, Lexer.StrMethods), and so
-- are the arithmetic of floats (Statistics.Floats) and what EXPLAIN prints (Explain.Printing).
--
-- Bounds and fuel. Numbers are natural numbers without a bound; where the source packs them into
-- 2, 4 or 8 bytes the model raises what `struct` raises. The loop of the log's reader and that of
-- the lexer run on fuel one above the length of the input, and each round takes a byte or a
-- character of it. The parser's loops have one more than the tokens left. A chain of bucket
-- pages has one more than the pages of the file; on a chain with a cycle the source does not end.
-- A descent and a walk along the leaves of a B+ tree have two more than the pages of the file.
-- Operators that read a child until a row passes take their fuel as an argument, and the theorems
-- on them name the rows of the child as enough.
--
-- Not modelled: the shell, the hit ratio of Database.runtime_stats, error messages, and whether
-- `fsync` reaches the disk. SeqScan reads all records when it opens, where the source reads a page
-- when it needs it, which changes the counts of the buffer pool but no row. That a pager which was
-- closed raises on every further read or write is left out, and so is that of a simulated crash.
-- The program runs in one thread.
pub mod Common
pub mod Storage
pub mod Wal
pub mod Index
pub mod Catalog
pub mod Sql
pub mod Execution
pub mod Planner
pub mod Database
mod Tests
