-- ===== src/Storage/BufferPool.antt =====
-- The class `BufferPool` of queryx/storage/buffer_pool.py. The cache holds page objects: what a
-- caller writes into one is seen in the cache, which `mutate` models. `_dirty` is a set; it is
-- kept as a list without an entry twice, and `flush_all` goes through it in that order.
pub mod Valid
pub mod Admit
pub mod Pages
pub mod Change
pub mod Grow
pub mod Flush
use query_x_engine.Common.{
  Bool, true, false, ℕ, ◌+◌, Option, none, some, List, [], ◌∷◌, ltb, leb, ◌==◌, if◌then◌else◌,
  length, Result, ok, raise, value_error, key_error,
}
use query_x_engine.Common.Exec.{Exec, pure, throw, gets, modify, ◌>>=◌, ◌>>◌}
use query_x_engine.Common.Bytes.{Bytes}
use query_x_engine.Storage.OrderedDict.{lookup, assign, move_to_end}
use query_x_engine.Storage.Page
use query_x_engine.Storage.Page.{Page}
use query_x_engine.Storage.Pager
use query_x_engine.Storage.Pager.{Pager, contains}

pub record BufferPool : Type 0 where
  pub pager : Pager
  pub capacity : ℕ
  pub cache : List (ℕ × Page)
  pub dirty : List ℕ
  pub hits : ℕ
  pub misses : ℕ

unfoldable pub new_pool : Pager → ℕ → Result BufferPool
new_pool pager capacity =
    if ltb capacity 1
    then raise value_error
    else ok (record {
      pager = pager;
      capacity = capacity;
      cache = [];
      dirty = [];
      hits = 0;
      misses = 0;
    })

-- a call of a method of the pager
unfoldable pub on_pager : {A : Type 0} → Exec Pager A → Exec BufferPool A
on_pager m s = ((m s.pager).0, record s { pager = (m s.pager).1 })

-- `self._dirty.discard(page_no)`
unfoldable pub discard : ℕ → List ℕ → List ℕ
discard n [] = []
discard n (m ∷ ms) = let rest = discard n ms in if m == n then rest else m ∷ rest

-- a write of a caller into the object that the cache holds for `page_no`
unfoldable pub mutate : ℕ → Page → BufferPool → BufferPool
mutate page_no page s = elim (lookup page_no s.cache) [
  | none ↦ s
  | some _ ↦ record s { cache = assign page_no page s.cache }
]

unfoldable pub mark_dirty : ℕ → Exec BufferPool (Unit {0})
mark_dirty page_no s = elim (lookup page_no s.cache) [
  | none ↦ (raise key_error, s)
  | some _ ↦ (ok tt, if contains s.dirty page_no then s else record s { dirty = page_no ∷ s.dirty })
]

module _ (crc32 : Bytes → ℕ) where
  -- the end of `_evict_one`, for the item that `popitem(last=False)` took off the cache
  pub write_victim : ℕ → Page → Exec BufferPool (Unit {0})
  write_victim victim_no victim_page = do
    is_dirty ← gets (λ s. contains s.dirty victim_no)
    if is_dirty
        then (do
          on_pager (Pager.write_page crc32 victim_no victim_page)
          modify (λ s. record s { dirty = discard victim_no s.dirty }))
        else pure tt

  pub evict_from : List (ℕ × Page) → Exec BufferPool (Unit {0})
  evict_from [] = throw key_error
  evict_from ((victim_no, victim_page) ∷ rest) = do
    modify (λ s. record s { cache = rest })
    write_victim victim_no victim_page

  unfoldable pub evict_one : Exec BufferPool (Unit {0})
  unfolding write_victim evict_from on_pager discard
  evict_one = do items ← gets (λ s. s.cache); evict_from items

  unfoldable pub admit : ℕ → Page → Exec BufferPool (Unit {0})
  admit page_no page = do
    full ← gets (λ s. leb s.capacity (length s.cache))
    if full then evict_one else pure tt
    modify (λ s. record s { cache = assign page_no page s.cache })

  -- `get_page`, by what the cache holds
  pub fetch : ℕ → Option Page → Exec BufferPool Page
  fetch page_no (some page) = do
    modify (λ s. record s { hits = s.hits + 1; cache = move_to_end page_no page s.cache })
    pure page
  fetch page_no none = do
    modify (λ s. record s { misses = s.misses + 1 })
    page ← on_pager (Pager.read_page page_no)
    admit page_no page
    pure page

  unfoldable pub get_page : ℕ → Exec BufferPool Page
  unfolding fetch on_pager
  get_page page_no = do cached ← gets (λ s. lookup page_no s.cache); fetch page_no cached

  unfoldable pub new_page : Exec BufferPool (ℕ × Page)
  unfolding on_pager
  new_page = do
    page_no ← on_pager (Pager.allocate_page crc32)
    admit page_no Page.empty
    pure (page_no, Page.empty)

  -- the write of `flush_page` and `flush_all`
  unfoldable pub write_cached : ℕ → Option Page → Exec BufferPool (Unit {0})
  write_cached page_no none = throw key_error
  write_cached page_no (some page) = on_pager (Pager.write_page crc32 page_no page)

  unfoldable pub flush_page : ℕ → Exec BufferPool (Unit {0})
  unfolding write_cached on_pager discard
  flush_page page_no = do
    cached ← gets (λ s. lookup page_no s.cache)
    is_dirty ← gets (λ s. contains s.dirty page_no)
    if is_dirty
        then elim cached [
          | none ↦ pure tt
          | some page ↦ do
            on_pager (Pager.write_page crc32 page_no page)
            modify (λ s. record s { dirty = discard page_no s.dirty })
        ]
        else pure tt

  -- the loop of `flush_all`
  unfoldable pub flush_each : List ℕ → Exec BufferPool (Unit {0})
  flush_each [] = pure tt
  flush_each (page_no ∷ rest) = do
    cached ← gets (λ s. lookup page_no s.cache)
    write_cached page_no cached
    flush_each rest

  unfoldable pub flush_all : Exec BufferPool (Unit {0})
  unfolding write_cached flush_each on_pager
  flush_all = do
    numbers ← gets (λ s. s.dirty)
    flush_each numbers
    modify (λ s. record s { dirty = [] })

-- `page_no in pool`
unfoldable pub is_cached : BufferPool → ℕ → Bool
is_cached s page_no = elim (lookup page_no s.cache) [ none ↦ false | some _ ↦ true ]

unfoldable pub cached_count : BufferPool → ℕ
cached_count s = length s.cache

unfoldable pub dirty_count : BufferPool → ℕ
dirty_count s = length s.dirty
