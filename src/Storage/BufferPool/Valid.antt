-- ===== src/Storage/BufferPool/Valid.antt =====
-- The invariant of a buffer pool, and the pages as its clients see them.
use query_x_engine.Common.{
  ℕ, ◌≤◌, ◌≡◌, ◌≢◌, refl, sym, ap, ◌∙◌, true, false, Option, none, some, List, [], ◌∷◌, arith,
  length, ◌==◌, if◌then◌else◌, Bool-cases, inl, inr, ok,
}
use query_x_engine.Common.Bytes.{Bytes}
use query_x_engine.Storage.OrderedDict.{lookup, DistinctKeys}
use query_x_engine.Storage.Page.{Page, page_size}
use query_x_engine.Storage.File.{block}
use query_x_engine.Storage.Pager.{contains}
use query_x_engine.Storage.Pager.Valid
use query_x_engine.Storage.Pager.Valid.{IsData, Wrote, write_page-read_page}
use query_x_engine.Storage.BufferPool.{BufferPool, discard, write_victim, evict_from, evict_one}
use native.Mathlib.Decide.{ℕ_discrete}

-- the page that a client reads: the cached copy, or else the one in the file
abbrev pub or_page : Option Page → Page → Page
or_page none b = b
or_page (some page) b = page

unfoldable pub view : BufferPool → ℕ → Page
view s n = or_page (lookup n s.cache) (block s.pager.file n)

contains-discard :
    (m n : ℕ) (l : List ℕ) → contains (discard m l) n ≡ (if m == n then false else contains l n)
unfolding contains discard
contains-discard m n [] = ground arith
contains-discard m n (i ∷ l) = ground (arith, contains-discard m n l)

module _ (crc32 : Bytes → ℕ) where
  -- The cache holds data pages, each once and no more than the capacity; a page that is not in it
  -- is not dirty; and the cached copy of a page that is not dirty is the one in the file.
  pub record IsValid (k : ℕ) (s : BufferPool) : Type 0 where
    pub pager : Valid.IsValid crc32 k s.pager
    pub positive : 1 ≤ s.capacity
    pub sized : length s.cache ≤ s.capacity
    pub keys : DistinctKeys s.cache
    pub cached :
        (n : ℕ) (page : Page)
        → lookup n s.cache ≡ some page
        → IsData k n × (length page ≡ page_size)
    pub dirty_cached : (n : ℕ) → contains s.dirty n ≡ true → lookup n s.cache ≢ none
    pub clean :
        (n : ℕ) (page : Page)
        → lookup n s.cache ≡ some page
        → contains s.dirty n ≡ false
        → block s.pager.file n ≡ page

  -- What an eviction leaves, for a cache of the item `(v, page)` and `rest`.
  pub record Evicted (k : ℕ) (s : BufferPool) (rest : List (ℕ × Page)) (s' : BufferPool)
      : Type 0 where
    pub call : evict_one crc32 s ≡ (ok tt, s')
    pub valid : IsValid k s'
    pub cache : s'.cache ≡ rest
    pub capacity : s'.capacity ≡ s.capacity
    pub free_list : s'.pager.free_list ≡ s.pager.free_list
    pub same : (n : ℕ) → view s' n ≡ view s n

  module _ {k : ℕ} {s : BufferPool} (p : IsValid k s) (v : ℕ) (page : Page) (rest : List (ℕ × Page))
      (e : s.cache ≡ (v, page) ∷ rest) where
    gone : lookup v rest ≡ none
    gone = (rw e at p.keys).0

    front : lookup v s.cache ≡ some page
    unfolding lookup
    front = rw e (ground arith)

    behind : (n : ℕ) → n ≢ v → lookup n s.cache ≡ lookup n rest
    unfolding lookup
    behind n ne = rw e (ground arith)

    -- a page behind the victim is another page
    apart : (n : ℕ) (q : Page) → lookup n rest ≡ some q → n ≢ v
    apart n q h same =
        let lost : lookup n rest ≡ none = ap (λ m. lookup m rest) same ∙ gone in
        let clash : some q ≡ none = sym h ∙ lost in cc

    kept : (n : ℕ) (q : Page) → lookup n rest ≡ some q → lookup n s.cache ≡ some q
    kept n q h = behind n (apart n q h) ∙ h

    evict_dirty : contains s.dirty v ≡ true → (s' : BufferPool) × Evicted k s rest s'
    unfolding evict_one view
    evict_dirty d =
        let (inside, size) = p.cached v page front in
        let (pager', w) = write_page-read_page crc32 k s.pager v page p.pager inside size in
        let s' : BufferPool = record s {
          pager = pager';
          cache = rest;
          dirty = discard v s.dirty;
        } in
        (
          s',
          record {
            call = rw (e, evict_from, d, write_victim) (rw w.call);
            valid = record {
              pager = w.valid;
              positive = p.positive;
              sized = omega (arith, p.sized, ap (λ (l : List (ℕ × Page)). length l) e);
              keys = (rw e at p.keys).1;
              cached = λ n q h. p.cached n q (kept n q h);
              dirty_cached = λ n h absent.
                  let rest_dirty : (if v == n then false else contains s.dirty n) ≡ true =
                    sym (contains-discard v n s.dirty) ∙ h in
                  let ne : n ≢ v = λ same. ground (arith, rest_dirty, same) in
                  let is_dirty : contains s.dirty n ≡ true = ground (arith, rest_dirty) in
                  p.dirty_cached n is_dirty (behind n ne ∙ absent);
              clean = λ n q h c.
                  let ne = apart n q h in
                  let still : contains s.dirty n ≡ false =
                    ground (arith, contains-discard v n s.dirty, ne, c) in
                  w.others n ne ∙ p.clean n q (kept n q h) still;
            };
            cache = refl;
            capacity = refl;
            free_list = w.free_list;
            same = λ n. elim (ℕ_discrete n v) [
              | yes same ↦ rw same (rw (gone, front) w.self)
              | no ne ↦
                  rw (behind n ne) (ap (λ (b : Page). or_page (lookup n rest) b) (w.others n ne))
            ];
          },
        )

    evict_clean : contains s.dirty v ≡ false → (s' : BufferPool) × Evicted k s rest s'
    unfolding evict_one view
    evict_clean d =
        let s' : BufferPool = record s { cache = rest } in
        (
          s',
          record {
            call = rw (e, evict_from, d, write_victim) refl;
            valid = record {
              pager = p.pager;
              positive = p.positive;
              sized = omega (arith, p.sized, ap (λ (l : List (ℕ × Page)). length l) e);
              keys = (rw e at p.keys).1;
              cached = λ n q h. p.cached n q (kept n q h);
              dirty_cached = λ n h absent.
                  let ne : n ≢ v = λ same.
                    let clash : contains s.dirty n ≡ false = ap (contains s.dirty) same ∙ d in cc in
                  p.dirty_cached n h (behind n ne ∙ absent);
              clean = λ n q h c. p.clean n q (kept n q h) c;
            };
            cache = refl;
            capacity = refl;
            free_list = refl;
            same = λ n. elim (ℕ_discrete n v) [
              | yes same ↦ rw same (rw (gone, front) (p.clean v page front d))
              | no ne ↦ rw (behind n ne) refl
            ];
          },
        )

  -- On a valid pool whose least recently used page is `v`, `_evict_one` raises nothing and takes
  -- that page off the cache; a dirty one is written first. The pool stays valid, and every page is
  -- what it was to a client.
  pub evict_one-Evicted :
      (k : ℕ) (s : BufferPool) (v : ℕ) (page : Page) (rest : List (ℕ × Page))
      → IsValid k s
      → s.cache ≡ (v, page) ∷ rest
      → (s' : BufferPool) × Evicted k s rest s'
  evict_one-Evicted k s v page rest p e = elim (Bool-cases (contains s.dirty v)) [
    | inl d ↦ evict_dirty p v page rest e d
    | inr d ↦ evict_clean p v page rest e d
  ]
