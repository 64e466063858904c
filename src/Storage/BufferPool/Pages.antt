-- ===== src/Storage/BufferPool/Pages.antt =====
-- Reading and changing a page through the pool.
use query_x_engine.Common.{
  ℕ, ◌+◌, ◌≡◌, refl, sym, ◌∙◌, none, some, arith, ◌==◌, ==_iff, Bool-cases, Option-cases, inl, inr,
  ok,
}
use query_x_engine.Common.Bytes.{Bytes}
use query_x_engine.Storage.OrderedDict.{
  lookup, move_to_end, lookup-move_to_end, DistinctKeys-move_to_end, length-move_to_end,
}
use query_x_engine.Storage.Page.{Page}
use query_x_engine.Storage.File.{block}
use query_x_engine.Storage.Pager.Valid.{IsData, length-block, read_page-block}
use query_x_engine.Storage.BufferPool.{BufferPool, fetch, get_page}
use query_x_engine.Storage.BufferPool.Valid.{view, IsValid}
use query_x_engine.Storage.BufferPool.Admit.{admit-Admitted}

module _ (crc32 : Bytes → ℕ) where
  -- What a read of the page `n` leaves.
  pub record Fetched (k : ℕ) (s : BufferPool) (n : ℕ) (s' : BufferPool) : Type 0 where
    pub call : get_page crc32 n s ≡ (ok (view s n), s')
    pub valid : IsValid crc32 k s'
    pub held : lookup n s'.cache ≡ some (view s n)
    pub same : (m : ℕ) → view s' m ≡ view s m
    pub free_list : s'.pager.free_list ≡ s.pager.free_list

  module _ {k : ℕ} {s : BufferPool} (v : IsValid crc32 k s) (n : ℕ) where
    moved :
        (page : Page)
        → lookup n s.cache ≡ some page
        → (m : ℕ) → lookup m (move_to_end n page s.cache) ≡ lookup m s.cache
    moved page h m = elim (Bool-cases (n == m)) [
      | inl e ↦
          let e' : n ≡ m = (==_iff n m).0 e in
          lookup-move_to_end n m page s.cache ∙ (rw e (sym (rw e' at h)))
      | inr e ↦ lookup-move_to_end n m page s.cache ∙ (rw e refl)
    ]

    fetch_hit : (page : Page) → lookup n s.cache ≡ some page → (s' : BufferPool) × Fetched k s n s'
    unfolding get_page view
    fetch_hit page h = (
      record s { hits = s.hits + 1; cache = move_to_end n page s.cache },
      record {
        call = rw h refl;
        valid = record {
          pager = v.pager;
          positive = v.positive;
          sized = omega (arith, v.sized, length-move_to_end n page s.cache v.keys h);
          keys = DistinctKeys-move_to_end n page s.cache v.keys;
          cached = λ m q e. v.cached m q (sym (moved page h m) ∙ e);
          dirty_cached = λ m d e. v.dirty_cached m d (sym (moved page h m) ∙ e);
          clean = λ m q e c. v.clean m q (sym (moved page h m) ∙ e) c;
        };
        held = moved page h n ∙ (rw h refl);
        same = λ m. rw (moved page h m) refl;
        free_list = refl;
      },
    )

    fetch_miss : IsData k n → lookup n s.cache ≡ none → (s' : BufferPool) × Fetched k s n s'
    unfolding get_page view
    fetch_miss inside h =
        let counted : BufferPool = record s { misses = s.misses + 1 } in
        let valid : IsValid crc32 k counted = record {
          pager = v.pager;
          positive = v.positive;
          sized = v.sized;
          keys = v.keys;
          cached = v.cached;
          dirty_cached = v.dirty_cached;
          clean = v.clean;
        } in
        let (s', call, a) =
          admit-Admitted crc32 valid n (block s.pager.file n) inside
            (length-block crc32 v.pager n (inside.1)) h refl in
        (
          s',
          record {
            call = rw (h, fetch) (rw (read_page-block crc32 v.pager n inside) (rw call refl));
            valid = a.valid;
            held = a.held ∙ (rw h refl);
            same = λ m. a.same m;
            free_list = a.free_list;
          },
        )

  -- On a valid pool, `get_page` of a data page raises nothing and returns the page as a client sees
  -- it, which is then in the cache; no page changes and the pool stays valid.
  pub get_page-view :
      (k : ℕ) (s : BufferPool) (n : ℕ)
      → IsValid crc32 k s
      → IsData k n
      → (s' : BufferPool) × Fetched k s n s'
  get_page-view k s n v inside = elim (Option-cases (lookup n s.cache)) [
    | inl h ↦ fetch_miss v n inside h
    | inr (page, h) ↦ fetch_hit v n page h
  ]
