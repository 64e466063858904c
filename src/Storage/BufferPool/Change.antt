-- ===== src/Storage/BufferPool/Change.antt =====
-- A change of a page object that the cache holds.
use query_x_engine.Common.{
  ℕ, ◌≡◌, ◌≢◌, refl, sym, ap, ◌∙◌, true, false, none, some, ◌∷◌, arith, length, ◌==◌, ==_iff,
  Bool-cases, inl, inr, ok,
}
use query_x_engine.Common.Bytes.{Bytes}
use query_x_engine.Storage.OrderedDict.{
  lookup, assign, lookup-assign, DistinctKeys-assign, length-assign_self,
}
use query_x_engine.Storage.Page.{Page, page_size}
use query_x_engine.Storage.Pager.{contains}
use query_x_engine.Storage.File.{block}
use query_x_engine.Storage.Pager.Valid.{IsData}
use query_x_engine.Storage.BufferPool.{BufferPool, mutate, mark_dirty}
use query_x_engine.Storage.BufferPool.Valid.{view, IsValid}

module _ (crc32 : Bytes → ℕ) where
  -- What a change of the cached page `n` leaves.
  pub record Changed (k : ℕ) (s : BufferPool) (n : ℕ) (page : Page) (s' : BufferPool) : Type 0 where
    pub call : mark_dirty n (mutate n page s) ≡ (ok tt, s')
    pub valid : IsValid crc32 k s'
    pub self : view s' n ≡ page
    pub others : (m : ℕ) → m ≢ n → view s' m ≡ view s m
    pub pager : s'.pager ≡ s.pager

  module _ {k : ℕ} {s : BufferPool} (v : IsValid crc32 k s) (n : ℕ) (old page : Page)
      (held : lookup n s.cache ≡ some old) (size : length page ≡ page_size) where
    put_cached :
        (m : ℕ) (q : Page)
        → lookup m (assign n page s.cache) ≡ some q
        → IsData k m × (length q ≡ page_size)
    put_cached m q h = elim (Bool-cases (n == m)) [
      | inl e ↦
          let e' : n ≡ m = (==_iff n m).0 e in
          let f : page ≡ q = ground (arith, lookup-assign n m page s.cache) in
          rw (sym e', sym f) ((v.cached n old held).0, size)
      | inr e ↦ v.cached m q (ground (arith, lookup-assign n m page s.cache))
    ]

    put_dirty : (m : ℕ) → contains s.dirty m ≡ true → lookup m (assign n page s.cache) ≢ none
    put_dirty m d h = v.dirty_cached m d (ground (arith, held, lookup-assign n m page s.cache))

    put_clean :
        (m : ℕ) (q : Page)
        → n ≢ m
        → lookup m (assign n page s.cache) ≡ some q
        → contains s.dirty m ≡ false
        → block s.pager.file m ≡ q
    put_clean m q ne h c = v.clean m q (ground (arith, ne, lookup-assign n m page s.cache)) c

    put_view_others : (m : ℕ) → m ≢ n → lookup m (assign n page s.cache) ≡ lookup m s.cache
    put_view_others m ne = ground (arith, ne, lookup-assign n m page s.cache)

    put_held : lookup n (assign n page s.cache) ≡ some page
    put_held = ground (arith, lookup-assign n n page s.cache)

    mutate_cached :
        mark_dirty n (mutate n page s) ≡ mark_dirty n (record s { cache = assign n page s.cache })
    unfolding mutate
    mutate_cached = ap (mark_dirty n) (rw (mutate, held) refl)

    -- the change of a page that is dirty already
    change_dirty : contains s.dirty n ≡ true → (s' : BufferPool) × Changed k s n page s'
    unfolding mutate mark_dirty view
    change_dirty d = (
      record s { cache = assign n page s.cache },
      record {
        call = mutate_cached ∙ (rw (mark_dirty, put_held) (rw d refl));
        valid = record {
          pager = v.pager;
          positive = v.positive;
          sized = omega (arith, v.sized, length-assign_self n page old s.cache held);
          keys = DistinctKeys-assign n page s.cache v.keys;
          cached = put_cached;
          dirty_cached = put_dirty;
          clean = λ m q h c.
              let ne : n ≢ m = λ same.
                let clash : contains s.dirty n ≡ false = ap (contains s.dirty) same ∙ c in cc in
              put_clean m q ne h c;
        };
        self = rw put_held refl;
        others = λ m ne. rw (put_view_others m ne) refl;
        pager = refl;
      },
    )

    change_clean : contains s.dirty n ≡ false → (s' : BufferPool) × Changed k s n page s'
    unfolding mutate mark_dirty view contains
    change_clean d = (
      record s { cache = assign n page s.cache; dirty = n ∷ s.dirty },
      record {
        call = mutate_cached ∙ (rw (mark_dirty, put_held) (rw d refl));
        valid = record {
          pager = v.pager;
          positive = v.positive;
          sized = omega (arith, v.sized, length-assign_self n page old s.cache held);
          keys = DistinctKeys-assign n page s.cache v.keys;
          cached = put_cached;
          dirty_cached = λ m h e. elim (Bool-cases (n == m)) [
            | inl same ↦
                let same' : n ≡ m = (==_iff n m).0 same in
                let there : lookup m (assign n page s.cache) ≡ some page =
                  rw (sym same') put_held in
                let clash : some page ≡ none = sym there ∙ e in cc
            | inr ne ↦ put_dirty m (ground (arith, ne)) e
          ];
          clean = λ m q h c. put_clean m q (ground arith) h (ground arith);
        };
        self = rw put_held refl;
        others = λ m ne. rw (put_view_others m ne) refl;
        pager = refl;
      },
    )

    -- A caller that writes into the object that the cache holds for a page and marks the page dirty
    -- leaves a valid pool, with that page changed and no other.
    pub mutate-Changed : (s' : BufferPool) × Changed k s n page s'
    mutate-Changed = elim (Bool-cases (contains s.dirty n)) [
      | inl d ↦ change_dirty d
      | inr d ↦ change_clean d
    ]
