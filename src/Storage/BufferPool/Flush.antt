-- ===== src/Storage/BufferPool/Flush.antt =====
-- `flush_all`: what the clients see is what the file holds.
use query_x_engine.Common.{
  ℕ, ◌≡◌, ◌≢◌, refl, sym, ◌∙◌, true, false, none, some, List, [], ◌∷◌, arith, length, Bool-cases,
  Option-cases, inl, inr, ok,
}
use query_x_engine.Common.Bytes.{Bytes}
use query_x_engine.Storage.OrderedDict.{lookup}
use query_x_engine.Storage.Page.{Page}
use query_x_engine.Storage.File.{block}
use query_x_engine.Storage.Pager.{Pager, contains}
use query_x_engine.Storage.Pager.Valid
use query_x_engine.Storage.Pager.Valid.{IsData, write_page-read_page}
use query_x_engine.Storage.BufferPool.{BufferPool, on_pager, write_cached, flush_each, flush_all}
use query_x_engine.Storage.BufferPool.Valid.{view, or_page}
use query_x_engine.Storage.BufferPool.Valid as PoolValid

module _ (crc32 : Bytes → ℕ) where
  -- What the writes of the pages `l` leave in the pager.
  record Written (k : ℕ) (s : BufferPool) (l : List ℕ) (p' : Pager) : Type 0 where
    call : flush_each crc32 l s ≡ (ok tt, record s { pager = p' })
    valid : Valid.IsValid crc32 k p'
    free_list : p'.free_list ≡ s.pager.free_list
    self :
        (m : ℕ) (q : Page) → contains l m ≡ true → lookup m s.cache ≡ some q → block p'.file m ≡ q
    others : (m : ℕ) → contains l m ≡ false → block p'.file m ≡ block s.pager.file m

  -- the pages of the list are data pages in the cache
  abbrev Cached : ℕ → BufferPool → List ℕ → Type 0
  Cached k s [] = Unit
  Cached k s (n ∷ l) =
      ((page : Page) × (lookup n s.cache ≡ some page) × IsData k n × (length page ≡ 4096))
      × Cached k s l

  Cached-pager :
      (k : ℕ) (s : BufferPool) (p : Pager) (l : List ℕ)
      → Cached k s l
      → Cached k (record s { pager = p }) l
  Cached-pager k s p [] c = tt
  Cached-pager k s p (n ∷ l) (c, cs) = (c, Cached-pager k s p l cs)

  flush_each-Written :
      (k : ℕ) (s : BufferPool) (l : List ℕ)
      → Valid.IsValid crc32 k s.pager
      → Cached k s l
      → (p' : Pager) × Written k s l p'
  unfolding flush_each write_cached on_pager contains
  flush_each-Written k s [] v c = (
    s.pager,
    record { call = refl; valid = v; free_list = refl; self = λ m q h e. cc; others = λ m h. refl },
  )
  flush_each-Written k s (n ∷ l) v ((page, held, inside, size), cs) =
      let (p1, w) = write_page-read_page crc32 k s.pager n page v inside size in
      let (p2, r) =
        flush_each-Written k (record s { pager = p1 }) l w.valid (Cached-pager k s p1 l cs) in
      (
        p2,
        record {
          call = rw held (rw w.call r.call);
          valid = r.valid;
          free_list = r.free_list ∙ w.free_list;
          self = λ m q h e. elim (Bool-cases (contains l m)) [
            | inl later ↦ r.self m q later e
            | inr not_later ↦
                let same : n ≡ m = ground (arith, h, not_later) in
                let two : some page ≡ some q = sym held ∙ (rw same e) in
                let page_same : page ≡ q = ground (arith, two) in
                r.others m not_later ∙ (rw (sym same) (w.self ∙ page_same))
          ];
          others = λ m h.
              let ne : m ≢ n = λ e. ground (arith, h, e) in
              let not_later : contains l m ≡ false = ground (arith, h) in
              r.others m not_later ∙ w.others m ne;
        },
      )

  -- What `flush_all` leaves.
  pub record Flushed (k : ℕ) (s s' : BufferPool) : Type 0 where
    pub call : flush_all crc32 s ≡ (ok tt, s')
    pub valid : PoolValid.IsValid crc32 k s'
    pub clean : s'.dirty ≡ []
    pub durable : (n : ℕ) → block s'.pager.file n ≡ view s n
    pub same : (n : ℕ) → view s' n ≡ view s n
    pub free_list : s'.pager.free_list ≡ s.pager.free_list

  module _ {k : ℕ} {s : BufferPool} (v : PoolValid.IsValid crc32 k s) where
    dirty-Cached :
        (l : List ℕ) → ((n : ℕ) → contains l n ≡ true → contains s.dirty n ≡ true) → Cached k s l
    unfolding contains
    dirty-Cached [] h = tt
    dirty-Cached (n ∷ l) h =
        let cached : (page : Page) × (lookup n s.cache ≡ some page)
            × IsData k n
            × (length page ≡ 4096) =
          elim (Option-cases (lookup n s.cache)) [
            | inl e ↦ absurd (v.dirty_cached n (h n (ground arith)) e)
            | inr (page, e) ↦ (page, e, (v.cached n page e).0, (v.cached n page e).1)
          ] in
        (cached, dirty-Cached l (λ m d. h m (ground (arith, d))))

    -- a page after the writes of all dirty pages
    Written-page : (p' : Pager) → Written k s s.dirty p' → (n : ℕ) → block p'.file n ≡ view s n
    unfolding view
    Written-page p' w n = elim (Option-cases (lookup n s.cache)) [
      | inl e ↦ elim (Bool-cases (contains s.dirty n)) [
        | inl d ↦ absurd (v.dirty_cached n d e)
        | inr c ↦ rw e (w.others n c)
      ]
      | inr (q, e) ↦ elim (Bool-cases (contains s.dirty n)) [
        | inl d ↦ rw e (w.self n q d e)
        | inr c ↦ rw e (w.others n c ∙ v.clean n q e c)
      ]
    ]

  -- On a valid pool `flush_all` raises nothing; afterwards no page is dirty, the file holds every
  -- page as a client saw it before, no page has changed for a client, and the pool is valid.
  pub flush_all-Flushed :
      (k : ℕ) (s : BufferPool) → PoolValid.IsValid crc32 k s → (s' : BufferPool) × Flushed k s s'
  unfolding flush_all contains
  flush_all-Flushed k s v =
      let (p', w) = flush_each-Written k s s.dirty v.pager (dirty-Cached v s.dirty (λ n h. h)) in
      let s' : BufferPool = record s { pager = p'; dirty = [] } in
      let stored : (n : ℕ) → block p'.file n ≡ view s n = Written-page v p' w in
      let seen : (n : ℕ) (q : Page) → lookup n s.cache ≡ some q → view s n ≡ q =
        λ n q h. unfold view in rw h refl in
      let in_file : (n : ℕ) → lookup n s.cache ≡ none → view s n ≡ block s.pager.file n =
        λ n h. unfold view in rw h refl in
      (
        s',
        record {
          call = rw w.call refl;
          valid = record {
            pager = w.valid;
            positive = v.positive;
            sized = v.sized;
            keys = v.keys;
            cached = v.cached;
            dirty_cached = λ n h. cc;
            clean = λ n q h c. stored n ∙ seen n q h;
          };
          clean = refl;
          durable = stored;
          same = λ n. elim (Option-cases (lookup n s.cache)) [
            | inl e ↦ unfold view in rw e (stored n ∙ in_file n e)
            | inr (q, e) ↦ unfold view in rw e refl
          ];
          free_list = w.free_list;
        },
      )
