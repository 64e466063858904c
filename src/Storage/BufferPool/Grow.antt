-- ===== src/Storage/BufferPool/Grow.antt =====
-- A new page of the pool, where no page of the file is free.
use query_x_engine.Common.{
  ℕ, suc, ◌^◌, ◌<◌, ◌≡◌, refl, sym, ap, ◌∙◌, none, some, List, [], ◌∷◌, ◌++◌, arith, length,
  length-append, Option-cases, inl, inr, ok,
}
use mathlib.Core.Path.{subst}
use query_x_engine.Common.Bytes.{Bytes}
use query_x_engine.Storage.OrderedDict.{lookup}
use query_x_engine.Storage.Page
use query_x_engine.Storage.Page.{Page, page_size}
use query_x_engine.Storage.Page.Empty.{length-empty}
use query_x_engine.Storage.File.{block}
use query_x_engine.Storage.Pager.{Pager}
use query_x_engine.Storage.Pager.Valid.{IsData}
use query_x_engine.Storage.Pager.Allocate.{Allocated, allocate_page-Allocated}
use query_x_engine.Storage.BufferPool.{BufferPool, new_page}
use query_x_engine.Storage.BufferPool.Valid.{view, or_page, IsValid}
use query_x_engine.Storage.BufferPool.Admit.{admit-Admitted}

module _ (crc32 : Bytes → ℕ) where
  -- What `new_page` leaves, in a file of `k` pages.
  pub record Grown (k : ℕ) (s s' : BufferPool) : Type 0 where
    pub call : new_page crc32 s ≡ (ok (k, Page.empty), s')
    pub valid : IsValid crc32 (suc k) s'
    pub held : lookup k s'.cache ≡ some Page.empty
    pub same : (m : ℕ) → IsData k m → view s' m ≡ view s m
    pub free_list : s'.pager.free_list ≡ []

  module _ {k : ℕ} {s : BufferPool} (v : IsValid crc32 k s) where
    -- a cached page is one of the old pages
    not_cached : lookup k s.cache ≡ none
    not_cached = elim (Option-cases (lookup k s.cache)) [
      | inl e ↦ e
      | inr (q, e) ↦ absurd (omega (arith, (v.cached k q e).0.1))
    ]

    module _ (p' : Pager) (free : s.pager.free_list ≡ [])
        (a : Allocated crc32 k s.pager k (suc k) p') where
      grown : BufferPool
      grown = record s { pager = p' }

      kept_block : (m : ℕ) → IsData k m → block p'.file m ≡ block s.pager.file m
      kept_block m (low, high) = a.others m low high (λ e. omega (arith, e, high))

      grown-IsValid : IsValid crc32 (suc k) (record s { pager = p' })
      grown-IsValid = record {
        pager = a.valid;
        positive = v.positive;
        sized = v.sized;
        keys = v.keys;
        cached = λ m q h.
            let (inside, size) = v.cached m q h in ((inside.0, omega (arith, inside.1)), size);
        dirty_cached = v.dirty_cached;
        clean = λ m q h c. kept_block m (v.cached m q h).0 ∙ v.clean m q h c;
      }

      new_page_from : p'.free_list ≡ [] → (s' : BufferPool) × Grown k s s'
      unfolding new_page view
      new_page_from none_free =
          let (s', call, e) =
            admit-Admitted crc32 grown-IsValid k Page.empty a.number length-empty not_cached
              a.empty in
          (
            s',
            record {
              call = rw a.call (rw call refl);
              valid = e.valid;
              held = e.held;
              same = λ m h.
                  e.same m ∙ ap (λ (b : Page). or_page (lookup m s.cache) b) (kept_block m h);
              free_list = e.free_list ∙ none_free;
            },
          )

  no_last : (n : ℕ) (l free : List ℕ) → free ≡ l ++ (n ∷ []) → free ≡ [] → ⊥
  no_last n l free e f =
      let size : length (l ++ (n ∷ [])) ≡ 0 = ap (λ (x : List ℕ). length x) (sym e ∙ f) in
      omega (arith, size, length-append l (n ∷ []))

  -- On a valid pool over a file with no free page and below 2^32 pages, `new_page` raises nothing.
  -- It returns an empty page whose number is the next one; every other page is as it was.
  pub new_page-Grown :
      (k : ℕ) (s : BufferPool)
      → IsValid crc32 k s
      → s.pager.free_list ≡ []
      → k < 2 ^ 32
      → (s' : BufferPool) × Grown k s s'
  new_page-Grown k s v free room =
      let (n, (k', (p', a))) = allocate_page-Allocated crc32 k s.pager v.pager room in
      elim a.reused [
        | inl (same, e) ↦ absurd (no_last n p'.free_list s.pager.free_list e free)
        | inr (e, f, g, h) ↦
            let a' : Allocated crc32 k s.pager k (suc k) p' =
              subst (λ m. Allocated crc32 k s.pager k m p') e
                (subst (λ m. Allocated crc32 k s.pager m k' p') f a) in
            new_page_from v p' free a' h
      ]
