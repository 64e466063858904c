-- ===== src/Storage/BufferPool/Admit.antt =====
-- Bringing a page into the cache.
use query_x_engine.Common.{
  ℕ, suc, ◌≤◌, ◌<◌, ◌≡◌, ◌≢◌, ◌⊎◌, refl, sym, ap, ◌∙◌, true, false, none, some, List, [], ◌∷◌,
  arith, length, ◌==◌, ==_iff, leb, leb→le, Bool-cases, inl, inr, ok,
}
use query_x_engine.Storage.OrderedDict.{
  lookup, assign, lookup-assign, DistinctKeys-assign, length-assign_le,
}
use query_x_engine.Common.Bytes.{Bytes}
use query_x_engine.Storage.Page.{Page, page_size}
use query_x_engine.Storage.File.{block}
use query_x_engine.Storage.Pager.{contains}
use query_x_engine.Storage.Pager.Valid.{IsData}
use query_x_engine.Storage.BufferPool.{BufferPool, admit}
use query_x_engine.Storage.BufferPool.Valid.{view, or_page, IsValid, evict_one-Evicted}

module _ (crc32 : Bytes → ℕ) where
  -- What a page that is not in the cache leaves there, `s` having room for it.
  pub record Admitted (k : ℕ) (s : BufferPool) (n : ℕ) (page : Page) (s' : BufferPool)
      : Type 0 where
    pub valid : IsValid crc32 k s'
    pub held : lookup n s'.cache ≡ some page
    pub same : (m : ℕ) → view s' m ≡ view s m
    pub free_list : s'.pager.free_list ≡ s.pager.free_list

  absent_clean :
      (k : ℕ) (s : BufferPool) (n : ℕ)
      → IsValid crc32 k s
      → lookup n s.cache ≡ none
      → contains s.dirty n ≡ false
  absent_clean k s n v h = elim (Bool-cases (contains s.dirty n)) [
    | inl d ↦ absurd (v.dirty_cached n d h)
    | inr c ↦ c
  ]

  lookup-assign_same :
      (n : ℕ) (page : Page) (l : List (ℕ × Page)) → lookup n (assign n page l) ≡ some page
  lookup-assign_same n page l = ground (arith, lookup-assign n n page l)

  module _ {k : ℕ} {s : BufferPool} (v : IsValid crc32 k s) (n : ℕ) (page : Page)
      (inside : IsData k n) (size : length page ≡ page_size) (absent : lookup n s.cache ≡ none)
      (stored : block s.pager.file n ≡ page) where
    entered-cached :
        (m : ℕ) (q : Page)
        → lookup m (assign n page s.cache) ≡ some q
        → ((n ≡ m) × (page ≡ q)) ⊎ ((n ≢ m) × (lookup m s.cache ≡ some q))
    entered-cached m q h = elim (Bool-cases (n == m)) [
      | inl e ↦ inl ((==_iff n m).0 e, ground (arith, lookup-assign n m page s.cache))
      | inr e ↦ inr (ground arith, ground (arith, lookup-assign n m page s.cache))
    ]

    enter-Admitted :
        length s.cache < s.capacity
        → Admitted k s n page (record s { cache = assign n page s.cache })
    unfolding view
    enter-Admitted room = record {
      valid = record {
        pager = v.pager;
        positive = v.positive;
        sized = omega (arith, length-assign_le n page s.cache);
        keys = DistinctKeys-assign n page s.cache v.keys;
        cached = λ m q h. elim (entered-cached m q h) [
          | inl (e, f) ↦ rw (sym e, sym f) (inside, size)
          | inr (e, f) ↦ v.cached m q f
        ];
        dirty_cached = λ m d h. v.dirty_cached m d (ground (arith, lookup-assign n m page s.cache));
        clean = λ m q h c. elim (entered-cached m q h) [
          | inl (e, f) ↦ rw (sym e, sym f) stored
          | inr (e, f) ↦ v.clean m q f c
        ];
      };
      held = lookup-assign_same n page s.cache;
      same = λ m. elim (Bool-cases (n == m)) [
        | inl e ↦
            let e' : n ≡ m = (==_iff n m).0 e in
            rw (sym e') (rw (lookup-assign_same n page s.cache, absent) (sym stored))
        | inr e ↦ rw (lookup-assign n m page s.cache, e)
      ];
      free_list = refl;
    }

  -- a full cache has a least recently used page
  first_item :
      (s : BufferPool) (l : List (ℕ × Page))
      → s.cache ≡ l
      → 1 ≤ length l
      → (v : ℕ) × ((page : Page) × ((rest : List (ℕ × Page)) × (s.cache ≡ (v, page) ∷ rest)))
  first_item s [] e h = absurd (omega arith)
  first_item s ((v, page) ∷ rest) e h = (v, (page, (rest, e)))

  module _ {k : ℕ} {s : BufferPool} (v : IsValid crc32 k s) (n : ℕ) (page : Page)
      (inside : IsData k n) (size : length page ≡ page_size) (absent : lookup n s.cache ≡ none)
      (stored : block s.pager.file n ≡ page) where
    admit_evicting :
        (old : ℕ) (page0 : Page) (rest : List (ℕ × Page))
        → s.cache ≡ (old, page0) ∷ rest
        → leb s.capacity (length s.cache) ≡ true
        → (s' : BufferPool) × (admit crc32 n page s ≡ (ok tt, s')) × Admitted k s n page s'
    unfolding admit view lookup
    admit_evicting old page0 rest e full =
        let (s1, ev) = evict_one-Evicted crc32 k s old page0 rest v e in
        let behind : lookup n ((old, page0) ∷ rest) ≡ none = ap (lookup n) (sym e) ∙ absent in
        let absent_rest : lookup n rest ≡ none = ground (arith, behind) in
        let absent1 : lookup n s1.cache ≡ none = rw ev.cache absent_rest in
        let same_n : or_page (lookup n s1.cache) (block s1.pager.file n)
            ≡ or_page (lookup n s.cache) (block s.pager.file n) =
          ev.same n in
        let stored1 : block s1.pager.file n ≡ page = (rw (absent1, absent) at same_n) ∙ stored in
        let size_e : length s.cache ≡ suc (length rest) =
          ap (λ (l : List (ℕ × Page)). length l) e in
        let size_r : length s1.cache ≡ length rest =
          ap (λ (l : List (ℕ × Page)). length l) ev.cache in
        let room : length s1.cache < s1.capacity =
          rw ev.capacity (omega (arith, size_e, size_r, v.sized)) in
        let a = enter-Admitted ev.valid n page inside size absent1 stored1 room in
        (
          _,
          rw full (rw ev.call refl),
          record {
            valid = a.valid;
            held = a.held;
            same = λ m. a.same m ∙ ev.same m;
            free_list = a.free_list ∙ ev.free_list;
          },
        )

    -- `_admit` of a page that is not in the cache raises nothing and changes no page.
    pub admit-Admitted :
        (s' : BufferPool) × (admit crc32 n page s ≡ (ok tt, s')) × Admitted k s n page s'
    unfolding admit
    admit-Admitted = elim (Bool-cases (leb s.capacity (length s.cache))) [
      | inl full ↦
          let (old, (page0, (rest, e))) =
            first_item s s.cache refl (omega (arith, v.positive, v.sized, leb→le _ _ full)) in
          admit_evicting old page0 rest e full
      | inr room ↦
          (_, rw room refl, enter-Admitted v n page inside size absent stored (ground arith))
    ]
