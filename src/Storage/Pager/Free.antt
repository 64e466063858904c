-- ===== src/Storage/Pager/Free.antt =====
-- `free_page`, and `allocate_page` after it.
use query_x_engine.Common.{
  ℕ, ◌^◌, ◌<◌, ◌≡◌, ◌≢◌, refl, true, false, some, List, [], ◌∷◌, ◌++◌, arith, length, length-append,
  ltb, lt→leb, if◌then◌else◌, ok, raise, value_error, index_error, runtime_error,
}
use query_x_engine.Common.Bytes.{Bytes}
use query_x_engine.Storage.File.{block}
use query_x_engine.Storage.Pager.{Pager, contains, pop, free_page}
use query_x_engine.Storage.Pager.Header.{max_free}
use query_x_engine.Storage.Pager.Valid.{IsValid, IsData, validate_data, validate_other}
use query_x_engine.Storage.Pager.Allocate.{
  write_header-Headed, Logged-free_list, All-back, Distinct-back, contains-append,
}

pop-append : (l : List ℕ) (n : ℕ) → pop (l ++ (n ∷ [])) ≡ some (n, l)
unfolding pop
pop-append [] n = refl
pop-append (m ∷ []) n = refl
pop-append (m ∷ m' ∷ l) n = rw (pop-append (m' ∷ l) n)

module _ (crc32 : Bytes → ℕ) where
  -- What `free_page` returns and leaves, for a data page that is not free.
  pub record Freed (k : ℕ) (s : Pager) (n : ℕ) (s' : Pager) : Type 0 where
    pub call : free_page crc32 n s ≡ (ok tt, s')
    pub valid : IsValid crc32 k s'
    pub free_list : s'.free_list ≡ s.free_list ++ (n ∷ [])
    pub others : (m : ℕ) → m ≢ 0 → block s'.file m ≡ block s.file m
    pub again : free_page crc32 n s' ≡ (ok tt, s')
    pub next : pop s'.free_list ≡ some (n, s.free_list)

  module _ {k : ℕ} {s : Pager} (v : IsValid crc32 k s) (n : ℕ) where
    free_again : IsData k n → contains s.free_list n ≡ true → free_page crc32 n s ≡ (ok tt, s)
    unfolding free_page
    free_again inside h = rw (validate_data crc32 v n inside) (rw h)

    -- A number that names no data page raises, `ValueError` for page 0 and `IndexError` past the
    -- end; so does a full free list, `RuntimeError`. Nothing changes then.
    pub free_page-refused :
        (¬ IsData k n
          → free_page crc32 n s ≡ (raise (if ltb n 1 then value_error else index_error), s))
        × (IsData k n
            → contains s.free_list n ≡ false
            → length s.free_list ≡ max_free
            → free_page crc32 n s ≡ (raise runtime_error, s))
    unfolding free_page
    free_page-refused = (
      (λ h. rw (validate_other crc32 v n h)),
      λ inside fresh full. rw (validate_data crc32 v n inside) (rw (fresh, full)),
    )

  -- On a valid pager, a data page that is not free, with room in the free list, is added at its
  -- end. The pager stays valid, no data page changes, a second `free_page` of it does nothing, and
  -- it is the page that the next allocation takes.
  pub free_page-Freed :
      (k : ℕ) (s : Pager) (n : ℕ)
      → IsValid crc32 k s
      → IsData k n
      → contains s.free_list n ≡ false
      → length s.free_list < max_free
      → (s' : Pager) × Freed k s n s'
  unfolding free_page
  free_page-Freed k s n v inside fresh room =
      let free = s.free_list ++ (n ∷ []) in
      let s0 : Pager = record s { free_list = free } in
      let (s', q) =
        write_header-Headed crc32 k s0 (Logged-free_list crc32 k s free v.logged) v.some_page
          v.bound
          (
            omega (arith, length-append s.free_list (n ∷ [])),
            All-back (λ m. m < 2 ^ 32) s.free_list n (v.free.1) (omega (arith, inside, v.bound)),
          )
          (All-back (IsData k) s.free_list n v.free_data inside)
          (Distinct-back s.free_list n v.distinct fresh) in
      let there : contains s'.free_list n ≡ true =
        rw q.free_list (ground (arith, contains-append s.free_list n n)) in
      (
        s',
        record {
          call =
              rw (validate_data crc32 v n inside)
                (rw (fresh, lt→leb max_free (length s.free_list) room) (q.call));
          valid = q.valid;
          free_list = q.free_list;
          others = q.others;
          again = free_again q.valid n inside there;
          next = rw q.free_list (pop-append s.free_list n);
        },
      )
