-- ===== src/Storage/Pager/Allocate.antt =====
-- `_write_header`, `allocate_page` and `free_page`.
use Prim.Native.Nat.{max}
use query_x_engine.Common.{
  ℕ, suc, ◌+◌, ◌*◌, ◌^◌, ◌≤◌, ◌<◌, ◌≡◌, ◌≢◌, refl, sym, ap, ◌∙◌, true, false, none, some, List, [],
  ◌∷◌, ◌++◌, arith, length, length-append, All, ◌==◌, if◌then◌else◌, ok, ◌⊎◌, inl, inr,
  Option-cases,
}
use query_x_engine.Common.Bytes.{Bytes}
use query_x_engine.Storage.Page
use query_x_engine.Storage.Page.Empty.{length-empty}
use query_x_engine.Storage.File.{block, block-write_at, block-write_at_ne}
use query_x_engine.Storage.Pager.{
  Pager, contains, pop, write_header, allocate, allocate_page, write_empty_page,
}
use query_x_engine.Storage.Pager.Header.{max_free}
use query_x_engine.Storage.Pager.Header.RoundTrip.{
  IsFreeList, image, header_image-image, length-image,
}
use query_x_engine.Storage.Pager.Persist.{Logged, persist_page-Persisted}
use query_x_engine.Storage.Pager.Valid.{IsValid, IsData, Distinct, pages, num_pages-valid}

-- what `pop` takes from the end of the free list
pop-none : (l : List ℕ) → pop l ≡ none → l ≡ []
unfolding pop
pop-none [] h = refl
pop-none (n ∷ []) h = cc
pop-none (n ∷ m ∷ ms) h = absurd (ground (arith, pop-none (m ∷ ms)))

pop-some : (l : List ℕ) (n : ℕ) (rest : List ℕ) → pop l ≡ some (n, rest) → l ≡ rest ++ (n ∷ [])
unfolding pop
pop-some [] n rest h = cc
pop-some (m ∷ []) n rest h = ground arith
pop-some (m ∷ m' ∷ ms) n rest h = elim (Option-cases (pop (m' ∷ ms))) [
  | inl e ↦ absurd (ground arith)
  | inr ((l, r), e) ↦
      let a : n ≡ l = ground arith in
      let b : rest ≡ m ∷ r = ground arith in rw (a, b) (ap (◌∷◌ m) (pop-some (m' ∷ ms) l r e))
]

All-front {ℓ} : (P : ℕ → Type ℓ) (l : List ℕ) (n : ℕ) → All P (l ++ (n ∷ [])) → All P l × P n
All-front P [] n (h, _) = (tt, h)
All-front P (m ∷ l) n (h, hs) = let (a, b) = All-front P l n hs in ((h, a), b)

pub All-back {ℓ} : (P : ℕ → Type ℓ) (l : List ℕ) (n : ℕ) → All P l → P n → All P (l ++ (n ∷ []))
All-back P [] n h p = (p, tt)
All-back P (m ∷ l) n (h, hs) p = (h, All-back P l n hs p)

pub contains-append :
    (l : List ℕ) (m n : ℕ) → contains (l ++ (m ∷ [])) n ≡ (if contains l n then true else m == n)
unfolding contains
contains-append [] m n = ground arith
contains-append (x ∷ l) m n = ground (arith, contains-append l m n)

Distinct-front :
    (l : List ℕ) (n : ℕ) → Distinct (l ++ (n ∷ [])) → Distinct l × (contains l n ≡ false)
unfolding contains
Distinct-front [] n h = (tt, refl)
Distinct-front (m ∷ l) n (h, hs) =
    let (a, b) = Distinct-front l n hs in
    ((ground (arith, contains-append l n m), a), ground (arith, contains-append l n m))

pub Distinct-back :
    (l : List ℕ) (n : ℕ) → Distinct l → contains l n ≡ false → Distinct (l ++ (n ∷ []))
unfolding contains
Distinct-back [] n h f = (refl, tt)
Distinct-back (m ∷ l) n (h, hs) f =
    (ground (arith, contains-append l n m), Distinct-back l n hs (ground arith))

module _ (crc32 : Bytes → ℕ) where
  -- What `_write_header` leaves, given a state `s` that is valid but for its header page.
  pub record Headed (k : ℕ) (s s' : Pager) : Type 0 where
    pub call : write_header crc32 s ≡ (ok tt, s')
    pub free_list : s'.free_list ≡ s.free_list
    pub valid : IsValid crc32 k s'
    pub others : (m : ℕ) → m ≢ 0 → block s'.file m ≡ block s.file m

  pub write_header-Headed :
      (k : ℕ) (s : Pager)
      → Logged crc32 k s
      → 0 < k
      → k ≤ 2 ^ 32
      → IsFreeList s.free_list
      → All (IsData k) s.free_list
      → Distinct s.free_list
      → (s' : Pager) × Headed k s s'
  unfolding write_header
  write_header-Headed k s l some_page bound free in_file distinct =
      let size = length-image s.free_list free in
      let (s', p) =
        persist_page-Persisted crc32 k s 0 (image s.free_list free) l (omega arith) (omega arith)
          size in
      let near : 0 * 4096 ≤ length s.file = omega arith in
      let e : max k (0 + 1) ≡ k = omega arith in
      (
        s',
        record {
          call = rw (header_image-image s.free_list free) (p.call);
          free_list = p.free_list;
          valid = record {
            logged = rw e at p.logged;
            some_page = some_page;
            bound = bound;
            free = rw p.free_list free;
            free_data = rw p.free_list in_file;
            distinct = rw p.free_list distinct;
            header = rw p.free_list (
                header_image-image s.free_list free
                ∙ ap ok (
                    sym (
                      ap (λ f. block f 0) p.file
                      ∙ block-write_at s.file 0 (image s.free_list free) near size)));
          };
          others = λ m ne.
              ap (λ f. block f m) p.file
              ∙ block-write_at_ne s.file 0 (image s.free_list free) near size m ne;
        },
      )

  -- What a successful `allocate_page` returns and leaves.
  pub record Allocated (k : ℕ) (s : Pager) (n k' : ℕ) (s' : Pager) : Type 0 where
    pub call : allocate_page crc32 s ≡ (ok n, s')
    pub valid : IsValid crc32 k' s'
    pub number : IsData k' n
    pub reused :
        ((k' ≡ k) × (s.free_list ≡ s'.free_list ++ (n ∷ [])))
        ⊎ ((k' ≡ suc k) × (n ≡ k) × (s.free_list ≡ []) × (s'.free_list ≡ []))
    pub taken : contains s'.free_list n ≡ false
    pub empty : block s'.file n ≡ Page.empty
    pub others : (m : ℕ) → 1 ≤ m → m < k → m ≢ n → block s'.file m ≡ block s.file m

  pub Logged-free_list :
      (k : ℕ) (s : Pager) (free : List ℕ)
      → Logged crc32 k s
      → Logged crc32 k (record s { free_list = free })
  Logged-free_list k s free (base, (es, v)) = (
    base,
    (
      es,
      record {
        pages = v.pages;
        log = v.log;
        loggable = v.loggable;
        run = v.run;
        reach = v.reach;
        current = v.current;
      },
    ),
  )

  All-data_suc : (k : ℕ) (l : List ℕ) → All (IsData k) l → All (IsData (suc k)) l
  All-data_suc k [] h = tt
  All-data_suc k (n ∷ l) (h, hs) = (omega arith, All-data_suc k l hs)

  module _ {k : ℕ} {s : Pager} (v : IsValid crc32 k s) where
    allocate_reused :
        (n : ℕ) (rest : List ℕ)
        → pop s.free_list ≡ some (n, rest)
        → (k' : ℕ) × ((s' : Pager) × Allocated k s n k' s')
    unfolding allocate_page
    allocate_reused n rest e =
        let split : s.free_list ≡ rest ++ (n ∷ []) = pop-some s.free_list n rest e in
        let (in_file, here) = All-front (IsData k) rest n (rw split at v.free_data) in
        let (apart, fresh) = Distinct-front rest n (rw split at v.distinct) in
        let (words, word) = All-front (λ m. m < 2 ^ 32) rest n (rw split at (v.free.1)) in
        let s0 : Pager = record s { free_list = rest } in
        let (s1, p) =
          persist_page-Persisted crc32 k s0 n Page.empty (Logged-free_list k s rest v.logged)
            (omega (arith, here)) word length-empty in
        let few : length rest ≤ max_free =
          omega
            (arith, v.free.0, ap (λ (l : List ℕ). length l) split, length-append rest (n ∷ [])) in
        let same : max k (n + 1) ≡ k = omega (arith, here) in
        let (s2, q) =
          write_header-Headed k s1 (rw same at p.logged) v.some_page v.bound
            (rw p.free_list (few, words)) (rw p.free_list in_file) (rw p.free_list apart) in
        let near : n * 4096 ≤ length s.file = omega (arith, pages crc32 v, here) in
        (
          k,
          (
            s2,
            record {
              call = rw (e, allocate, write_empty_page) (rw p.call (rw q.call));
              valid = q.valid;
              number = here;
              reused = inl (
                refl,
                split ∙ ap (λ (l : List ℕ). l ++ (n ∷ [])) (sym (q.free_list ∙ p.free_list)),
              );
              taken = rw (q.free_list ∙ p.free_list) fresh;
              empty =
                  q.others n (omega (arith, here))
                  ∙ ap (λ f. block f n) p.file
                  ∙ block-write_at s.file n Page.empty near length-empty;
              others = λ m low inside ne.
                  q.others m (omega arith)
                  ∙ ap (λ f. block f m) p.file
                  ∙ block-write_at_ne s.file n Page.empty near length-empty m ne;
            },
          ),
        )

    allocate_extended :
        k < 2 ^ 32 → pop s.free_list ≡ none → (k' : ℕ) × ((s' : Pager) × Allocated k s k k' s')
    unfolding allocate_page contains
    allocate_extended room e =
        let nil : s.free_list ≡ [] = pop-none s.free_list e in
        let (s1, p) =
          persist_page-Persisted crc32 k s k Page.empty v.logged (omega arith) room length-empty in
        let near : k * 4096 ≤ length s.file = omega (arith, pages crc32 v) in
        let grown : max k (k + 1) ≡ suc k = omega arith in
        let others : (m : ℕ) → m ≢ k → block s1.file m ≡ block s.file m = λ m ne.
          ap (λ f. block f m) p.file
          ∙ block-write_at_ne s.file k Page.empty near length-empty m ne in
        (
          suc k,
          (
            s1,
            record {
              call = rw (e, allocate, num_pages-valid crc32 v, write_empty_page) (rw p.call);
              valid = record {
                logged = rw grown at p.logged;
                some_page = omega arith;
                bound = omega arith;
                free = rw p.free_list v.free;
                free_data = rw p.free_list (All-data_suc k s.free_list v.free_data);
                distinct = rw p.free_list v.distinct;
                header =
                    rw p.free_list (v.header ∙ ap ok (sym (others 0 (omega (arith, v.some_page)))));
              };
              number = omega (arith, v.some_page);
              reused = inr (refl, refl, nil, p.free_list ∙ nil);
              taken = rw (p.free_list ∙ nil);
              empty =
                  ap (λ f. block f k) p.file ∙ block-write_at s.file k Page.empty near length-empty;
              others = λ m low inside ne. others m ne;
            },
          ),
        )

  -- On a valid pager below 2^32 pages `allocate_page` raises nothing. It returns the last entry of
  -- the free list, which leaves the list, or, if the list is empty, extends the file by one page.
  -- The page is a data page that is free no more, it holds an empty page, every other data page is
  -- unchanged, and the pager is valid.
  pub allocate_page-Allocated :
      (k : ℕ) (s : Pager)
      → IsValid crc32 k s
      → k < 2 ^ 32
      → (n : ℕ) × ((k' : ℕ) × ((s' : Pager) × Allocated k s n k' s'))
  allocate_page-Allocated k s v room = go (Option-cases (pop s.free_list))
    where
      go :
          (pop s.free_list ≡ none) ⊎ ((a : ℕ × List ℕ) × (pop s.free_list ≡ some a))
          → (n : ℕ) × ((k' : ℕ) × ((s' : Pager) × Allocated k s n k' s'))
      go (inl e) = (k, allocate_extended v room e)
      go (inr ((n, rest), e)) = (n, allocate_reused v n rest e)
