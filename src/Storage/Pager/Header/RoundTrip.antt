-- ===== src/Storage/Pager/Header/RoundTrip.antt =====
-- The header page loads back.
use query_x_engine.Common.{
  ℕ, ◌+◌, ◌*◌, ◌^◌, ◌≤◌, ◌<◌, ◌≡◌, refl, ◌∙◌, List, [], ◌∷◌, ◌++◌, arith, length, length-append,
  take-append_exact, drop-append_exact, take_of_length-le, All, ok,
}
use query_x_engine.Common.Bytes.{
  Bytes, slice, splice, zeros, length-zeros, write_into_fits, read_from_fits, length-splice,
  slice-splice_self, slice-splice_within, slice-splice_before, bytes_eq_refl,
}
use query_x_engine.Common.Bytes.Words.{le_bytes, pack_fits, length-le_bytes, of_le-le_bytes}
use query_x_engine.Storage.Page.{page_size}
use query_x_engine.Storage.Pager.Header.{
  magic, version, max_free, pack_free_list, header_image, read_free_list, load_header,
}

-- Free lists that the header can hold.
abbrev pub IsFreeList : List ℕ → Type 0
IsFreeList free_list = (length free_list ≤ max_free) × All (λ n. n < 2 ^ 32) free_list

-- what the loop of `_write_header` leaves, from a block `d`
record Packed (d : Bytes) (pos : ℕ) (free_list : List ℕ) (d' : Bytes) : Type 0 where
  call : pack_free_list d pos free_list ≡ ok d'
  size : length d' ≡ length d
  before : (o n : ℕ) → o + n ≤ pos → slice d' o n ≡ slice d o n
  back : read_free_list d' pos (length free_list) ≡ ok free_list

Packed-free_list :
    (free_list : List ℕ) (d : Bytes) (pos : ℕ)
    → All (λ n. n < 2 ^ 32) free_list
    → pos + 4 * length free_list ≤ length d
    → (d' : Bytes) × Packed d pos free_list d'
unfolding pack_free_list read_free_list
Packed-free_list [] d pos h room =
    (d, record { call = refl; size = refl; before = λ o n h. refl; back = refl })
Packed-free_list (n ∷ ns) d pos (h, hs) room =
    let four = length-le_bytes 4 n in
    let fits : pos + length (le_bytes 4 n) ≤ length d = omega (arith, four) in
    let d1 = splice d pos (le_bytes 4 n) in
    let same = length-splice d pos (le_bytes 4 n) fits in
    let (d', p) = Packed-free_list ns d1 (pos + 4) hs (omega (arith, same)) in
    (
      d',
      record {
        call = rw (pack_fits 4 n h) (rw (write_into_fits d pos (le_bytes 4 n) fits) (p.call));
        size = p.size ∙ same;
        before = λ o k q.
            p.before o k (omega arith) ∙ slice-splice_before d pos (le_bytes 4 n) fits o k q;
        back = rw (
          read_from_fits d' pos 4 (omega (arith, p.size, same)),
          p.before pos 4 (omega arith),
          slice-splice_self d pos (le_bytes 4 n) fits 4 (omega (arith, four)),
          of_le-le_bytes 4 n h,
          p.back,
        );
      },
    )

module _ (free_list : List ℕ) (h : IsFreeList free_list) where
  fields : Bytes
  fields = magic ++ (le_bytes 2 version ++ le_bytes 4 (length free_list))

  length-fields : length fields ≡ 10
  unfolding fields
  length-fields = omega (
    arith,
    length-append magic (le_bytes 2 version ++ le_bytes 4 (length free_list)),
    length-append (le_bytes 2 version) (le_bytes 4 (length free_list)),
    length-le_bytes 2 version,
    length-le_bytes 4 (length free_list),
  )

  fits : 0 + length fields ≤ length (zeros page_size)
  fits = omega (arith, length-fields, length-zeros page_size)

  start : Bytes
  start = splice (zeros page_size) 0 fields

  packed : (d : Bytes) × Packed start 10 free_list d
  unfolding start
  packed =
      Packed-free_list free_list start 10 (h.1)
        (omega (arith, length-splice (zeros page_size) 0 fields fits, length-zeros page_size, h.0))

  -- the header page
  pub image : Bytes
  image = packed.0

  pub header_image-image : header_image free_list ≡ ok image
  unfolding header_image image start fields
  header_image-image =
      rw (pack_fits 4 (length free_list) (omega (arith, h.0)))
        (rw (write_into_fits (zeros page_size) 0 fields fits) (packed.1.call))

  pub length-image : length image ≡ page_size
  unfolding image start
  length-image =
      packed.1.size ∙ length-splice (zeros page_size) 0 fields fits ∙ length-zeros page_size

  field : (o n : ℕ) → o + n ≤ 10 → slice image o n ≡ slice fields o n
  unfolding image start
  field o n q =
      packed.1.before o n q
      ∙ slice-splice_within (zeros page_size) 0 fields fits o o n (omega arith)
          (omega (arith, length-fields))

  field_values :
      (slice fields 0 4 ≡ magic)
      × (slice fields 4 2 ≡ le_bytes 2 version)
      × (slice fields 6 4 ≡ le_bytes 4 (length free_list))
  unfolding fields slice
  field_values =
      let a = length-le_bytes 2 version in
      let b = length-le_bytes 4 (length free_list) in
      (
        refl,
        take-append_exact 2 (le_bytes 2 version) _ a,
        rw (drop-append_exact 2 (le_bytes 2 version) (le_bytes 4 (length free_list)) a)
            (take_of_length-le 4 (le_bytes 4 (length free_list)) (omega (arith, b))),
      )

  back-image : read_free_list image 10 (length free_list) ≡ ok free_list
  unfolding image packed
  back-image = packed.1.back

  -- For at most 1021 page numbers of 32 bits, `_load_header` of a file whose page 0 is what
  -- `_write_header` writes for them as the free list gives back that free list.
  pub load_header-image :
      (file : Bytes) → slice file 0 page_size ≡ image → load_header file ≡ ok free_list
  unfolding load_header
  load_header-image file e = rw e (
      rw
        (
          length-image,
          field 0 4 (omega arith),
          field 4 2 (omega arith),
          field 6 4 (omega arith),
          field_values.0,
          field_values.1,
          field_values.2,
          bytes_eq_refl magic,
          of_le-le_bytes 2 version (omega arith),
          of_le-le_bytes 4 (length free_list) (omega (arith, h.0)),
        )
        back-image)
