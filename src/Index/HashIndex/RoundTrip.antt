-- ===== src/Index/HashIndex/RoundTrip.antt =====
-- Reading back a bucket page.
use query_x_engine.Common.{
  ℕ, ◌+◌, ◌*◌, ◌^◌, ◌≤◌, ◌<◌, ◌≡◌, refl, sym, ap, ◌∙◌, arith, List, [], ◌∷◌, ◌++◌, length,
  length-append, ok, All,
}
use query_x_engine.Common.Int.{ℤ}
use query_x_engine.Common.Bytes.{
  Bytes, slice, splice, zeros, write_into_fits, read_from_fits, length-splice, slice-splice_self,
  slice-splice_before, slice-append, slice-slice, length-zeros,
}
use query_x_engine.Common.Bytes.Words.{
  le_bytes, to_pattern, Int64, pack_fits, pack_int_fits, of_le-le_bytes, of_pattern-le_bytes,
  length-le_bytes,
}
use query_x_engine.Storage.Page.{page_size}
use query_x_engine.Storage.HeapFile.{RowId}
use query_x_engine.Index.HashIndex.Buckets.{
  entry_bytes, write_entries, bucket_bytes, read_entry, read_entries, read_bucket, entry_size,
  capacity, bucket_header_size,
}

-- an entry that the fields of a page can hold
abbrev pub Fits : ℤ × RowId → Type 0
Fits (key, id) = Int64 key × (id.page_no < 256 ^ 4) × (id.slot < 256 ^ 4)

module _ (key : ℤ) (id : RowId) where
  abbrev code : Bytes
  code = le_bytes 8 (to_pattern key) ++ (le_bytes 4 id.page_no ++ le_bytes 4 id.slot)

  entry_bytes-Fits : Fits (key, id) → entry_bytes (key, id) ≡ ok code
  unfolding entry_bytes
  entry_bytes-Fits (k, p, s) =
      rw (pack_int_fits key k, pack_fits 4 id.page_no p, pack_fits 4 id.slot s) refl

  length-code : length code ≡ entry_size
  length-code = omega (
    arith,
    length-append (le_bytes 8 (to_pattern key)) (le_bytes 4 id.page_no ++ le_bytes 4 id.slot),
    length-append (le_bytes 4 id.page_no) (le_bytes 4 id.slot),
    length-le_bytes 8 (to_pattern key),
    length-le_bytes 4 id.page_no,
    length-le_bytes 4 id.slot,
  )

  read_entry-code : Fits (key, id) → read_entry code ≡ (key, id)
  unfolding read_entry
  read_entry-code (k, p, s) =
      let a = le_bytes 8 (to_pattern key) in
      let b = le_bytes 4 id.page_no in
      let c = le_bytes 4 id.slot in
      let outer = slice-append a (b ++ c) 8 8 (length-le_bytes 8 (to_pattern key)) (
        omega
          (arith, length-append b c, length-le_bytes 4 id.page_no, length-le_bytes 4 id.slot)) in
      let inner = slice-append b c 4 4 (length-le_bytes 4 id.page_no) (length-le_bytes 4 id.slot) in
      let page : slice code 8 4 ≡ b =
        sym (slice-slice code 8 8 0 4 8 refl (omega arith))
        ∙ ap (λ x. slice x 0 4) outer.1
        ∙ inner.0 in
      let slot : slice code 12 4 ≡ c =
        sym (slice-slice code 8 8 4 4 12 refl (omega arith))
        ∙ ap (λ x. slice x 4 4) outer.1
        ∙ inner.1 in
      rw (outer.0, page, slot)
        (rw (of_pattern-le_bytes key k, of_le-le_bytes 4 id.page_no p, of_le-le_bytes 4 id.slot s)
          refl)

-- what the writes from a position on leave
record Written (entries : List (ℤ × RowId)) (buf : Bytes) (at_pos : ℕ) (buf' : Bytes) : Type 0 where
  call : write_entries entries buf at_pos ≡ ok buf'
  size : length buf' ≡ length buf
  before : (o n : ℕ) → o + n ≤ at_pos → slice buf' o n ≡ slice buf o n
  back : read_entries (length entries) buf' at_pos ≡ ok entries

write_entries-Written :
    (entries : List (ℤ × RowId)) (buf : Bytes) (at_pos : ℕ)
    → All Fits entries
    → at_pos + length entries * entry_size ≤ length buf
    → (buf' : Bytes) × Written entries buf at_pos buf'
unfolding write_entries read_entries
write_entries-Written [] buf at_pos h room =
    (buf, record { call = refl; size = refl; before = λ o n le. refl; back = refl })
write_entries-Written ((key, id) ∷ entries) buf at_pos (h, hs) room =
    let b = code key id in
    let len = length-code key id in
    let buf1 = splice buf at_pos b in
    let size1 = length-splice buf at_pos b (omega (arith, len, room)) in
    let (buf', w) =
      write_entries-Written entries buf1 (at_pos + entry_size) hs (omega (arith, size1, room)) in
    let there : slice buf' at_pos entry_size ≡ b =
      w.before at_pos entry_size (omega arith)
      ∙ slice-splice_self buf at_pos b (omega (arith, len, room)) entry_size (sym len) in
    (
      buf',
      record {
        call =
            rw (entry_bytes-Fits key id h, write_into_fits buf at_pos b (omega (arith, len, room)))
              w.call;
        size = w.size ∙ size1;
        before = λ o n le.
            w.before o n (omega (arith, le))
            ∙ slice-splice_before buf at_pos b (omega (arith, len, room)) o n le;
        back =
            rw (read_from_fits buf' at_pos entry_size (omega (arith, w.size, size1, room)), there)
              (rw (w.back, read_entry-code key id h) refl);
      },
    )

-- Up to 255 entries with 64-bit keys and 32-bit page and slot numbers, and a 32-bit number of an
-- overflow page, are written to a bucket page of 4096 bytes, and read back from it as they were.
pub read_bucket-bucket_bytes :
    (entries : List (ℤ × RowId)) (next_overflow : ℕ)
    → All Fits entries
    → length entries ≤ capacity
    → next_overflow < 256 ^ 4
    → (raw : Bytes) × (bucket_bytes entries next_overflow ≡ ok raw)
      × (length raw ≡ page_size)
      × (read_bucket raw ≡ ok (entries, next_overflow))
unfolding bucket_bytes read_bucket
read_bucket-bucket_bytes entries next_overflow h count next =
    let n = le_bytes 2 (length entries) in
    let o = le_bytes 4 next_overflow in
    let len : length (n ++ o) ≡ 6 = omega (
      arith,
      length-append n o,
      length-le_bytes 2 (length entries),
      length-le_bytes 4 next_overflow,
    ) in
    let z = zeros page_size in
    let room : 0 + length (n ++ o) ≤ length z = omega (arith, len, length-zeros page_size) in
    let start = splice z 0 (n ++ o) in
    let size = length-splice z 0 (n ++ o) room in
    let (raw, w) =
      write_entries-Written entries start bucket_header_size h
        (omega (arith, size, length-zeros page_size, count)) in
    let header : slice raw 0 bucket_header_size ≡ n ++ o =
      w.before 0 bucket_header_size (omega arith)
      ∙ slice-splice_self z 0 (n ++ o) room 6 (sym len) in
    let fields =
      slice-append n o 2 4 (length-le_bytes 2 (length entries)) (length-le_bytes 4 next_overflow) in
    let whole : length raw ≡ page_size = w.size ∙ size ∙ length-zeros page_size in
    (
      raw,
      rw
          (
            pack_fits 2 (length entries) (omega (arith, count)),
            pack_fits 4 next_overflow next,
            write_into_fits z 0 (n ++ o) room,
          )
          w.call,
      whole,
      rw
          (
            read_from_fits raw 0 bucket_header_size (omega (arith, whole)),
            header,
            fields.0,
            fields.1,
            of_le-le_bytes 2 (length entries) (omega (arith, count)),
            of_le-le_bytes 4 next_overflow next,
          )
          (rw w.back refl),
    )
