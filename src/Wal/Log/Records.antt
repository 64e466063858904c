-- ===== src/Wal/Log/Records.antt =====
-- Reading a log back: what was appended comes out again, and a torn tail is dropped.
use query_x_engine.Common.{
  ℕ, zero, suc, ◌+◌, ◌-◌, ◌%◌, ◌^◌, ◌≤◌, ◌<◌, ◌≡◌, refl, ap, none, some, List, [], ◌∷◌, ◌++◌,
  append_assoc, append-nil, arith, ltb, ◌==◌, if◌then◌else◌, length, length-append, take, drop,
  length-take, take-append_exact, drop-append_exact, drop-append_ge, take-append_past,
  take_of_length-le, All, Bool-cases, inl, inr, ltb→lt, ltb→le, lt→ltb, ok,
}
use query_x_engine.Common.Bytes.{Bytes, slice, bytes_eq_refl}
use query_x_engine.Common.Bytes.Words.{le_bytes, pack_fits, length-le_bytes, of_le-le_bytes}
use query_x_engine.Wal.Log.{
  magic, header_size, max_length, log_append, next_record, records_loop, records,
}

-- A page number in 32 bits, and data that is neither empty nor longer than 16 MiB.
abbrev pub Loggable : ℕ × Bytes → Type 0
Loggable (page_no, d) = (page_no < 2 ^ 32) × (0 < length d) × (length d ≤ max_length)

four_fields :
    (m a b c : Bytes)
    → length m ≡ 4
    → length a ≡ 4
    → length b ≡ 4
    → length c ≡ 4
    → (slice (m ++ (a ++ (b ++ c))) 0 4 ≡ m)
      × (slice (m ++ (a ++ (b ++ c))) 4 4 ≡ a)
      × (slice (m ++ (a ++ (b ++ c))) 8 4 ≡ b)
      × (slice (m ++ (a ++ (b ++ c))) 12 4 ≡ c)
      × (length (m ++ (a ++ (b ++ c))) ≡ 16)
unfolding slice
four_fields m a b c hm ha hb hc = (
  take-append_exact 4 m _ hm,
  rw (drop-append_exact 4 m (a ++ (b ++ c)) hm) (take-append_exact 4 a _ ha),
  rw (drop-append_ge 8 4 m (a ++ (b ++ c)) (omega arith))
      (rw (drop-append_exact 4 a (b ++ c) ha) (take-append_exact 4 b c hb)),
  rw (drop-append_ge 12 8 m (a ++ (b ++ c)) (omega arith)) (
      rw (drop-append_ge 8 4 a (b ++ c) (omega arith))
        (rw (drop-append_exact 4 b c hb) (take_of_length-le 4 c (omega arith)))),
  omega (arith, length-append m (a ++ (b ++ c)), length-append a (b ++ c), length-append b c),
)

module _ (crc32 : Bytes → ℕ) where
  -- the bytes of one record
  unfoldable pub head : ℕ × Bytes → Bytes
  head (page_no, d) =
      magic ++ (le_bytes 4 page_no ++ (le_bytes 4 (length d) ++ le_bytes 4 (crc32 d % 2 ^ 32)))

  unfoldable pub frame : ℕ × Bytes → Bytes
  frame e = head e ++ e.1

  pub log_append-frame :
      (log : Bytes) (page_no : ℕ) (d : Bytes)
      → Loggable (page_no, d)
      → log_append crc32 log page_no d ≡ ok (log ++ frame (page_no, d))
  unfolding log_append frame head
  log_append-frame log page_no d (a, b, c) = rw (
    pack_fits 4 page_no (omega arith),
    pack_fits 4 (length d) (omega arith),
    pack_fits 4 (crc32 d % 2 ^ 32) (omega arith),
  )

  module _ (page_no : ℕ) (d : Bytes) (h : Loggable (page_no, d)) where
    fields :
        (slice (head (page_no, d)) 0 4 ≡ magic)
        × (slice (head (page_no, d)) 4 4 ≡ le_bytes 4 page_no)
        × (slice (head (page_no, d)) 8 4 ≡ le_bytes 4 (length d))
        × (slice (head (page_no, d)) 12 4 ≡ le_bytes 4 (crc32 d % 2 ^ 32))
        × (length (head (page_no, d)) ≡ 16)
    unfolding head
    fields =
        four_fields magic _ _ _ refl (length-le_bytes 4 _) (length-le_bytes 4 _)
          (length-le_bytes 4 _)

    -- the round on a whole header and any body
    next_record-head :
        (body : Bytes)
        → next_record crc32 (head (page_no, d) ++ body) ≡ (
            if ltb (length (take (length d) body)) (length d)
            then none
            else if crc32 (take (length d) body) % 2 ^ 32 == crc32 d % 2 ^ 32
            then some (page_no, take (length d) body, drop (length d) body)
            else none)
    unfolding next_record
    next_record-head body =
        rw
          (
            take-append_exact 16 (head (page_no, d)) body fields.4,
            drop-append_exact 16 (head (page_no, d)) body fields.4,
          )
          (rw (fields.0, fields.1, fields.2, fields.3, fields.4)
            (rw
              (
                of_le-le_bytes 4 page_no (omega arith),
                of_le-le_bytes 4 (length d) (omega arith),
                of_le-le_bytes 4 (crc32 d % 2 ^ 32) (omega arith),
              )
              (ground (arith, h.1, h.2, bytes_eq_refl magic))))

    next_record-frame :
        (rest : Bytes) → next_record crc32 (frame (page_no, d) ++ rest) ≡ some (page_no, d, rest)
    unfolding frame
    next_record-frame rest = rw (append_assoc (head (page_no, d)) d rest) (
        rw (next_record-head (d ++ rest)) (
          rw (take-append_exact (length d) d rest refl, drop-append_exact (length d) d rest refl)
            (ground arith)))

    -- a header cut short
    next_record_short : (rest : Bytes) → length rest < header_size → next_record crc32 rest ≡ none
    unfolding next_record
    next_record_short rest short =
        rw (lt→ltb (length (take 16 rest)) 16 (omega (arith, length-take 16 rest)))

    take-past_head :
        (k : ℕ) → take (16 + k) (head (page_no, d) ++ d) ≡ head (page_no, d) ++ take k d
    take-past_head k = take-append_past (16 + k) k (head (page_no, d)) d (omega (arith, fields.4))

    length-frame : length (frame (page_no, d)) ≡ 16 + length d
    unfolding frame
    length-frame = omega (arith, length-append (head (page_no, d)) d, fields.4)

    -- A record of which only the first `k` bytes were written ends the generator.
    next_record-torn :
        (k : ℕ)
        → k < length (frame (page_no, d))
        → next_record crc32 (take k (frame (page_no, d))) ≡ none
    unfolding frame
    next_record-torn k h = elim (Bool-cases (ltb k 16)) [
      | inl low ↦
          next_record_short (take k (frame (page_no, d)))
            (omega (arith, length-take k (frame (page_no, d)), ltb→lt _ _ low))
      | inr high ↦
          let m = k - 16 in
          let e : k ≡ 16 + m = omega (arith, ltb→le _ _ high) in
          let short : length (take (length d) (take m d)) < length d =
            omega (arith, length-take (length d) (take m d), length-take m d, length-frame) in
          rw e (rw (take-past_head m) (rw (next_record-head (take m d)) (rw (lt→ltb _ _ short))))
    ]

  -- the log that these appends leave
  unfoldable pub frames : List (ℕ × Bytes) → Bytes
  frames [] = []
  frames (e ∷ es) = frame e ++ frames es

  pub frames-append : (es fs : List (ℕ × Bytes)) → frames (es ++ fs) ≡ frames es ++ frames fs
  unfolding frames
  frames-append [] fs = refl
  frames-append (e ∷ es) fs = rw (frames-append es fs, append_assoc)

  pub frames-snoc :
      (es : List (ℕ × Bytes)) (e : ℕ × Bytes) → frames (es ++ (e ∷ [])) ≡ frames es ++ frame e
  unfolding frames
  frames-snoc es e = rw (frames-append es (e ∷ []), append-nil)

  -- The prefixes of one record, as a crash during its append leaves them.
  abbrev pub IsTorn : Bytes → Type 0
  IsTorn tail =
      (e : ℕ × Bytes) × Loggable e × ((k : ℕ) × (k < length (frame e)) × (tail ≡ take k (frame e)))

  records_loop-frames :
      (fuel : ℕ) (es : List (ℕ × Bytes)) (tail : Bytes)
      → All Loggable es
      → next_record crc32 tail ≡ none
      → length es < fuel
      → records_loop crc32 fuel (frames es ++ tail) ≡ es
  unfolding records_loop frames
  records_loop-frames zero es tail hs t h = absurd (omega arith)
  records_loop-frames (suc fuel) [] tail hs t h = rw (t, records_loop)
  records_loop-frames (suc fuel) (e ∷ es) tail (l, hs) t h =
      rw (append_assoc (frame e) (frames es) tail) (
        rw (next_record-frame e.0 e.1 l (frames es ++ tail), records_loop)
          (ap (◌∷◌ e) (records_loop-frames fuel es tail hs t (omega arith))))

  length-le-frames : (es : List (ℕ × Bytes)) → All Loggable es → length es ≤ length (frames es)
  unfolding frames
  length-le-frames [] hs = omega arith
  length-le-frames (e ∷ es) (l, hs) =
      omega
        (arith, length-le-frames es hs, length-append (frame e) (frames es), length-frame e.0 e.1 l)

  -- After any appends of pages that can be logged and one torn append, the generator yields exactly the records whose append
  -- was complete, in order.
  pub records-frames_torn :
      (es : List (ℕ × Bytes)) (tail : Bytes)
      → All Loggable es
      → IsTorn tail
      → records crc32 (frames es ++ tail) ≡ es
  unfolding records
  records-frames_torn es tail hs (e, l, (k, short, eq)) =
      records_loop-frames (suc (length (frames es ++ tail))) es tail hs
        (rw eq (next_record-torn e.0 e.1 l k short))
        (omega (arith, length-append (frames es) tail, length-le-frames es hs))
