-- ===== src/Storage/Row/RoundTrip.antt =====
-- Reading back a serialized row.
use query_x_engine.Common.{
  ℕ, ◌+◌, ◌≤◌, ◌≡◌, refl, ap, ◌∙◌, List, [], ◌∷◌, ◌++◌, append-nil, append_assoc, suc, arith,
  le→ltb, ==_refl, length, length-append, drop-append_exact, take-append_exact, ok,
}
use query_x_engine.Common.Int.{ℤ}
use query_x_engine.Common.Bytes.{Bytes, slice, read_from, read_from_fits}
use query_x_engine.Common.Bytes.Words.{
  Int64, pack_fits, pack_int_fits, le_bytes, of_le, to_pattern, length-le_bytes, of_le-le_bytes,
  of_pattern-le_bytes,
}
use query_x_engine.Storage.Row.{
  ColumnType, int, text, Value, num, str, Text, Builtins, serialize_value, serialize_values, int_of,
  str_of, serialize_row, deserialize_from, deserialize_row,
}

-- Decoding inverts encoding.
abbrev pub Decodes : Builtins → Type 0
Decodes py = (s : Text) (b : Bytes) → py.encode s ≡ ok b → py.decode b ≡ ok s

-- A row of the schema that can be stored: a signed 64-bit number in each INT column, and in each
-- TEXT column a string whose encoding has at most 65535 bytes.
abbrev pub Storable : Builtins → List ColumnType → List Value → Type 0
Storable py [] [] = Unit
Storable py (int ∷ schema) (num n ∷ values) = Int64 n × Storable py schema values
Storable py (text ∷ schema) (str s ∷ values) =
    ((b : Bytes) × (py.encode s ≡ ok b) × (length b ≤ 65535)) × Storable py schema values
Storable py _ _ = ⊥

slice-middle :
    (a b c : Bytes) (o n : ℕ) → length a ≡ o → length b ≡ n → slice (a ++ (b ++ c)) o n ≡ b
unfolding slice
slice-middle a b c o n h k = rw (drop-append_exact o a (b ++ c) h) (take-append_exact n b c k)

read_middle :
    (a b c : Bytes) (o n : ℕ) → length a ≡ o → length b ≡ n → read_from (a ++ (b ++ c)) o n ≡ ok b
read_middle a b c o n h k =
    read_from_fits (a ++ (b ++ c)) o n (omega (arith, length-append a (b ++ c), length-append b c))
    ∙ ap ok (slice-middle a b c o n h k)

module _ (py : Builtins) where
  -- what `Storable` gives for the columns of `schema`, wherever their bytes stand
  abbrev Returns : List ColumnType → List Value → Bytes → Type 0
  Returns schema values b =
      (serialize_values py schema values ≡ ok b)
      × ((front back : Bytes) (pos : ℕ)
          → length front ≡ pos
          → deserialize_from py schema (front ++ (b ++ back)) pos ≡ ok values)

  module _ (schema : List ColumnType) (values : List Value) (rest : Bytes)
      (r : Returns schema values rest) where
    behind :
        (front piece back : Bytes) (pos n : ℕ)
        → length front ≡ pos
        → length piece ≡ n
        → deserialize_from py schema (front ++ (piece ++ (rest ++ back))) (pos + n) ≡ ok values
    behind front piece back pos n e k =
        rw (append_assoc front piece (rest ++ back)) at
          (r.1 (front ++ piece) back (pos + n) (omega (arith, length-append front piece)))

    Returns-int :
        (n : ℤ)
        → Int64 n
        → Returns (int ∷ schema) (num n ∷ values) (le_bytes 8 (to_pattern n) ++ rest)
    unfolding serialize_values deserialize_from serialize_value int_of
    Returns-int n h = (
      rw (pack_int_fits n h, r.0),
      λ front back pos e. rw (append_assoc (le_bytes 8 (to_pattern n)) rest back) (
          rw (
            read_middle front (le_bytes 8 (to_pattern n)) (rest ++ back) pos 8 e
                (length-le_bytes 8 (to_pattern n)),
            behind front (le_bytes 8 (to_pattern n)) back pos 8 e
                (length-le_bytes 8 (to_pattern n)),
            of_pattern-le_bytes n h,
          )),
    )

    module _ (decodes : Decodes py) (s : Text) (b : Bytes) (encoded : py.encode s ≡ ok b)
        (short : length b ≤ 65535) where
      prefix : Bytes
      prefix = le_bytes 2 (length b)

      length-prefix : length prefix ≡ 2
      unfolding prefix
      length-prefix = length-le_bytes 2 (length b)

      of_le-prefix : of_le prefix ≡ length b
      unfolding prefix
      of_le-prefix = of_le-le_bytes 2 (length b) (omega arith)

      module _ (front back : Bytes) (pos : ℕ) (e : length front ≡ pos) where
        abbrev whole : Bytes
        whole = front ++ (prefix ++ (b ++ (rest ++ back)))

        text_there : slice whole (pos + 2) (length b) ≡ b
        text_there = rw (append_assoc front prefix (b ++ (rest ++ back))) at (
            slice-middle (front ++ prefix) b (rest ++ back) (pos + 2) (length b)
              (omega (arith, length-append front prefix, length-prefix)) refl)

        rest_there : deserialize_from py schema whole (pos + 2 + length b) ≡ ok values
        rest_there = rw (append_assoc front prefix (b ++ (rest ++ back))) at (
            behind (front ++ prefix) b back (pos + 2) (length b)
              (omega (arith, length-append front prefix, length-prefix)) refl)

        regroup : front ++ (((prefix ++ b) ++ rest) ++ back) ≡ whole
        regroup = simp append_assoc

        text_column :
            deserialize_from py (text ∷ schema) (front ++ (((prefix ++ b) ++ rest) ++ back)) pos
            ≡ ok (str s ∷ values)
        unfolding deserialize_from
        text_column = rw regroup (
            rw (
              read_middle front prefix (b ++ (rest ++ back)) pos 2 e length-prefix,
              of_le-prefix,
              text_there,
              decodes s b encoded,
              rest_there,
            ))

      Returns-text : Returns (text ∷ schema) (str s ∷ values) ((prefix ++ b) ++ rest)
      unfolding serialize_values serialize_value str_of prefix
      Returns-text = (
        rw (encoded, le→ltb 65535 (length b) short, pack_fits 2 (length b) (omega arith), r.0),
        text_column,
      )

Returns-row :
    (py : Builtins)
    → Decodes py
    → (schema : List ColumnType) (values : List Value) → Storable py schema values
    → (b : Bytes) × Returns py schema values b
unfolding serialize_values deserialize_from
Returns-row py decodes [] [] h = ([], (refl, λ front back pos e. refl))
Returns-row py decodes [] (v ∷ values) h = elim h [ ]
Returns-row py decodes (int ∷ schema) [] h = elim h [ ]
Returns-row py decodes (text ∷ schema) [] h = elim h [ ]
Returns-row py decodes (int ∷ schema) (str s ∷ values) h = elim h [ ]
Returns-row py decodes (text ∷ schema) (num n ∷ values) h = elim h [ ]
Returns-row py decodes (int ∷ schema) (num n ∷ values) (h, hs) =
    let (b, r) = Returns-row py decodes schema values hs in
    (_, Returns-int py schema values b r n h)
Returns-row py decodes (text ∷ schema) (str s ∷ values) ((b, encoded, short), hs) =
    let (rest, r) = Returns-row py decodes schema values hs in
    (_, Returns-text py schema values rest r decodes s b encoded short)

Storable-length :
    (py : Builtins) (schema : List ColumnType) (values : List Value)
    → Storable py schema values
    → length schema ≡ length values
Storable-length py [] [] h = refl
Storable-length py [] (v ∷ values) h = elim h [ ]
Storable-length py (int ∷ schema) [] h = elim h [ ]
Storable-length py (text ∷ schema) [] h = elim h [ ]
Storable-length py (int ∷ schema) (str s ∷ values) h = elim h [ ]
Storable-length py (text ∷ schema) (num n ∷ values) h = elim h [ ]
Storable-length py (int ∷ schema) (num n ∷ values) (h, hs) =
    ap suc (Storable-length py schema values hs)
Storable-length py (text ∷ schema) (str s ∷ values) (h, hs) =
    ap suc (Storable-length py schema values hs)

-- Where decoding inverts encoding, a storable row serializes to some bytes, and those bytes
-- deserialize under the same schema to the same row.
pub deserialize_row-serialize_row :
    (py : Builtins)
    → Decodes py
    → (schema : List ColumnType) (values : List Value) → Storable py schema values
    → (b : Bytes) × (serialize_row py schema values ≡ ok b)
      × (deserialize_row py schema b ≡ ok values)
unfolding serialize_row deserialize_row
deserialize_row-serialize_row py decodes schema values h =
    let (b, (stored, back)) = Returns-row py decodes schema values h in
    (
      b,
      rw (Storable-length py schema values h, ==_refl) stored,
      rw (append-nil b) at (back [] [] 0 refl),
    )
