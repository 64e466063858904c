-- ===== src/Tests/Pages.antt =====
-- Slotted pages and rows.
use query_x_engine.Common.{◌+◌, ◌≡◌, refl, sym, List, [], ◌∷◌, arith, length, ok}
use query_x_engine.Common.Int.{pos, negsuc}
use query_x_engine.Common.Bytes.{Bytes}
use query_x_engine.Storage.Page.{Page, empty, slot_cost}
use query_x_engine.Storage.Page.Layout.{contents}
use query_x_engine.Storage.Page.Empty.{
  empty-IsValid, contents-empty, num_slots-empty, free_end-empty,
}
use query_x_engine.Storage.Page.Contents.{first_dead}
use query_x_engine.Storage.Page.Insert.{Fits, Inserted, cost, insert_record-place}
use query_x_engine.Storage.Row.{
  int, text, Value, num, str, Builtins, serialize_row, deserialize_row,
}
use query_x_engine.Storage.Row.RoundTrip.{Decodes, deserialize_row-serialize_row}

abbrev two_bytes : Bytes
two_bytes = 1 ∷ 2 ∷ []

cost-empty : (rec : Bytes) → cost empty rec ≡ length rec + 4
unfolding cost
cost-empty rec = rw contents-empty (unfold first_dead in unfold slot_cost in refl)

fits : Fits empty two_bytes
fits = omega (arith, cost-empty two_bytes, num_slots-empty, free_end-empty)

insert_record-place_example :
    (p' : Page) × Inserted empty two_bytes (first_dead 0 (contents empty)) p'
insert_record-place_example = insert_record-place empty two_bytes empty-IsValid (omega arith) fits

-- a codec of one byte for each character
abbrev one_byte : Builtins
one_byte = record {
  encode = λ s. ok s;
  decode = λ b. ok b;
  parse_int = λ s. ok (pos (length s));
  show_int = λ n. [];
}

one_byte-Decodes : Decodes one_byte
one_byte-Decodes s b h = sym h

abbrev row : List Value
row = num (negsuc 4) ∷ str (104 ∷ 105 ∷ []) ∷ []

deserialize_row-serialize_row_example :
    (b : Bytes) × (serialize_row one_byte (int ∷ text ∷ []) row ≡ ok b)
    × (deserialize_row one_byte (int ∷ text ∷ []) b ≡ ok row)
deserialize_row-serialize_row_example =
    deserialize_row-serialize_row one_byte one_byte-Decodes (int ∷ text ∷ []) row
      (omega arith, ((_, refl, omega arith), tt))
