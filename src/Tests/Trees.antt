-- ===== src/Tests/Trees.antt =====
-- Trees in a store of nodes by page number.
use query_x_engine.Common.{
  ℕ, ◌+◌, ◌≡◌, refl, true, false, Option, none, some, List, [], ◌∷◌, arith, length, Result, ok,
  raise, key_error,
}
use query_x_engine.Common.Int.{ℤ, pos}
use query_x_engine.Storage.OrderedDict.{lookup, assign}
use query_x_engine.Storage.HeapFile.{RowId}
use query_x_engine.Index.BTree.{
  Node, NodeStore, find_leaf, descend, item, bisect_left, search, search_from, split_leaf,
  insert_into, with_entry, insert_at, bisect_right,
}
use query_x_engine.Index.BTree.Search.{
  Leaves, end, next, rows_of, search_from-rows_of, search-empty_leaf,
}
use query_x_engine.Index.BTree.Split.{left_half, right_half, SplitLeaf, split_leaf-SplitLeaf}
use query_x_engine.Index.BTree.Insert.Walk.{leaf}
use query_x_engine.Index.BTree.Insert.Leaf.{insert_into-room, insert_into-split}

abbrev Memory : Type 0
Memory = List (ℕ × Node)

abbrev found : Option Node → Result Node
found none = raise key_error
found (some node) = ok node

memory : NodeStore Memory
unfolding lookup assign
memory = record {
  load = λ n s. (found (lookup n s), s);
  store = λ node s. (ok tt, assign node.page_no node s);
  new_page = λ s. (ok (length s + 2), s);
}

abbrev row_of : ℕ → RowId
row_of i = record { page_no = 1; slot = i }

-- the leaf that deletes have emptied, and the one with the other rows under the same key
abbrev emptied : Node
emptied = record {
  page_no = 2;
  is_leaf = true;
  keys = [];
  values = [];
  children = [];
  next_leaf = 3;
}

abbrev kept : Node
kept = record {
  page_no = 3;
  is_leaf = true;
  keys = pos 5 ∷ pos 5 ∷ [];
  values = row_of 1 ∷ row_of 2 ∷ [];
  children = [];
  next_leaf = 0;
}

abbrev root : Node
root = record {
  page_no = 4;
  is_leaf = false;
  keys = pos 5 ∷ [];
  values = [];
  children = 2 ∷ 3 ∷ [];
  next_leaf = 0;
}

abbrev tree : Memory
tree = (2, emptied) ∷ (3, kept) ∷ (4, root) ∷ []

search-empty_leaf_example : search memory 3 4 (pos 5) tree ≡ (ok [], tree)
unfolding memory find_leaf descend item bisect_left lookup
search-empty_leaf_example = search-empty_leaf memory 2 4 (pos 5) tree tree emptied refl refl

abbrev first : Node
first = record {
  page_no = 2;
  is_leaf = true;
  keys = pos 4 ∷ [];
  values = row_of 0 ∷ [];
  children = [];
  next_leaf = 3;
}

abbrev chain : Memory
chain = (2, first) ∷ (3, kept) ∷ (4, root) ∷ []

abbrev entries : List (ℤ × RowId)
entries = (pos 4, row_of 0) ∷ (pos 5, row_of 1) ∷ (pos 5, row_of 2) ∷ []

search_from-rows_of_example :
    (s : Memory) × (search_from memory 4 (pos 5) first chain ≡ (ok (rows_of (pos 5) entries), s))
unfolding memory lookup
search_from-rows_of_example =
    search_from-rows_of memory 4 2 (pos 5) first chain chain entries (omega arith)
      ((refl, (refl, tt)), ((refl, tt), (tt, tt)))
      (next {s' = chain} {after = kept} (pos 4, row_of 0) []
        ((pos 5, row_of 1) ∷ (pos 5, row_of 2) ∷ []) refl refl refl refl
        (end (pos 5, row_of 1) ((pos 5, row_of 2) ∷ []) refl refl refl))

abbrev full : Node
full = record {
  page_no = 2;
  is_leaf = true;
  keys = pos 3 ∷ pos 4 ∷ pos 5 ∷ [];
  values = row_of 0 ∷ row_of 1 ∷ row_of 2 ∷ [];
  children = [];
  next_leaf = 0;
}

split_leaf-SplitLeaf_example :
    (sep : ℤ) × (split_leaf memory full []
      ≡ (ok (sep, 2), assign 2 (right_half full 2) (assign 2 (left_half full 2) [])))
    × SplitLeaf 2 full (left_half full 2) (right_half full 2) sep
unfolding memory left_half right_half
split_leaf-SplitLeaf_example =
    split_leaf-SplitLeaf memory 2 2 full [] [] (assign 2 (left_half full 2) [])
      (assign 2 (right_half full 2) (assign 2 (left_half full 2) [])) (omega arith) refl refl
      ((refl, (refl, tt)), ((refl, tt), (tt, tt))) refl refl refl

-- the leaf `first` with a second row under its key, and what the walk finds from there
abbrev grown : Node
unfolding with_entry insert_at bisect_right
grown = with_entry memory (pos 4) (row_of 9) first

abbrev room_chain : Memory
room_chain = (2, grown) ∷ (3, kept) ∷ (4, root) ∷ []

kept-Leaves : (s : Memory) → Leaves memory 1 s kept ((pos 5, row_of 1) ∷ (pos 5, row_of 2) ∷ []) s
kept-Leaves s = end (pos 5, row_of 1) ((pos 5, row_of 2) ∷ []) refl refl refl

insert_into-room_example :
    (insert_into memory 5 3 (pos 4) (row_of 9) first chain ≡ (ok none, room_chain))
    × (t : Memory) × (search_from memory 5 (pos 4) grown room_chain
        ≡ (ok (row_of 0 ∷ row_of 9 ∷ []), t))
unfolding memory lookup assign with_entry insert_at bisect_right rows_of
insert_into-room_example =
    insert_into-room memory 5 3 1 (pos 4) (pos 4) (row_of 9) first ((pos 4, row_of 0) ∷ [])
      ((pos 5, row_of 1) ∷ (pos 5, row_of 2) ∷ []) chain room_chain room_chain refl refl refl
      (omega arith) ((refl, (refl, tt)), ((refl, tt), (tt, tt))) (refl, (refl, tt)) refl
      (leaf refl refl (kept-Leaves room_chain)) (omega arith)

-- the same leaf where one entry fills it
abbrev split_left : Memory
unfolding left_half
split_left = (2, left_half grown 5) ∷ (3, kept) ∷ (4, root) ∷ []

abbrev split_both : Memory
unfolding right_half
split_both = (2, left_half grown 5) ∷ (3, kept) ∷ (4, root) ∷ (5, right_half grown 5) ∷ []

insert_into-split_example :
    (sep : ℤ) × (t : Memory) × (insert_into memory 5 1 (pos 4) (row_of 9) first chain
      ≡ (ok (some (sep, 5)), split_both))
    × SplitLeaf 1 grown (left_half grown 5) (right_half grown 5) sep
    × (search_from memory 5 (pos 4) (left_half grown 5) split_both
        ≡ (ok (row_of 0 ∷ row_of 9 ∷ []), t))
unfolding memory lookup assign with_entry insert_at bisect_right rows_of left_half right_half
insert_into-split_example =
    insert_into-split memory 5 1 5 1 (pos 4) (pos 4) (row_of 9) first ((pos 4, row_of 0) ∷ [])
      ((pos 5, row_of 1) ∷ (pos 5, row_of 2) ∷ []) chain chain split_left split_both split_both
      split_both refl refl refl (omega arith) refl ((refl, (refl, tt)), ((refl, tt), (tt, tt)))
      (refl, (refl, tt)) refl refl refl refl refl (leaf refl refl (kept-Leaves split_both))
      (omega arith)
