-- ===== src/Index/BTree.antt =====
-- The class `BPlusTree` of queryx/index/btree.py, over the loads and stores of its nodes that Pages
-- defines. `bisect` is a search in a sorted list; it is the length of the prefix that it skips. The
-- descents and the walks along the leaves run on fuel.
pub mod Pages
pub mod Split
pub mod Search
pub mod Insert
pub mod Codes
pub mod RoundTrip
pub mod Stored
pub mod OneLeaf
use query_x_engine.Common.{
  ℕ, zero, suc, ◌+◌, ◌/◌, Bool, true, false, not, ◌&&◌, ltb, leb, ◌==◌, if◌then◌else◌, Option, none,
  some, List, [], ◌∷◌, ◌++◌, length, take, drop, get_elem?, Result, ok, raise, index_error,
  value_error, out_of_fuel,
}
use query_x_engine.Common.Exec.{Exec, pure, throw, lift, gets, modify, ◌>>=◌, ◌>>◌}
use query_x_engine.Common.Int.{ℤ, ltb_ℤ, eqb_ℤ}
use query_x_engine.Storage.HeapFile.{RowId}

-- `_Node`
pub record Node : Type 0 where
  pub page_no : ℕ
  pub is_leaf : Bool
  pub keys : List ℤ
  pub values : List RowId
  pub children : List ℕ
  pub next_leaf : ℕ

-- `self._load`, `self._store` and `self._pool.new_page`, on the state that they change
pub record NodeStore (S : Type 0) : Type 0 where
  pub load : ℕ → Exec S Node
  pub store : Node → Exec S (Unit {0})
  pub new_page : Exec S ℕ

-- bisect.bisect_left(keys, key)
unfoldable pub bisect_left : List ℤ → ℤ → ℕ
bisect_left [] key = 0
bisect_left (k ∷ keys) key = let n = bisect_left keys key in if ltb_ℤ k key then suc n else 0

-- bisect.bisect_right(keys, key)
unfoldable pub bisect_right : List ℤ → ℤ → ℕ
bisect_right [] key = 0
bisect_right (k ∷ keys) key = let n = bisect_right keys key in if ltb_ℤ key k then 0 else suc n

module _ {A : Type 0} where
  -- list.insert(i, x)
  unfoldable pub insert_at : ℕ → A → List A → List A
  insert_at zero x xs = x ∷ xs
  insert_at (suc i) x [] = x ∷ []
  insert_at (suc i) x (y ∷ ys) = y ∷ insert_at i x ys

  -- del xs[i], for an index in range
  unfoldable pub delete_at : ℕ → List A → List A
  delete_at i [] = []
  delete_at zero (y ∷ ys) = ys
  delete_at (suc i) (y ∷ ys) = y ∷ delete_at i ys

  -- xs[i]
  unfoldable pub item : List A → ℕ → Result A
  item xs i = elim (get_elem? xs i) [ none ↦ raise index_error | some x ↦ ok x ]

  unfoldable pub last : List A → Option A
  last [] = none
  last (x ∷ []) = some x
  last (x ∷ y ∷ ys) = last (y ∷ ys)

-- the inner loop of `search`: the rows of the equal keys at the front, and whether a key follows
unfoldable pub equal_run : ℤ → List ℤ → List RowId → List RowId × Bool
equal_run key [] values = ([], false)
equal_run key (k ∷ keys) [] = ([], true)
equal_run key (k ∷ keys) (v ∷ values) =
    let rest = equal_run key keys values in if eqb_ℤ k key then (v ∷ rest.0, rest.1) else ([], true)

-- `node.next_leaf and node.keys and node.keys[-1] <= key`
unfoldable pub walks_on : Node → ℤ → Bool
unfolding last
walks_on node key =
    not (node.next_leaf == 0)
    && (elim (last node.keys) [ none ↦ false | some k ↦ not (ltb_ℤ key k) ])

-- the inner loop of `delete`: the place of the entry among the equal keys, counted from `i`
unfoldable pub entry_place : ℤ → RowId → ℕ → List ℤ → List RowId → Option ℕ × Bool
entry_place key id i [] values = (none, false)
entry_place key id i (k ∷ keys) [] = (none, true)
entry_place key id i (k ∷ keys) (v ∷ values) =
    let rest = entry_place key id (suc i) keys values in
    if eqb_ℤ k key
    then (if v.page_no == id.page_no && v.slot == id.slot then (some i, true) else rest)
    else (none, true)

-- the pages of the level below some nodes
unfoldable pub next_level : List Node → List ℕ
next_level [] = []
next_level (node ∷ nodes) = (if node.is_leaf then [] else node.children) ++ next_level nodes

-- the state of a tree: what holds its nodes, and the fields
pub record BPlusTree (S : Type 0) : Type 0 where
  pub nodes : S
  pub max_keys : ℕ
  pub root : ℕ

module _ {S : Type 0} (n : NodeStore S) where
  unfoldable pub descend : ℕ → ℤ → Node → Exec S Node
  descend zero key node = throw out_of_fuel
  descend (suc fuel) key node = if node.is_leaf then pure node else (do
    child_no ← lift (item node.children (bisect_left node.keys key))
    child ← n.load child_no
    descend fuel key child)

  -- `_find_leaf`, from the page of the root
  unfoldable pub find_leaf : ℕ → ℕ → ℤ → Exec S Node
  unfolding descend
  find_leaf fuel root key = do node ← n.load root; descend fuel key node

  -- the loop of `search`, from a leaf on
  unfoldable pub search_from : ℕ → ℤ → Node → Exec S (List RowId)
  unfolding equal_run walks_on
  search_from zero key node = throw out_of_fuel
  search_from (suc fuel) key node =
      let i = bisect_left node.keys key in
      let (found, more) = equal_run key (drop i node.keys) (drop i node.values) in
      if more
      then pure found
      else if walks_on node key
      then (do next ← n.load node.next_leaf; rest ← search_from fuel key next; pure (found ++ rest))
      else pure found

  unfoldable pub search : ℕ → ℕ → ℤ → Exec S (List RowId)
  unfolding find_leaf search_from
  search fuel root key = do node ← find_leaf fuel root key; search_from fuel key node

  -- the entries up to the bound, and whether one beyond it ended the scan
  unfoldable pub up_to : Option ℤ → List ℤ → List RowId → List (ℤ × RowId) × Bool
  up_to high [] values = ([], false)
  up_to high (k ∷ keys) [] = ([], false)
  up_to none (k ∷ keys) (v ∷ values) =
      let rest = up_to none keys values in ((k, v) ∷ rest.0, rest.1)
  up_to (some h) (k ∷ keys) (v ∷ values) =
      let rest = up_to (some h) keys values in
      if ltb_ℤ h k then ([], true) else ((k, v) ∷ rest.0, rest.1)

  -- the loop of `range_scan`, from position `i` of a leaf on
  unfoldable pub scan_leaves : ℕ → Option ℤ → ℕ → Node → Exec S (List (ℤ × RowId))
  unfolding up_to
  scan_leaves zero high i node = throw out_of_fuel
  scan_leaves (suc fuel) high i node =
      let (found, beyond) = up_to high (drop i node.keys) (drop i node.values) in
      if beyond then pure found else if node.next_leaf == 0 then pure found else (do
        next ← n.load node.next_leaf
        rest ← scan_leaves fuel high 0 next
        pure (found ++ rest))

  unfoldable pub leftmost : ℕ → Node → Exec S Node
  leftmost zero node = throw out_of_fuel
  leftmost (suc fuel) node =
      if node.is_leaf
      then pure node
      else (do child_no ← lift (item node.children 0); child ← n.load child_no; leftmost fuel child)

  unfoldable pub leftmost_leaf : ℕ → ℕ → Exec S Node
  unfolding leftmost
  leftmost_leaf fuel root = do node ← n.load root; leftmost fuel node

  unfoldable pub range_scan : ℕ → ℕ → Option ℤ → Option ℤ → Exec S (List (ℤ × RowId))
  unfolding leftmost_leaf find_leaf scan_leaves
  range_scan fuel root none high = do node ← leftmost_leaf fuel root; scan_leaves fuel high 0 node
  range_scan fuel root (some low) high = do
    node ← find_leaf fuel root low
    scan_leaves fuel high (bisect_left node.keys low) node

  unfoldable pub split_leaf : Node → Exec S (ℤ × ℕ)
  split_leaf node = do
    right_no ← n.new_page
    n.store (record node {
      keys = take (length node.keys / 2) node.keys;
      values = take (length node.keys / 2) node.values;
      next_leaf = right_no;
    })
    n.store (record {
      page_no = right_no;
      is_leaf = true;
      keys = drop (length node.keys / 2) node.keys;
      values = drop (length node.keys / 2) node.values;
      children = [];
      next_leaf = node.next_leaf;
    })
    sep_key ← lift (item (drop (length node.keys / 2) node.keys) 0)
    pure (sep_key, right_no)

  unfoldable pub split_internal : Node → Exec S (ℤ × ℕ)
  split_internal node = do
    sep_key ← lift (item node.keys (length node.keys / 2))
    right_no ← n.new_page
    n.store (record node {
      keys = take (length node.keys / 2) node.keys;
      children = take (length node.keys / 2 + 1) node.children;
    })
    n.store (record {
      page_no = right_no;
      is_leaf = false;
      keys = drop (length node.keys / 2 + 1) node.keys;
      values = [];
      children = drop (length node.keys / 2 + 1) node.children;
      next_leaf = 0;
    })
    pure (sep_key, right_no)

  -- a node that was changed is stored if it has room, or else split
  unfoldable pub store_or_split : ℕ → Node → Exec S (Option (ℤ × ℕ))
  unfolding split_leaf split_internal
  store_or_split max_keys node =
      if leb (length node.keys) max_keys then (do n.store node; pure none) else (do
        right ← if node.is_leaf then split_leaf node else split_internal node
        pure (some right))

  -- the leaf with the entry after the equal keys
  unfoldable pub with_entry : ℤ → RowId → Node → Node
  with_entry key id node =
      let at = bisect_right node.keys key in
      record node { keys = insert_at at key node.keys; values = insert_at at id node.values }

  -- the node with a separator and the child right of it
  unfoldable pub with_child : ℕ → ℤ → ℕ → Node → Node
  with_child at sep_key right_no node = record node {
    keys = insert_at at sep_key node.keys;
    children = insert_at (at + 1) right_no node.children;
  }

  unfoldable pub insert_into : ℕ → ℕ → ℤ → RowId → Node → Exec S (Option (ℤ × ℕ))
  unfolding store_or_split with_entry with_child
  insert_into zero max_keys key id node = throw out_of_fuel
  insert_into (suc fuel) max_keys key id node =
      if node.is_leaf then store_or_split max_keys (with_entry key id node) else (do
        child_no ← lift (item node.children (bisect_right node.keys key))
        child ← n.load child_no
        split ← insert_into fuel max_keys key id child
        elim split [
          | none ↦ pure none
          | some (sep_key, right_no) ↦
              store_or_split max_keys
                (with_child (bisect_right node.keys key) sep_key right_no node)
        ])

  -- the loop of `delete`, from a leaf on
  unfoldable pub delete_from : ℕ → ℤ → RowId → Node → Exec S Bool
  unfolding entry_place walks_on
  delete_from zero key id node = throw out_of_fuel
  delete_from (suc fuel) key id node =
      let i = bisect_left node.keys key in
      let (place, more) = entry_place key id i (drop i node.keys) (drop i node.values) in
      elim place [
        | some j ↦ do
          n.store (record node { keys = delete_at j node.keys; values = delete_at j node.values })
          pure true
        | none ↦
            if more
            then pure false
            else if walks_on node key
            then (do next ← n.load node.next_leaf; delete_from fuel key id next)
            else pure false
      ]

  unfoldable pub delete : ℕ → ℕ → ℤ → RowId → Exec S Bool
  unfolding find_leaf delete_from
  delete fuel root key id = do node ← find_leaf fuel root key; delete_from fuel key id node

  unfoldable pub height_from : ℕ → Node → Exec S ℕ
  height_from zero node = throw out_of_fuel
  height_from (suc fuel) node = if node.is_leaf then pure 1 else (do
    child_no ← lift (item node.children 0)
    child ← n.load child_no
    below ← height_from fuel child
    pure (suc below))

  unfoldable pub height : ℕ → ℕ → Exec S ℕ
  unfolding height_from
  height fuel root = do node ← n.load root; height_from fuel node

  -- the nodes of a level
  unfoldable pub load_level : List ℕ → Exec S (List Node)
  load_level [] = pure []
  load_level (page_no ∷ pages) =
      let rest = load_level pages in do node ← n.load page_no; nodes ← rest; pure (node ∷ nodes)

  -- `node_levels`: a level is its nodes; the fuel bounds the levels
  unfoldable pub levels_from : ℕ → List ℕ → Exec S (List (List Node))
  unfolding load_level next_level
  levels_from fuel [] = pure []
  levels_from zero (page_no ∷ pages) = throw out_of_fuel
  levels_from (suc fuel) (page_no ∷ pages) = do
    level ← load_level (page_no ∷ pages)
    rest ← levels_from fuel (next_level level)
    pure (level ∷ rest)
