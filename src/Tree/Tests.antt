-- ===== src/Tree/Tests.antt =====
-- The operations of src/b_tree.c on small nodes and a small tree, and the theorems at such nodes.
use my_jql.Prelude.{
  if◌then◌else◌, ltb, none, ℕ, ◌+◌, ◌*◌, ◌≤◌, ◌≡◌, refl, ℤ, pos, negsuc, minus_one, true, false,
  Option, some, none, List, [], ◌∷◌, ◌++◌, arith,
}
use my_jql.Exec.{Exec, pure, ◌>>=◌, ◌>>◌}
use my_jql.Pages.{Flat, flat_pages}
use my_jql.Table.{Rid}
use my_jql.Tree.{
  move_up, move_down, copy, degree, BNode, TreePage, NewChildEntry, insert_row, insert_child,
  split_leaf, split_inner,
}
use my_jql.Tree.Search.{first_greater, first_equal, b_tree_init, search_entry, b_tree_search}
use my_jql.Tree.Insert.{
  b_tree_insert, create_root, insert_entry, insert_leaf, insert_inner, split_root_leaf,
  split_child_leaf, split_root_inner, split_child_inner, new_node, grow_root,
}
use my_jql.Tree.Delete.{
  b_tree_delete, delete_entry, delete_leaf, delete_inner, delete_below, delete_root_leaf,
  delete_root_inner, inner_left, inner_right, leaf_left, leaf_right, find_row, free_node, drop_key,
  child_index,
}
use my_jql.Tree.Remove.{
  remove_row, remove_child, borrow_row_right, borrow_row_left, merge_rows, borrow_child_right,
  borrow_child_left, merge_children,
}
use my_jql.Tree.Rows.{
  rows, children, insert_at, remove_at, rows-insert_row, rows-insert_child, rows-remove_child,
}
use my_jql.Tree.Split.{split_leaf-rows, split_inner-rows}
use my_jql.Tree.Share.{
  borrow_row_right-rows, borrow_row_left-rows, borrow_child_right-rows, borrow_child_left-rows,
  merge_children-rows,
}
use my_jql.Tree.Scan.{three_way}
use my_jql.Tree.Order.{Sorted, insert_row-Sorted}

-- Row `k` is the item 0 of page `k`; rows are compared by their pages.
abbrev row : ℕ → Rid
row k = record { block_addr = pos (128 * k); idx = pos 0 }

abbrev key : Rid → ℕ
key rid = page_of rid.block_addr
  where
    page_of : ℤ → ℕ
    page_of (pos a) = a
    page_of (negsuc a) = 0

-- A node of `n` rows 10, 11 and so on, with the children 100, 101 and so on.
abbrev node_of : ℕ → BNode
node_of n = record {
  n = n;
  next = minus_one;
  child = λ i. pos (100 + i);
  row_ptr = λ i. row (10 + i);
  leaf = true;
}

abbrev entry : NewChildEntry
entry = record { child_key = row 7; child_ptr = pos 99 }

rows-insert_row_example :
    rows (insert_row (node_of 3) 1 (row 7)) ≡ insert_at (rows (node_of 3)) 1 (row 7)
rows-insert_row_example = rows-insert_row (node_of 3) 1 (row 7) (omega arith)

rows-insert_child_example :
    (rows (insert_child (node_of 3) 1 entry) ≡ insert_at (rows (node_of 3)) 1 entry.child_key)
    × (children (insert_child (node_of 3) 1 entry)
        ≡ insert_at (children (node_of 3)) 2 entry.child_ptr)
rows-insert_child_example = rows-insert_child (node_of 3) 1 entry (omega arith)

rows-remove_child_example :
    (rows (remove_child (node_of 3) 1) ≡ remove_at (rows (node_of 3)) 1)
    × (children (remove_child (node_of 3) 1) ≡ remove_at (children (node_of 3)) 2)
rows-remove_child_example = rows-remove_child (node_of 3) 1 (omega arith)

split_leaf-rows_example :
    let (left', right') = split_leaf (node_of 4) (node_of 0) 3 (row 7) in
    (rows left' ++ rows right' ≡ insert_at (rows (node_of 4)) 3 (row 7))
    × (left'.n ≡ degree)
    × (right'.n ≡ degree + 1)
    × (right'.leaf ≡ true)
split_leaf-rows_example = split_leaf-rows (node_of 4) (node_of 0) 3 (row 7) refl (omega arith)

split_inner-rows_example :
    let (left', key', right') = split_inner (node_of 4) (node_of 0) 1 entry in
    (rows left' ++ key' ∷ rows right' ≡ insert_at (rows (node_of 4)) 1 entry.child_key)
    × (children left' ++ children right' ≡ insert_at (children (node_of 4)) 2 entry.child_ptr)
    × (left'.n ≡ degree)
    × (right'.n ≡ degree)
    × (right'.leaf ≡ false)
split_inner-rows_example = split_inner-rows (node_of 4) (node_of 0) 1 entry refl (omega arith)

borrow_row_right-rows_example :
    let (node', brother') = borrow_row_right (node_of 1) (node_of 3) in
    rows node' ++ rows brother' ≡ rows (node_of 1) ++ rows (node_of 3)
borrow_row_right-rows_example = borrow_row_right-rows (node_of 1) (node_of 3) (omega arith)

borrow_row_left-rows_example :
    let (node', brother') = borrow_row_left (node_of 2) 1 (node_of 3) in
    rows brother' ++ rows node' ≡ rows (node_of 3) ++ remove_at (rows (node_of 2)) 1
borrow_row_left-rows_example =
    borrow_row_left-rows (node_of 2) (node_of 3) 1 (omega arith) (omega arith)

borrow_child_right-rows_example :
    let (node', brother', key') = borrow_child_right (node_of 1) (row 7) (node_of 3) in
    (rows node' ++ key' ∷ rows brother' ≡ rows (node_of 1) ++ row 7 ∷ rows (node_of 3))
    × (children node' ++ children brother' ≡ children (node_of 1) ++ children (node_of 3))
borrow_child_right-rows_example =
    borrow_child_right-rows (node_of 1) (node_of 3) (row 7) (omega arith)

borrow_child_left-rows_example :
    let (node', brother', key') = borrow_child_left (node_of 1) (row 7) (node_of 3) in
    (rows brother' ++ key' ∷ rows node' ≡ rows (node_of 3) ++ row 7 ∷ rows (node_of 1))
    × (children brother' ++ children node' ≡ children (node_of 3) ++ children (node_of 1))
borrow_child_left-rows_example =
    borrow_child_left-rows (node_of 1) (node_of 3) (row 7) (omega arith)

merge_children-rows_example :
    (rows (merge_children (node_of 1) (row 7) (node_of 2))
      ≡ rows (node_of 1) ++ row 7 ∷ rows (node_of 2))
    × (children (merge_children (node_of 1) (row 7) (node_of 2))
        ≡ children (node_of 1) ++ children (node_of 2))
merge_children-rows_example = merge_children-rows (node_of 1) (node_of 2) (row 7)

abbrev by_key : {S : Type 0} → Rid → Rid → Exec S ℤ
by_key a b = pure (three_way (key a) (key b))

-- A comparison that counts its calls, and fails for rows behind row 13.
abbrev counted : Rid → Rid → Exec ℕ ℤ
counted a b s = if ltb (key b) (128 * 14) then some (three_way (key a) (key b), s + 1) else none

insert_row-Sorted_example :
    (at : ℕ) × (calls : ℕ) × (first_greater (counted (row 11)) (node_of 3).row_ptr 3 0 0
      ≡ some (at, calls))
    × (0 ≤ calls)
    × (at ≤ 3)
    × Sorted key (insert_row (node_of 3) at (row 11))
insert_row-Sorted_example =
    insert_row-Sorted (λ calls. 0 ≤ calls) key counted (node_of 3) (row 11) 0
      (λ j s lt _. (s + 1, ground arith, omega arith)) (omega arith) (λ i j lt hi. omega arith)

-- A tree of rows is built in an empty file, and rows are deleted again.
abbrev blank : TreePage
blank = record {
  ctrl = record { root_node = pos 0; free_node_head = pos 0 };
  node = record {
    n = 0;
    next = pos 0;
    child = λ i. pos 0;
    row_ptr = λ i. record { block_addr = pos 0; idx = pos 0 };
    leaf = false;
  };
}

abbrev insert_all : List ℕ → Exec (Flat TreePage) (Unit {0})
insert_all [] = pure tt
insert_all (k ∷ ks) = do rid ← b_tree_insert (flat_pages blank) by_key pure 9 (row k); insert_all ks

abbrev delete_all : List ℕ → Exec (Flat TreePage) (Unit {0})
delete_all [] = pure tt
delete_all (k ∷ ks) = do
  b_tree_delete (flat_pages blank) by_key pure (λ rid. pure tt) 9 (row k)
  delete_all ks

abbrev look_up : List ℕ → Exec (Flat TreePage) (List Rid)
look_up [] = pure []
look_up (k ∷ ks) = do
  rid ← b_tree_search (flat_pages blank) (λ key size. by_key (row k)) [] 0 9
  rest ← look_up ks
  pure (rid ∷ rest)

abbrev result : {A : Type 0} → Option (A × Flat TreePage) → Option A
result none = none
result (some (a, s)) = some a

abbrev no_row : Rid
no_row = record { block_addr = minus_one; idx = pos 0 }

insert_and_find :
    result (
      (b_tree_init (flat_pages blank)
          >> (insert_all (5 ∷ 3 ∷ 8 ∷ 1 ∷ 9 ∷ 2 ∷ 7 ∷ 4 ∷ 6 ∷ []) >> look_up (1 ∷ 9 ∷ 5 ∷ 11 ∷ [])))
        (record { page = λ m. blank; length = 0 }))
    ≡ some (row 1 ∷ row 9 ∷ row 5 ∷ no_row ∷ [])
unfolding flat_pages b_tree_init b_tree_insert create_root insert_entry insert_leaf insert_inner
    split_root_leaf split_child_leaf split_root_inner split_child_inner new_node grow_root
    first_greater first_equal insert_row insert_child split_leaf split_inner move_up copy
    b_tree_search search_entry
insert_and_find = refl

delete_and_find :
    result (
      (b_tree_init (flat_pages blank)
          >> (insert_all (5 ∷ 3 ∷ 8 ∷ 1 ∷ 9 ∷ 2 ∷ 7 ∷ 4 ∷ 6 ∷ [])
              >> (delete_all (9 ∷ 1 ∷ 5 ∷ []) >> look_up (1 ∷ 2 ∷ 5 ∷ 8 ∷ []))))
        (record { page = λ m. blank; length = 0 }))
    ≡ some (no_row ∷ row 2 ∷ no_row ∷ row 8 ∷ [])
unfolding flat_pages b_tree_init b_tree_insert create_root insert_entry insert_leaf insert_inner
    split_root_leaf split_child_leaf split_root_inner split_child_inner new_node grow_root
    first_greater first_equal insert_row insert_child split_leaf split_inner move_up copy
    b_tree_search search_entry b_tree_delete delete_entry delete_leaf delete_inner delete_below
    delete_root_leaf delete_root_inner inner_left inner_right leaf_left leaf_right find_row
    free_node drop_key child_index remove_row remove_child borrow_row_right borrow_row_left
    merge_rows borrow_child_right borrow_child_left merge_children move_down
delete_and_find = refl
