-- ===== src/Tree/Remove.antt =====
-- What the deletion of src/b_tree.c does to the arrays of a node, its brother and its parent.
use my_jql.Prelude.{ℕ, ◌+◌, ◌-◌, update}
use my_jql.Table.{Rid}
use my_jql.Tree.{BNode, move_up, move_down, copy}

-- A leaf without the row at `at`.
unfoldable pub remove_row : BNode → (at : ℕ) → BNode
remove_row node at = record node {
  row_ptr = move_down node.row_ptr (node.n - 1 - at) at;
  n = node.n - 1;
}

-- An inner node without the row at `at` and the child behind it.
unfoldable pub remove_child : BNode → (at : ℕ) → BNode
remove_child node at = record node {
  row_ptr = move_down node.row_ptr (node.n - 1 - at) at;
  child = move_down node.child (node.n - 1 - at) (at + 1);
  n = node.n - 1;
}

-- A leaf takes the first row of its right brother.
unfoldable pub borrow_row_right : (node brother : BNode) → BNode × BNode
borrow_row_right node brother = (
  record node { row_ptr = update node.row_ptr node.n (brother.row_ptr 0); n = node.n + 1 },
  record brother { row_ptr = move_down brother.row_ptr (brother.n - 1) 0; n = brother.n - 1 },
)

-- A leaf gives up the row at `at`, and takes the last row of its left brother.
unfoldable pub borrow_row_left : (node : BNode) (at : ℕ) (brother : BNode) → BNode × BNode
borrow_row_left node at brother = (
  record node {
    row_ptr = update (move_up node.row_ptr at 0) 0 (brother.row_ptr (brother.n - 1));
    n = node.n - 1 + 1;
  },
  record brother { n = brother.n - 1 },
)

-- The rows of the leaf `right` follow those of its left brother `left`.
unfoldable pub merge_rows : (left right : BNode) → BNode
merge_rows left right = record left {
  row_ptr = copy left.row_ptr left.n right.row_ptr 0 right.n;
  n = left.n + right.n;
}

-- An inner node takes the key above it and the first child of its right brother, whose first key
-- goes up: the node, the brother, and the key.
unfoldable pub borrow_child_right : (node : BNode) → Rid → (brother : BNode) → BNode × BNode × Rid
borrow_child_right node key brother = (
  record node {
    row_ptr = update node.row_ptr node.n key;
    child = update node.child (node.n + 1) (brother.child 0);
    n = node.n + 1;
  },
  record brother {
    row_ptr = move_down brother.row_ptr (brother.n - 1) 0;
    child =
        update (move_down brother.child (brother.n - 1) 0) (brother.n - 1)
          (brother.child brother.n);
    n = brother.n - 1;
  },
  brother.row_ptr 0,
)

-- The same with the left brother, whose last key goes up.
unfoldable pub borrow_child_left : (node : BNode) → Rid → (brother : BNode) → BNode × BNode × Rid
borrow_child_left node key brother = (
  record node {
    row_ptr = update (move_up node.row_ptr node.n 0) 0 key;
    child =
        update (update (move_up node.child node.n 1) 1 (node.child 0)) 0 (brother.child brother.n);
    n = node.n + 1;
  },
  record brother { n = brother.n - 1 },
  brother.row_ptr (brother.n - 1),
)

-- The key between two inner nodes and the entries of `right` follow those of `left`.
unfoldable pub merge_children : (left : BNode) → Rid → (right : BNode) → BNode
merge_children left key right = record left {
  row_ptr = copy (update left.row_ptr left.n key) (left.n + 1) right.row_ptr 0 right.n;
  child = copy (update left.child (left.n + 1) (right.child 0)) (left.n + 2) right.child 1 right.n;
  n = left.n + 1 + right.n;
}
