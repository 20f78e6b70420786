-- ===== src/Tree.antt =====
-- src/b_tree.c and include/b_tree.h: the nodes of the B+ tree, and the loops over their arrays.
pub mod Search
pub mod Insert
pub mod Remove
pub mod Delete
pub mod Rows
pub mod Split
pub mod Share
pub mod Order
pub mod Scan
pub mod Shape
pub mod Find
mod Tests
mod SearchTests
use my_jql.Prelude.{
  ℕ, zero, suc, ◌+◌, ◌-◌, ◌*◌, ◌/◌, ◌<◌, ℤ, pos, negsuc, minus_one, Bool, true, false, ◌==◌, ltb,
  if◌then◌else◌, update,
}
use my_jql.FileIo.{page_size}
use my_jql.Table.{Rid}

-- `sizeof(size_t)`, `sizeof(off_t)` and `sizeof(RID)` are 8, 8 and 10.
abbrev pub degree : ℕ
degree = (page_size - 8 - 8 - 1 - 8) / 2 / (8 + 10)

-- `BNode`; `leaf` is tested against 0.
pub record BNode : Type 0 where
  pub n : ℕ
  pub next : ℤ
  pub child : ℕ → ℤ
  pub row_ptr : ℕ → Rid
  pub leaf : Bool

-- `BCtrlBlock`
pub record BCtrlBlock : Type 0 where
  pub root_node : ℤ
  pub free_node_head : ℤ

-- A page is read as a control block at address 0, and as a node elsewhere.
pub record TreePage : Type 0 where
  pub ctrl : BCtrlBlock
  pub node : BNode

pub record NewChildEntry : Type 0 where
  pub child_key : Rid
  pub child_ptr : ℤ

abbrev pub result_empty : NewChildEntry
result_empty = record {
  child_key = record { block_addr = minus_one; idx = minus_one };
  child_ptr = minus_one;
}

abbrev pub failed_rid : Rid
failed_rid = record { block_addr = minus_one; idx = pos 0 }

abbrev pub is_negative : ℤ → Bool
is_negative (pos n) = false
is_negative (negsuc n) = true

abbrev pub is_zero : ℤ → Bool
is_zero (pos n) = n == 0
is_zero (negsuc n) = false

module _ {A : Type 0} where
  -- `for (i = at + rounds; i > at; i--) a[i] = a[i - 1];`
  unfoldable pub move_up : (ℕ → A) → (rounds at : ℕ) → ℕ → A
  move_up a zero at = a
  move_up a (suc k) at = move_up (update a (at + suc k) (a (at + k))) k at

  -- `for (i = at; i != at + rounds; i++) a[i] = a[i + 1];`
  unfoldable pub move_down : (ℕ → A) → (rounds at : ℕ) → ℕ → A
  move_down a zero at = a
  move_down a (suc k) at = move_down (update a at (a (at + 1))) k (at + 1)

  -- `for (i = 0; i != rounds; i++) to[at + i] = from[start + i];`
  unfoldable pub copy : (to : ℕ → A) (at : ℕ) (from : ℕ → A) (start rounds : ℕ) → ℕ → A
  copy to at from start zero = to
  copy to at from start (suc k) = copy (update to at (from start)) (at + 1) from (start + 1) k

-- A row and, in an inner node, the child behind it are put at position `at`.
unfoldable pub insert_row : BNode → (at : ℕ) → Rid → BNode
insert_row node at rid = record node {
  row_ptr = update (move_up node.row_ptr (node.n - at) at) at rid;
  n = node.n + 1;
}

unfoldable pub insert_child : BNode → (at : ℕ) → NewChildEntry → BNode
insert_child node at entry = record node {
  row_ptr = update (move_up node.row_ptr (node.n - at) at) at entry.child_key;
  child = update (move_up node.child (node.n - at) (at + 1)) (at + 1) entry.child_ptr;
  n = node.n + 1;
}

-- A full leaf gives its upper rows to the new leaf `right`, and `rid` goes to its place at `at`.
unfoldable pub split_leaf : BNode → (right : BNode) → (at : ℕ) → Rid → BNode × BNode
split_leaf node right at rid =
    if ltb at degree
    then (
      record node {
        row_ptr = update (move_up node.row_ptr (degree - 1 - at) at) at rid;
        n = degree;
      },
      record right {
        row_ptr = copy right.row_ptr 0 node.row_ptr (degree - 1) (degree + 1);
        n = degree + 1;
        leaf = true;
        next = minus_one;
      },
    )
    else (
      record node { n = degree },
      record right {
        row_ptr =
            copy (update (copy right.row_ptr 0 node.row_ptr degree (at - degree)) (at - degree) rid)
              (at - degree + 1) node.row_ptr at (2 * degree - at);
        n = degree + 1;
        leaf = true;
        next = minus_one;
      },
    )

-- A full inner node gives its upper half to `right`; the key between the halves goes up.
unfoldable pub split_inner :
    BNode → (right : BNode) → (at : ℕ) → NewChildEntry → BNode × Rid × BNode
split_inner node right at entry =
    let half : BNode = record right { n = degree; leaf = false; next = minus_one } in
    if ltb at degree
    then (
      record node {
        row_ptr = update (move_up node.row_ptr (degree - 1 - at) at) at entry.child_key;
        child = update (move_up node.child (degree - 1 - at) (at + 1)) (at + 1) entry.child_ptr;
        n = degree;
      },
      node.row_ptr (degree - 1),
      record half {
        row_ptr = copy right.row_ptr 0 node.row_ptr degree degree;
        child =
            update (copy right.child 0 node.child degree degree) degree (node.child (2 * degree));
      },
    )
    else if at == degree
    then (
      record node { n = degree },
      entry.child_key,
      record half {
        row_ptr = copy right.row_ptr 0 node.row_ptr degree degree;
        child = update (copy right.child 1 node.child (degree + 1) degree) 0 entry.child_ptr;
      },
    )
    else (
      record node { n = degree },
      node.row_ptr degree,
      record half {
        row_ptr =
            copy
              (update (copy right.row_ptr 0 node.row_ptr (degree + 1) (at - degree - 1))
                (at - degree - 1) entry.child_key)
              (at - degree) node.row_ptr at (2 * degree - at);
        child =
            copy
              (update
                (copy (update right.child 0 (node.child (degree + 1))) 1 node.child (degree + 2)
                  (at - degree - 1))
                (at - degree) entry.child_ptr)
              (at - degree + 1) node.child (at + 1) (2 * degree - at);
      },
    )
