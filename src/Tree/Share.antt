-- ===== src/Tree/Share.antt =====
-- What a node and its brother do to each other in the deletion of src/b_tree.c keeps the order of
-- their rows and children.
use my_jql.Prelude.{
  tabulate, tabulate-ext, same_range, tabulate-append, ℕ, suc, ◌+◌, ◌-◌, ◌<◌, ◌≡◌, refl, ap, sym,
  ◌∙◌, List, [], ◌∷◌, ◌++◌, ◌==◌, if◌then◌else◌, update, arith,
}
use mathlib.Core.List.{append-nil, append_assoc}
use my_jql.Table.{Rid}
use my_jql.Tree.{BNode, move_up, move_down, copy}
use my_jql.Tree.Remove.{
  borrow_row_right, borrow_row_left, merge_rows, borrow_child_right, borrow_child_left,
  merge_children,
}
use my_jql.Tree.Rows.{
  rows, children, remove_at, tabulate-put_up, tabulate-move_down, move_up_lem, move_down_lem,
  copy_lem,
}

module _ {A : Type 0} where
  tabulate-push :
      (a : ℕ → A) (n : ℕ) (x : A) → tabulate (update a n x) 0 (n + 1) ≡ tabulate a 0 n ++ x ∷ []
  tabulate-push a n x =
      let last : update a n x (0 + n) ≡ x = ground arith in
      let front : tabulate (update a n x) 0 n ≡ tabulate a 0 n =
        tabulate-ext (update a n x) a 0 0 n λ j lt. ground arith in
      tabulate-append (update a n x) 0 n 1 ∙ (λ t. front t ++ last t ∷ [])

  tabulate-copy :
      (to from : ℕ → A) (n start k : ℕ)
      → tabulate (copy to n from start k) 0 (n + k) ≡ tabulate to 0 n ++ tabulate from start k
  tabulate-copy to from n start k =
      let c = copy to n from start k in
      let front : tabulate c 0 n ≡ tabulate to 0 n =
        tabulate-ext c to 0 0 n λ j lt. copy_lem to n from start k (0 + j) ∙ ground arith in
      let back : tabulate c (0 + n) k ≡ tabulate from start k =
        tabulate-ext c from (0 + n) start k λ j lt.
          copy_lem to n from start k (0 + n + j)
          ∙ ground arith
          ∙ (let e : start + (0 + n + j - n) ≡ start + j = omega arith in ap from e) in
      tabulate-append c 0 n k ∙ (λ t. front t ++ back t)

  -- The loop that takes the first element away.
  tabulate-shift :
      (a : ℕ → A) (n : ℕ)
      → 0 < n
      → a 0 ∷ tabulate (move_down a (n - 1) 0) 0 (n - 1) ≡ tabulate a 0 n
  tabulate-shift a n some_row =
      let b = move_down a (n - 1) 0 in
      let rest : tabulate b 0 (n - 1) ≡ tabulate a 1 (n - 1) = tabulate-ext b a 0 1 (n - 1) λ j lt.
        move_down_lem a (n - 1) 0 (0 + j)
        ∙ ground arith
        ∙ (let e : 0 + j + 1 ≡ 1 + j = omega arith in ap a e) in
      ap (λ t. a 0 ∷ t) rest ∙ same_range a 0 0 (suc (n - 1)) n refl (omega arith)

  tabulate-unshift :
      (a : ℕ → A) (n : ℕ) (x : A)
      → tabulate (update (move_up a n 0) 0 x) 0 (n + 1) ≡ x ∷ tabulate a 0 n
  tabulate-unshift a n x =
      let e : n ≡ n - 0 = omega arith in
      (λ t. tabulate (update (move_up a (e t) 0) 0 x) 0 (n + 1))
      ∙ tabulate-put_up a 0 n x (omega arith)

  -- An element is moved over the border between two lists.
  push_then :
      (a : ℕ → A) (n : ℕ) (x : A) (rest : List A)
      → tabulate (update a n x) 0 (n + 1) ++ rest ≡ tabulate a 0 n ++ x ∷ rest
  push_then a n x rest =
      ap (λ t. t ++ rest) (tabulate-push a n x) ∙ append_assoc (tabulate a 0 n) (x ∷ []) rest

  last_then :
      (a : ℕ → A) (m n : ℕ) (rest : List A)
      → m + 1 ≡ n
      → tabulate a 0 m ++ a m ∷ rest ≡ tabulate a 0 n ++ rest
  last_then a m n rest e =
      let same : a m ≡ a (0 + m) = (let z : m ≡ 0 + m = omega arith in ap a z) in
      ap (λ x. tabulate a 0 m ++ x ∷ rest) same
      ∙ sym (append_assoc (tabulate a 0 m) (a (0 + m) ∷ []) rest)
      ∙ ap (λ t. t ++ rest) (sym (tabulate-append a 0 m 1) ∙ same_range a 0 0 (m + 1) n refl e)

  -- A value goes to the front, and the one at `at` away.
  tabulate-replace :
      (a : ℕ → A) (at n : ℕ) (x : A)
      → at < n
      → tabulate (update (move_up a at 0) 0 x) 0 (n - 1 + 1) ≡ x ∷ remove_at (tabulate a 0 n) at
  tabulate-replace a at n x lt =
      let b = update (move_up a at 0) 0 x in
      let down = move_down a (n - 1 - at) at in
      let rest : tabulate b 1 (n - 1) ≡ tabulate down 0 (n - 1) =
        tabulate-ext b down 1 0 (n - 1) λ j h.
          ap (λ y. if 1 + j == 0 then x else y) (move_up_lem a at 0 (1 + j))
          ∙ (let e : 1 + j - 1 ≡ 0 + j = omega arith in
              let e' : 1 + j ≡ 0 + j + 1 = omega arith in
              ground (arith, ap a e, ap a e', move_down_lem a (n - 1 - at) at (0 + j))) in
      same_range b 0 0 (n - 1 + 1) (suc (n - 1)) refl (omega arith)
      ∙ ap (λ t. x ∷ t) (rest ∙ tabulate-move_down a at n lt)

  -- The front of the children of a node that takes a child from its left brother.
  tabulate-unshift_child :
      (a : ℕ → A) (n : ℕ) (x : A)
      → tabulate (update (update (move_up a n 1) 1 (a 0)) 0 x) 0 (n + 1 + 1)
        ≡ x ∷ tabulate a 0 (n + 1)
  tabulate-unshift_child a n x =
      let b = update (update (move_up a n 1) 1 (a 0)) 0 x in
      let rest : tabulate b 1 (n + 1) ≡ tabulate a 0 (n + 1) = tabulate-ext b a 1 0 (n + 1) λ j h.
        let e : 1 + j - 1 ≡ 0 + j = omega arith in
        ground (arith, ap a e, move_up_lem a n 1 (1 + j)) in
      same_range b 0 0 (n + 1 + 1) (suc (n + 1)) refl (omega arith) ∙ ap (λ t. x ∷ t) rest

-- A leaf borrows from its right brother, which has a row: the rows of the leaf and then of the
-- brother are the same sequence as before.
pub borrow_row_right-rows :
    (node brother : BNode)
    → 0 < brother.n
    → let (node', brother') = borrow_row_right node brother in
      rows node' ++ rows brother' ≡ rows node ++ rows brother
unfolding borrow_row_right
borrow_row_right-rows node brother some_row =
    push_then node.row_ptr node.n (brother.row_ptr 0) _
    ∙ ap (λ t. rows node ++ t) (tabulate-shift brother.row_ptr brother.n some_row)

-- The rows of the merged leaf are those of the left leaf and then those of the right.
pub merge_rows-rows : (left right : BNode) → rows (merge_rows left right) ≡ rows left ++ rows right
unfolding merge_rows
merge_rows-rows left right = tabulate-copy left.row_ptr right.row_ptr left.n 0 right.n

-- A leaf gives up the row at `at`, one of its rows, and borrows from its left brother, which has a
-- row: the rows of the brother and then of the leaf are the same sequence as before, but for the row
-- that went.
pub borrow_row_left-rows :
    (node brother : BNode) (at : ℕ)
    → at < node.n
    → 0 < brother.n
    → let (node', brother') = borrow_row_left node at brother in
      rows brother' ++ rows node' ≡ rows brother ++ remove_at (rows node) at
unfolding borrow_row_left
borrow_row_left-rows node brother at lt some_row =
    ap (λ t. tabulate brother.row_ptr 0 (brother.n - 1) ++ t)
      (tabulate-replace node.row_ptr at node.n (brother.row_ptr (brother.n - 1)) lt)
    ∙ last_then brother.row_ptr (brother.n - 1) brother.n _ (omega arith)

-- An inner node borrows from its right brother, which has a key: the keys of the node, the key above
-- and the keys of the brother are the same sequence as before, with another key above, and so are the
-- children of the two.
pub borrow_child_right-rows :
    (node brother : BNode) (key : Rid)
    → 0 < brother.n
    → let (node', brother', key') = borrow_child_right node key brother in
      (rows node' ++ key' ∷ rows brother' ≡ rows node ++ key ∷ rows brother)
      × (children node' ++ children brother' ≡ children node ++ children brother)
unfolding borrow_child_right
borrow_child_right-rows node brother key some_row = (
  push_then node.row_ptr node.n key _
      ∙ ap (λ t. rows node ++ key ∷ t) (tabulate-shift brother.row_ptr brother.n some_row),
  push_then node.child (node.n + 1) (brother.child 0) _
      ∙ ap (λ t. children node ++ brother.child 0 ∷ t) (front brother.n some_row)
      ∙ ap (λ t. children node ++ (t ++ brother.child brother.n ∷ []))
          (tabulate-shift brother.child brother.n some_row)
      ∙ ap (λ t. children node ++ t)
          (last_then brother.child brother.n (brother.n + 1) [] refl
            ∙ append-nil (children brother)),
)
  where
    front :
        (n : ℕ)
        → 0 < n
        → tabulate
            (update (move_down brother.child (n - 1) 0) (n - 1) (brother.child n))
            0
            (n - 1 + 1)
          ≡ tabulate (move_down brother.child (n - 1) 0) 0 (n - 1) ++ brother.child n ∷ []
    front n h = tabulate-push (move_down brother.child (n - 1) 0) (n - 1) (brother.child n)

-- An inner node borrows from its left brother, which has a key: the keys of the brother, the key
-- above and the keys of the node are the same sequence as before, with another key above, and so are
-- the children of the two.
pub borrow_child_left-rows :
    (node brother : BNode) (key : Rid)
    → 0 < brother.n
    → let (node', brother', key') = borrow_child_left node key brother in
      (rows brother' ++ key' ∷ rows node' ≡ rows brother ++ key ∷ rows node)
      × (children brother' ++ children node' ≡ children brother ++ children node)
unfolding borrow_child_left
borrow_child_left-rows node brother key some_row = (
  ap (λ t. tabulate brother.row_ptr 0 (brother.n - 1) ++ brother.row_ptr (brother.n - 1) ∷ t)
        (tabulate-unshift node.row_ptr node.n key)
      ∙ last_then brother.row_ptr (brother.n - 1) brother.n _ (omega arith),
  ap (λ t. tabulate brother.child 0 (brother.n - 1 + 1) ++ t)
        (tabulate-unshift_child node.child node.n (brother.child brother.n))
      ∙ ap (λ t. t ++ brother.child brother.n ∷ children node)
          (same_range brother.child 0 0 (brother.n - 1 + 1) brother.n refl (omega arith))
      ∙ last_then brother.child brother.n (brother.n + 1) _ refl,
)

-- Two inner nodes are merged: the keys are those of the left node, the key above and those of the
-- right node, and the children are those of the left node and then those of the right.
pub merge_children-rows :
    (left right : BNode) (key : Rid)
    → (rows (merge_children left key right) ≡ rows left ++ key ∷ rows right)
      × (children (merge_children left key right) ≡ children left ++ children right)
unfolding merge_children
merge_children-rows left right key = (
  tabulate-copy (update left.row_ptr left.n key) right.row_ptr (left.n + 1) 0 right.n
      ∙ push_then left.row_ptr left.n key _,
  (let first = right.child 0 in
      let before = update left.child (left.n + 1) first in
      same_range (copy before (left.n + 2) right.child 1 right.n) 0 0 (left.n + 1 + right.n + 1)
        (left.n + 2 + right.n) refl (omega arith)
      ∙ tabulate-copy before right.child (left.n + 2) 1 right.n
      ∙ ap (λ t. t ++ tabulate right.child 1 right.n)
          (same_range before 0 0 (left.n + 2) (left.n + 1 + 1) refl (omega arith))
      ∙ push_then left.child (left.n + 1) first _
      ∙ ap (λ t. children left ++ t)
          (same_range right.child 0 0 (suc right.n) (right.n + 1) refl (omega arith))),
)
