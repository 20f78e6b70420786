-- ===== src/Tree/Rows.antt =====
-- The rows of a node as a list, and what the loops of src/b_tree.c do to it.
use my_jql.Prelude.{
  tabulate, tabulate-ext, same_range, tabulate-append, take-tabulate, drop-tabulate, ℕ, zero, suc,
  ◌+◌, ◌-◌, ◌≤◌, ◌<◌, ◌≡◌, refl, ap, sym, ◌∙◌, List, ℤ, ◌∷◌, ◌++◌, ◌==◌, ltb, if◌then◌else◌, update,
  take, drop, arith,
}
use my_jql.Table.{Rid}
use my_jql.Tree.{BNode, NewChildEntry, move_up, move_down, copy, insert_row, insert_child}
use my_jql.Tree.Remove.{remove_row, remove_child}

abbrev pub rows : BNode → List Rid
rows node = tabulate node.row_ptr 0 node.n

-- A list with `x` put at position `i`, and a list without its element there.
abbrev pub insert_at : {A : Type 0} → List A → ℕ → A → List A
insert_at xs i x = take i xs ++ x ∷ drop i xs

abbrev pub remove_at : {A : Type 0} → List A → ℕ → List A
remove_at xs i = take i xs ++ drop (i + 1) xs

module _ {A : Type 0} where
  -- The loops, index by index.
  pub move_up_lem :
      (a : ℕ → A) (k at i : ℕ)
      → move_up a k at i ≡ (if ltb at i then (if ltb (at + k) i then a i else a (i - 1)) else a i)
  unfolding move_up
  move_up_lem a zero at i = ground arith
  move_up_lem a (suc k) at i =
      ground (arith, move_up_lem (update a (at + suc k) (a (at + k))) k at i)

  pub move_down_lem :
      (a : ℕ → A) (k at i : ℕ)
      → move_down a k at i ≡ (if ltb i at then a i else (if ltb i (at + k) then a (i + 1) else a i))
  unfolding move_down
  move_down_lem a zero at i = ground arith
  move_down_lem a (suc k) at i =
      ground (arith, move_down_lem (update a at (a (at + 1))) k (at + 1) i)

  pub copy_lem :
      (to : ℕ → A) (at : ℕ) (from : ℕ → A) (start k i : ℕ)
      → copy to at from start k i
        ≡ (if ltb i at then to i else (if ltb i (at + k) then from (start + (i - at)) else to i))
  unfolding copy
  copy_lem to at from start zero i = ground arith
  copy_lem to at from start (suc k) i =
      ground (arith, copy_lem (update to at (from start)) (at + 1) from (start + 1) k i)

-- Moving up from position `at` and writing there puts a value into the list; moving down takes one
-- away.
module _ {A : Type 0} (a : ℕ → A) (at n : ℕ) where
  abbrev pub put_up : A → ℕ → A
  put_up x = update (move_up a (n - at) at) at x

  pub put_up_lem :
      (x : A) (i : ℕ)
      → put_up x i ≡ (
          if ltb i at
          then a i
          else (if i == at then x else (if ltb (at + (n - at)) i then a i else a (i - 1))))
  put_up_lem x i = ground (arith, move_up_lem a (n - at) at i)

  pub tabulate-put_up :
      (x : A)
      → at ≤ n
      → tabulate (update (move_up a (n - at) at) at x) 0 (n + 1) ≡ insert_at (tabulate a 0 n) at x
  tabulate-put_up x le =
      let front : tabulate (put_up x) 0 at ≡ take at (tabulate a 0 n) =
        tabulate-ext (put_up x) a 0 0 at (λ j lt. ground (arith, put_up_lem x (0 + j)))
        ∙ sym (take-tabulate a 0 at n le) in
      let here : put_up x (0 + at) ≡ x = ground (arith, put_up_lem x (0 + at)) in
      let back : tabulate (put_up x) (0 + at + 1) (n - at) ≡ drop at (tabulate a 0 n) =
        tabulate-ext (put_up x) a (0 + at + 1) (0 + at) (n - at) (λ j lt.
          put_up_lem x (0 + at + 1 + j)
          ∙ ground arith
          ∙ (let e : 0 + at + 1 + j - 1 ≡ 0 + at + j = omega arith in ap a e))
        ∙ sym (drop-tabulate a 0 at n le) in
      same_range (put_up x) 0 0 (n + 1) (at + suc (n - at)) refl (omega arith)
      ∙ tabulate-append (put_up x) 0 at (suc (n - at))
      ∙ (λ t. front t ++ here t ∷ back t)

  pub tabulate-move_down :
      at < n → tabulate (move_down a (n - 1 - at) at) 0 (n - 1) ≡ remove_at (tabulate a 0 n) at
  tabulate-move_down lt =
      let b = move_down a (n - 1 - at) at in
      let front : tabulate b 0 at ≡ take at (tabulate a 0 n) =
        tabulate-ext b a 0 0 at (λ j h. ground (arith, move_down_lem a (n - 1 - at) at (0 + j)))
        ∙ sym (take-tabulate a 0 at n (omega arith)) in
      let back : tabulate b (0 + at) (n - 1 - at) ≡ drop (at + 1) (tabulate a 0 n) =
        tabulate-ext b a (0 + at) (0 + (at + 1)) (n - 1 - at) (λ j h.
          move_down_lem a (n - 1 - at) at (0 + at + j)
          ∙ ground arith
          ∙ (let e : 0 + at + j + 1 ≡ 0 + (at + 1) + j = omega arith in ap a e))
        ∙ same_range a (0 + (at + 1)) (0 + (at + 1)) (n - 1 - at) (n - (at + 1)) refl (omega arith)
        ∙ sym (drop-tabulate a 0 (at + 1) n (omega arith)) in
      same_range b 0 0 (n - 1) (at + (n - 1 - at)) refl (omega arith)
      ∙ tabulate-append b 0 at (n - 1 - at)
      ∙ (λ t. front t ++ back t)

-- The children of an inner node, one more than its rows.
abbrev pub children : BNode → List ℤ
children node = tabulate node.child 0 (node.n + 1)

-- `insert_row` puts the row at its position among those of the node, and the order of the others stays.
pub rows-insert_row :
    (node : BNode) (at : ℕ) (rid : Rid)
    → at ≤ node.n
    → rows (insert_row node at rid) ≡ insert_at (rows node) at rid
unfolding insert_row
rows-insert_row node at rid le = tabulate-put_up node.row_ptr at node.n rid le

-- `remove_row` takes the row at the position away, and the order of the others stays.
pub rows-remove_row :
    (node : BNode) (at : ℕ) → at < node.n → rows (remove_row node at) ≡ remove_at (rows node) at
unfolding remove_row
rows-remove_row node at lt = tabulate-move_down node.row_ptr at node.n lt

-- At a position of the node or just behind its keys, `insert_child` puts the key at that position
-- among the rows and the new child behind it among the children; the order of the others stays.
pub rows-insert_child :
    (node : BNode) (at : ℕ) (entry : NewChildEntry)
    → at ≤ node.n
    → (rows (insert_child node at entry) ≡ insert_at (rows node) at entry.child_key)
      × (children (insert_child node at entry) ≡ insert_at (children node) (at + 1) entry.child_ptr)
unfolding insert_child
rows-insert_child node at entry le =
    let k : node.n - at ≡ node.n + 1 - (at + 1) = omega arith in
    (
      tabulate-put_up node.row_ptr at node.n entry.child_key le,
      (λ t.
            tabulate (update (move_up node.child (k t) (at + 1)) (at + 1) entry.child_ptr) 0
              (node.n + 1 + 1))
          ∙ tabulate-put_up node.child (at + 1) (node.n + 1) entry.child_ptr (omega arith),
    )

-- At a position of the node, `remove_child` takes the key there and the child behind it away; the
-- order of the others stays.
pub rows-remove_child :
    (node : BNode) (at : ℕ)
    → at < node.n
    → (rows (remove_child node at) ≡ remove_at (rows node) at)
      × (children (remove_child node at) ≡ remove_at (children node) (at + 1))
unfolding remove_child
rows-remove_child node at lt =
    let k : node.n - 1 - at ≡ node.n + 1 - 1 - (at + 1) = omega arith in
    (
      tabulate-move_down node.row_ptr at node.n lt,
      (λ t. tabulate (move_down node.child (k t) (at + 1)) 0 (omega_suc t))
          ∙ tabulate-move_down node.child (at + 1) (node.n + 1) (omega arith),
    )
  where
    omega_suc : node.n - 1 + 1 ≡ node.n + 1 - 1
    omega_suc = omega arith
