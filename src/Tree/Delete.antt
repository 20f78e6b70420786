-- ===== src/Tree/Delete.antt =====
-- `b_tree_delete` of src/b_tree.c, over the pages of the index, the function that compares the keys
-- of two rows, and the handlers that copy and delete the keys of inner nodes.
use my_jql.Prelude.{
  ℕ, zero, suc, ◌+◌, ◌-◌, ℤ, pos, negsuc, minus_one, ◌=ℤ◌, ◌==◌, ltb, if◌then◌else◌, update,
}
use my_jql.Exec.{Exec, pure, undefined, ◌>>=◌, ◌>>◌}
use my_jql.Pages.{Pages}
use my_jql.Table.{Rid}
use my_jql.Tree.{degree, TreePage, BNode}
use my_jql.Tree.Search.{set_ctrl, set_node, first_greater, first_equal}
use my_jql.Tree.Remove.{
  remove_row, remove_child, borrow_row_right, borrow_row_left, merge_rows, borrow_child_right,
  borrow_child_left, merge_children,
}

-- `for (; i != n + 1; i++) if (child[i] == addr) break;`
unfoldable pub child_index : (ℕ → ℤ) → ℤ → (rounds i : ℕ) → ℕ
child_index child addr zero i = i
child_index child addr (suc k) i =
    let rest = child_index child addr k (i + 1) in if child i =ℤ addr then i else rest

-- The index of the row of a leaf that is to be deleted. Without one, the loop that moves the rows
-- behind it down never ends.
unfoldable pub find_row : {S : Type 0} → (Rid → Rid → Exec S ℤ) → Rid → BNode → Exec S ℕ
find_row cmp rid node = do
  prt_final ← first_equal (cmp rid) node.row_ptr node.n 0
  if prt_final == node.n then undefined else pure prt_final

module _ {S : Type 0} (pool : Pages S TreePage) (cmp : Rid → Rid → Exec S ℤ)
    (insert_handler : Rid → Exec S Rid) (delete_handler : Rid → Exec S (Unit {0})) where
  open pool use {get_page, load, release}

  abbrev set_row : ℤ → ℕ → Rid → Exec S (Unit {0})
  set_row addr i key = do
    page ← load addr
    set_node pool addr (record page.node { row_ptr = update page.node.row_ptr i key })

  -- A node that is held joins the free list and is released.
  unfoldable pub free_node : ℤ → Exec S (Unit {0})
  free_node addr = do
    get_page (pos 0)
    control ← load (pos 0)
    page ← load addr
    set_node pool addr (record page.node { n = 0; next = control.ctrl.free_node_head })
    set_ctrl pool (record control.ctrl { free_node_head = addr })
    release (pos 0)
    release addr

  -- The key at `at` of an inner node is deleted if the children of the node are leaves.
  unfoldable pub drop_key : BNode → ℕ → Exec S (Unit {0})
  drop_key node at = do
    get_page (node.child 0)
    childnode ← load (node.child 0)
    (if childnode.node.leaf then delete_handler (node.row_ptr at) else pure tt)
    release (node.child 0)

  -- A leaf of `degree` rows with the right brother `bro`; `k` is its place in its parent.
  unfoldable pub leaf_right : (addr parent : ℤ) → BNode → (par : BNode) → ℕ → Rid → Exec S ℤ
  leaf_right addr parent node par k rid = do
    let bro = par.child (k + 1)
    get_page bro
    page ← load bro
    let brother = page.node
    if ltb degree brother.n
        then (do
          prt_final ← find_row cmp rid node
          let moved = borrow_row_right (remove_row node prt_final) brother
          set_node pool addr moved.0
          set_node pool bro moved.1
          delete_handler (par.row_ptr k)
          key ← insert_handler (moved.1.row_ptr 0)
          set_row parent k key
          release addr
          release parent
          release bro
          pure minus_one)
        else (do
          release parent
          prt_final ← find_row cmp rid node
          set_node pool addr (merge_rows (remove_row node prt_final) brother)
          release addr
          free_node bro
          pure (pos k))

  -- A leaf of `degree` rows that is the last child of its parent.
  unfoldable pub leaf_left : (addr parent : ℤ) → BNode → (par : BNode) → ℕ → Rid → Exec S ℤ
  leaf_left addr parent node par k rid = do
    let bro = par.child (k - 1)
    get_page bro
    page ← load bro
    let brother = page.node
    if ltb degree brother.n
        then (do
          prt_final ← first_equal (cmp rid) node.row_ptr node.n 0
          let moved = borrow_row_left node prt_final brother
          set_node pool addr moved.0
          set_node pool bro moved.1
          delete_handler (par.row_ptr (k - 1))
          key ← insert_handler (moved.0.row_ptr 0)
          set_row parent (k - 1) key
          release addr
          release parent
          release bro
          pure minus_one)
        else (do
          release parent
          prt_final ← find_row cmp rid node
          let left = remove_row node prt_final
          set_node pool addr left
          set_node pool bro (merge_rows brother left)
          release bro
          free_node addr
          pure (pos (k - 1)))

  unfoldable pub delete_root_leaf : ℤ → BNode → Rid → Exec S ℤ
  delete_root_leaf addr node rid = do
    prt_final ← find_row cmp rid node
    let left = remove_row node prt_final
    set_node pool addr left
    (if left.n == 0
        then (do
          get_page (pos 0)
          control ← load (pos 0)
          set_node pool addr (record left { next = control.ctrl.free_node_head })
          set_ctrl pool (record { root_node = minus_one; free_node_head = addr })
          release (pos 0))
        else pure tt)
    release addr
    pure minus_one

  unfoldable pub delete_leaf : (addr parent : ℤ) → BNode → Rid → Exec S ℤ
  delete_leaf addr parent node rid =
      if parent =ℤ minus_one
      then delete_root_leaf addr node rid
      else if ltb degree node.n
      then (do
        prt_final ← find_row cmp rid node
        set_node pool addr (remove_row node prt_final)
        release addr
        pure minus_one)
      else (do
        get_page parent
        page ← load parent
        let k = child_index page.node.child addr (page.node.n + 1) 0
        if k == page.node.n
            then leaf_left addr parent node page.node k rid
            else leaf_right addr parent node page.node k rid)

  -- The inner counterparts; `at` is the key of the node that its children lost.
  unfoldable pub inner_right : (addr parent : ℤ) → BNode → (par : BNode) → (k at : ℕ) → Exec S ℤ
  inner_right addr parent node par k at = do
    let bro = par.child (k + 1)
    get_page bro
    page ← load bro
    let brother = page.node
    drop_key node at
    if ltb degree brother.n
        then (do
          let moved = borrow_child_right (remove_child node at) (par.row_ptr k) brother
          set_node pool addr moved.0
          set_row parent k moved.2
          set_node pool bro moved.1
          release addr
          release parent
          release bro
          pure minus_one)
        else (do
          release parent
          set_node pool addr (merge_children (remove_child node at) (par.row_ptr k) brother)
          release addr
          free_node bro
          pure (pos k))

  unfoldable pub inner_left : (addr parent : ℤ) → BNode → (par : BNode) → (k at : ℕ) → Exec S ℤ
  inner_left addr parent node par k at = do
    let bro = par.child (k - 1)
    get_page bro
    page ← load bro
    let brother = page.node
    drop_key node at
    if ltb degree brother.n
        then (do
          let moved = borrow_child_left (remove_child node at) (par.row_ptr (k - 1)) brother
          set_node pool addr moved.0
          set_row parent (k - 1) moved.2
          set_node pool bro moved.1
          release addr
          release parent
          release bro
          pure minus_one)
        else (do
          let left = remove_child node at
          set_node pool addr left
          set_node pool bro (merge_children brother (par.row_ptr (k - 1)) left)
          release parent
          release bro
          free_node addr
          pure (pos (k - 1)))

  unfoldable pub delete_root_inner : ℤ → BNode → ℕ → Exec S ℤ
  delete_root_inner addr node at = do
    drop_key node at
    let left = remove_child node at
    set_node pool addr left
    (if left.n == 0
        then (do
          get_page (pos 0)
          control ← load (pos 0)
          set_node pool addr (record left { next = control.ctrl.free_node_head })
          set_ctrl pool (record { root_node = left.child 0; free_node_head = addr })
          release (pos 0))
        else pure tt)
    release addr
    pure minus_one

  unfoldable pub delete_inner : (addr parent : ℤ) → BNode → (at : ℕ) → Exec S ℤ
  delete_inner addr parent node at =
      if parent =ℤ minus_one
      then delete_root_inner addr node at
      else if ltb degree node.n
      then (do
        drop_key node at
        set_node pool addr (remove_child node at)
        release addr
        pure minus_one)
      else (do
        get_page parent
        page ← load parent
        let k = child_index page.node.child addr (page.node.n + 1) 0
        if k == page.node.n
            then inner_left addr parent node page.node k at
            else inner_right addr parent node page.node k at)

  -- What an inner node does with the index that came back from its child.
  unfoldable pub delete_below : (addr parent child_old : ℤ) → Exec S ℤ
  delete_below addr parent (negsuc i) = do get_page addr; release addr; pure minus_one
  delete_below addr parent (pos at) = do
    get_page addr
    page ← load addr
    if ltb at page.node.n then delete_inner addr parent page.node at else undefined

  -- The fuel bounds the height of the tree.
  unfoldable pub delete_entry : (fuel : ℕ) → (addr parent : ℤ) → Rid → Exec S ℤ
  delete_entry zero addr parent rid = undefined
  delete_entry (suc fuel) addr parent rid = do
    get_page addr
    page ← load addr
    let node = page.node
    if node.leaf then delete_leaf addr parent node rid else (do
      prt_child ← first_greater (cmp rid) node.row_ptr node.n 0
      release addr
      child_old ← delete_entry fuel (node.child prt_child) addr rid
      delete_below addr parent child_old)

  -- With an empty tree, page 0 stays held.
  unfoldable pub b_tree_delete : (fuel : ℕ) → Rid → Exec S (Unit {0})
  b_tree_delete fuel rid = do
    get_page (pos 0)
    page ← load (pos 0)
    if page.ctrl.root_node =ℤ minus_one then pure tt else (do
      release (pos 0)
      child_old ← delete_entry fuel page.ctrl.root_node minus_one rid
      pure tt)
