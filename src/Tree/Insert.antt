-- ===== src/Tree/Insert.antt =====
-- `b_tree_insert` of src/b_tree.c, over the pages of the index, the function that compares the keys
-- of two rows, and the handler that copies a key into an inner node.
use my_jql.Prelude.{
  ℕ, zero, suc, ◌-◌, ◌*◌, ℤ, pos, minus_one, ◌=ℤ◌, true, false, ltb, if◌then◌else◌, update,
}
use my_jql.FileIo.{page_size}
use my_jql.Exec.{Exec, pure, undefined, ◌>>=◌, ◌>>◌}
use my_jql.Pages.{Pages}
use my_jql.Table.{Rid}
use my_jql.Tree.{
  degree, TreePage, BNode, BCtrlBlock, NewChildEntry, result_empty, insert_row, insert_child,
  split_leaf, split_inner,
}
use my_jql.Tree.Search.{set_ctrl, set_node, first_greater}

-- The first step of a new root: its two children and the key between them.
abbrev pub new_root : BNode → (left : ℤ) → Rid → (right : ℤ) → BNode
new_root node left key right = record node {
  leaf = false;
  n = 1;
  next = minus_one;
  child = update (update node.child 0 left) 1 right;
  row_ptr = update node.row_ptr 0 key;
}

module _ {S : Type 0} (pool : Pages S TreePage) (cmp : Rid → Rid → Exec S ℤ)
    (insert_handler : Rid → Exec S Rid) where
  open pool use {get_page, load, release, file_length}

  -- A page for a node, from the free list or at the end of the file. Page 0 is held.
  unfoldable pub new_node : Exec S ℤ
  new_node = do
    page ← load (pos 0)
    let ctrl = page.ctrl
    if ctrl.free_node_head =ℤ minus_one
        then (do length ← file_length; get_page (pos length); pure (pos length))
        else (do
          get_page ctrl.free_node_head
          free ← load ctrl.free_node_head
          set_ctrl pool (record ctrl { free_node_head = free.node.next })
          pure ctrl.free_node_head)

  -- The last steps of the split of a root: both halves are released, the root above them is filled
  -- and released, and the control block leads to it. `left` and `right` are `addr` and its brother.
  unfoldable pub grow_root : (left right root : ℤ) → Rid → Exec S NewChildEntry
  grow_root left right root key = do
    page ← load root
    set_node pool root (new_root page.node left key right)
    release left
    release right
    release root
    get_page (pos 0)
    control ← load (pos 0)
    set_ctrl pool (record control.ctrl { root_node = root })
    release (pos 0)
    pure (record { child_key = key; child_ptr = right })

  -- A leaf that is full and is the root.
  unfoldable pub split_root_leaf : ℤ → BNode → Rid → Exec S NewChildEntry
  split_root_leaf addr node rid = do
    get_page (pos 0)
    leaf_new ← new_node
    root_new ← new_node
    release (pos 0)
    child_pos ← first_greater (cmp rid) node.row_ptr (2 * degree) 0
    page ← load leaf_new
    let halves = split_leaf node page.node child_pos rid
    set_node pool addr halves.0
    set_node pool leaf_new halves.1
    key ← insert_handler (halves.1.row_ptr 0)
    grow_root addr leaf_new root_new key

  -- A leaf that is full and has a parent.
  unfoldable pub split_child_leaf : ℤ → BNode → Rid → Exec S NewChildEntry
  split_child_leaf addr node rid = do
    get_page (pos 0)
    leaf_new ← new_node
    release (pos 0)
    child_pos ← first_greater (cmp rid) node.row_ptr (2 * degree) 0
    page ← load leaf_new
    let halves = split_leaf node page.node child_pos rid
    key ←
        insert_handler
          (if ltb child_pos degree then node.row_ptr (degree - 1) else halves.1.row_ptr 0)
    set_node pool addr halves.0
    set_node pool leaf_new halves.1
    release addr
    release leaf_new
    pure (record { child_key = key; child_ptr = leaf_new })

  unfoldable pub insert_leaf : ℤ → BNode → Rid → (root : ℤ) → Exec S NewChildEntry
  insert_leaf addr node rid root =
      if ltb node.n (2 * degree)
      then (do
        counter ← first_greater (cmp rid) node.row_ptr node.n 0
        set_node pool addr (insert_row node counter rid)
        release addr
        pure result_empty)
      else if addr =ℤ root
      then split_root_leaf addr node rid
      else split_child_leaf addr node rid

  -- An inner node that is full and is the root.
  unfoldable pub split_root_inner : ℤ → BNode → NewChildEntry → Exec S NewChildEntry
  split_root_inner addr node entry = do
    get_page (pos 0)
    notleaf_new ← new_node
    root_new ← new_node
    release (pos 0)
    child_pos ← first_greater (cmp entry.child_key) node.row_ptr (2 * degree) 0
    page ← load notleaf_new
    let halves = split_inner node page.node child_pos entry
    set_node pool addr halves.0
    set_node pool notleaf_new halves.2
    grow_root addr notleaf_new root_new halves.1

  -- An inner node that is full and has a parent.
  unfoldable pub split_child_inner : ℤ → BNode → NewChildEntry → Exec S NewChildEntry
  split_child_inner addr node entry = do
    get_page (pos 0)
    notleaf_new ← new_node
    release (pos 0)
    child_pos ← first_greater (cmp entry.child_key) node.row_ptr (2 * degree) 0
    page ← load notleaf_new
    let halves = split_inner node page.node child_pos entry
    set_node pool addr halves.0
    set_node pool notleaf_new halves.2
    release addr
    release notleaf_new
    pure (record { child_key = halves.1; child_ptr = notleaf_new })

  -- What an inner node does with the entry that came back from its child.
  unfoldable pub insert_inner : ℤ → NewChildEntry → (root : ℤ) → Exec S NewChildEntry
  insert_inner addr entry root = do
    get_page addr
    page ← load addr
    let node = page.node
    if entry.child_ptr =ℤ minus_one
        then (do release addr; pure entry)
        else if ltb node.n (2 * degree)
        then (do
          tmp ← first_greater (cmp entry.child_key) node.row_ptr node.n 0
          set_node pool addr (insert_child node tmp entry)
          release addr
          pure result_empty)
        else if addr =ℤ root
        then split_root_inner addr node entry
        else split_child_inner addr node entry

  -- The fuel bounds the height of the tree.
  unfoldable pub insert_entry : (fuel : ℕ) → ℤ → Rid → (root : ℤ) → Exec S NewChildEntry
  insert_entry zero addr rid root = undefined
  insert_entry (suc fuel) addr rid root = do
    get_page addr
    page ← load addr
    let node = page.node
    if node.leaf then insert_leaf addr node rid root else (do
      prt_child ← first_greater (cmp rid) node.row_ptr node.n 0
      release addr
      entry ← insert_entry fuel (node.child prt_child) rid root
      insert_inner addr entry root)

  -- The root of an empty tree. The address that is stored is `page_size`, also where the page is one
  -- of the free list.
  unfoldable pub create_root : BCtrlBlock → Exec S (Unit {0})
  create_root ctrl = do
    let addr = if ctrl.free_node_head =ℤ minus_one then pos page_size else ctrl.free_node_head
    get_page addr
    page ← load addr
    set_node pool addr (record page.node { n = 0; next = minus_one; leaf = true })
    set_ctrl pool (record {
      root_node = pos page_size;
      free_node_head =
          if ctrl.free_node_head =ℤ minus_one then ctrl.free_node_head else page.node.next;
    })

  unfoldable pub b_tree_insert : (fuel : ℕ) → Rid → Exec S Rid
  b_tree_insert fuel rid = do
    get_page (pos 0)
    page ← load (pos 0)
    if page.ctrl.root_node =ℤ minus_one then create_root page.ctrl else get_page page.ctrl.root_node
    page' ← load (pos 0)
    let root = page'.ctrl.root_node
    release (pos 0)
    release root
    entry ← insert_entry fuel root rid root
    pure rid
