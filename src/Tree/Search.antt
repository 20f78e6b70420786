-- ===== src/Tree/Search.antt =====
-- `b_tree_init` and `b_tree_search` of src/b_tree.c, over the pages of the index and the function
-- that compares a key with the key of a row.
use my_jql.Prelude.{
  ℕ, zero, suc, ◌+◌, ℤ, pos, minus_one, ◌=ℤ◌, true, false, ◌==◌, ltb, if◌then◌else◌, List,
}
use my_jql.Exec.{Exec, pure, undefined, ◌>>=◌, ◌>>◌}
use my_jql.Pages.{Pages, modify}
use my_jql.Table.{Rid}
use my_jql.Tree.{TreePage, BNode, BCtrlBlock, is_negative, is_zero, failed_rid}

module _ {S : Type 0} (pool : Pages S TreePage) where
  open pool use {get_page, load, release, file_length}

  abbrev pub set_ctrl : BCtrlBlock → Exec S (Unit {0})
  set_ctrl ctrl = modify pool (pos 0) (λ page. record page { ctrl = ctrl })

  abbrev pub set_node : ℤ → BNode → Exec S (Unit {0})
  set_node addr node = modify pool addr (λ page. record page { node = node })

  -- `b_tree_init` behind `init_buffer_pool`.
  unfoldable pub b_tree_init : Exec S (Unit {0})
  b_tree_init = do
    length ← file_length
    if length == 0
        then (do
          get_page (pos 0)
          set_ctrl (record { root_node = minus_one; free_node_head = minus_one })
          release (pos 0))
        else pure tt

-- The loops that stop at the first row which `compare` says a negative number for, or 0.
module _ {S : Type 0} (compare : Rid → Exec S ℤ) (row_ptr : ℕ → Rid) where
  unfoldable pub first_greater : (rounds i : ℕ) → Exec S ℕ
  first_greater zero i = pure i
  first_greater (suc k) i = do
    c ← compare (row_ptr i)
    elim (is_negative c) [ true ↦ pure i | false ↦ first_greater k (i + 1) ]

  unfoldable pub first_equal : (rounds i : ℕ) → Exec S ℕ
  first_equal zero i = pure i
  first_equal (suc k) i = do
    c ← compare (row_ptr i)
    elim (is_zero c) [ true ↦ pure i | false ↦ first_equal k (i + 1) ]

module _ {S : Type 0} (pool : Pages S TreePage) (cmp : List ℕ → ℕ → Rid → Exec S ℤ) (key : List ℕ)
    (size : ℕ) where
  open pool use {get_page, load, release}

  -- The fuel bounds the height of the tree.
  unfoldable pub search_entry : (fuel : ℕ) → ℤ → Exec S Rid
  search_entry zero addr = undefined
  search_entry (suc fuel) addr = do
    get_page addr
    page ← load addr
    let node = page.node
    if node.leaf
        then (do
          counter ← first_equal (cmp key size) node.row_ptr node.n 0
          release addr
          pure (if ltb counter node.n then node.row_ptr counter else failed_rid))
        else (do
          prt_child ← first_greater (cmp key size) node.row_ptr node.n 0
          release addr
          search_entry fuel (node.child prt_child))

  unfoldable pub b_tree_search : (fuel : ℕ) → Exec S Rid
  b_tree_search fuel = do
    get_page (pos 0)
    page ← load (pos 0)
    release (pos 0)
    if page.ctrl.root_node =ℤ minus_one
        then pure failed_rid
        else search_entry fuel page.ctrl.root_node
