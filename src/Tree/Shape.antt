-- ===== src/Tree/Shape.antt =====
-- The tree of rows that the pages of an index of src/b_tree.c make, and what a search in it finds.
use my_jql.Prelude.{
  ℕ, zero, suc, ◌*◌, ◌/◌, ◌≤◌, ◌<◌, ◌≡◌, ◌≢◌, ℤ, pos, negsuc, minus_one, ◌=ℤ◌, if◌then◌else◌,
}
use my_jql.FileIo.{page_size}
use my_jql.BufferPool.Valid.{page_addr}
use my_jql.Table.{Rid}
use my_jql.Tree.{TreePage, BNode, failed_rid}

-- The number of the page at an address.
abbrev pub page_of : ℤ → ℕ
page_of (pos a) = a / page_size
page_of (negsuc a) = 0

module _ (content : ℕ → TreePage) where
  abbrev pub node_at : ℤ → BNode
  node_at addr = (content (page_of addr)).node

  -- The row is in a leaf below `addr`, in a tree of at most this height.
  abbrev pub HasRow : (height : ℕ) → ℤ → Rid → Type 0
  HasRow zero addr rid = ⊥
  HasRow (suc height) addr rid =
      let node = node_at addr in
      let below : ℕ → Type 0 = λ j. HasRow height (node.child j) rid in
      if node.leaf
      then ((j : ℕ) × (j < node.n) × (node.row_ptr j ≡ rid))
      else ((j : ℕ) × (j ≤ node.n) × below j)

  -- Of the keys of an inner node, those in front of child `j` are not above the keys of its rows, and
  -- those behind it are.
  abbrev pub Separated : (key : Rid → ℕ) → BNode → (j : ℕ) → Rid → Type 0
  Separated key node j rid =
      ((i : ℕ) → i < j → key (node.row_ptr i) ≤ key rid)
      × ((i : ℕ) → j ≤ i → i < node.n → key rid < key (node.row_ptr i))

  -- The pages below `addr` are pages of the file, and make a tree of at most this height in which the
  -- keys of an inner node separate its children.
  abbrev pub IsTree : (key : Rid → ℕ) (size height : ℕ) → ℤ → Type 0
  IsTree key size zero addr = ⊥
  IsTree key size (suc height) addr =
      let node = node_at addr in
      let child : ℕ → Type 0 = λ j. IsTree key size height (node.child j) in
      (addr ≡ page_addr (page_of addr))
      × (page_of addr * page_size < size)
      × (if node.leaf
          then Unit
          else ((j : ℕ)
              → j ≤ node.n
              → child j
                × ((rid : Rid) → HasRow height (node.child j) rid → Separated key node j rid)))

module _ (content : ℕ → TreePage) where
  abbrev pub root : ℤ
  root = (content 0).ctrl.root_node

  -- The row is in the tree whose root page 0 names, if it names one.
  abbrev pub InIndex : (height : ℕ) → Rid → Type 0
  InIndex height rid = if root =ℤ minus_one then ⊥ else HasRow content height root rid

  abbrev pub IsIndex : (key : Rid → ℕ) (size height : ℕ) → Type 0
  IsIndex key size height =
      (0 < size) × (if root =ℤ minus_one then Unit else IsTree content key size height root)

-- A search has returned a row with the key, or the row of a failed search if there is none.
pub data Found (Has : Rid → Type 0) (key : Rid → ℕ) (target : ℕ) (rid : Rid) : Type 0 where
  hit : Has rid → key rid ≡ target → Found Has key target rid
  missed : rid ≡ failed_rid → ((r : Rid) → Has r → key r ≢ target) → Found Has key target rid
