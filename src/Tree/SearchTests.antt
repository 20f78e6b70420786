-- ===== src/Tree/SearchTests.antt =====
-- `b_tree_search` of src/b_tree.c in a tree of an inner node and two leaves.
use my_jql.Prelude.{
  ℕ, zero, suc, ◌+◌, ◌*◌, ◌≤◌, ◌≡◌, refl, ap, ℤ, pos, negsuc, minus_one, true, false, some, List,
  [], arith,
}
use my_jql.Exec.{Exec}
use my_jql.Pages.{Flat, flat_pages}
use my_jql.Pages.Filled.{flat_pages-HasPages, flat-Shows}
use my_jql.Table.{Rid}
use my_jql.Tree.{TreePage, BCtrlBlock}
use my_jql.Tree.Search.{b_tree_search}
use my_jql.Tree.Scan.{three_way}
use my_jql.Tree.Shape.{HasRow, IsTree, InIndex, IsIndex, Separated, Found}
use my_jql.Tree.Find.{b_tree_search-Found}

abbrev row : ℕ → Rid
row k = record { block_addr = pos 0; idx = pos k }

abbrev key : Rid → ℕ
key rid = elim rid.idx [ pos k ↦ k | negsuc k ↦ 0 ]

abbrev top : BCtrlBlock
top = record { root_node = pos 128; free_node_head = minus_one }

-- A leaf with the keys `k` and `k + 1`.
abbrev leaf : ℕ → TreePage
leaf k = record {
  ctrl = top;
  node = record {
    n = 2;
    next = minus_one;
    child = λ _. minus_one;
    row_ptr = λ i. row (k + i);
    leaf = true;
  };
}

abbrev inner : TreePage
inner = record {
  ctrl = top;
  node = record {
    n = 1;
    next = minus_one;
    child = λ i. pos (256 + i * 128);
    row_ptr = λ _. row 5;
    leaf = false;
  };
}

abbrev index : ℕ → TreePage
index zero = inner
index (suc zero) = inner
index (suc (suc zero)) = leaf 2
index (suc (suc (suc m))) = leaf 5

abbrev by_key : List ℕ → ℕ → Rid → Exec (Flat TreePage) ℤ
by_key chars len rid s = some (three_way 6 (key rid), s)

index-IsIndex : IsIndex index key 512 2
index-IsIndex = (omega arith, (refl, omega arith, branches))
  where
    branches :
        (j : ℕ)
        → j ≤ 1
        → IsTree index key 512 1 (inner.node.child j)
          × ((rid : Rid)
              → HasRow index 1 (inner.node.child j) rid
              → Separated index key inner.node j rid)
    branches zero le = (
      (refl, omega arith, tt),
      λ rid (i, lt, e). (λ j before. absurd (omega arith), λ j lo hi. omega (arith, ap key e)),
    )
    branches (suc zero) le = (
      (refl, omega arith, tt),
      λ rid (i, lt, e). (λ j before. omega (arith, ap key e), λ j lo hi. absurd (omega arith)),
    )
    branches (suc (suc j)) le = absurd (omega arith)

abbrev file : Flat TreePage
file = record { page = index; length = 512 }

b_tree_search-Found_example :
    (s' : Flat TreePage) × (rid : Rid) × (b_tree_search (flat_pages inner) by_key [] 0 2 file
      ≡ some (rid, s'))
    × Found (InIndex index 2) key 6 rid
    × (flat_pages-HasPages inner).Shows index 512 [] 0 s'
b_tree_search-Found_example =
    b_tree_search-Found (flat_pages inner) (flat_pages-HasPages inner) index 512 key 6 by_key [] 0
      (λ held budget rid s shows. (s, refl, shows)) 2 2 [] 0 file (omega arith) (omega arith)
      index-IsIndex (flat-Shows inner index 512 [] 9 file (refl, λ m below. refl))
