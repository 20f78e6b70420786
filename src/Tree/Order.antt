-- ===== src/Tree/Order.antt =====
-- The position that src/b_tree.c finds for a row keeps the rows of a node in order.
use my_jql.Prelude.{ℕ, ◌+◌, ◌-◌, ◌≤◌, ◌<◌, ◌≡◌, ap, inl, inr, ℤ, some, arith, lt_or_ge}
use native.Mathlib.Decide.{ℕ_discrete}
use my_jql.Exec.{Exec}
use my_jql.Table.{Rid}
use my_jql.Tree.{BNode, insert_row}
use my_jql.Tree.Search.{first_greater}
use my_jql.Tree.Rows.{put_up, put_up_lem}
use my_jql.Tree.Scan.{ComparesRows, first_greater_lem}

module _ (key : Rid → ℕ) where
  abbrev pub Sorted : BNode → Type 0
  Sorted node = (i j : ℕ) → i < j → j < node.n → key (node.row_ptr i) ≤ key (node.row_ptr j)

  -- The three regions of the rows around the position `at`.
  data Region (g a : ℕ → Rid) (at : ℕ) (x : Rid) (i : ℕ) : Type 0 where
    before : i < at → g i ≡ a i → Region g a at x i
    here : i ≡ at → g i ≡ x → Region g a at x i
    behind : at < i → g i ≡ a (i - 1) → Region g a at x i

  put_up-Region :
      (a : ℕ → Rid) (at n : ℕ) (x : Rid) (i : ℕ)
      → at ≤ n
      → i ≤ n
      → Region (put_up a at n x) a at x i
  put_up-Region a at n x i le h = elim (lt_or_ge i at) [
    | inl lt ↦ before lt (ground (arith, put_up_lem a at n x i))
    | inr ge ↦ elim (ℕ_discrete i at) [
      | yes e ↦ here e (ground (arith, put_up_lem a at n x i))
      | no ne ↦ behind (omega arith) (ground (arith, put_up_lem a at n x i))
    ]
  ]

  -- A position between the rows that are not greater and the rows that are not smaller.
  module _ (node : BNode) (rid : Rid) (at : ℕ) (sorted : Sorted node) (to : at ≤ node.n)
      (below : (j : ℕ) → j < at → key (node.row_ptr j) ≤ key rid)
      (above : at < node.n → key rid < key (node.row_ptr at)) where
    behind_greater : (j : ℕ) → at < j → j < node.n + 1 → key rid ≤ key (node.row_ptr (j - 1))
    behind_greater j lo hi =
        let first = above (omega arith) in
        elim (ℕ_discrete (j - 1) at) [
          | yes e ↦ omega (arith, first, ap (λ n. key (node.row_ptr n)) e)
          | no ne ↦ omega (arith, first, sorted at (j - 1) (omega arith) (omega arith))
        ]

    put_up-Sorted :
        (i j : ℕ)
        → i < j
        → j < node.n + 1
        → let g = put_up node.row_ptr at node.n rid in
          Region g node.row_ptr at rid i → Region g node.row_ptr at rid j → key (g i) ≤ key (g j)
    put_up-Sorted i j lt hi (before b e) (before b' e') =
        omega (arith, ap key e, ap key e', sorted i j lt (omega arith))
    put_up-Sorted i j lt hi (before b e) (here b' e') =
        omega (arith, ap key e, ap key e', below i b)
    put_up-Sorted i j lt hi (before b e) (behind b' e') =
        omega (arith, ap key e, ap key e', below i b, behind_greater j b' hi)
    put_up-Sorted i j lt hi (here b e) (before b' e') = absurd (omega arith)
    put_up-Sorted i j lt hi (here b e) (here b' e') = absurd (omega arith)
    put_up-Sorted i j lt hi (here b e) (behind b' e') =
        omega (arith, ap key e, ap key e', behind_greater j b' hi)
    put_up-Sorted i j lt hi (behind b e) (before b' e') = absurd (omega arith)
    put_up-Sorted i j lt hi (behind b e) (here b' e') = absurd (omega arith)
    put_up-Sorted i j lt hi (behind b e) (behind b' e') =
        omega (arith, ap key e, ap key e', sorted (i - 1) (j - 1) (omega arith) (omega arith))

-- The comparison of the row `rid` with each row of the leaf succeeds, orders them by a key, and keeps
-- what `Keeps` says of the state, which it may change, as a comparison that reads pages does. If the
-- rows of the leaf are in order, the search of `insert_entry` in it returns a position of the leaf,
-- the leaf with the row put there is in order, and `Keeps` still holds.
pub insert_row-Sorted :
    {S : Type 0} (Keeps : S → Type 0) (key : Rid → ℕ) (cmp : Rid → Rid → Exec S ℤ) (node : BNode)
    (rid : Rid) (s : S)
    → ComparesRows Keeps key (key rid) (cmp rid) node.row_ptr node.n
    → Keeps s
    → Sorted key node
    → (at : ℕ) × (s' : S) × (first_greater (cmp rid) node.row_ptr node.n 0 s ≡ some (at, s'))
      × Keeps s'
      × (at ≤ node.n)
      × Sorted key (insert_row node at rid)
unfolding insert_row
insert_row-Sorted Keeps key cmp node rid s compares keeps sorted =
    let p =
      first_greater_lem Keeps key (key rid) (cmp rid) node.row_ptr node.n compares node.n 0 s
        (omega arith) keeps in
    let to : p.at ≤ node.n = omega (arith, p.to) in
    (
      p.at,
      p.s',
      p.finds,
      p.keeps,
      to,
      λ i j lt hi.
          put_up-Sorted key node rid p.at sorted to (λ j lo. p.below j (omega arith) lo)
            (λ lt. p.above (omega arith)) i j lt hi
            (put_up-Region key node.row_ptr p.at node.n rid i to (omega arith))
            (put_up-Region key node.row_ptr p.at node.n rid j to (omega arith)),
    )
