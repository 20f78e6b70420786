-- ===== src/Tree/Split.antt =====
-- The split of a full node in src/b_tree.c keeps the order of its rows and children.
use my_jql.Prelude.{ℕ, zero, suc, ◌+◌, ◌*◌, ◌≤◌, ◌≡◌, refl, ◌∷◌, ◌++◌, true, false, arith}
use my_jql.Table.{Rid}
use my_jql.Tree.{degree, BNode, NewChildEntry, move_up, copy, split_leaf, split_inner}
use my_jql.Tree.Rows.{rows, children, insert_at}

-- A full leaf is split to take one row more: the rows of the two halves, in order, are the rows of
-- the leaf with the new one at its position. The left half keeps `degree` rows, the right half gets
-- one more, and is a leaf.
pub split_leaf-rows :
    (node right : BNode) (at : ℕ) (rid : Rid)
    → node.n ≡ 2 * degree
    → at ≤ 2 * degree
    → let (left', right') = split_leaf node right at rid in
      (rows left' ++ rows right' ≡ insert_at (rows node) at rid)
      × (left'.n ≡ degree)
      × (right'.n ≡ degree + 1)
      × (right'.leaf ≡ true)
unfolding split_leaf move_up copy
split_leaf-rows node right zero rid full le = rw full (refl, refl, refl, refl)
split_leaf-rows node right (suc zero) rid full le = rw full (refl, refl, refl, refl)
split_leaf-rows node right (suc (suc zero)) rid full le = rw full (refl, refl, refl, refl)
split_leaf-rows node right (suc (suc (suc zero))) rid full le = rw full (refl, refl, refl, refl)
split_leaf-rows node right (suc (suc (suc (suc zero)))) rid full le =
    rw full (refl, refl, refl, refl)
split_leaf-rows node right (suc (suc (suc (suc (suc at))))) rid full le = absurd (omega arith)

-- A full inner node is split to take one key and one child more: the rows of the left half, the key
-- that goes up and the rows of the right half are the rows of the node with the new key at its
-- position, and the children of the halves are those of the node with the new child behind it. Each
-- half has `degree` keys.
pub split_inner-rows :
    (node right : BNode) (at : ℕ) (entry : NewChildEntry)
    → node.n ≡ 2 * degree
    → at ≤ 2 * degree
    → let (left', key, right') = split_inner node right at entry in
      (rows left' ++ key ∷ rows right' ≡ insert_at (rows node) at entry.child_key)
      × (children left' ++ children right' ≡ insert_at (children node) (at + 1) entry.child_ptr)
      × (left'.n ≡ degree)
      × (right'.n ≡ degree)
      × (right'.leaf ≡ false)
unfolding split_inner move_up copy
split_inner-rows node right zero entry full le = rw full (refl, refl, refl, refl, refl)
split_inner-rows node right (suc zero) entry full le = rw full (refl, refl, refl, refl, refl)
split_inner-rows node right (suc (suc zero)) entry full le = rw full (refl, refl, refl, refl, refl)
split_inner-rows node right (suc (suc (suc zero))) entry full le =
    rw full (refl, refl, refl, refl, refl)
split_inner-rows node right (suc (suc (suc (suc zero)))) entry full le =
    rw full (refl, refl, refl, refl, refl)
split_inner-rows node right (suc (suc (suc (suc (suc at))))) entry full le = absurd (omega arith)
