-- ===== src/HashMap/Items.antt =====
-- The items of a block of src/hash_map.c, and what `hash_table_pop` does to them.
use my_jql.Prelude.{
  tabulate, tabulate-ext, ℕ, zero, suc, ◌+◌, ◌-◌, ◌<◌, ℤ, pos, ◌=ℤ◌, ◌≡◌, ◌≢◌, refl, ap, sym, ◌∙◌,
  ltb, if◌then◌else◌, true, update, List, Option, none, some, arith, Bool-cases, inl, inr, lt_or_ge,
  ◌≤◌, =ℤ_iff,
}
use native.Mathlib.Decide.{ℕ_discrete}
use my_jql.HashMap.{Words, table, n_items}
use my_jql.HashMap.Pop.{shift_items, drop_item, find_item}
use my_jql.Tree.Rows.{remove_at, tabulate-move_down, move_down_lem}
use my_jql.Tree.{move_down}

-- The items of a block that counts `count` of them.
abbrev pub items : Words → ℕ → List ℤ
items block count = tabulate (λ i. block (table i)) 0 count

shift_items_lem :
    (block : Words) (k i w : ℕ)
    → 0 < i
    → shift_items block k i w ≡ (
        if ltb w (table (i - 1))
        then block w
        else (if ltb w (table (i - 1) + k) then block (w + 1) else block w))
unfolding shift_items
shift_items_lem block zero i w some_i = ground arith
shift_items_lem block (suc k) i w some_i = ground (
  arith,
  shift_items_lem (update block (table (i - 1)) (block (table i))) k (i + 1) w (omega arith),
  ap block (cong_pred i some_i),
)
  where
    cong_pred : (i : ℕ) → 0 < i → table i ≡ table (i - 1) + 1
    cong_pred i h = omega arith

-- A block of `count` items, of which the one at `target` goes: `drop_item` keeps the others in order,
-- sets the count to one less, and leaves the link to the next block.
pub items-drop_item :
    (block : Words) (count target : ℕ)
    → target < count
    → (items (drop_item block count target) (count - 1) ≡ remove_at (items block count) target)
      × (drop_item block count target n_items ≡ pos (count - 1))
      × (drop_item block count target 0 ≡ block 0)
unfolding drop_item
items-drop_item block count target lt =
    let a : ℕ → ℤ = λ i. block (table i) in
    let b : ℕ → ℤ = λ i. drop_item block count target (table i) in
    let same : tabulate b 0 (count - 1)
        ≡ tabulate (move_down a (count - 1 - target) target) 0 (count - 1) =
      tabulate-ext b (move_down a (count - 1 - target) target) 0 0 (count - 1) λ j h.
        let e : table (0 + j) + 1 ≡ table (0 + j + 1) = omega arith in
        ground (
          arith,
          shift_items_lem block (count - (target + 1)) (target + 1) (table (0 + j)) (omega arith),
          move_down_lem a (count - 1 - target) target (0 + j),
          ap block e,
        ) in
    (
      same ∙ tabulate-move_down a target count lt,
      ground arith,
      ground (arith, shift_items_lem block (count - (target + 1)) (target + 1) 0 (omega arith)),
    )

-- What the loop over the items finds: nothing new, or the last index that holds the address.
data Search (block : Words) (addr : ℤ) (rounds i : ℕ) (before result : Option ℕ) : Type 0 where
  absent :
      result ≡ before
      → ((m : ℕ) → i ≤ m → m < i + rounds → block (table m) ≢ addr)
      → Search block addr rounds i before result
  found :
      (k : ℕ)
      → result ≡ some k
      → i ≤ k
      → k < i + rounds
      → block (table k) ≡ addr
      → ((m : ℕ) → k < m → m < i + rounds → block (table m) ≢ addr)
      → Search block addr rounds i before result

module _ (block : Words) (addr : ℤ) where
  Search-step :
      (rounds i : ℕ) (before result : Option ℕ)
      → Search block addr rounds (i + 1) (if block (table i) =ℤ addr then some i else before) result
      → Search block addr (suc rounds) i before result
  Search-step rounds i before result (found k e lo hi holds last) =
      found k e (omega arith) (omega arith) holds λ m lo' hi'. last m lo' (omega arith)
  Search-step rounds i before result (absent e none_holds) =
      elim (Bool-cases (block (table i) =ℤ addr)) [
        | inl yes' ↦
            found i (rw yes' at e) (omega arith) (omega arith)
              ((=ℤ_iff (block (table i)) addr).0 yes')
              λ m lo hi. none_holds m (omega arith) (omega arith)
        | inr no' ↦ absent (rw no' at e) λ m lo hi. elim (ℕ_discrete m i) [
          | yes same ↦ λ here.
              let match : (block (table i) =ℤ addr) ≡ true =
                (=ℤ_iff (block (table i)) addr).1 (ap (λ w. block (table w)) (sym same) ∙ here) in
              cc (match, no')
          | no other ↦ none_holds m (omega arith) (omega arith)
        ]
      ]

  find_item-Search :
      (rounds i : ℕ) (before : Option ℕ)
      → Search block addr rounds i before (find_item block addr rounds i before)
  unfolding find_item
  find_item-Search zero i before = absent refl λ m lo hi. absurd (omega arith)
  find_item-Search (suc rounds) i before =
      Search-step rounds i before _ (find_item-Search rounds (i + 1) _)

-- Where an address is the item at some index of a block, the search of `hash_table_pop` in the block
-- finds an index that holds it, no smaller than that one, and `drop_item` at the index found keeps the
-- other items in order.
pub find_item-drop_item :
    (block : Words) (addr : ℤ) (count j : ℕ)
    → j < count
    → block (table j) ≡ addr
    → (k : ℕ) × (find_item block addr count 0 none ≡ some k)
      × (block (table k) ≡ addr)
      × (j ≤ k)
      × (items (drop_item block count k) (count - 1) ≡ remove_at (items block count) k)
find_item-drop_item block addr count j lt holds =
    go (find_item block addr count 0 none) (find_item-Search block addr count 0 none)
  where
    go :
        (result : Option ℕ)
        → Search block addr count 0 none result
        → (k : ℕ) × (result ≡ some k)
          × (block (table k) ≡ addr)
          × (j ≤ k)
          × (items (drop_item block count k) (count - 1) ≡ remove_at (items block count) k)
    go result (absent e none_holds) = absurd (none_holds j (omega arith) (omega arith) holds)
    go result (found k e lo hi here last) = elim (lt_or_ge k j) [
      | inl behind ↦ absurd (last j behind (omega arith) holds)
      | inr ge ↦ (k, e, here, ge, (items-drop_item block count k (omega arith)).0)
    ]
